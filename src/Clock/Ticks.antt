-- ===== src/Clock/Ticks.antt =====
-- Ticks against the time that they stand for.
use avserver.Base.{
  ℕ, suc, ◌∙◌, ◌+◌, ◌-◌, ◌*◌, ◌/◌, ◌%◌, ◌^◌, ◌<◌, ◌≤◌, ◌≡◌, arith, some, ltb, if◌then◌else◌, List,
  [], ◌∷◌,
}
use avserver.Clock.{
  Timeval, timediff, RtpClock, get_tick, AudioClock, last_or, counted, audio_get_tick, poll_wait,
  poll_wait_time,
}

-- For two 32-bit ticks, timediff is their difference modulo 2^32 where the second is not
-- smaller, and one less than it where the counter has wrapped.
pub timediff_lem :
    (p c : ℕ)
    → p < 2 ^ 32
    → c < 2 ^ 32
    → (if ltb c p then suc (timediff p c) else timediff p c) ≡ (c + 2 ^ 32 - p) % 2 ^ 32
unfolding timediff
timediff_lem p c h k = ground arith

-- Any number of calls.
pub ticks : List Timeval → RtpClock → RtpClock
unfolding get_tick
ticks [] c = c
ticks (tv ∷ tvs) c = ticks tvs (get_tick tv c).1

-- The ticks of a reading, counted from the second and tick of a clock.
abbrev pub ideal : RtpClock → Timeval → ℕ
ideal c tv = (c.sys_tick + (tv.sec + 2 ^ 32 - c.sys_sec) * 90000 + tv.usec * 90 / 1000) % 2 ^ 32

-- Moving a clock on by a call does not move its origin.
pub ideal-get_tick :
    (c : RtpClock) (now tv : Timeval)
    → c.sys_sec < 2 ^ 32
    → now.sec < 2 ^ 32
    → tv.sec < 2 ^ 32
    → ideal (get_tick now c).1 tv ≡ ideal c tv
unfolding get_tick
ideal-get_tick c now tv a b d = omega arith

-- All readings lie before the wrap of `time_t`.
abbrev pub AreEarly : List Timeval → Type 0
AreEarly [] = Unit {0}
AreEarly (tv ∷ tvs) = (tv.sec < 2 ^ 32) × AreEarly tvs

-- After any earlier calls, forward or back in time, with all seconds below 2^32, get_tick gives
-- the tick of the clock's origin plus 90000 for each second since it and 90 for each thousand
-- microseconds, modulo 2^32: the calls in between do not shift it.
pub get_tick-drift_free :
    (tvs : List Timeval) (c : RtpClock) (tv : Timeval)
    → c.sys_sec < 2 ^ 32
    → AreEarly tvs
    → tv.sec < 2 ^ 32
    → (get_tick tv (ticks tvs c)).0 ≡ ideal c tv
unfolding ticks get_tick
get_tick-drift_free [] c tv a e d = omega arith
get_tick-drift_free (now ∷ tvs) c tv a (b, e) d =
    get_tick-drift_free tvs (get_tick now c).1 tv b e d ∙ ideal-get_tick c now tv a b d

-- From one audio reading to the next one, in order, with microseconds below a million, within
-- the same second or the one after, the tick goes on by 8 for each thousand microseconds between
-- them, rounded down, modulo 2^32.
pub audio_get_tick-step :
    (c : AudioClock) (l tv : Timeval)
    → c.last ≡ some l
    → l.usec < 1000000
    → tv.usec < 1000000
    → l.sec ≤ tv.sec
    → tv.sec ≤ l.sec + 1
    → l.sec * 1000000 + l.usec ≤ tv.sec * 1000000 + tv.usec
    → (audio_get_tick tv c).0
      ≡ (c.sys_tick + (tv.sec * 1000000 + tv.usec - (l.sec * 1000000 + l.usec)) * 8 / 1000) % 2 ^ 32
unfolding audio_get_tick counted last_or
audio_get_tick-step c l tv e a b d f g = rw e (ground arith)

-- If the second of an audio reading is later than that of the last one, the tick is that of the
-- same microseconds in the second after the last one: further seconds of a pause are lost.
pub audio_get_tick-pause :
    (c : AudioClock) (l tv : Timeval)
    → c.last ≡ some l
    → l.sec < tv.sec
    → (audio_get_tick tv c).0 ≡ (audio_get_tick (record tv { sec = l.sec + 1 }) c).0
unfolding audio_get_tick counted last_or
audio_get_tick-pause c l tv e a = rw e (ground arith)

-- With microseconds below a million, the wait is at most 19500, and together with the time since
-- the last reading, modulo a second, it is 19500 where that time is less and that time
-- otherwise.
pub poll_wait_lem :
    (prev cur : ℕ)
    → prev < 1000000
    → cur < 1000000
    → let diff = (cur + 1000000 - prev) % 1000000 in
      (poll_wait (some prev) cur ≤ poll_wait_time)
      × (poll_wait (some prev) cur + diff
          ≡ (if ltb diff poll_wait_time then poll_wait_time else diff))
unfolding poll_wait
poll_wait_lem prev cur h k = ground arith
