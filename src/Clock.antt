-- ===== src/Clock.antt =====
-- Times of src/rtspd.c: ticks of the RTP clocks (166-200, 1199-1232), differences of ticks
-- (736-744), the wait of `do_poll_event` (3195-3220), and the type of a NAL unit (2681-2701).
-- `unsigned int` and `time_t` have 32 bits.
pub mod Ticks
pub mod Nal
mod Tests
use avserver.Base.{
  ℕ, zero, suc, ◌+◌, ◌-◌, ◌*◌, ◌/◌, ◌%◌, ◌^◌, Bool, true, false, ◌&&◌, ◌||◌, Option, none, some,
  ltb, leb, ◌==◌, if◌then◌else◌, List, [], ◌∷◌, length, get_or,
}

-- A reading of the clock.
pub record Timeval : Type 0 where
  pub sec : ℕ
  pub usec : ℕ

pub timediff : ℕ → ℕ → ℕ
timediff ptime ctime = if leb ptime ctime then ctime - ptime else 4294967295 - ptime + ctime

-- `sys_sec` and `sys_tick`.
pub record RtpClock : Type 0 where
  pub sys_sec : ℕ
  pub sys_tick : ℕ

-- The tick, and the new clock. A difference of seconds that is negative wraps, and so does its
-- product.
pub get_tick : Timeval → RtpClock → ℕ × RtpClock
get_tick tv c =
    let sys_tick : ℕ = (c.sys_tick + (tv.sec + 2 ^ 32 - c.sys_sec) * 90000) % 2 ^ 32 in
    ((tv.usec * 90 / 1000 + sys_tick) % 2 ^ 32, record { sys_sec = tv.sec; sys_tick = sys_tick })

-- `audio_sys_sec_a`, which is `none` while its seconds are -1, and `audio_sys_tick`.
pub record AudioClock : Type 0 where
  pub last : Option Timeval
  pub sys_tick : ℕ

last_or : Option Timeval → Timeval → Timeval
last_or none tv = tv
last_or (some l) tv = l

-- The microseconds that the sums count. The second case is for readings of one second, in order:
-- where the clock went back, C divides a negative number there and this is 0.
counted : Timeval → Timeval → ℕ
counted l tv = if ltb l.sec tv.sec then tv.usec + (1000000 - l.usec) else tv.usec - l.usec

pub audio_get_tick : Timeval → AudioClock → ℕ × AudioClock
unfolding last_or counted
audio_get_tick tv c =
    let tick : ℕ = (c.sys_tick + counted (last_or c.last tv) tv * 8 / 1000) % 2 ^ 32 in
    (tick, record { last = some tv; sys_tick = tick })

-- POLL_WAIT_TIME
abbrev pub poll_wait_time : ℕ
poll_wait_time = 19500

-- The microseconds that `do_poll_event` sleeps, from those of the last reading (none at the first
-- call) and of this one.
pub poll_wait : Option ℕ → ℕ → ℕ
poll_wait none cur = poll_wait_time
poll_wait (some prev) cur =
    let diff : ℕ = if ltb cur prev then cur + 1000000 - prev else cur - prev in
    if ltb poll_wait_time diff then 0 else poll_wait_time - diff

-- The four bytes of a start code at place `i`.
pub start_code : List ℕ → ℕ → Bool
start_code bs i =
    get_or bs i 0 == 0
    && get_or bs (i + 1) 0 == 0
    && get_or bs (i + 2) 0 == 0
    && get_or bs (i + 3) 0 == 1

-- The loop with `n` rounds left, at place `i`. `pps` is H264NT_PPS.
nal_loop : ℕ → ℕ → ℕ → List ℕ → ℕ
unfolding start_code
nal_loop pps zero i bs = 0
nal_loop pps (suc n) i bs =
    let t : ℕ = get_or bs 4 0 % 32 in
    let rest : ℕ = nal_loop pps n (i + 1) bs in if start_code bs i && leb t pps then t else rest

-- `nal` is H264NT_NAL; the bytes are those of the buffer, whose length is `nBSLen`.
pub h264_get_nal_type : ℕ → ℕ → List ℕ → ℕ
unfolding nal_loop
h264_get_nal_type nal pps bs = if ltb (length bs) 5 then nal else nal_loop pps (length bs - 4) 0 bs
