-- ===== src/Clock/Tests.antt =====
-- Readings of the clock and a buffer: examples of the theorems.
use avserver.Base.{ℕ, ◌≡◌, arith, some, List, [], ◌∷◌}
use avserver.Clock.{Timeval, RtpClock, get_tick, AudioClock}
use avserver.Clock.Ticks.{ticks, ideal, get_tick-drift_free}

abbrev at_7 : Timeval
at_7 = record { sec = 7; usec = 900000 }

abbrev at_8 : Timeval
at_8 = record { sec = 8; usec = 100000 }

abbrev at_10 : Timeval
at_10 = record { sec = 10; usec = 100000 }

abbrev rtp_clock : RtpClock
rtp_clock = record { sys_sec = 0; sys_tick = 0 }

abbrev audio_clock : AudioClock
audio_clock = record { last = some at_7; sys_tick = 1600 }

get_tick-drift_free_example :
    (get_tick at_10 (ticks (at_7 ∷ at_8 ∷ []) rtp_clock)).0 ≡ ideal rtp_clock at_10
get_tick-drift_free_example =
    get_tick-drift_free (at_7 ∷ at_8 ∷ []) rtp_clock at_10 (omega arith)
      (omega arith, (omega arith, tt)) (omega arith)

-- An end-of-sequence byte stands before the start code of a key frame: the type is not found.
abbrev late : List ℕ
late = 9 ∷ 0 ∷ 0 ∷ 0 ∷ 1 ∷ 101 ∷ 0 ∷ []
