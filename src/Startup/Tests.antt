-- ===== src/Startup/Tests.antt =====
-- The files of the configuration at concrete readings.
use avserver.Base.{ℕ, ◌≡◌, refl, ltb, leb, ◌==◌, not, true, false, none, []}
use avserver.Startup.{Files, PresetEntry, init_files, do_reset}
use avserver.Startup.Reset.{ends, successes, do_reset-ends}

abbrev start : Files
start = record { calls = []; reads = 0 }

abbrev no_presets : ℕ → PresetEntry
no_presets _ = record { index = 0; is_set = false }

-- The second reading fails, once.
do_reset-ends_example :
    ends (do_reset (λ n. not (n == 1)) 6 start) ≡ leb 5 (successes (λ n. not (n == 1)) 0 6)
do_reset-ends_example = do_reset-ends (λ n. not (n == 1)) 6 start

six_rounds : ends (do_reset (λ n. not (n == 1)) 6 start) ≡ true
unfolding do_reset
six_rounds = refl

never : ends (do_reset (λ n. not (leb 4 n)) 100 start) ≡ false
unfolding do_reset
never = refl

-- A file that cannot be read ends the program.
no_file : init_files (λ n. ltb n 20) no_presets start ≡ none
unfolding init_files
no_file = refl
