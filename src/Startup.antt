-- ===== src/Startup.antt =====
-- The files of the configuration at the start and at a reset: src/init_system.c 40-104 and 186-214.
-- The files are numbered as in Message. `read_cfg_file` and `default_setting` are outside the
-- repository: their calls are recorded, and the results of the readings are a sequence.
pub mod Reset
mod Tests
use avserver.Base.{
  ℕ, zero, suc, ◌+◌, ltb, Bool, true, false, if◌then◌else◌, Option, none, some, List, [], ◌∷◌, ◌++◌,
}
use avserver.Message.Vars.{File}

pub data FileCall : Type 0 where
  default_setting read_cfg_file : File → FileCall

-- The calls, and how many of them were readings.
pub record Files : Type 0 where
  pub calls : List FileCall
  pub reads : ℕ

unfoldable pub call_default : File → Files → Files
call_default f s = record s { calls = s.calls ++ FileCall.default_setting f ∷ [] }

unfoldable pub call_read : File → Files → Files
call_read f s = record { calls = s.calls ++ FileCall.read_cfg_file f ∷ []; reads = suc s.reads }

abbrev pub init_table : List File
init_table =
    File.enc_fw ∷ File.image_attr ∷ File.overlay ∷ File.infrared ∷ File.net ∷ File.port ∷ File.upnp
    ∷ File.wf ∷ File.ddns ∷ File.ptzcom ∷ File.md ∷ File.user ∷ File.snaptimer ∷ File.ftp
    ∷ File.smtp ∷ File.vidmask ∷ File.sys ∷ File.ptz_preset ∷ File.sys_timer ∷ File.cloud ∷ File.rec
    ∷ []

abbrev pub reset_table : List File
reset_table = File.enc_0 ∷ File.enc_1 ∷ File.overlay ∷ File.ptz_preset ∷ File.cloud ∷ []

-- The first loop of `init_system`; `none` is its `exit`. `ok n` says whether reading `n` works.
unfoldable pub read_files : (ℕ → Bool) → List File → Files → Option Files
unfolding call_read
read_files ok [] s = some s
read_files ok (f ∷ fs) s =
    let rest = read_files ok fs (call_read f s) in if ok s.reads then rest else none

-- An entry of the table of presets, less its name.
pub record PresetEntry : Type 0 where
  pub index : ℕ
  pub is_set : Bool

-- The second loop, over the first `n` entries.
unfoldable pub set_presets : ℕ → (ℕ → PresetEntry) → ℕ → PresetEntry
set_presets n ps i = if ltb i n then record { index = i + 1; is_set = true } else ps i

unfoldable pub init_files :
    (ℕ → Bool) → (ℕ → PresetEntry) → Files → Option (Files × (ℕ → PresetEntry))
unfolding read_files set_presets
init_files ok ps s = elim (read_files ok init_table s) [
  | none ↦ none
  | some t ↦ some (t, set_presets 55 ps)
]

-- The loop of `do_reset`, at most `fuel` times round. A file whose reading fails is tried again.
unfoldable pub reset_loop : (ℕ → Bool) → ℕ → List File → Files → Option Files
unfolding call_read call_default
reset_loop ok fuel [] s = some s
reset_loop ok zero (f ∷ fs) s = none
reset_loop ok (suc n) (f ∷ fs) s =
    let t : Files = call_read f (call_default f s) in
    let next = reset_loop ok n fs t in
    let again = reset_loop ok n (f ∷ fs) t in if ok s.reads then next else again

unfoldable pub do_reset : (ℕ → Bool) → ℕ → Files → Option Files
unfolding reset_loop
do_reset ok fuel s = reset_loop ok fuel reset_table s
