-- ===== src/Message/Preset.antt =====
-- The presets of the pan-tilt head: src/processMsg.c 526-680 and 3433-3492. Names are lists of
-- character codes; a preset has a number from 1. A write or a read outside the table is a fault, `none`.
pub mod Set
pub mod Goto
use avserver.Base.{
  ℕ, zero, suc, ◌+◌, ◌-◌, ◌*◌, ◌%◌, ◌==◌, ltb, leb, ℤ, pos, minus_one, Bool, true, false, ◌&&◌,
  ◌||◌, not, if◌then◌else◌, Option, none, some, List, [], ◌∷◌, ◌++◌, length, take,
}

pub record Preset : Type 0 where
  pub is_set : Bool
  pub name : List ℕ

-- PTZ_PRESET_ALLNUM, the room for a name, and what `sprintf` prints for "%02d".
pub record PresetConsts : Type 0 where
  pub all_num : ℕ
  pub room : ℕ
  pub print : ℕ → List ℕ

pub data PresetCommand : Type 0 where
  set_preset cle_preset goto_preset : PresetCommand

pub data PtzError : Type 0 where
  result_ok index_out_range index_not_exist index_over presetname_empty : PtzError

-- What is answered: a number with an error, or a number with a name.
pub data Reply : Type 0 where
  result : ℕ → PtzError → Reply
  over : Reply
  named : ℕ → List ℕ → PtzError → Reply
  found : ℕ → List ℕ → Reply

pub record Presets : Type 0 where
  pub table : List Preset
  -- Whether the file of the presets is marked.
  pub marked : Bool
  pub sent : List (PresetCommand × ℕ)
  pub reply : List Reply

unfoldable pub is_digit : ℕ → Bool
is_digit c = leb 48 c && leb c 57

unfoldable pub is_nil : List ℕ → Bool
is_nil [] = true
is_nil (_ ∷ _) = false

-- A name without the digits at its end, and these digits.
unfoldable pub get_prenamestring : List ℕ → List ℕ
unfolding is_nil is_digit
get_prenamestring [] = []
get_prenamestring (c ∷ cs) =
    let rest : List ℕ = get_prenamestring cs in if is_nil rest && is_digit c then [] else c ∷ rest

unfoldable pub digits : List ℕ → List ℕ
unfolding get_prenamestring
digits [] = []
digits (c ∷ cs) =
    let rest : List ℕ = digits cs in
    if is_nil (get_prenamestring cs) && is_digit c then c ∷ cs else rest

-- `atoi` of digits.
unfoldable pub value : ℕ → List ℕ → ℕ
value acc [] = acc
value acc (c ∷ cs) = value (acc * 10 + (c - 48)) cs

unfoldable pub get_preset_index : List ℕ → ℕ
unfolding value digits
get_preset_index name = value 0 (digits name)

-- Reading and writing a place of the table.
unfoldable pub get_at : List Preset → ℕ → Option Preset
get_at [] i = none
get_at (p ∷ ps) zero = some p
get_at (p ∷ ps) (suc i) = get_at ps i

unfoldable pub set_at : List Preset → ℕ → Preset → Option (List Preset)
set_at [] i q = none
set_at (p ∷ ps) zero q = some (q ∷ ps)
set_at (p ∷ ps) (suc i) q = elim (set_at ps i q) [ none ↦ none | some qs ↦ some (p ∷ qs) ]

-- The preset of a number, which is one more than its place.
unfoldable pub get_preset : List Preset → ℕ → Option Preset
unfolding get_at
get_preset ps zero = none
get_preset ps (suc i) = get_at ps i

unfoldable pub put_preset : List Preset → ℕ → Preset → Option (List Preset)
unfolding set_at
put_preset ps zero q = none
put_preset ps (suc i) q = set_at ps i q

abbrev pub spe_preset_index : List ℕ
spe_preset_index = 95 ∷ 101 ∷ 102 ∷ 103 ∷ 125 ∷ 126 ∷ 127 ∷ 128 ∷ []

module _ (c : PresetConsts) where
  -- `sprintf` of a name into its place, with the zero behind it.
  unfoldable pub name_preset : ℕ → List ℕ → List Preset → Option (List Preset)
  unfolding put_preset
  name_preset k n ps =
      if ltb (length n) c.room then put_preset ps k (record { is_set = true; name = n }) else none

  -- The special presets that are not set get a name of their own.
  unfoldable pub fill_one : ℕ → List ℕ → List Preset → Option Preset → Option (List Preset)
  unfolding name_preset
  fill_one k p ps none = none
  fill_one k p ps (some q) = if q.is_set then some ps else name_preset k (p ++ c.print k) ps

  unfoldable pub fill_special : List ℕ → List ℕ → List Preset → Option (List Preset)
  unfolding fill_one get_preset
  fill_special [] p ps = some ps
  fill_special (k ∷ ks) p ps = elim (fill_one k p ps (get_preset ps k)) [
    | none ↦ none
    | some qs ↦ fill_special ks p qs
  ]

  -- The preset is stored, and the special ones with it.
  unfoldable pub store_preset : ℕ → List ℕ → List Preset → Option (List Preset)
  unfolding put_preset fill_special get_prenamestring
  store_preset k name ps =
      elim (put_preset ps k (record { is_set = true; name = take c.room name })) [
        | none ↦ none
        | some qs ↦ fill_special spe_preset_index (get_prenamestring name) qs
      ]

  -- The table after the store, the answer, the command and the mark.
  unfoldable pub set_preset_at : ℕ → List ℕ → Presets → Option (ℤ × Presets)
  unfolding store_preset
  set_preset_at k name t = elim (store_preset k name t.table) [
    | none ↦ none
    | some ps ↦ some (
      pos 0,
      record {
        table = ps;
        marked = true;
        sent = t.sent ++ (PresetCommand.set_preset, k) ∷ [];
        reply = t.reply ++ Reply.named k name PtzError.result_ok ∷ [];
      },
    )
  ]

  unfoldable pub replied : ℤ → Reply → Presets → Option (ℤ × Presets)
  replied ret r t = some (ret, record t { reply = t.reply ++ r ∷ [] })

  unfoldable pub show_preset : ℕ → Presets → Option (ℤ × Presets)
  unfolding replied get_preset
  show_preset index t = elim (get_preset t.table index) [
    | none ↦ none
    | some q ↦
        if q.is_set
        then replied (pos 0) (Reply.found index q.name) t
        else replied (pos 0) (Reply.result index PtzError.index_not_exist) t
  ]

  -- With the index not negative. The number 0 stands for the number at the end of the name.
  unfoldable pub deal_ptz_preset : Bool → ℕ → List ℕ → Presets → Option (ℤ × Presets)
  unfolding replied set_preset_at show_preset get_preset_index is_nil
  deal_ptz_preset setting index name t =
      if ltb c.all_num index
      then replied minus_one (Reply.result index PtzError.index_out_range) t
      else if setting
      then (if is_nil name
          then replied minus_one (Reply.named index name PtzError.presetname_empty) t
          else if index == 0
          then (if get_preset_index name == suc c.all_num
              then replied (pos 0) Reply.over t
              else set_preset_at (get_preset_index name) name t)
          else set_preset_at index name t)
      else if index == 0
      then replied minus_one (Reply.result index PtzError.index_out_range) t
      else show_preset index t

  unfoldable pub clear_all : List Preset → List Preset
  clear_all [] = []
  clear_all (p ∷ ps) = record { is_set = false; name = [] } ∷ clear_all ps

  -- Going to a preset that is set; number 95 clears them all.
  unfoldable pub go : ℕ → Presets → Presets
  unfolding clear_all
  go k t = record {
    table = if k == 95 then clear_all t.table else t.table;
    marked = if k == 95 then true else t.marked;
    sent = t.sent ++ (PresetCommand.goto_preset, k) ∷ [];
    reply = t.reply ++ Reply.result k PtzError.result_ok ∷ [];
  }

  -- `e_ptz_goto_preset` under T_Set; the number is kept in an unsigned char.
  unfoldable pub goto_ptz_preset : ℕ → Presets → Option Presets
  unfolding go get_preset
  goto_ptz_preset n t =
      let k : ℕ = n % 256 in
      if ltb 0 k && ltb k (suc c.all_num)
      then (elim (get_preset t.table k) [
        | none ↦ none
        | some q ↦ some (
            if q.is_set
            then go k t
            else record t { reply = t.reply ++ Reply.result k PtzError.index_not_exist ∷ [] })
      ])
      else some (record t { reply = t.reply ++ Reply.result k PtzError.index_out_range ∷ [] })

  -- `e_ptz_deletepreset` under T_Set.
  unfoldable pub delete_preset : ℕ → Presets → Option Presets
  unfolding get_preset put_preset
  delete_preset n t =
      let k : ℕ = n % 256 in
      if (k == 0) || ltb c.all_num k then some t else (elim (get_preset t.table k) [
        | none ↦ none
        | some q ↦
            if not q.is_set
            then some t
            else (elim (put_preset t.table k (record { is_set = false; name = [] })) [
              | none ↦ none
              | some ps ↦ some (record t {
                table = ps;
                marked = true;
                sent = t.sent ++ (PresetCommand.cle_preset, k) ∷ [];
              })
            ])
      ])
