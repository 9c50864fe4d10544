-- ===== src/Message/Preset/Goto.antt =====
-- A preset that was set can be gone to: src/processMsg.c 565-660 and 3434-3463.
use avserver.Base.{
  ℕ, zero, suc, ◌%◌, ◌≤◌, ◌<◌, ◌≡◌, ◌≢◌, ◌==◌, refl, ap, ◌∙◌, arith, ltb, pos, Bool, true, false,
  ◌&&◌, Bool-cases, inl, inr, Option, none, some, List, [], ◌∷◌, ◌++◌, take, length,
}
use avserver.Message.Preset.{
  Preset, PresetConsts, PresetCommand, PtzError, Reply, Presets, get_prenamestring, is_nil, get_at,
  set_at, get_preset, put_preset, spe_preset_index, name_preset, fill_one, fill_special,
  store_preset, set_preset_at, deal_ptz_preset, clear_all, go, goto_ptz_preset,
}
use avserver.Message.Preset.Set.{is_set_at, put-is_set, fill_special-is_set}

-- Numbers that are within a table of 128 presets.
unfoldable all_within : List ℕ → Bool
all_within [] = true
all_within (k ∷ ks) = ltb 0 k && ltb k 129 && all_within ks

set_at-some :
    (ps : List Preset) (i : ℕ) (q : Preset)
    → i < length ps
    → (qs : List Preset) × (set_at ps i q ≡ some qs) × (length qs ≡ length ps)
unfolding set_at
set_at-some [] i q h = absurd (omega arith)
set_at-some (p ∷ ps) zero q h = (q ∷ ps, refl, refl)
set_at-some (p ∷ ps) (suc i) q h =
    let (qs, e, d) = set_at-some ps i q (omega (arith, h)) in (p ∷ qs, rw e refl, ap suc d)

get_at-some : (ps : List Preset) (i : ℕ) → i < length ps → (q : Preset) × (get_at ps i ≡ some q)
unfolding get_at
get_at-some [] i h = absurd (omega arith)
get_at-some (p ∷ ps) zero h = (p, refl)
get_at-some (p ∷ ps) (suc i) h = get_at-some ps i (omega (arith, h))

put_preset-some :
    (ps : List Preset) (k : ℕ) (q : Preset)
    → 0 < k
    → k ≤ length ps
    → (qs : List Preset) × (put_preset ps k q ≡ some qs) × (length qs ≡ length ps)
unfolding put_preset
put_preset-some ps zero q h l = absurd (omega arith)
put_preset-some ps (suc i) q h l = set_at-some ps i q (omega (arith, l))

get_preset-some :
    (ps : List Preset) (k : ℕ) → 0 < k → k ≤ length ps → (q : Preset) × (get_preset ps k ≡ some q)
unfolding get_preset
get_preset-some ps zero h l = absurd (omega arith)
get_preset-some ps (suc i) h l = get_at-some ps i (omega (arith, l))

all_within-head :
    (k : ℕ) (ks : List ℕ)
    → all_within (k ∷ ks) ≡ true
    → (0 < k) × (k < 129) × (all_within ks ≡ true)
unfolding all_within
all_within-head k ks w = (ground (arith, w), ground (arith, w), ground (arith, w))

found_set :
    (o : Option Preset)
    → elim o [ none ↦ false | some q ↦ q.is_set ] ≡ true
    → (q : Preset) × (o ≡ some q) × (q.is_set ≡ true)
found_set none s = absurd (cc)
found_set (some q) s = (q, refl, s)

equal : (m n : ℕ) → m ≡ n → (m == n) ≡ true
equal m n e = ground (arith, e)

not_equal : (m n : ℕ) → m ≢ n → (m == n) ≡ false
not_equal m n u = ground (arith, u)

module _ (c : PresetConsts) where
  clear_all-length : (ps : List Preset) → length (clear_all c ps) ≡ length ps
  unfolding clear_all
  clear_all-length [] = refl
  clear_all-length (p ∷ ps) = ap suc (clear_all-length ps)

  clear_all-get :
      (ps : List Preset) (i : ℕ)
      → elim (get_at (clear_all c ps) i) [ none ↦ false | some q ↦ q.is_set ] ≡ false
  unfolding clear_all get_at
  clear_all-get [] i = refl
  clear_all-get (p ∷ ps) zero = refl
  clear_all-get (p ∷ ps) (suc i) = clear_all-get ps i

  clear_all-unset : (ps : List Preset) (j : ℕ) → is_set_at (clear_all c ps) j ≡ false
  unfolding is_set_at get_preset
  clear_all-unset ps zero = refl
  clear_all-unset ps (suc i) = clear_all-get ps i

  -- The names of the special presets fit into their places.
  unfoldable pub Fits : List ℕ → Type 0
  Fits p = (k : ℕ) → k < 129 → ltb (length (p ++ c.print k)) c.room ≡ true

  fill_one-some :
      (k : ℕ) (p : List ℕ) (ps : List Preset)
      → Fits p
      → 0 < k
      → k < 129
      → 128 ≤ length ps
      → (qs : List Preset) × (fill_one c k p ps (get_preset ps k) ≡ some qs)
        × (length qs ≡ length ps)
  unfolding fill_one name_preset Fits
  fill_one-some k p ps f h b l =
      let (q, e) = get_preset-some ps k h (omega (arith, b, l)) in
      elim (Bool-cases q.is_set) [
        | inl t ↦ (ps, rw (e, t) refl, refl)
        | inr t ↦
            let (qs, d, n) =
              put_preset-some ps k (record { is_set = true; name = p ++ c.print k }) h
                (omega (arith, b, l)) in
            (qs, rw (e, t, f k b, d) refl, n)
      ]

  fill_special-some :
      (ks p : List ℕ) (ps : List Preset)
      → all_within ks ≡ true
      → Fits p
      → 128 ≤ length ps
      → (qs : List Preset) × (fill_special c ks p ps ≡ some qs)
  unfolding fill_special
  fill_special-some [] p ps w f l = (ps, refl)
  fill_special-some (k ∷ ks) p ps w f l =
      let (h, b, r) = all_within-head k ks w in
      let (rs, e, n) = fill_one-some k p ps f h b l in
      let (qs, d) = fill_special-some ks p rs r f (omega (arith, n, l)) in
      (qs, rw (fill_special, e) d)

  store_preset-is_set :
      (k : ℕ) (name : List ℕ) (ps : List Preset)
      → 0 < k
      → k ≤ length ps
      → 128 ≤ length ps
      → Fits (get_prenamestring name)
      → (qs : List Preset) × (store_preset c k name ps ≡ some qs) × (is_set_at qs k ≡ true)
  unfolding store_preset all_within
  store_preset-is_set k name ps h l b f =
      let q : Preset = record { is_set = true; name = take c.room name } in
      let (rs, e, n) = put_preset-some ps k q h l in
      let (qs, d) =
        fill_special-some spe_preset_index (get_prenamestring name) rs refl f
          (omega (arith, n, b)) in
      (
        qs,
        rw (store_preset, e) d,
        fill_special-is_set c spe_preset_index (get_prenamestring name) k rs qs d
            (put-is_set ps rs k k q refl e (inr refl)),
      )

  is_set_at-preset :
      (ps : List Preset) (k : ℕ)
      → is_set_at ps k ≡ true
      → (q : Preset) × (get_preset ps k ≡ some q) × (q.is_set ≡ true)
  unfolding is_set_at
  is_set_at-preset ps k s = found_set (get_preset ps k) s

  goto-set :
      (k : ℕ) (t : Presets)
      → 0 < k
      → k ≤ c.all_num
      → k < 256
      → is_set_at t.table k ≡ true
      → goto_ptz_preset c k t ≡ some (go c k t)
  unfolding goto_ptz_preset
  goto-set k t h l b s =
      let (q, e, d) = is_set_at-preset t.table k s in
      let m : k % 256 ≡ k = omega (arith, b) in rw (m, e, d) (ground (arith, h, l))

  set_preset_at-goes :
      (k : ℕ) (name : List ℕ) (t : Presets) (ps : List Preset)
      → 0 < k
      → k ≤ c.all_num
      → k < 256
      → store_preset c k name t.table ≡ some ps
      → is_set_at ps k ≡ true
      → (t' : Presets) × (set_preset_at c k name t ≡ some (pos 0, t'))
        × (goto_ptz_preset c k t' ≡ some (go c k t'))
  unfolding set_preset_at
  set_preset_at-goes k name t ps h l b e s =
      let t' : Presets = record {
        table = ps;
        marked = true;
        sent = t.sent ++ (PresetCommand.set_preset, k) ∷ [];
        reply = t.reply ++ Reply.named k name PtzError.result_ok ∷ [];
      } in
      (t', rw (set_preset_at, e) refl, goto-set k t' h l b s)

  set_case :
      (k : ℕ) (name : List ℕ) (t : Presets)
      → 0 < k
      → k ≤ c.all_num
      → is_nil name ≡ false
      → deal_ptz_preset c true k name t ≡ set_preset_at c k name t
  unfolding deal_ptz_preset
  set_case k name t h l z = rw z (ground (arith, h, l))

  -- The preset is gone to: the command is sent and answered, and only 95 changes the table: no
  -- preset is set then, and the file is to be written.
  pub record IsReached (k : ℕ) (t u : Presets) : Type 0 where
    pub sends : u.sent ≡ t.sent ++ (PresetCommand.goto_preset, k) ∷ []
    pub answers : u.reply ≡ t.reply ++ Reply.result k PtzError.result_ok ∷ []
    pub others : k ≢ 95 → (u.table ≡ t.table) × (u.marked ≡ t.marked)
    pub clears :
        k ≡ 95
        → (u.marked ≡ true)
          × (length u.table ≡ length t.table)
          × ((j : ℕ) → is_set_at u.table j ≡ false)

  go-IsReached : (k : ℕ) (t : Presets) → IsReached k t (go c k t)
  unfolding go
  go-IsReached k t = record {
    sends = refl;
    answers = refl;
    others = λ u. (rw (not_equal k 95 u) refl, rw (not_equal k 95 u) refl);
    clears = λ e. (
      rw (equal k 95 e) refl,
      rw (equal k 95 e) (clear_all-length t.table),
      λ j. rw (equal k 95 e) (clear_all-unset t.table j),
    );
  }

  -- If the table holds all presets, at least 128, and the names of the eight special presets fit
  -- into their places, then deal_ptz_preset with a number from 1 to the last one, below 256, and
  -- a name that is not empty returns 0, and going to that number next reaches the preset: its
  -- command is sent and answered once. At 95 no preset is set after it and the file is marked;
  -- at any other number the table and the mark stay.
  pub set-goto :
      (k : ℕ) (name : List ℕ) (t : Presets)
      → 0 < k
      → k ≤ c.all_num
      → k < 256
      → 128 ≤ c.all_num
      → length t.table ≡ c.all_num
      → is_nil name ≡ false
      → Fits (get_prenamestring name)
      → (t' : Presets) × (deal_ptz_preset c true k name t ≡ some (pos 0, t'))
        × (u : Presets) × (goto_ptz_preset c k t' ≡ some u)
        × IsReached k t' u
  set-goto k name t h l b a n z f =
      let (ps, e, d) =
        store_preset-is_set k name t.table h (omega (arith, l, n)) (omega (arith, a, n)) f in
      let (t', r, g) = set_preset_at-goes k name t ps h l b e d in
      (t', set_case k name t h l z ∙ r, go c k t', g, go-IsReached k t')
