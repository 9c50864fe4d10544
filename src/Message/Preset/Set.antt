-- ===== src/Message/Preset/Set.antt =====
-- What is set in the table of the presets stays set: src/processMsg.c 526-660.
use avserver.Base.{
  ℕ, zero, suc, ◌==◌, ◌≡◌, ◌⊎◌, refl, sym, ap, ◌∙◌, arith, ltb, Bool, true, false, ◌&&◌,
  if◌then◌else◌, Bool-cases, if_true, if_false, inl, inr, Option, none, some, List, [], ◌∷◌, ◌++◌,
  length,
}
use mathlib.Core.Path.{subst}
use avserver.Message.Preset.{
  Preset, PresetConsts, get_prenamestring, digits, is_nil, is_digit, get_at, set_at, get_preset,
  put_preset, name_preset, fill_one, fill_special,
}

some_inj {ℓ} : {A : Type ℓ} (a b : A) → some a ≡ some b → a ≡ b
some_inj a b h = cc

-- A name whose last character stays has no digits to cut.
none_some {ℓ} : {A : Type ℓ} (a : A) → none ≡ some a → ⊥
none_some a h = cc

view {ℓ} : {A : Type ℓ} (o : Option A) → (o ≡ none) ⊎ ((a : A) × (o ≡ some a))
view none = inl refl
view (some a) = inr (a, refl)

short : (n : List ℕ) (c : ℕ) (cs ds : List ℕ) → n ++ ds ≡ cs → (c ∷ n) ++ ds ≡ c ∷ cs
short n c cs ds h = ap (λ l. c ∷ l) h

-- Cutting the digits off a name loses nothing.
pub prename-digits : (name : List ℕ) → get_prenamestring name ++ digits name ≡ name
unfolding get_prenamestring digits
prename-digits [] = refl
prename-digits (c ∷ cs) = elim (Bool-cases (is_nil (get_prenamestring cs) && is_digit c)) [
  | inl e ↦ rw e
  | inr e ↦ rw e (short (get_prenamestring cs) c cs (digits cs) (prename-digits cs))
]

-- Whether the preset of a number is set.
unfoldable pub is_set_at : List Preset → ℕ → Bool
unfolding get_preset
is_set_at ps k = elim (get_preset ps k) [ none ↦ false | some q ↦ q.is_set ]

set_at-some :
    (p : Preset) (o : Option (List Preset)) (rs : List Preset)
    → elim o [ none ↦ none | some qs ↦ some (p ∷ qs) ] ≡ some rs
    → (qs : List Preset) × (o ≡ some qs) × (rs ≡ p ∷ qs)
set_at-some p none rs h = absurd (cc)
set_at-some p (some qs) rs h = (qs, refl, cc)

get_at-set_at :
    (ps rs : List Preset) (i j : ℕ) (q : Preset)
    → set_at ps i q ≡ some rs
    → get_at rs j ≡ (if j == i then some q else get_at ps j)
unfolding set_at get_at
get_at-set_at [] rs i j q h = absurd (cc)
get_at-set_at (p ∷ ps) rs zero zero q h = rw (← some_inj (q ∷ ps) rs h) (ground arith)
get_at-set_at (p ∷ ps) rs zero (suc j) q h = rw (← some_inj (q ∷ ps) rs h) (ground arith)
get_at-set_at (p ∷ ps) rs (suc i) zero q h =
    let (qs, e, d) = set_at-some p (set_at ps i q) rs h in rw d (ground arith)
get_at-set_at (p ∷ ps) rs (suc i) (suc j) q h =
    let (qs, e, d) = set_at-some p (set_at ps i q) rs h in
    rw d (ground (arith, get_at-set_at ps qs i j q e))

drop_same : (j k : ℕ) (b : Bool) → (j == k) ≡ false → (b ≡ true) ⊎ (suc j ≡ suc k) → b ≡ true
drop_same j k b t (inl c) = c
drop_same j k b t (inr c) = absurd (ground (arith, t, c))

pub put-is_set :
    (ps qs : List Preset) (k j : ℕ) (q : Preset)
    → q.is_set ≡ true
    → put_preset ps k q ≡ some qs
    → (is_set_at ps j ≡ true) ⊎ (j ≡ k)
    → is_set_at qs j ≡ true
unfolding is_set_at put_preset get_preset
put-is_set ps qs zero j q e h c = absurd (cc)
put-is_set ps qs (suc k) zero q e h (inl c) = absurd (cc)
put-is_set ps qs (suc k) zero q e h (inr c) = absurd (omega arith)
put-is_set ps qs (suc k) (suc j) q e h c = elim (Bool-cases (j == k)) [
  | inl t ↦ rw (is_set_at, get_preset, get_at-set_at ps qs k j q h, t) e
  | inr t ↦
      rw (is_set_at, get_preset, get_at-set_at ps qs k j q h, t)
        (drop_same j k (is_set_at ps (suc j)) t c)
]

module _ (c : PresetConsts) where
  name_preset-is_set :
      (k j : ℕ) (n : List ℕ) (ps qs : List Preset)
      → name_preset c k n ps ≡ some qs
      → is_set_at ps j ≡ true
      → is_set_at qs j ≡ true
  unfolding name_preset
  name_preset-is_set k j n ps qs h e = elim (Bool-cases (ltb (length n) c.room)) [
    | inl t ↦
        put-is_set ps qs k j (record { is_set = true; name = n }) refl
          (sym (
              if_true (ltb (length n) c.room) (put_preset ps k (record { is_set = true; name = n }))
                none t)
            ∙ h)
          (inl e)
    | inr t ↦ absurd (
        none_some qs (
          sym (
            if_false (ltb (length n) c.room) (put_preset ps k (record { is_set = true; name = n }))
              none t)
          ∙ h))
  ]

  fill_one-is_set :
      (k j : ℕ) (p : List ℕ) (ps qs : List Preset) (o : Option Preset)
      → fill_one c k p ps o ≡ some qs
      → is_set_at ps j ≡ true
      → is_set_at qs j ≡ true
  unfolding fill_one
  fill_one-is_set k j p ps qs none h e = absurd (cc)
  fill_one-is_set k j p ps qs (some q) h e =
      let n : List ℕ = p ++ c.print k in
      elim (Bool-cases q.is_set) [
        | inl t ↦
            subst (λ u. is_set_at u j ≡ true)
              (some_inj ps qs (sym (if_true q.is_set (some ps) (name_preset c k n ps) t) ∙ h)) e
        | inr t ↦
            name_preset-is_set k j n ps qs
              (sym (if_false q.is_set (some ps) (name_preset c k n ps) t) ∙ h) e
      ]

  pub fill_special-is_set :
      (ks p : List ℕ) (j : ℕ) (ps qs : List Preset)
      → fill_special c ks p ps ≡ some qs
      → is_set_at ps j ≡ true
      → is_set_at qs j ≡ true
  unfolding fill_special
  fill_special-is_set [] p j ps qs h e = rw (← some_inj ps qs h) e
  fill_special-is_set (k ∷ ks) p j ps qs h e = elim (view (fill_one c k p ps (get_preset ps k))) [
    | inl t ↦ absurd (
        none_some qs
          (sym (ap (λ o. elim o [ none ↦ none | some rs ↦ fill_special c ks p rs ]) t) ∙ h))
    | inr (rs, t) ↦
        fill_special-is_set ks p j rs qs
          (sym (ap (λ o. elim o [ none ↦ none | some us ↦ fill_special c ks p us ]) t) ∙ h)
          (fill_one-is_set k j p ps rs (get_preset ps k) t e)
  ]
