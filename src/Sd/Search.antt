-- ===== src/Sd/Search.antt =====
-- The order of the names, and what the search finds.
use avserver.Base.{
  ℕ, ◌==◌, ◌/ℤ◌, ◌≡◌, refl, ◌∙◌, inl, inr, arith, ltb, pos, minus_one, Bool, true, ◌||◌, not,
  if◌then◌else◌, Bool-cases, Option, none, some, List, [], ◌∷◌,
}
use avserver.Sd.{
  is_gt, Entry, Found, look, look_all, find_oldest_dir_from_sdroot, free_loop_kb,
  prepare_free_space,
}

-- The three tests amount to one.
pub is_gt_lem : (a b : ℕ) → is_gt (some (pos a)) (some (pos b)) ≡ (if ltb a b then pos 1 else pos 0)
unfolding is_gt ◌/ℤ◌
is_gt_lem a b = ground arith

-- No character is both.
no_character : (n : ℕ) → (not (n == 50) || not (n == 48)) ≡ true
no_character n = ground arith

look-same : (e : Entry) (f : Found) → look e f ≡ f
unfolding look
look-same e f = elim (Bool-cases e.is_dir) [ inl d ↦ rw (d, no_character e.first) | inr d ↦ rw d ]

look_all-same : (es : List Entry) (f : Found) → look_all es f ≡ f
unfolding look_all
look_all-same [] f = refl
look_all-same (e ∷ es) f = look_all-same es (look e f) ∙ look-same e f

-- Nothing is ever found.
find_oldest-none :
    (root : Option (List Entry)) (has_hour : Entry → ℕ → Bool)
    → (find_oldest_dir_from_sdroot root has_hour).0 ≡ 0
unfolding find_oldest_dir_from_sdroot
find_oldest-none none has_hour = refl
find_oldest-none (some es) has_hour =
    let e : look_all es (record { dir = none; first_dir = true; fnd = 0 })
        ≡ record { dir = none; first_dir = true; fnd = 0 } =
      look_all-same es (record { dir = none; first_dir = true; fnd = 0 }) in
    rw e

-- The loop that frees space ends after its first reading of the free space, whatever the card
-- holds and however the readings would go on, and has deleted nothing: it fails where the space
-- is too small and succeeds otherwise.
pub prepare_free_space_lem :
    (space : ℕ) (root : Option (List Entry)) (has_hour : Entry → ℕ → Bool) (free : ℕ)
    (frees : List ℕ)
    → prepare_free_space space root has_hour (free ∷ frees)
      ≡ some ((if ltb free space then minus_one else pos 0), 0)
unfolding prepare_free_space free_loop_kb
prepare_free_space_lem space root has_hour free frees = elim (Bool-cases (ltb free space)) [
  | inl e ↦ rw (e, find_oldest-none root has_hour)
  | inr e ↦ rw e
]
