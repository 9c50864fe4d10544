-- ===== src/Startup/Reset.antt =====
-- When a reset ends: `do_reset`, src/init_system.c 195-214.
use avserver.Base.{
  ℕ, zero, suc, ◌+◌, ◌≡◌, sym, ap, ◌∙◌, arith, leb, Bool, true, false, if◌then◌else◌, Bool-cases,
  inl, inr, Option, none, some, List, [], ◌∷◌, length,
}
use avserver.Message.Vars.{File}
use avserver.Startup.{Files, call_default, call_read, reset_table, reset_loop, do_reset}

abbrev pub ends : {A : Type 0} → Option A → Bool
ends none = false
ends (some a) = true

-- How many of the `n` readings from number `i` on work.
unfoldable pub successes : (ℕ → Bool) → ℕ → ℕ → ℕ
successes ok i zero = 0
successes ok i (suc n) = (if ok i then 1 else 0) + successes ok (suc i) n

leb-suc : (m n : ℕ) → leb (suc m) (1 + n) ≡ leb m n
leb-suc m n = ground arith

leb_zero : (n : ℕ) → leb 0 n ≡ true
leb_zero n = ground arith

leb_more : (m : ℕ) → leb (suc m) 0 ≡ false
leb_more m = ground arith

none_more : (n : ℕ) → 0 + n ≡ n
none_more n = omega arith

reset_loop-ends :
    (ok : ℕ → Bool) (n : ℕ) (fs : List File) (s : Files)
    → ends (reset_loop ok n fs s) ≡ leb (length fs) (successes ok s.reads n)
unfolding reset_loop successes call_default call_read
reset_loop-ends ok n [] s = sym (leb_zero (successes ok s.reads n))
reset_loop-ends ok zero (f ∷ fs) s = sym (leb_more (length fs))
reset_loop-ends ok (suc n) (f ∷ fs) s =
    let t : Files = call_read f (call_default f s) in
    elim (Bool-cases (ok s.reads)) [
      | inl e ↦
          rw e (reset_loop-ends ok n fs t ∙ sym (leb-suc (length fs) (successes ok t.reads n)))
      | inr e ↦ rw e (
          reset_loop-ends ok n (f ∷ fs) t
          ∙ ap (leb (suc (length fs))) (sym (none_more (successes ok t.reads n))))
    ]

-- Whatever the results of its readings are, do_reset ends within n rounds of its loop exactly if
-- at least five of the next n readings work. So it ends if the readings go on to work, and never
-- ends if they do not.
pub do_reset-ends :
    (ok : ℕ → Bool) (n : ℕ) (s : Files) → ends (do_reset ok n s) ≡ leb 5 (successes ok s.reads n)
unfolding do_reset
do_reset-ends ok n s = reset_loop-ends ok n reset_table s
