-- ===== src/Infrared/Reset.antt =====
-- The reset key over many rounds.
use avserver.Base.{◌+◌, ◌/◌, ◌%◌, ◌≤◌, ℤ, pos, ◌≡◌, arith, true, eqb_ℤ, List, [], ◌∷◌, length}
use avserver.Infrared.{InfradCtl, State, watch_reset, round, infrad_ctrl}

-- The key reads 0 in each round.
abbrev pub AreDown : List (ℤ × ℤ) → Type 0
AreDown [] = Unit {0}
AreDown ((_, value) ∷ is) = (eqb_ℤ value (pos 0) ≡ true) × AreDown is

-- Whatever the readings, from at most two counted readings of the reset key there are never more
-- than two after a round.
pub infrad_ctrl-bound :
    (g : InfradCtl) (is : List (ℤ × ℤ)) (s : State)
    → s.reset_stat ≤ 2
    → (infrad_ctrl g is s).reset_stat ≤ 2
unfolding infrad_ctrl round watch_reset
infrad_ctrl-bound g [] s h = h
infrad_ctrl-bound g ((adc, value) ∷ is) s h =
    infrad_ctrl-bound g is (round g (adc, value) s) (ground arith)

-- From a state where at most two readings of the reset key are counted, n rounds in which the
-- key reads 0 call reset_sys once for every third reading, those counted at the start included,
-- and count the remainder.
pub infrad_ctrl-resets :
    (g : InfradCtl) (is : List (ℤ × ℤ)) (s : State)
    → s.reset_stat ≤ 2
    → AreDown is
    → let t = infrad_ctrl g is s in
      (t.resets ≡ s.resets + (s.reset_stat + length is) / 3)
      × (t.reset_stat ≡ (s.reset_stat + length is) % 3)
unfolding infrad_ctrl round watch_reset
infrad_ctrl-resets g [] s h d = (omega arith, omega arith)
infrad_ctrl-resets g ((adc, value) ∷ is) s h (d, ds) =
    ground (arith, infrad_ctrl-resets g is (round g (adc, value) s) (ground arith) ds)
