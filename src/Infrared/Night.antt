-- ===== src/Infrared/Night.antt =====
-- The picture over many rounds.
use avserver.Base.{
  ap, ℤ, pos, ◌≤ℤ◌, ◌<ℤ◌, ◌≡◌, ◌⊎◌, arith, Bool, true, not, ◌||◌, eqb_ℤ, ltb_ℤ, List, [], ◌∷◌,
}
use avserver.Infrared.{
  InfradCtl, set_to_color, set_to_white, by_light, light, State, round, infrad_ctrl,
}

-- Every reading of the light sensor is at most `top`; one that failed is negative.
abbrev pub AreAtMost : ℤ → List (ℤ × ℤ) → Type 0
AreAtMost top [] = Unit {0}
AreAtMost top ((adc, _) ∷ is) = (adc ≤ℤ top) × AreAtMost top is

-- Every one that did not fail is at least `bottom`.
abbrev pub AreAtLeast : ℤ → List (ℤ × ℤ) → Type 0
AreAtLeast bottom [] = Unit {0}
AreAtLeast bottom ((adc, _) ∷ is) =
    ((ltb_ℤ adc (pos 0) ≡ true) ⊎ (bottom ≤ℤ adc)) × AreAtLeast bottom is

-- The status asks for the automatic switch.
abbrev pub is_auto : InfradCtl → Bool
is_auto g = not (eqb_ℤ g.status (pos 1) || eqb_ℤ g.status (pos 2))

stays_white :
    (g : InfradCtl) (is : List (ℤ × ℤ)) (s : State)
    → is_auto g ≡ true
    → AreAtMost g.img_wtoc_th is
    → s.picture ≡ set_to_white
    → (infrad_ctrl g is s).picture ≡ set_to_white
unfolding infrad_ctrl round light by_light
stays_white g [] s auto low e = e
stays_white g ((adc, v) ∷ is) s auto (l, low) e =
    stays_white g is (round g (adc, v) s) auto low (ground arith)

stays_color :
    (g : InfradCtl) (is : List (ℤ × ℤ)) (s : State)
    → is_auto g ≡ true
    → AreAtLeast g.img_ctow_th is
    → s.picture ≡ set_to_color g
    → (infrad_ctrl g is s).picture ≡ set_to_color g
unfolding infrad_ctrl round light by_light
stays_color g [] s auto high e = e
stays_color g ((adc, v) ∷ is) s auto (l, high) e =
    stays_color g is (round g (adc, v) s) auto high (ground arith)

-- With the automatic status, after a reading of the light sensor that is not negative, is below
-- the lower threshold, and is at most the upper one, the lamp is on and the saturation 0, and
-- both stay so over all further rounds whose readings are at most the upper threshold or failed.
pub night_lasts :
    (g : InfradCtl) (adc value : ℤ) (is : List (ℤ × ℤ)) (s : State)
    → is_auto g ≡ true
    → pos 0 ≤ℤ adc
    → adc <ℤ g.img_ctow_th
    → AreAtMost g.img_wtoc_th ((adc, value) ∷ is)
    → let p = (infrad_ctrl g ((adc, value) ∷ is) s).picture in
      (p.lamp ≡ true) × (p.saturation ≡ pos 0)
unfolding infrad_ctrl round light by_light set_to_white
night_lasts g adc value is s auto ok dark (l, low) =
    let e = stays_white g is (round g (adc, value) s) auto low (ground arith) in
    (ap (λ p. p.lamp) e, ap (λ p. p.saturation) e)

-- With the automatic status, after a reading of the light sensor that is not negative and is
-- above the upper threshold, the lamp is off and the picture in colour, and both stay so over
-- all further rounds whose readings failed or are at least the lower threshold.
pub day_lasts :
    (g : InfradCtl) (adc value : ℤ) (is : List (ℤ × ℤ)) (s : State)
    → is_auto g ≡ true
    → pos 0 ≤ℤ adc
    → g.img_wtoc_th <ℤ adc
    → AreAtLeast g.img_ctow_th is
    → (infrad_ctrl g ((adc, value) ∷ is) s).picture ≡ set_to_color g
unfolding infrad_ctrl round light by_light
day_lasts g adc value is s auto ok bright high =
    stays_color g is (round g (adc, value) s) auto high (ground arith)
