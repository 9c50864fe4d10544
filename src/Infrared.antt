-- ===== src/Infrared.antt =====
-- The thread of src/infrad_ctrl.c that switches between day and night pictures and watches the reset
-- key, with the variables of src/av_globle.c. A value of the device is -1 where its ioctl fails.
pub mod Night
pub mod Reset
mod Tests
use avserver.Base.{
  ℕ, suc, ◌+◌, ℤ, pos, Bool, true, false, eqb_ℤ, ltb_ℤ, ltb, if◌then◌else◌, List, [], ◌∷◌,
}

-- `g_stInfrad_ctl`, less its mutex.
pub record InfradCtl : Type 0 where
  pub img_ctow_th : ℤ
  pub img_wtoc_th : ℤ
  pub status : ℤ
  pub img_saturation : ℤ

unfoldable pub init_gbl : ℤ → ℤ → ℤ → ℤ → InfradCtl
init_gbl status ctow wtoc saturation = record {
  img_ctow_th = ctow;
  img_wtoc_th = wtoc;
  status = status;
  img_saturation = saturation;
}

-- The picture: whether the lamp is on, and the saturation asked for.
pub record Picture : Type 0 where
  pub lamp : Bool
  pub saturation : ℤ

unfoldable pub set_to_color : InfradCtl → Picture
set_to_color g = record { lamp = false; saturation = g.img_saturation }

unfoldable pub set_to_white : Picture
set_to_white = record { lamp = true; saturation = pos 0 }

-- The automatic case of the switch, with the reading of the light sensor.
unfoldable pub by_light : InfradCtl → ℤ → Picture → Picture
unfolding set_to_color set_to_white
by_light g adc p =
    if ltb_ℤ adc (pos 0)
    then p
    else if ltb_ℤ g.img_wtoc_th adc
    then set_to_color g
    else if ltb_ℤ adc g.img_ctow_th
    then set_to_white
    else p

-- The switch of `infrad_ctrl`.
unfoldable pub light : InfradCtl → ℤ → Picture → Picture
unfolding by_light set_to_color set_to_white
light g adc p =
    if eqb_ℤ g.status (pos 1)
    then set_to_color g
    else if eqb_ℤ g.status (pos 2)
    then set_to_white
    else by_light g adc p

-- The rest of a round: `reset_stat` after it, and whether it calls `reset_sys`.
unfoldable pub watch_reset : ℤ → ℕ → ℕ × Bool
watch_reset value stat =
    let counted : ℕ = if eqb_ℤ value (pos 0) then suc stat else 0 in
    if ltb 2 counted then (0, true) else (counted, false)

pub record State : Type 0 where
  pub picture : Picture
  pub reset_stat : ℕ
  -- How many times `reset_sys` was called.
  pub resets : ℕ

-- A round, with the readings of the light sensor and of the reset key.
unfoldable pub round : InfradCtl → ℤ × ℤ → State → State
unfolding light watch_reset
round g (adc, value) s =
    let (stat, fires) = watch_reset value s.reset_stat in
    record {
      picture = light g adc s.picture;
      reset_stat = stat;
      resets = if fires then suc s.resets else s.resets;
    }

unfoldable pub infrad_ctrl : InfradCtl → List (ℤ × ℤ) → State → State
infrad_ctrl g [] s = s
infrad_ctrl g (i ∷ is) s = infrad_ctrl g is (round g i s)
