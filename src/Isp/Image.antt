-- ===== src/Isp/Image.antt =====
-- Picture controls: src/isp.c 783-1062 and 1098-1151.
use avserver.Base.{ℤ, pos, not, ◌||◌, Bool, eqb_ℤ, ltb_ℤ, leb_ℤ, if◌then◌else◌}
use avserver.Isp.{Reg, Device, M, pure, ◌>>=◌, ◌>>◌, failed, get, set, adjust, any}

-- The refusal `val<0||val>255`, negated.
unfoldable pub is_byte : ℤ → Bool
is_byte val = not (ltb_ℤ val (pos 0) || ltb_ℤ (pos 255) val)

unfoldable pub below_six : ℤ → Bool
below_six val = not (ltb_ℤ val (pos 0) || leb_ℤ (pos 6) val)

unfoldable pub not_negative : ℤ → Bool
not_negative val = not (ltb_ℤ val (pos 0))

module _ {W : Type 0} (dev : Device W) where
  unfoldable pub adjust_brightness : ℤ → M W ℤ
  unfolding adjust is_byte
  adjust_brightness = adjust dev Reg.brightness is_byte

  unfoldable pub adjust_contrast : ℤ → M W ℤ
  unfolding adjust is_byte
  adjust_contrast = adjust dev Reg.contrast is_byte

  unfoldable pub adjust_hue : ℤ → M W ℤ
  unfolding adjust is_byte
  adjust_hue = adjust dev Reg.hue is_byte

  unfoldable pub adjust_saturation : ℤ → M W ℤ
  unfolding adjust is_byte
  adjust_saturation = adjust dev Reg.saturation is_byte

  unfoldable pub adjust_shapness : ℤ → M W ℤ
  unfolding adjust is_byte
  adjust_shapness = adjust dev Reg.sharpness is_byte

  unfoldable pub adjust_denoise : ℤ → M W ℤ
  unfolding adjust
  adjust_denoise = adjust dev Reg.denoise any

  unfoldable pub adjust_gamma : ℤ → M W ℤ
  unfolding adjust below_six
  adjust_gamma = adjust dev Reg.gamma below_six

  -- A set that fails is reported and then taken for done.
  unfoldable pub set_auto_cs_en : ℤ → M W ℤ
  set_auto_cs_en val = do
    old ← get dev Reg.auto_cs_en
    if failed old.0
        then pure old.0
        else do ret ← set dev Reg.auto_cs_en val; pure (if failed ret then pos 0 else ret)

  unfoldable pub set_auto_cs_th : ℤ → M W ℤ
  unfolding adjust
  set_auto_cs_th = adjust dev Reg.auto_cs_th any

  unfoldable pub set_auto_cs_ratio : ℤ → M W ℤ
  unfolding adjust
  set_auto_cs_ratio = adjust dev Reg.auto_cs_gain any

  unfoldable pub adjust_ce_intensity : ℤ → M W ℤ
  unfolding adjust not_negative
  adjust_ce_intensity = adjust dev Reg.ce_intensity not_negative

  unfoldable pub set_mirror : ℤ → M W ℤ
  unfolding adjust
  set_mirror = adjust dev Reg.sensor_mirror any

  unfoldable pub set_flip : ℤ → M W ℤ
  unfolding adjust
  set_flip = adjust dev Reg.sensor_flip any

  unfoldable pub set_sensor_ae : ℤ → M W ℤ
  unfolding adjust
  set_sensor_ae = adjust dev Reg.sensor_ae_en any

  unfoldable pub set_sensor_awb : ℤ → M W ℤ
  unfolding adjust
  set_sensor_awb = adjust dev Reg.sensor_awb_en any

  -- One half of `set_exp_gain`: both results are only reported.
  unfoldable pub set_one : Reg → ℤ → M W (Unit {0})
  set_one r val = do get dev r; set dev r val; pure tt

  unfoldable pub set_exp_gain : ℤ → ℤ → M W ℤ
  unfolding set_one
  set_exp_gain exp gain = do
    if ltb_ℤ (pos 0) exp then set_one Reg.sensor_exposure exp else pure tt
    if eqb_ℤ gain (pos 0) then pure tt else set_one Reg.sensor_gain gain
    pure (pos 0)
