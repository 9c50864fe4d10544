-- ===== src/Isp/Balance.antt =====
-- Automatic exposure and white balance: src/isp.c 48-752 and 1064-1096.
use avserver.Base.{
  Option, none, some, zero, suc, false, ℕ, ℤ, pos, minus_one, not, ◌&&◌, Bool, ltb_ℤ, leb_ℤ,
  if◌then◌else◌, List, [], ◌∷◌,
}
use avserver.Isp.{Reg, Device, M, pure, ◌>>=◌, ◌>>◌, failed, get, set, adjust, any}
use avserver.Isp.Image.{below_six}

-- `(val < 1) && (val > 2304)`, negated.
unfoldable pub freeze_ok : ℤ → Bool
freeze_ok val = not (ltb_ℤ val (pos 1) && ltb_ℤ (pos 2304) val)

-- The register of a colour: red, green or blue.
unfoldable pub gain_of : ℤ → Option Reg
gain_of (pos zero) = some Reg.r_gain
gain_of (pos (suc zero)) = some Reg.g_gain
gain_of (pos (suc (suc zero))) = some Reg.b_gain
gain_of _ = none

unfoldable pub win_weight : List ℕ
win_weight =
    3 ∷ 3 ∷ 3 ∷ 3 ∷ 3 ∷ 3 ∷ 3 ∷ 3 ∷ 3 ∷ 3 ∷ 3 ∷ 3 ∷ 3 ∷ 3 ∷ 3 ∷ 3 ∷ 3 ∷ 3 ∷ 1 ∷ 1 ∷ 1 ∷ 1 ∷ 3 ∷ 3
    ∷ 3 ∷ 3 ∷ 1 ∷ 1 ∷ 1 ∷ 1 ∷ 3 ∷ 3 ∷ 3 ∷ 3 ∷ 1 ∷ 1 ∷ 1 ∷ 1 ∷ 3 ∷ 3 ∷ 3 ∷ 3 ∷ 1 ∷ 1 ∷ 1 ∷ 1 ∷ 3 ∷ 3
    ∷ 3 ∷ 3 ∷ 3 ∷ 3 ∷ 3 ∷ 3 ∷ 3 ∷ 3 ∷ 3 ∷ 3 ∷ 3 ∷ 3 ∷ 3 ∷ 3 ∷ 3 ∷ 3 ∷ []

module _ {W : Type 0} (dev : Device W) where
  -- The modes, the gains and the exposures: what is out of range is reported and set all the same.
  unfoldable pub adjust_ae_ev_mode : ℤ → M W ℤ
  unfolding adjust
  adjust_ae_ev_mode = adjust dev Reg.ev_mode any

  unfoldable pub adjust_ae_pwr_freq : ℤ → M W ℤ
  unfolding adjust
  adjust_ae_pwr_freq = adjust dev Reg.pwr_freq any

  unfoldable pub adjust_ae_min_gain : ℤ → M W ℤ
  unfolding adjust
  adjust_ae_min_gain = adjust dev Reg.min_gain any

  unfoldable pub adjust_ae_max_gain : ℤ → M W ℤ
  unfolding adjust
  adjust_ae_max_gain = adjust dev Reg.max_gain any

  unfoldable pub adjust_ae_min_exp : ℤ → M W ℤ
  unfolding adjust
  adjust_ae_min_exp = adjust dev Reg.min_exposure any

  unfoldable pub adjust_ae_max_exp : ℤ → M W ℤ
  unfolding adjust
  adjust_ae_max_exp = adjust dev Reg.max_exposure any

  unfoldable pub adjust_ae_target_y : ℤ → M W ℤ
  unfolding adjust
  adjust_ae_target_y = adjust dev Reg.target_y any

  -- The old value is read into the argument itself.
  unfoldable pub adjust_ae_speed : ℤ → M W ℤ
  adjust_ae_speed val = do
    old ← get dev Reg.ae_speed
    if failed old.0
        then pure old.0
        else if ltb_ℤ old.1 (pos 1) && leb_ℤ (pos 512) old.1
        then pure minus_one
        else set dev Reg.ae_speed old.1

  unfoldable pub adjust_awb_speed : ℤ → M W ℤ
  adjust_awb_speed val = do
    old ← get dev Reg.awb_speed
    if failed old.0
        then pure old.0
        else if ltb_ℤ old.1 (pos 1) && leb_ℤ (pos 1024) old.1
        then pure minus_one
        else set dev Reg.awb_speed old.1

  unfoldable pub get_ae_win_weight : M W ℤ
  get_ae_win_weight s =
      let g = dev.ioc_get_weights s.isp_fd s.world in (g.0, record s { world = g.1 })

  unfoldable pub set_ae_win_weight : M W ℤ
  set_ae_win_weight s =
      let g = dev.ioc_set_weights s.isp_fd win_weight s.world in (g.0, record s { world = g.1 })

  unfoldable pub adjust_awb_scene_mode : ℤ → M W ℤ
  unfolding adjust below_six
  adjust_awb_scene_mode = adjust dev Reg.scene_mode below_six

  unfoldable pub adjust_awb_interval : ℤ → M W ℤ
  unfolding adjust
  adjust_awb_interval = adjust dev Reg.interval any

  unfoldable pub adjust_awb_freeze_seg : ℤ → M W ℤ
  unfolding adjust freeze_ok
  adjust_awb_freeze_seg = adjust dev Reg.freeze_seg freeze_ok

  -- 0xFFFFFFFF where the colour is unknown or the ioctl fails.
  unfoldable pub get_isp_rgb_gain : ℤ → M W ℤ
  unfolding gain_of
  get_isp_rgb_gain rgb_type = elim (gain_of rgb_type) [
    | none ↦ pure (pos 4294967295)
    | some r ↦ do g ← get dev r; pure (if failed g.0 then pos 4294967295 else g.1)
  ]

  unfoldable pub set_isp_rgb_gain : ℤ → ℤ → M W (Unit {0})
  unfolding gain_of
  set_isp_rgb_gain rgb_type gain = elim (gain_of rgb_type) [
    | none ↦ pure tt
    | some r ↦ do set dev r gain; pure tt
  ]

  -- Whether a block with the thresholds is returned.
  unfoldable pub get_awb_wp_thres : M W Bool
  get_awb_wp_thres s =
      let g = dev.ioc_get_threshold s.isp_fd s.world in
      if dev.has_memory s.world then (not (failed g.0), record s { world = g.1 }) else (false, s)

  -- The bounds of the white points, each set by one ioctl.
  unfoldable pub set_awb_min_rs_b2g : ℤ → M W ℤ
  set_awb_min_rs_b2g = set dev Reg.min_rs_b2g

  unfoldable pub set_awb_max_rs_b2g : ℤ → M W ℤ
  set_awb_max_rs_b2g = set dev Reg.max_rs_b2g

  unfoldable pub set_awb_min_r2g : ℤ → M W ℤ
  set_awb_min_r2g = set dev Reg.min_r2g

  unfoldable pub set_awb_max_r2g : ℤ → M W ℤ
  set_awb_max_r2g = set dev Reg.max_r2g

  unfoldable pub set_awb_min_b2g : ℤ → M W ℤ
  set_awb_min_b2g = set dev Reg.min_b2g

  unfoldable pub set_awb_max_b2g : ℤ → M W ℤ
  set_awb_max_b2g = set dev Reg.max_b2g

  unfoldable pub set_awb_min_yth : ℤ → M W ℤ
  set_awb_min_yth = set dev Reg.min_yth

  unfoldable pub set_awb_max_yth : ℤ → M W ℤ
  set_awb_max_yth = set dev Reg.max_yth

  unfoldable pub set_awb_min_rm_b2gg : ℤ → M W ℤ
  set_awb_min_rm_b2gg = set dev Reg.min_rm_b2gg

  unfoldable pub set_awb_max_rm_b2gg : ℤ → M W ℤ
  set_awb_max_rm_b2gg = set dev Reg.max_rm_b2gg
