-- ===== src/Isp/Start.antt =====
-- Opening the image processor: src/isp.c 32-45, 755-780 and 1154-1187.
use avserver.Base.{ℤ, pos, minus_one, not, ◌&&◌, eqb_ℤ, if◌then◌else◌}
use avserver.Isp.{Device, M, pure, ◌>>=◌, ◌>>◌, failed}
use avserver.Isp.Image.{
  adjust_brightness, adjust_saturation, adjust_hue, adjust_contrast, adjust_shapness,
}

-- The fields of `g_stImg_file` that the start reads.
pub record ImgCfg : Type 0 where
  pub brightness : ℤ
  pub saturation : ℤ
  pub hue : ℤ
  pub contrast : ℤ
  pub flip : ℤ

module _ {W : Type 0} (dev : Device W) where
  unfoldable pub start_isp : M W ℤ
  start_isp s = let g = dev.ioc_start s.isp_fd s.world in (g.0, record s { world = g.1 })

  unfoldable pub close_isp : M W (Unit {0})
  close_isp s = (tt, record { isp_fd = minus_one; world = dev.close_file s.isp_fd s.world })

  unfoldable pub init_isp_pw_frequency : ℤ → M W ℤ
  init_isp_pw_frequency fw s =
      if not (eqb_ℤ fw (pos 50)) && not (eqb_ℤ fw (pos 60))
      then (minus_one, s)
      else if not (dev.has_memory s.world)
      then (minus_one, s)
      else (
        pos 0,
        record s { world = dev.echo_pwr_freq (if eqb_ℤ fw (pos 50) then 1 else 0) s.world },
      )

  -- The descriptor after the opening; without a device file it stays as it was.
  unfoldable pub open_isp : M W ℤ
  open_isp s =
      let o = dev.open_file s.world in
      if dev.exists s.world then (o.0, record { isp_fd = o.0; world = o.1 }) else (pos 0, s)

  -- What `init_isp` does once the device runs; the results are not looked at.
  unfoldable pub apply_cfg : ℤ → ImgCfg → M W ℤ
  apply_cfg fw cfg = do
    init_isp_pw_frequency fw
    adjust_brightness dev cfg.brightness
    adjust_saturation dev cfg.saturation
    adjust_hue dev cfg.hue
    adjust_contrast dev cfg.contrast
    adjust_shapness dev cfg.flip
    pure (pos 0)

  -- With `g_iFw` and `g_stImg_file`.
  unfoldable pub init_isp : ℤ → ImgCfg → M W ℤ
  unfolding open_isp start_isp close_isp apply_cfg
  init_isp fw cfg = do
    fd ← open_isp
    if failed fd then pure minus_one else do
      ret ← start_isp
      if failed ret then (do close_isp; pure minus_one) else apply_cfg fw cfg
