-- ===== src/Isp/Controls.antt =====
-- The functions of src/isp.c that set one register to their argument, under one index.
use avserver.Base.{ℤ}
use avserver.Isp.{Reg, Device, M}
use avserver.Isp.Image.{
  adjust_brightness, adjust_contrast, adjust_hue, adjust_saturation, adjust_shapness,
  adjust_denoise, adjust_gamma, set_auto_cs_th, set_auto_cs_ratio, adjust_ce_intensity, set_mirror,
  set_flip, set_sensor_ae, set_sensor_awb,
}
use avserver.Isp.Balance.{
  adjust_ae_ev_mode, adjust_ae_pwr_freq, adjust_ae_min_gain, adjust_ae_max_gain, adjust_ae_min_exp,
  adjust_ae_max_exp, adjust_ae_target_y, adjust_awb_scene_mode, adjust_awb_interval,
  adjust_awb_freeze_seg,
}

-- The functions that set one register to their argument, with the register and the arguments that
-- each accepts.
pub data Control : Type 0 where
  brightness contrast hue saturation shapness denoise gamma auto_cs_th auto_cs_ratio : Control
  ce_intensity mirror flip sensor_ae sensor_awb ev_mode pwr_freq min_gain max_gain : Control
  min_exp max_exp target_y scene_mode interval freeze_seg : Control

unfoldable pub reg : Control → Reg
reg Control.brightness = Reg.brightness
reg Control.contrast = Reg.contrast
reg Control.hue = Reg.hue
reg Control.saturation = Reg.saturation
reg Control.shapness = Reg.sharpness
reg Control.denoise = Reg.denoise
reg Control.gamma = Reg.gamma
reg Control.auto_cs_th = Reg.auto_cs_th
reg Control.auto_cs_ratio = Reg.auto_cs_gain
reg Control.ce_intensity = Reg.ce_intensity
reg Control.mirror = Reg.sensor_mirror
reg Control.flip = Reg.sensor_flip
reg Control.sensor_ae = Reg.sensor_ae_en
reg Control.sensor_awb = Reg.sensor_awb_en
reg Control.ev_mode = Reg.ev_mode
reg Control.pwr_freq = Reg.pwr_freq
reg Control.min_gain = Reg.min_gain
reg Control.max_gain = Reg.max_gain
reg Control.min_exp = Reg.min_exposure
reg Control.max_exp = Reg.max_exposure
reg Control.target_y = Reg.target_y
reg Control.scene_mode = Reg.scene_mode
reg Control.interval = Reg.interval
reg Control.freeze_seg = Reg.freeze_seg

unfoldable pub run : {W : Type 0} → Device W → Control → ℤ → M W ℤ
unfolding adjust_brightness adjust_contrast adjust_hue adjust_saturation adjust_shapness
    adjust_denoise adjust_gamma set_auto_cs_th set_auto_cs_ratio adjust_ce_intensity set_mirror
    set_flip set_sensor_ae set_sensor_awb adjust_ae_ev_mode adjust_ae_pwr_freq adjust_ae_min_gain
    adjust_ae_max_gain adjust_ae_min_exp adjust_ae_max_exp adjust_ae_target_y adjust_awb_scene_mode
    adjust_awb_interval adjust_awb_freeze_seg
run dev Control.brightness = adjust_brightness dev
run dev Control.contrast = adjust_contrast dev
run dev Control.hue = adjust_hue dev
run dev Control.saturation = adjust_saturation dev
run dev Control.shapness = adjust_shapness dev
run dev Control.denoise = adjust_denoise dev
run dev Control.gamma = adjust_gamma dev
run dev Control.auto_cs_th = set_auto_cs_th dev
run dev Control.auto_cs_ratio = set_auto_cs_ratio dev
run dev Control.ce_intensity = adjust_ce_intensity dev
run dev Control.mirror = set_mirror dev
run dev Control.flip = set_flip dev
run dev Control.sensor_ae = set_sensor_ae dev
run dev Control.sensor_awb = set_sensor_awb dev
run dev Control.ev_mode = adjust_ae_ev_mode dev
run dev Control.pwr_freq = adjust_ae_pwr_freq dev
run dev Control.min_gain = adjust_ae_min_gain dev
run dev Control.max_gain = adjust_ae_max_gain dev
run dev Control.min_exp = adjust_ae_min_exp dev
run dev Control.max_exp = adjust_ae_max_exp dev
run dev Control.target_y = adjust_ae_target_y dev
run dev Control.scene_mode = adjust_awb_scene_mode dev
run dev Control.interval = adjust_awb_interval dev
run dev Control.freeze_seg = adjust_awb_freeze_seg dev
