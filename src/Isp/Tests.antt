-- ===== src/Isp/Tests.antt =====
-- Runs of the functions of src/isp.c on a device that keeps a value at each address.
use avserver.Base.{ℕ, ◌≡◌, refl, ℤ, pos, minus_one, true, ◌==◌, if◌then◌else◌}
use avserver.Isp.{Reg, State, Device}
use avserver.Isp.Image.{adjust_brightness}
use avserver.Isp.Balance.{adjust_ae_speed}
use avserver.Isp.Start.{init_isp_pw_frequency}
use avserver.Isp.Controls.{Control, reg, run}
use avserver.Isp.Laws.{Accepts, HasRegisters, Adjusts, run-Adjusts, adjust_ae_speed-same}

abbrev code : Reg → ℕ
code Reg.ev_mode = 0
code Reg.pwr_freq = 1
code Reg.min_gain = 2
code Reg.max_gain = 3
code Reg.min_exposure = 4
code Reg.max_exposure = 5
code Reg.ae_speed = 6
code Reg.target_y = 7
code Reg.scene_mode = 8
code Reg.awb_speed = 9
code Reg.interval = 10
code Reg.freeze_seg = 11
code Reg.min_rs_b2g = 12
code Reg.max_rs_b2g = 13
code Reg.min_r2g = 14
code Reg.max_r2g = 15
code Reg.min_b2g = 16
code Reg.max_b2g = 17
code Reg.min_yth = 18
code Reg.max_yth = 19
code Reg.min_rm_b2gg = 20
code Reg.max_rm_b2gg = 21
code Reg.r_gain = 22
code Reg.g_gain = 23
code Reg.b_gain = 24
code Reg.brightness = 25
code Reg.contrast = 26
code Reg.hue = 27
code Reg.saturation = 28
code Reg.sharpness = 29
code Reg.denoise = 30
code Reg.gamma = 31
code Reg.auto_cs_en = 32
code Reg.auto_cs_th = 33
code Reg.auto_cs_gain = 34
code Reg.ce_intensity = 35
code Reg.sensor_mirror = 36
code Reg.sensor_flip = 37
code Reg.sensor_ae_en = 38
code Reg.sensor_awb_en = 39
code Reg.sensor_exposure = 40
code Reg.sensor_gain = 41

abbrev device : Device (ℕ → ℤ)
device = record {
  exists = λ w. true;
  open_file = λ w. (pos 5, w);
  close_file = λ fd w. w;
  ioc_start = λ fd w. (pos 0, w);
  ioc_get = λ fd r w. (pos 0, w (code r), w);
  ioc_set = λ fd r val w. (pos 0, λ q. if q == code r then val else w q);
  ioc_get_weights = λ fd w. (pos 0, w);
  ioc_set_weights = λ fd ws w. (pos 0, w);
  ioc_get_threshold = λ fd w. (pos 0, w);
  has_memory = λ w. true;
  echo_pwr_freq = λ n w. w;
}

abbrev registers : (ℕ → ℤ) → ℕ → ℤ
registers w q = w q

device-HasRegisters : HasRegisters device code registers
device-HasRegisters = record {
  get-read = λ fd r w q. refl;
  get-value = λ fd r w good. refl;
  set-read = λ fd r val w q good. refl;
  set-failed = λ fd r val w q bad. cc;
}

abbrev fresh : State (ℕ → ℤ)
fresh = record { isp_fd = pos 5; world = λ q. pos 100 }

run-Adjusts_example :
    Adjusts device code registers
      (reg Control.hue)
      (Accepts Control.hue (pos 200))
      (pos 200)
      fresh
      (run device Control.hue (pos 200) fresh)
      2
run-Adjusts_example = run-Adjusts device-HasRegisters Control.hue (pos 200) fresh 2

adjust_ae_speed-same_example : registers (adjust_ae_speed device (pos 9) fresh).1.world 6 ≡ pos 100
adjust_ae_speed-same_example = adjust_ae_speed-same device-HasRegisters (pos 9) fresh 6

brightness_too_large : (adjust_brightness device (pos 256) fresh).0 ≡ minus_one
unfolding adjust_brightness
brightness_too_large = refl

frequency_unknown : (init_isp_pw_frequency device (pos 55) fresh).0 ≡ minus_one
unfolding init_isp_pw_frequency
frequency_unknown = refl
