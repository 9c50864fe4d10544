-- ===== src/Isp.antt =====
-- The image processor of src/isp.c: the device as a record of calls, the commands on it, and the
-- shape that the functions of the file share. The device file and its ioctls belong to the driver.
pub mod Image
pub mod Balance
pub mod Start
pub mod Controls
pub mod Laws
mod Tests
use avserver.Base.{ℕ, ℤ, pos, minus_one, Bool, true, ltb_ℤ, if◌then◌else◌, List}

-- One register for each pair of a getting and a setting ioctl, named as in the ioctl.
pub data Reg : Type 0 where
  ev_mode pwr_freq min_gain max_gain min_exposure max_exposure ae_speed target_y : Reg
  scene_mode awb_speed interval freeze_seg : Reg
  min_rs_b2g max_rs_b2g min_r2g max_r2g min_b2g max_b2g min_yth max_yth : Reg
  min_rm_b2gg max_rm_b2gg r_gain g_gain b_gain : Reg
  brightness contrast hue saturation sharpness denoise gamma : Reg
  auto_cs_en auto_cs_th auto_cs_gain ce_intensity : Reg
  sensor_mirror sensor_flip sensor_ae_en sensor_awb_en sensor_exposure sensor_gain : Reg

-- What the file calls, with the descriptor first: a result, the value that was read, and the world.
pub record Device (W : Type 0) : Type 0 where
  -- `access` of /dev/isp0.
  pub exists : W → Bool
  pub open_file : W → ℤ × W
  pub close_file : ℤ → W → W
  pub ioc_start : ℤ → W → ℤ × W
  pub ioc_get : ℤ → Reg → W → ℤ × ℤ × W
  pub ioc_set : ℤ → Reg → ℤ → W → ℤ × W
  -- AE_GET_WIN_WEIGHT and AE_SET_WIN_WEIGHT.
  pub ioc_get_weights : ℤ → W → ℤ × W
  pub ioc_set_weights : ℤ → List ℕ → W → ℤ × W
  -- AWB_GET_WP_THRESHOLD, into an allocated block.
  pub ioc_get_threshold : ℤ → W → ℤ × W
  -- Whether `malloc` gives a block.
  pub has_memory : W → Bool
  -- The shell command that writes the power frequency's code.
  pub echo_pwr_freq : ℕ → W → W

-- `isp_fd` and the world.
pub record State (W : Type 0) : Type 0 where
  pub isp_fd : ℤ
  pub world : W

-- Whether the result of a call says that it failed.
abbrev pub failed : ℤ → Bool
failed ret = ltb_ℤ ret (pos 0)

-- A test that accepts every argument.
abbrev pub any : ℤ → Bool
any val = true

abbrev pub M : Type 0 → Type 0 → Type 0
M W A = State W → A × State W

module _ {W : Type 0} where
  abbrev pub pure : {A : Type 0} → A → M W A
  pure a s = (a, s)

  infixl 5 ◌>>=◌ ◌>>◌
  abbrev pub ◌>>=◌ : {A B : Type 0} → M W A → (A → M W B) → M W B
  ◌>>=◌ m f s = f (m s).0 (m s).1

  abbrev pub ◌>>◌ : {A B : Type 0} → M W A → M W B → M W B
  ◌>>◌ m n s = n (m s).1

module _ {W : Type 0} (dev : Device W) where
  -- The result of an ioctl that reads a register, and the value read.
  abbrev pub get : Reg → M W (ℤ × ℤ)
  get r s = let g = dev.ioc_get s.isp_fd r s.world in ((g.0, g.1), record s { world = g.2 })

  abbrev pub set : Reg → ℤ → M W ℤ
  set r val s = let g = dev.ioc_set s.isp_fd r val s.world in (g.0, record s { world = g.1 })

  -- The body that the functions of the file share: read the old value, refuse what the test does
  -- not accept, write the new one.
  unfoldable pub adjust : Reg → (ℤ → Bool) → ℤ → M W ℤ
  adjust r accepts val = do
    old ← get r
    if failed old.0 then pure old.0 else if accepts val then set r val else pure minus_one
