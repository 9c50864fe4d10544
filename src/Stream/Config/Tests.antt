-- ===== src/Stream/Config/Tests.antt =====
-- The configuration of src/rtspd.c at a concrete file.
use avserver.Base.{
  ℕ, ◌≡◌, refl, ltb, leb_ℤ, ◌&&◌, ◌==◌, ℤ, pos, negsuc, if◌then◌else◌, Option, none, some,
}
use avserver.Stream.Types.{Av, put}
use avserver.Stream.Start.{env_enc_init}
use avserver.Stream.Update.{UpdateAvbs, cfgud_init}
use avserver.Stream.Config.{
  CfgFile, CfgConsts, AvCfg, BsKey, read_channel, save_channel, cfg_channel,
}
use avserver.Stream.Config.Reboot.{reloaded, reboot}

-- A stream of 30 frames a second with the rate control ECBR.
abbrev values : BsKey → Option ℤ
values BsKey.opt_type = some (pos 1)
values BsKey.fps = some (pos 30)
values BsKey.rate_ctl_type = some (pos 2)
values BsKey.enabled_roi = none
values _ = some (pos 16)

abbrev file : CfgFile
file = record {
  has_channel = λ ch. ch == 0;
  channel_value = λ _ _. some (pos 1);
  has_bs = λ _ j. j == 0;
  bs_value = λ _ _. values;
}

abbrev consts : CfgConsts
consts = record { dnc = negsuc 0; max_update_sub_chn = 2 }

abbrev nothing : UpdateAvbs
nothing = cfgud_init (negsuc 0)

abbrev unset : AvCfg
unset = record {
  chn = 0;
  denoise = pos 0;
  de_interlace = pos 0;
  input_system = pos 0;
  ubs = λ _. nothing;
}

-- The channel as the file says.
abbrev read : Av
read = elim (read_channel (negsuc 0) file 2 0 (env_enc_init 0)) [
  | none ↦ env_enc_init 0
  | some e ↦ e
]

reboot_example :
    (cfg_channel consts file 2 0 none unset env_enc_init
      ≡ some (put env_enc_init 0 read, save_channel 2 0 read unset))
    × ((enc : ℕ → Av) × (cfg_channel consts file 2 0
            (some (save_channel 2 0 read unset))
            unset
            env_enc_init
          ≡ some (enc, save_channel 2 0 read unset))
        × ((j : ℕ) → (enc 0).bs j ≡ (if ltb j 2 then reloaded (read.bs j) else read.bs j))
        × ((enc 0).input_system ≡ (
            if leb_ℤ (pos 0) read.input_system && leb_ℤ read.input_system (pos 2)
            then read.input_system
            else pos 2)))
unfolding read_channel
reboot_example = reboot consts file 2 0 unset unset env_enc_init read refl refl refl
