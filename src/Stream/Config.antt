-- ===== src/Stream/Config.antt =====
-- The configuration of the streams at the start: `env_cfg_init`, src/rtspd.c 1290-1488, for one
-- channel. It reads the system's file of sections and then the channel's own file, which the first
-- start writes. `none` is the program's end by `exit`, or a write outside `enc`. Left out are the
-- constant bit rate of the audio, the flag of the recorder's network link, a file that cannot be
-- opened after its test, and the wrap of a rate of more than 2147483 kbps.
pub mod Reboot
mod Tests
use avserver.Base.{
  ℕ, zero, suc, ◌+◌, ℤ, pos, ◌*ℤ◌, eqb_ℤ, ltb_ℤ, ltb, Bool, true, false, ◌||◌, not, if◌then◌else◌,
  Option, none, some,
}
use avserver.Stream.Types.{disable, opt_none, channel_num, Vbs, Avbs, Av, put}
use avserver.Stream.Update.{UpdateAvbs}

-- The keys of the sections of a channel and of a bitstream.
pub data ChannelKey : Type 0 where
  temporal_denoise de_interlace input_system : ChannelKey

pub data BsKey : Type 0 where
  opt_type enc_type audio_enc_type fps width height mjpeg_quality rate_ctl_type : BsKey
  max_quant min_quant init_quant kbps target_rate_max reaction_delay_max : BsKey
  enabled_roi roi_x roi_y roi_w roi_h : BsKey

-- What the library of such files finds: the sections that exist, and the numbers of the keys.
pub record CfgFile : Type 0 where
  pub has_channel : ℕ → Bool
  pub channel_value : ℕ → ChannelKey → Option ℤ
  pub has_bs : ℕ → ℕ → Bool
  pub bs_value : ℕ → ℕ → BsKey → Option ℤ

-- `Av_cfg_t`, as far as the function reads or writes it.
pub record AvCfg : Type 0 where
  pub chn : ℕ
  pub denoise : ℤ
  pub de_interlace : ℤ
  pub input_system : ℤ
  pub ubs : ℕ → UpdateAvbs

-- GMVAL_DO_NOT_CARE and MAX_UPDATE_SUB_CHN.
pub record CfgConsts : Type 0 where
  pub dnc : ℤ
  pub max_update_sub_chn : ℕ

infixl 5 ◌>>=◌
abbrev ◌>>=◌ : {A B : Type 0} → Option A → (A → Option B) → Option B
none >>= f = none
some a >>= f = f a

-- `env_cfg_get_value_4_erret`
unfoldable pub value_or : ℤ → Option ℤ → ℤ
value_or d none = d
value_or d (some v) = v

unfoldable pub off : Avbs → Avbs
off b = record b {
  opt_type = opt_none;
  enabled = disable;
  video = record (b.video) { enabled = disable };
}

-- One bitstream; a key that is missing ends the program.
unfoldable pub read_bs : ℤ → (BsKey → Option ℤ) → Avbs → Option Avbs
unfolding value_or
read_bs dnc get b = do
  opt ← get BsKey.opt_type
  enc ← get BsKey.enc_type
  audio ← get BsKey.audio_enc_type
  rate ← get BsKey.fps
  w ← get BsKey.width
  h ← get BsKey.height
  quality ← get BsKey.mjpeg_quality
  control ← get BsKey.rate_ctl_type
  max ← get BsKey.max_quant
  min ← get BsKey.min_quant
  init ← get BsKey.init_quant
  bits ← get BsKey.kbps
  target ← get BsKey.target_rate_max
  reaction ← get BsKey.reaction_delay_max
  some (record b {
    opt_type = opt;
    audio_enc_type = audio;
    video = record (b.video) {
      enc_type = enc;
      fps = rate;
      ip_interval = rate;
      width = w;
      height = h;
      mjpeg_quality = quality;
      rate_ctl_type = control;
      max_quant = max;
      min_quant = min;
      init_quant = init;
      bps = bits *ℤ pos 1000;
      target_rate_max = target *ℤ pos 1000;
      reaction_delay_max = reaction *ℤ pos 1000;
      enabled_roi = value_or dnc (get BsKey.enabled_roi);
      roi_x = value_or dnc (get BsKey.roi_x);
      roi_y = value_or dnc (get BsKey.roi_y);
      roi_w = value_or dnc (get BsKey.roi_w);
      roi_h = value_or dnc (get BsKey.roi_h);
    };
  })

-- The loop over `n` bitstreams from number `i` on.
unfoldable pub read_all : ℤ → CfgFile → ℕ → ℕ → ℕ → (ℕ → Avbs) → Option (ℕ → Avbs)
unfolding read_bs off
read_all dnc f ch zero i bs = some bs
read_all dnc f ch (suc n) i bs = do
  b ← (if f.has_bs ch i then read_bs dnc (f.bs_value ch i) (bs i) else some (off (bs i)))
  read_all dnc f ch n (i + 1) (put bs i b)

unfoldable pub read_channel : ℤ → CfgFile → ℕ → ℕ → Av → Option Av
unfolding read_all
read_channel dnc f bt_num ch e = do
  noise ← f.channel_value ch ChannelKey.temporal_denoise
  interlace ← f.channel_value ch ChannelKey.de_interlace
  input ← f.channel_value ch ChannelKey.input_system
  bs ← read_all dnc f ch bt_num 0 e.bs
  some (record e { denoise = noise; de_interlace = interlace; input_system = input; bs = bs })

-- A bitstream from the channel's own file.
unfoldable pub load_bs : UpdateAvbs → Avbs → Avbs
unfolding off
load_bs u b =
    let rate : ℤ = if ltb_ℤ (pos 25) u.frame_rate then pos 25 else u.frame_rate in
    if eqb_ℤ u.stream_enable (pos 0) then off b else record b {
      opt_type = pos 1;
      audio_enc_type = pos 0;
      video = record (b.video) {
        enc_type = pos 0;
        fps = rate;
        bps = u.bit_rate;
        ip_interval = if ltb_ℤ (pos 2 *ℤ rate) u.ip_interval then pos 2 *ℤ rate else u.ip_interval;
        width = u.width;
        height = u.height;
        rate_ctl_type = if eqb_ℤ u.rate_ctl_type (pos 0) then pos 0 else pos 3;
        target_rate_max = u.target_rate_max;
        reaction_delay_max = u.reaction_delay_max;
        init_quant = u.init_quant;
        max_quant = u.max_quant;
        min_quant = u.min_quant;
        mjpeg_quality = u.mjpeg_quality;
        enabled_roi = u.enabled_roi;
        roi_x = u.roi_x;
        roi_y = u.roi_y;
        roi_w = u.roi_w;
        roi_h = u.roi_h;
      };
    }

-- CMOS is 2 and NTSC 0.
unfoldable pub known_input : ℤ → ℤ
known_input v = if ltb_ℤ (pos 2) v || ltb_ℤ v (pos 0) then pos 2 else v

unfoldable pub load_channel : ℕ → AvCfg → Av → Av
unfolding load_bs known_input
load_channel max f e = record e {
  denoise = f.denoise;
  de_interlace = f.de_interlace;
  input_system = known_input f.input_system;
  bs = λ j. if ltb j max then load_bs (f.ubs j) (e.bs j) else e.bs j;
}

-- What is written of a bitstream. The rest of the structure is as it was.
unfoldable pub save_bs : Avbs → UpdateAvbs → UpdateAvbs
save_bs b u =
    let v : Vbs = b.video in
    if eqb_ℤ b.opt_type opt_none then record u { stream_enable = pos 0 } else record u {
      stream_enable = pos 1;
      enc_type = v.enc_type;
      frame_rate = v.fps;
      bit_rate = v.bps;
      ip_interval = v.ip_interval;
      width = v.width;
      height = v.height;
      rate_ctl_type = v.rate_ctl_type;
      target_rate_max = v.target_rate_max;
      reaction_delay_max = v.reaction_delay_max;
      init_quant = v.init_quant;
      max_quant = v.max_quant;
      min_quant = v.min_quant;
      mjpeg_quality = v.mjpeg_quality;
      enabled_roi = v.enabled_roi;
      roi_x = v.roi_x;
      roi_y = v.roi_y;
      roi_w = v.roi_w;
      roi_h = v.roi_h;
    }

unfoldable pub save_channel : ℕ → ℕ → Av → AvCfg → AvCfg
unfolding save_bs
save_channel max ch e f = record {
  chn = ch;
  denoise = e.denoise;
  de_interlace = e.de_interlace;
  input_system = e.input_system;
  ubs = λ j. if ltb j max then save_bs (e.bs j) (f.ubs j) else f.ubs j;
}

-- One round of the loop over the channels: `enc` and the structure of the file, with the channel's
-- own file, `none` where there is none yet, and what the structure held before.
unfoldable pub cfg_channel :
    CfgConsts → CfgFile → ℕ → ℕ → Option AvCfg → AvCfg → (ℕ → Av) → Option ((ℕ → Av) × AvCfg)
unfolding read_channel load_channel save_channel
cfg_channel k f bt_num ch none before enc =
    if not (f.has_channel ch) then some (enc, before) else (do
      e ← read_channel k.dnc f bt_num ch (enc ch)
      some (put enc ch e, save_channel k.max_update_sub_chn ch e before))
cfg_channel k f bt_num ch (some own) before enc =
    if not (f.has_channel ch) then some (enc, before) else (do
      e ← read_channel k.dnc f bt_num ch (enc ch)
      (if ltb own.chn channel_num
          then some (
            put (put enc ch e) own.chn
                (load_channel k.max_update_sub_chn own (put enc ch e own.chn)),
            own,
          )
          else none))
