-- ===== src/Stream/Types.antt =====
-- The records of inc/rtspd.h (98-232) and the constants that it defines.
use Prim.Native.String.{String}
use avserver.Base.{ℕ, ℤ, pos, Bool, ◌==◌, if◌then◌else◌}

-- DVR_ENC_EBST_ENABLE and DVR_ENC_EBST_DISABLE.
pub data Switch : Type 0 where
  enable disable : Switch

abbrev pub is_enabled : Switch → Bool
is_enabled enable = Bool.true
is_enabled disable = Bool.false

-- NONE_BS_EVENT, START_BS_EVENT, UPDATE_BS_EVENT and STOP_BS_EVENT.
pub data Event : Type 0 where
  none start update stop : Event

abbrev pub event_eq : Event → Event → Bool
event_eq none none = Bool.true
event_eq start start = Bool.true
event_eq update update = Bool.true
event_eq stop stop = Bool.true
event_eq _ _ = Bool.false

-- `opt_type_t`
abbrev pub opt_none : ℤ
opt_none = pos 0

abbrev pub rtsp_live_streaming : ℤ
rtsp_live_streaming = pos 1

abbrev pub opt_end : ℤ
opt_end = pos 5

-- The encoder types, as the comment of `vbs_t` numbers them.
abbrev pub enc_type_h264 : ℤ
enc_type_h264 = pos 0

abbrev pub enc_type_mpeg : ℤ
enc_type_mpeg = pos 1

abbrev pub enc_type_mjpeg : ℤ
enc_type_mjpeg = pos 2

-- RATE_CTL_CBR, RATE_CTL_VBR, RATE_CTL_ECBR and RATE_CTL_EVBR.
abbrev pub rate_ctl_cbr : ℤ
rate_ctl_cbr = pos 0

abbrev pub rate_ctl_vbr : ℤ
rate_ctl_vbr = pos 1

abbrev pub rate_ctl_ecbr : ℤ
rate_ctl_ecbr = pos 2

abbrev pub rate_ctl_evbr : ℤ
rate_ctl_evbr = pos 3

-- NTSC, PAL and CMOS.
abbrev pub pal : ℤ
pal = pos 1

-- `CHANNEL_NUM`
abbrev pub channel_num : ℕ
channel_num = 2

-- `vbs_t`
pub record Vbs : Type 0 where
  pub enabled : Switch
  pub enc_type : ℤ
  pub width : ℤ
  pub height : ℤ
  pub fps : ℤ
  pub ip_interval : ℤ
  pub bps : ℤ
  pub rate_ctl_type : ℤ
  pub target_rate_max : ℤ
  pub reaction_delay_max : ℤ
  pub max_quant : ℤ
  pub min_quant : ℤ
  pub init_quant : ℤ
  pub mjpeg_quality : ℤ
  pub enabled_snapshot : ℤ
  pub enabled_roi : ℤ
  pub roi_x : ℤ
  pub roi_y : ℤ
  pub roi_w : ℤ
  pub roi_h : ℤ

-- `priv_vbs_t`; its statistics are those that `close_bs` clears.
pub record PrivVbs : Type 0 where
  pub offs : ℤ
  pub buf_usage : ℤ
  pub sdpstr : String
  pub tick : ℕ
  pub tinc : ℤ
  pub timed : Bool
  pub timeval : ℕ
  pub itvl_fps : ℤ
  pub itvl_bps : ℤ
  pub avg_fps : ℤ
  pub avg_bps : ℤ
  pub qno : ℤ

-- `avbs_t`, with the encoder type of its `abs_t`.
pub record Avbs : Type 0 where
  pub event : Event
  pub enabled : Switch
  pub opt_type : ℤ
  pub video : Vbs
  pub audio_enc_type : ℤ

-- `priv_avbs_t`. Each of its function pointers only ever takes one function or NULL, so that it is
-- a Boolean: whether it is set.
pub record PrivAvbs : Type 0 where
  pub play : Bool
  pub congest : Bool
  pub sr : ℤ
  pub name : String
  pub reset_intra_frame : Bool
  pub has_open : Bool
  pub has_close : Bool
  pub has_read : Bool
  pub has_write : Bool
  pub has_free : Bool
  pub video : PrivVbs
  pub audio_qno : ℤ

-- `av_t`, less the staged updates, which `Update` models.
pub record Av : Type 0 where
  pub bs : ℕ → Avbs
  pub denoise : ℤ
  pub de_interlace : ℤ
  pub input_system : ℤ
  pub enabled : Switch
  pub priv_bs : ℕ → PrivAvbs
  pub enc_fd : ℤ
  pub v_bs_mbuf_addr : ℤ
  pub v_bs_mbuf_size : ℤ
  pub bs_buf_snap_offset : ℤ

-- The file's variables: `enc`, `rtspd_set_event`, the static `bs_event` of `bs_new_event`,
-- `rtspd_dvr_fd` and `snap_init_OK`, beside the state of the world around the program.
pub record Rtspd (W : Type 0) : Type 0 where
  pub enc : ℕ → Av
  pub set_event : Bool
  pub bs_event : Event
  pub dvr_fd : ℤ
  pub snap_init_ok : Bool
  pub world : W

-- One entry of an array is written.
unfoldable pub put : {A : Type 0} → (ℕ → A) → ℕ → A → ℕ → A
put f i a j = if j == i then a else f j

module _ {W : Type 0} where
  abbrev pub get_bs : Rtspd W → ℕ → ℕ → Avbs
  get_bs s ch sub = (s.enc ch).bs sub

  abbrev pub get_pb : Rtspd W → ℕ → ℕ → PrivAvbs
  get_pb s ch sub = (s.enc ch).priv_bs sub

  unfoldable pub set_av : ℕ → Av → Rtspd W → Rtspd W
  set_av ch a s = record s { enc = put s.enc ch a }

  unfoldable pub set_bs : ℕ → ℕ → Avbs → Rtspd W → Rtspd W
  unfolding set_av
  set_bs ch sub b s = set_av ch (record (s.enc ch) { bs = put (s.enc ch).bs sub b }) s

  unfoldable pub set_pb : ℕ → ℕ → PrivAvbs → Rtspd W → Rtspd W
  unfolding set_av
  set_pb ch sub p s = set_av ch (record (s.enc ch) { priv_bs = put (s.enc ch).priv_bs sub p }) s
