-- ===== src/Stream/Env.antt =====
-- What the streams use and src/ does not hold: the encoder driver (dvr_enc, dvr_common), the RTSP
-- library and `mmap`. Each call takes the state of the world and returns its result with the new
-- state. The frame pools, which `Frame` models, belong to the world too.
use Prim.Native.String.{String}
use avserver.Base.{ℕ, ℤ, Bool}

-- ENC_START, ENC_STOP and ENC_UPDATE.
pub data Command : Type 0 where
  start stop update : Command

-- The rate control part of a bitstream's parameters, with the flags of `feature_enable`.
pub record RateControl : Type 0 where
  pub bit_rate : ℤ
  pub enhance_h264_ratecontrol : Bool
  pub target_rate_max : ℤ
  pub reaction_delay_max : ℤ
  pub max_quant : ℤ
  pub min_quant : ℤ
  pub init_quant : ℤ

pub record Roi : Type 0 where
  pub is_use_roi : Bool
  pub x : ℤ
  pub y : ℤ
  pub width : ℤ
  pub height : ℤ

-- The parameters of one bitstream that the program computes.
pub record BsParam : Type 0 where
  pub out_bs : ℕ
  pub width : ℤ
  pub height : ℤ
  pub enc_type : ℤ
  pub frame_rate : ℤ
  pub ip_interval : ℤ
  pub mjpeg_function : Bool
  pub mj_quality : ℤ
  pub rate : RateControl
  pub roi : Roi

-- Those of the source of a channel.
pub record SourceParam : Type 0 where
  pub channel : ℕ
  pub input_pal : Bool
  pub gm3di_format : Bool
  pub frame_mode : Bool
  pub is_denoise : Bool
  pub is_3di : Bool
  pub denoise_field : Bool

pub record Env (W : Type 0) : Type 0 where
  -- `DVR_ENC_REPD_BT_NUM`, the number of bitstreams of a channel.
  pub bt_num : ℕ
  pub open_enc : W → ℤ × W
  pub close_fd : ℤ → W → W
  pub munmap : ℤ → ℤ → W → W
  pub set_channel_param : ℤ → SourceParam → BsParam → Bool → W → ℤ × W
  pub set_sub_bs_param : ℤ → BsParam → W → ℤ × W
  -- The queries return their result and the value that they write.
  pub query_buffer_size : ℤ → W → ℤ × ℤ × W
  pub query_snap_offset : ℤ → W → ℤ × ℤ × W
  pub query_sub_offset : ℤ → ℕ → W → ℤ × ℤ × W
  -- `none` of the C code is MAP_FAILED: the Boolean says whether the call failed.
  pub mmap : ℤ → ℤ → W → Bool × ℤ × W
  pub enc_control : ℤ → Command → ℕ → W → ℤ × W
  -- DVR_COMMON_APPLY with the tag of a channel and bitstream.
  pub common_apply : ℤ → ℕ → ℕ → W → ℤ × W
  -- `do_queue_alloc`
  pub queue_alloc : ℤ → W → ℤ × W
  -- GM_SS_TYPE_H264, GM_SS_TYPE_MP4, GM_SS_TYPE_MJPEG, GM_SS_TYPE_G711, GM_SS_TYPE_G726 and
  -- GM_SS_TYPE_AAC.
  pub ss_h264 : ℤ
  pub ss_mp4 : ℤ
  pub ss_mjpeg : ℤ
  pub ss_g711 : ℤ
  pub ss_g726 : ℤ
  pub ss_aac : ℤ
  pub stream_reg : String → ℤ → String → ℤ → W → ℤ × W
  pub stream_dereg : ℤ → W → ℤ × W
  pub init_video_frame : ℤ → W → W
  pub num_used_video_frame : ℤ → W → ℕ
  pub free_video_frame : ℤ → W → W
