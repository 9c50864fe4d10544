-- ===== src/Stream/Start.antt =====
-- The variables of the streams before the configuration is read: `env_enc_init`, src/rtspd.c
-- 1491-1543. Entries past DVR_ENC_REPD_BT_NUM do not exist in the source.
use avserver.Base.{ℕ, zero, suc, pos, minus_one, false}
use avserver.Stream.Types.{
  disable, Event, Vbs, Avbs, PrivAvbs, Av, rtsp_live_streaming, enc_type_h264, rate_ctl_ecbr,
}

-- `memset`
abbrev pub no_video : Vbs
no_video = record {
  enabled = disable;
  enc_type = pos 0;
  width = pos 0;
  height = pos 0;
  fps = pos 0;
  ip_interval = pos 0;
  bps = pos 0;
  rate_ctl_type = pos 0;
  target_rate_max = pos 0;
  reaction_delay_max = pos 0;
  max_quant = pos 0;
  min_quant = pos 0;
  init_quant = pos 0;
  mjpeg_quality = pos 0;
  enabled_snapshot = pos 0;
  enabled_roi = pos 0;
  roi_x = pos 0;
  roi_y = pos 0;
  roi_w = pos 0;
  roi_h = pos 0;
}

abbrev pub no_bs : Avbs
no_bs = record {
  event = Event.none;
  enabled = disable;
  opt_type = pos 0;
  video = no_video;
  audio_enc_type = pos 0;
}

-- With the numbers of a queue and of a stream that are not there.
abbrev pub no_priv_bs : PrivAvbs
no_priv_bs = record {
  play = false;
  congest = false;
  sr = minus_one;
  name = "";
  reset_intra_frame = false;
  has_open = false;
  has_close = false;
  has_read = false;
  has_write = false;
  has_free = false;
  video = record {
    offs = pos 0;
    buf_usage = pos 0;
    sdpstr = "";
    tick = 0;
    tinc = pos 0;
    timed = false;
    timeval = 0;
    itvl_fps = pos 0;
    itvl_bps = pos 0;
    avg_fps = pos 0;
    avg_bps = pos 0;
    qno = minus_one;
  };
  audio_qno = minus_one;
}

abbrev pub first_bs : Avbs
first_bs = record no_bs {
  opt_type = rtsp_live_streaming;
  video = record no_video {
    enc_type = enc_type_h264;
    bps = pos 2000000;
    width = pos 1280;
    height = pos 720;
    fps = pos 30;
    ip_interval = pos 30;
    rate_ctl_type = rate_ctl_ecbr;
    target_rate_max = pos 4194304;
    reaction_delay_max = pos 10000;
    max_quant = pos 51;
    min_quant = pos 1;
    init_quant = pos 30;
    enabled_snapshot = pos 1;
  };
}

-- The first bitstream of a channel.
abbrev pub start_bs : ℕ → ℕ → Avbs
start_bs zero zero = first_bs
start_bs zero (suc j) = no_bs
start_bs (suc ch) j = no_bs

abbrev pub env_enc_init : ℕ → Av
env_enc_init ch = record {
  bs = start_bs ch;
  denoise = pos 0;
  de_interlace = pos 0;
  input_system = pos 0;
  enabled = disable;
  priv_bs = λ _. no_priv_bs;
  enc_fd = minus_one;
  v_bs_mbuf_addr = pos 0;
  v_bs_mbuf_size = pos 0;
  bs_buf_snap_offset = pos 0;
}
