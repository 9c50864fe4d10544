-- ===== src/Stream/Tests.antt =====
-- The first stream as `env_enc_init` sets it up, and small states of the event loop: examples of
-- the theorems.
use mathlib.Core.Path.{subst}
use avserver.Base.{
  ℕ, ◌<◌, ◌≤◌, pos, negsuc, minus_one, ◌≡◌, refl, sym, arith, List, [], ◌∷◌, ◌==◌, ◌&&◌,
  if◌then◌else◌, true, false, inl,
}
use avserver.Stream.Types.{
  Avbs, PrivAvbs, Rtspd, Event, enable, disable, none, start, update, stop, event_eq,
  rtsp_live_streaming, enc_type_h264,
}
use avserver.Stream.Env.{Env}
use avserver.Stream.Control.{in_range}
use avserver.Stream.Param.{bs_ok}
use avserver.Stream.Bitstream.{open_bs}
use avserver.Stream.Bitstream.Failures.{CanOpen, open_bs-retry}
use avserver.Stream.Update.{
  cfgud_init, Setter, set_init_q, set_max_q, set_res, set_enc_type, stage_all, cfgud_chk_parm,
  is_multiple_of_16,
}
use avserver.Stream.Update.Laws.{IsConfigured, chk_parm-IsConfigured}
use avserver.Stream.Events.{
  any_below, any_bs, bs_check_event, bs_check_event_type, bs_new_event, is_live, to_event,
  env_set_bs_new_event,
}
use avserver.Stream.Events.Keeps.{event_at}
use avserver.Stream.Events.Rounds.{start_round, rounds, start_served, update_round-stuck}
use avserver.Stream.Events.Stops.{stop_round}
use avserver.Stream.Events.Requests.{Wanted, starts, Records, env_set-accepts, env_set-refuses}

abbrev first_stream : Avbs
first_stream = record {
  event = none;
  enabled = disable;
  opt_type = rtsp_live_streaming;
  video = record {
    enabled = disable;
    enc_type = enc_type_h264;
    width = pos 1280;
    height = pos 720;
    fps = pos 30;
    ip_interval = pos 30;
    bps = pos 2000000;
    rate_ctl_type = pos 2;
    target_rate_max = pos 4194304;
    reaction_delay_max = pos 10000;
    max_quant = pos 51;
    min_quant = pos 1;
    init_quant = pos 30;
    mjpeg_quality = pos 0;
    enabled_snapshot = pos 1;
    enabled_roi = pos 0;
    roi_x = pos 0;
    roi_y = pos 0;
    roi_w = pos 0;
    roi_h = pos 0;
  };
  audio_enc_type = pos 0;
}

first_stream-IsConfigured : IsConfigured first_stream.video
unfolding is_multiple_of_16
first_stream-IsConfigured = ground arith

-- The second and the last are refused.
abbrev changes : List Setter
changes =
    set_max_q enc_type_h264 (pos 40)
    ∷ set_init_q enc_type_h264 (pos 52)
    ∷ set_enc_type (pos 1)
    ∷ set_res (pos 640) (pos 350)
    ∷ []

chk_parm-IsConfigured_example :
    IsConfigured
      (cfgud_chk_parm
        (negsuc 65534)
        (stage_all changes (cfgud_init (negsuc 65534)))
        first_stream).1.video
chk_parm-IsConfigured_example =
    chk_parm-IsConfigured (negsuc 65534) changes first_stream first_stream-IsConfigured

-- Devices that always answer well, with two bitstreams to a channel and no client.
abbrev quiet : Env (Unit {0})
quiet = record {
  bt_num = 2;
  open_enc = λ w. (pos 5, w);
  close_fd = λ fd w. w;
  munmap = λ a n w. w;
  set_channel_param = λ fd s b q w. (pos 0, w);
  set_sub_bs_param = λ fd b w. (pos 0, w);
  query_buffer_size = λ fd w. (pos 0, pos 4096, w);
  query_snap_offset = λ fd w. (pos 0, pos 2048, w);
  query_sub_offset = λ fd i w. (pos 0, pos 1024, w);
  mmap = λ fd n w. (false, pos 9, w);
  enc_control = λ fd c i w. (pos 0, w);
  common_apply = λ fd c i w. (pos 0, w);
  queue_alloc = λ t w. (pos 3, w);
  ss_h264 = pos 1;
  ss_mp4 = pos 2;
  ss_mjpeg = pos 3;
  ss_g711 = pos 4;
  ss_g726 = pos 5;
  ss_aac = pos 6;
  stream_reg = λ n q p a w. (pos 1, w);
  stream_dereg = λ r w. (pos 0, w);
  init_video_frame = λ q w. w;
  num_used_video_frame = λ q w. 0;
  free_video_frame = λ q w. w;
}

abbrev no_stream : PrivAvbs
no_stream = record {
  play = false;
  congest = false;
  sr = minus_one;
  name = "";
  reset_intra_frame = false;
  has_open = false;
  has_close = false;
  has_read = false;
  has_write = false;
  has_free = false;
  video = record {
    offs = pos 0;
    buf_usage = pos 0;
    sdpstr = "";
    tick = 0;
    tinc = pos 0;
    timed = false;
    timeval = 0;
    itvl_fps = pos 0;
    itvl_bps = pos 0;
    avg_fps = pos 0;
    avg_bps = pos 0;
    qno = minus_one;
  };
  audio_qno = minus_one;
}

-- Every bitstream off, with one request at the main stream of channel 0.
abbrev asks : Event → Event → Rtspd (Unit {0})
asks turn ev = record {
  enc = λ ch. record {
    bs = λ sub. record first_stream { event = if (ch == 0) && (sub == 0) then ev else none };
    denoise = pos 0;
    de_interlace = pos 0;
    input_system = pos 2;
    enabled = disable;
    priv_bs = λ sub. no_stream;
    enc_fd = minus_one;
    v_bs_mbuf_addr = pos 0;
    v_bs_mbuf_size = pos 0;
    bs_buf_snap_offset = pos 0;
  };
  set_event = true;
  bs_event = turn;
  dvr_fd = pos 4;
  snap_init_ok = false;
  world = tt;
}

asks-waits : (turn : Event) → bs_check_event quiet (asks turn start) ≡ true
unfolding bs_check_event any_bs any_below
asks-waits turn = refl

stop_waits : bs_check_event quiet (asks stop stop) ≡ true
unfolding bs_check_event any_bs any_below
stop_waits = refl

update_waits :
    (bs_check_event quiet (asks update update) ≡ true)
    × (bs_check_event_type quiet update (asks update update) ≡ true)
unfolding bs_check_event bs_check_event_type any_bs any_below
update_waits = (refl, refl)

start_round_example :
    let t = (bs_new_event quiet (asks start start)).1 in
    ((ch sub : ℕ)
      → ch < 2
      → sub < 2
      → event_at t ch sub ≡ (
          if event_eq (event_at (asks start start) ch sub) start
          then none
          else event_at (asks start start) ch sub))
    × (t.bs_event ≡ stop)
    × (t.set_event ≡ true)
start_round_example = start_round quiet (asks start start) (asks-waits start) refl

nothing_else :
    (bs_check_event_type quiet stop (asks stop start) ≡ false)
    × (bs_check_event_type quiet update (asks stop start) ≡ false)
unfolding bs_check_event_type any_bs any_below
nothing_else = (refl, refl)

start_served_example : (k : ℕ) × (k ≤ 3) × (event_at (rounds quiet k (asks stop start)) 0 0 ≡ none)
start_served_example =
    start_served quiet (asks stop start) 0 0 (λ e. absurd (cc)) nothing_else.0 nothing_else.1
      (omega arith) (omega arith) refl

stop_round_example :
    let t = (bs_new_event quiet (asks stop stop)).1 in
    (bs_check_event_type quiet stop t ≡ false) × (t.bs_event ≡ update)
stop_round_example = stop_round quiet (asks stop stop) (λ q w. refl) stop_waits refl

no_queue : (ch sub : ℕ) → is_live quiet ch sub (asks update update) ≡ false
unfolding is_live
no_queue ch sub = refl

update_round-stuck_example : bs_new_event quiet (asks update update) ≡ (tt, asks update update)
update_round-stuck_example =
    update_round-stuck quiet (asks update update) update_waits.0 refl update_waits.1
      (λ ch sub e. no_queue ch sub)

event_one : (to_event (pos 1) ≡ start) × (in_range 2 (pos 0) (pos 0) ≡ true)
unfolding to_event in_range
event_one = (refl, refl)

env_set-accepts_example :
    Records quiet
      (asks start none)
      0
      0
      (to_event (pos 1))
      (env_set_bs_new_event quiet (pos 0) (pos 0) (pos 1) (asks start none))
env_set-accepts_example =
    env_set-accepts quiet (asks start none) (pos 0) (pos 0) (pos 1) event_one.1
      (subst (Wanted quiet (asks start none) 0 0) (sym event_one.0) (starts refl refl))

out_of_range : in_range 2 (pos 2) (pos 0) ≡ false
unfolding in_range
out_of_range = refl

env_set-refuses_example :
    (env_set_bs_new_event quiet (pos 2) (pos 0) (pos 1) (asks start none)).1 ≡ asks start none
env_set-refuses_example =
    env_set-refuses quiet (asks start none) (pos 2) (pos 0) (pos 1) (inl out_of_range)

-- The encoder opens but refuses every set of parameters.
abbrev refusing : Env (Unit {0})
refusing = record quiet { set_channel_param = λ fd s b q w. (minus_one, w) }

asks-CanOpen : CanOpen refusing (asks start none) 0
unfolding bs_ok
asks-CanOpen = record {
  channel = refl;
  number = refl;
  config = refl;
  off = refl;
  closed = refl;
  idle = refl;
}

open_bs-retry_example :
    let (ret, t) = open_bs refusing 0 0 (asks start none) in
    (ret ≡ minus_one) × (open_bs refusing 0 0 t ≡ (minus_one, t))
open_bs-retry_example =
    open_bs-retry refusing 0 (asks start none) asks-CanOpen
      (record { opens = refl; refuses = λ fd sp bp b w. refl })

-- Every bitstream of every channel on.
abbrev busy : Rtspd (Unit {0})
busy = record (asks start none) {
  enc = λ ch. record ((asks start none).enc ch) {
    bs = λ sub. record first_stream {
      enabled = enable;
      video = record (first_stream.video) { enabled = enable };
    };
    enabled = enable;
    enc_fd = pos 5;
  };
}
