-- ===== src/Live/Tests.antt =====
-- Live streaming of src/rtspd.c at concrete inputs.
use avserver.Base.{
  ℕ, zero, suc, ◌<◌, ◌+◌, ◌==◌, ◌≡◌, refl, arith, pos, negsuc, eqb_ℤ, true, false, if◌then◌else◌,
  none, some, [], ◌∷◌, ◌++◌,
}
use avserver.Frame.{qno_ok}
use avserver.Frame.Heap.{VideoFrame, slot, Heap, blank}
use avserver.Frame.Dll.{Cells}
use avserver.Frame.Pool.{pool, info}
use avserver.Frame.Walk.{find}
use avserver.Stream.Types.{
  disable, Event, Vbs, Avbs, PrivAvbs, Av, rtsp_live_streaming, enc_type_h264, get_pb,
}
use avserver.Stream.Control.{in_range}
use avserver.Live.{EncBuffer, Live, LiveConsts, LiveIo, write_rtp_frame, frm_cb}
use avserver.Live.Buffers.{puts, one, Holds, Conserves, write_rtp_frame-Conserves}
use avserver.Live.Poll.{Poll, Answers}
use avserver.Live.Poll.Served.{Ends, handed, do_poll_event-Ends}
use avserver.Live.Poll.{do_poll_event}
use avserver.Live.Streams.{StreamCmd, is_stream, cmd_cb}
use avserver.Live.Streams.Play.{IsOnly, play-teardown}
use avserver.Live.Callback.{frm_cb-returns, frm_cb-faults}

abbrev video : Vbs
video = record {
  enabled = disable;
  enc_type = enc_type_h264;
  width = pos 1280;
  height = pos 720;
  fps = pos 30;
  ip_interval = pos 30;
  bps = pos 2000000;
  rate_ctl_type = pos 2;
  target_rate_max = pos 4194304;
  reaction_delay_max = pos 10000;
  max_quant = pos 51;
  min_quant = pos 1;
  init_quant = pos 30;
  mjpeg_quality = pos 0;
  enabled_snapshot = pos 1;
  enabled_roi = pos 0;
  roi_x = pos 0;
  roi_y = pos 0;
  roi_w = pos 0;
  roi_h = pos 0;
}

abbrev bitstream : Avbs
bitstream = record {
  event = Event.none;
  enabled = disable;
  opt_type = rtsp_live_streaming;
  video = video;
  audio_enc_type = pos 0;
}

-- A stream that plays from queue 0.
abbrev private_part : PrivAvbs
private_part = record {
  play = true;
  congest = false;
  sr = pos 0;
  name = "0";
  reset_intra_frame = true;
  has_open = true;
  has_close = true;
  has_read = true;
  has_write = true;
  has_free = false;
  video = record {
    offs = pos 0;
    buf_usage = pos 1;
    sdpstr = "";
    tick = 0;
    tinc = pos 3000;
    timed = false;
    timeval = 0;
    itvl_fps = pos 0;
    itvl_bps = pos 0;
    avg_fps = pos 0;
    avg_bps = pos 0;
    qno = pos 0;
  };
  audio_qno = pos 0;
}

abbrev channel : Av
channel = record {
  bs = λ _. bitstream;
  denoise = pos 0;
  de_interlace = pos 0;
  input_system = pos 2;
  enabled = disable;
  priv_bs = λ _. private_part;
  enc_fd = pos 7;
  v_bs_mbuf_addr = pos 4096;
  v_bs_mbuf_size = pos 65536;
  bs_buf_snap_offset = pos 0;
}

-- The server reads buffer 9, at address 4100.
abbrev in_use : VideoFrame
in_use = record { ch_num = 0; sub_num = 0; queue = 9; search_key = pos 4100 }

-- Slot 1 is free, slot 2 in use.
abbrev heap : Heap
heap a = if a == 1 then some (slot 0 0 blank) else if a == 2 then some (slot 0 0 in_use) else none

abbrev free_cells : Cells
free_cells = (1, blank) ∷ []

abbrev used_cells : Cells
used_cells = (2, in_use) ∷ []

abbrev state : Live
state = record {
  enc = λ _. channel;
  set_event = false;
  bs_event = Event.none;
  dvr_fd = pos 3;
  snap_init_ok = false;
  world = record {
    frame_info = λ _. info 1 2;
    heap = heap;
    nvr_send_status = λ _ _. true;
    calls = [];
  };
}

state-Holds : Holds state (pos 0) (pool free_cells used_cells)
state-Holds = (
  refl,
  record {
    avail_list = ((λ e. absurd (omega arith)), refl, refl, tt);
    used_list = ((λ e. absurd (omega arith)), refl, refl, tt);
    avail_head = refl;
    used_head = refl;
    apart = λ a m. ground arith;
  },
)

abbrev consts : LiveConsts
consts = record { nal = 0; pps = 8; sps = 7; slice_idr = 5; err_full = negsuc 0; bt_num = 9 }

-- The server's queue is full; the driver takes each buffer.
abbrev io : LiveIo
io = record { queue_put = pos 0; media_enqueue = negsuc 0 }

abbrev buffer : EncBuffer
buffer = record {
  queue = 10;
  offset = pos 64;
  size = pos 5;
  bytes = 0 ∷ 0 ∷ 0 ∷ 1 ∷ 103 ∷ [];
  tick = 90;
}

write_rtp_frame-Conserves_example :
    Conserves consts io 0 0 10 state
      (pool free_cells used_cells)
      (write_rtp_frame consts io 0 0 buffer state)
unfolding in_range qno_ok
write_rtp_frame-Conserves_example =
    write_rtp_frame-Conserves consts io 0 0 refl buffer 1 blank state [] used_cells refl state-Holds

frm_cb-faults_example : frm_cb consts io true (pos 0) (pos 1) state ≡ none
unfolding find
frm_cb-faults_example =
    frm_cb-faults consts io (pos 0) (pos 1) state free_cells used_cells state-Holds (omega arith)
      refl

frm_cb-returns_example :
    (ys : Cells) × (v : VideoFrame) × (zs : Cells) × (t : Live) × (used_cells
      ≡ ys ++ ((find (pos 4100) used_cells, v) ∷ zs))
    × (eqb_ℤ v.search_key (pos 4100) ≡ true)
    × (frm_cb consts io true (pos 0) (pos 4100) state ≡ some (pos 0, t))
    × Holds t (pos 0) (pool ((find (pos 4100) used_cells, v) ∷ free_cells) (ys ++ zs))
    × ((b : ℕ) → puts b t.world.calls ≡ puts b state.world.calls + one (b == v.queue))
unfolding find in_range qno_ok
frm_cb-returns_example =
    frm_cb-returns consts io (pos 0) (pos 4100) state free_cells used_cells refl state-Holds
      (omega arith) (refl, tt) (λ e. absurd (omega arith))

-- Only channel 0 has an event.
abbrev answers : Answers
answers = record {
  ret = pos 1;
  revents = λ ch. ch == 0;
  main_in = λ _. true;
  got = λ _. pos 0;
  buffer = λ _. buffer;
  io = λ _. io;
  got_snap = λ _. negsuc 0;
  snap = λ _. buffer;
}

abbrev polling : Poll
polling = record {
  fds = λ _. record { fd = pos 7; main = λ j. j == 0; snap = false };
  num_time = 4;
  restarts = 0;
  snap_start = 0;
}

do_poll_event-Ends_example :
    Ends consts answers 0
      (handed answers 0)
      state
      (pool free_cells used_cells)
      (λ t. (record polling { num_time = 0 }, t))
      (do_poll_event consts answers polling state)
unfolding in_range qno_ok
do_poll_event-Ends_example =
    do_poll_event-Ends consts answers 0 state polling 1 blank [] used_cells (omega arith) refl
      (λ c u. ground (arith, u)) refl refl refl refl refl state-Holds

-- One bitstream for each channel; that of channel 1 has the number and the name 1.
abbrev one_each : LiveConsts
one_each = record consts { bt_num = 1 }

abbrev named : ℕ → Av
named zero = channel
named (suc _) = record channel {
  priv_bs = λ _. record private_part { sr = pos 1; name = "1"; play = false };
}

abbrev two_streams : Live
two_streams = record state { enc = named }

two_streams-alone :
    (c j : ℕ)
    → c < 2
    → j < 1
    → ¬ ((c ≡ 1) × (j ≡ 0))
    → is_stream "1" (pos 1) (get_pb two_streams c j) ≡ false
unfolding is_stream
two_streams-alone zero j l m u = refl
two_streams-alone (suc zero) j l m u = absurd (u (refl, omega (arith, m)))
two_streams-alone (suc (suc c)) j l m u = absurd (omega (arith, l))

two_streams-IsOnly : IsOnly one_each "1" (pos 1) 1 0 two_streams
unfolding is_stream
two_streams-IsOnly = record {
  ch_ok = omega arith;
  sub_ok = omega arith;
  matches = refl;
  alone = two_streams-alone;
}

play-teardown_example :
    let (r, t) = cmd_cb one_each "1" (pos 1) StreamCmd.play two_streams in
    let (q, u) = cmd_cb one_each "1" (pos 1) StreamCmd.teardown t in
    (r ≡ pos 0)
    × (q ≡ pos 0)
    × (get_pb t 1 0 ≡ record (get_pb two_streams 1 0) { reset_intra_frame = true; play = true })
    × ((get_pb u 1 0).play ≡ false)
    × ((get_pb u 1 0).video.timed ≡ false)
    × ((c j : ℕ)
        → ¬ ((c ≡ 1) × (j ≡ 0))
        → (get_pb t c j ≡ get_pb two_streams c j) × (get_pb u c j ≡ get_pb two_streams c j))
play-teardown_example = play-teardown one_each "1" (pos 1) 1 0 two_streams two_streams-IsOnly refl
