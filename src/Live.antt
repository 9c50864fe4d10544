-- ===== src/Live.antt =====
-- Live streaming of video, src/rtspd.c 2569-2635, 2702-2848 and 3280-3291: a buffer of the encoder
-- is got, written to the RTSP server, and given back when the server calls. The state is that of
-- the streams, whose world is the frame pools (`Frame`) and a record of the calls.
mod Tests
pub mod Pooled
pub mod Buffers
pub mod Callback
pub mod Poll
pub mod Streams
use avserver.Base.{
  ℕ, ◌+◌, ◌*◌, ◌==◌, ltb, ℤ, pos, negsuc, minus_one, ◌+ℤ◌, eqb_ℤ, ltb_ℤ, leb_ℤ, Bool, true, false,
  ◌&&◌, ◌||◌, not, if◌then◌else◌, Option, none, some, List, [], ◌∷◌, ◌++◌,
}
use avserver.Clock.{h264_get_nal_type}
use avserver.Frame.{
  FrameInfo, qno_ok, take_video_frame, put_video_frame, search_video_frame, video_frame_number,
}
use avserver.Frame.Heap.{Ptr, null, VideoFrame, Heap, Cmd, pure, ◌>>=◌, ◌>>◌, load, store}
use avserver.Stream.Types.{
  Event, event_eq, Vbs, PrivVbs, Avbs, PrivAvbs, Av, Rtspd, get_bs, get_pb, set_pb,
}
use avserver.Stream.Control.{in_range}

-- The part of `dvr_enc_queue_get` that the code reads, with the bytes that it points at and the
-- tick that `get_tick` makes of its time. `queue` stands for the driver's own record.
pub record EncBuffer : Type 0 where
  pub queue : ℕ
  pub offset : ℤ
  pub size : ℤ
  pub bytes : List ℕ
  pub tick : ℕ

-- The calls of the driver and of the libraries.
pub data LiveCall : Type 0 where
  -- DVR_ENC_QUEUE_PUT and DVR_ENC_RESET_INTRA
  queue_put : ℤ → ℕ → LiveCall
  reset_intra : ℤ → ℕ → LiveCall
  -- `send_video_frame`, less its time: the data, whether it is of a sub-channel, whether a key
  -- frame, and sizes
  send_video : ℤ → Bool → Bool → ℤ → ℤ → ℤ → LiveCall
  -- `stream_media_enqueue`, less its type: the queue, the data, its size and its tick
  media_enqueue : ℤ → ℤ → ℤ → ℕ → LiveCall
  -- `mt_write`: the data, its size, whether a key frame, the stream, the tick and sizes
  mt_write : ℤ → ℤ → Bool → ℕ → ℕ → ℤ → ℤ → LiveCall
  -- ENC_SNAP, and `write_jpg_data`: the data, its size and the number of the picture
  enc_snap : ℤ → LiveCall
  write_jpg_data : ℤ → ℤ → ℕ → LiveCall

pub record LiveWorld : Type 0 where
  pub frame_info : ℤ → FrameInfo
  pub heap : Heap
  -- NVR_send_status
  pub nvr_send_status : ℕ → ℕ → Bool
  pub calls : List LiveCall

abbrev pub Live : Type 0
Live = Rtspd LiveWorld

-- The constants of headers that the repository does not hold: the types of a NAL unit, ERR_FULL
-- and DVR_ENC_REPD_BT_NUM.
pub record LiveConsts : Type 0 where
  pub nal : ℕ
  pub pps : ℕ
  pub sps : ℕ
  pub slice_idr : ℕ
  pub err_full : ℤ
  pub bt_num : ℕ

-- The results of the calls that a function makes.
pub record LiveIo : Type 0 where
  pub queue_put : ℤ
  pub media_enqueue : ℤ

unfoldable pub call : LiveCall → Live → Live
call c s = record s { world = record (s.world) { calls = s.world.calls ++ c ∷ [] } }

unfoldable pub set_pool : ℤ → FrameInfo → Heap → Live → Live
set_pool qno i h s = record s {
  world = record (s.world) {
    frame_info = λ q. if eqb_ℤ q qno then i else s.world.frame_info q;
    heap = h;
  };
}

-- The fields of a slot's frame are written.
unfoldable pub set_frame : Ptr → VideoFrame → Cmd (Unit {0})
set_frame fs v = do s ← load fs; store fs (some (record s { vf = v }))

unfoldable pub take_slot : ℤ → VideoFrame → FrameInfo → Cmd (Ptr × FrameInfo)
unfolding set_frame
take_slot qno v info = do (fs, i) ← take_video_frame qno info; set_frame fs v; pure (fs, i)

unfoldable pub find_slot : ℤ → FrameInfo → Cmd (Ptr × VideoFrame)
find_slot key info = do
  fs ← search_video_frame (video_frame_number + 1) key info
  x ← load fs
  pure (fs, x.vf)

-- The address of a buffer.
unfoldable pub entity : ℕ → ℕ → EncBuffer → Live → ℤ
entity ch sub d s = (s.enc ch).v_bs_mbuf_addr +ℤ (get_pb s ch sub).video.offs +ℤ d.offset

-- The first buffer after a start begins the time.
unfoldable pub begin : ℕ → ℕ → EncBuffer → Live → Live
unfolding set_pb
begin ch sub d s =
    let pb : PrivAvbs = get_pb s ch sub in
    if pb.video.timed
    then s
    else set_pb ch sub
        (record pb { congest = false; video = record (pb.video) { tick = d.tick; timed = true } }) s

unfoldable pub ask_intra : ℕ → ℕ → Live → Live
unfolding call
ask_intra ch sub s = call (LiveCall.reset_intra (s.enc ch).enc_fd sub) s

unfoldable pub reset_wanted : ℕ → ℕ → Live → Live
unfolding ask_intra set_pb
reset_wanted ch sub s =
    if (get_pb s ch sub).reset_intra_frame
    then set_pb ch sub (record (get_pb s ch sub) { reset_intra_frame = false }) (ask_intra ch sub s)
    else s

module _ (k : LiveConsts) where
  -- The result, and the state after the driver has been asked to take the buffer back.
  unfoldable pub free_bs_data : LiveIo → ℕ → ℕ → ℕ → Live → ℤ × Live
  unfolding call set_pb
  free_bs_data io ch sub q s =
      let s' : Live = call (LiveCall.queue_put (s.enc ch).enc_fd q) s in
      let pb : PrivAvbs = get_pb s' ch sub in
      if not (in_range k.bt_num (pos ch) (pos sub))
      then (minus_one, s)
      else if ltb_ℤ io.queue_put (pos 0)
      then (io.queue_put, s')
      else (
        io.queue_put,
        set_pb ch sub
            (record pb {
              video = record (pb.video) { buf_usage = pb.video.buf_usage +ℤ minus_one };
            })
            s',
      )

  -- `ret` is the result of the driver's queue.
  unfoldable pub get_bs_data : ℤ → ℕ → ℕ → Live → ℤ × Live
  unfolding set_pb
  get_bs_data ret ch sub s =
      let pb : PrivAvbs = get_pb s ch sub in
      if not (in_range k.bt_num (pos ch) (pos sub))
      then (minus_one, s)
      else if ltb_ℤ ret (pos 0)
      then (ret, s)
      else (
        ret,
        set_pb ch sub
            (record pb { video = record (pb.video) { buf_usage = pb.video.buf_usage +ℤ pos 1 } }) s,
      )

  unfoldable pub is_key : EncBuffer → Bool
  is_key d = let t : ℕ = h264_get_nal_type k.nal k.pps d.bytes in (t == k.sps) || (t == k.slice_idr)

  -- To the recorder of the network, unless the buffer is too large for its rate control.
  unfoldable pub send_nvr : ℕ → ℕ → EncBuffer → Live → Live
  unfolding ask_intra call entity is_key
  send_nvr ch sub d s =
      let v : Vbs = (get_bs s ch sub).video in
      if not (s.world.nvr_send_status ch sub)
      then s
      else if ltb_ℤ (pos (500 * 1024)) d.size
          && (eqb_ℤ v.rate_ctl_type (pos 0) || eqb_ℤ v.rate_ctl_type (pos 2))
      then ask_intra ch sub s
      else call
          (LiveCall.send_video (entity ch sub d s) (not (ch == 0)) (is_key d) d.size v.height
            v.width)
          s

  -- Where the server has refused the buffer.
  unfoldable pub mark_congest : LiveIo → ℕ → ℕ → Live → Live
  unfolding set_pb
  mark_congest io ch sub s =
      if eqb_ℤ io.media_enqueue k.err_full
      then set_pb ch sub (record (get_pb s ch sub) { congest = true }) s
      else s

  -- The slot and the buffer go back.
  unfoldable pub give_slot : LiveIo → ℕ → ℕ → EncBuffer → Ptr → Live → Option (ℤ × Live)
  unfolding free_bs_data set_pool
  give_slot io ch sub d fs s =
      let qno : ℤ = (get_pb s ch sub).video.qno in
      elim (put_video_frame qno fs (s.world.frame_info qno) s.world.heap) [
        | none ↦ none
        | some (i, h) ↦
            some (io.media_enqueue, (free_bs_data io ch sub d.queue (set_pool qno i h s)).1)
      ]

  unfoldable pub enqueue : LiveIo → ℕ → ℕ → EncBuffer → Ptr → Live → Option (ℤ × Live)
  unfolding call entity is_key give_slot mark_congest
  enqueue io ch sub d fs s =
      let qno : ℤ = (get_pb s ch sub).video.qno in
      let v : Vbs = (get_bs s ch sub).video in
      let a : ℤ = entity ch sub d s in
      let s' : Live = call (LiveCall.media_enqueue qno a d.size d.tick) s in
      if ltb_ℤ io.media_enqueue (pos 0)
      then give_slot io ch sub d fs (mark_congest io ch sub s')
      else some (
        pos 0,
        call
            (LiveCall.mt_write a d.size (is_key d) (if ch == 0 then 0 else 1) d.tick v.height
              v.width)
            s',
      )

  -- A slot is taken and filled. The write faults where the slot is null.
  unfoldable pub queue_frame : LiveIo → ℕ → ℕ → EncBuffer → Live → Option (ℤ × Live)
  unfolding entity enqueue take_slot set_pool
  queue_frame io ch sub d s =
      let qno : ℤ = (get_pb s ch sub).video.qno in
      let v : VideoFrame = record {
        ch_num = ch;
        sub_num = sub;
        queue = d.queue;
        search_key = entity ch sub d s;
      } in
      elim (take_slot qno v (s.world.frame_info qno) s.world.heap) [
        | none ↦ none
        | some ((fs, i), h) ↦ enqueue io ch sub d fs (set_pool qno i h s)
      ]

  unfoldable pub write_rtp_frame : LiveIo → ℕ → ℕ → EncBuffer → Live → Option (ℤ × Live)
  unfolding free_bs_data begin reset_wanted send_nvr queue_frame
  write_rtp_frame io ch sub d s =
      let s' : Live = send_nvr ch sub d (reset_wanted ch sub (begin ch sub d s)) in
      if not (event_eq (get_bs s ch sub).event Event.none)
      then some (pos 1, (free_bs_data io ch sub d.queue s).1)
      else if not (get_pb s' ch sub).play
      then some (pos 1, (free_bs_data io ch sub d.queue s').1)
      else queue_frame io ch sub d s'

  -- The buffer and its slot go back.
  unfoldable pub release : LiveIo → ℤ → Ptr → VideoFrame → Live → Option (ℤ × Live)
  unfolding free_bs_data set_pool
  release io qno fs v s =
      let s' : Live = (free_bs_data io v.ch_num v.sub_num v.queue s).1 in
      if not (in_range k.bt_num (pos v.ch_num) (pos v.sub_num))
      then some (minus_one, s)
      else (elim (put_video_frame qno fs (s'.world.frame_info qno) s'.world.heap) [
        | none ↦ none
        | some (i, h) ↦ some (pos 0, set_pool qno i h s')
      ])

  -- The server is done with the data at `key`, if it is of a video. Reading the slot faults where
  -- it is not found.
  unfoldable pub frm_cb : LiveIo → Bool → ℤ → ℤ → Live → Option (ℤ × Live)
  unfolding release find_slot
  frm_cb io false qno key s = some (pos 0, s)
  frm_cb io true qno key s = elim (find_slot key (s.world.frame_info qno) s.world.heap) [
    | none ↦ none
    | some ((fs, v), _) ↦ release io qno fs v s
  ]
