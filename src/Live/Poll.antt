-- ===== src/Live/Poll.antt =====
-- The poll of the encoder: `write_jpg`, `set_poll_event` and `do_poll_event`, src/rtspd.c 2846-2884,
-- 3162-3253. The wait before the poll is in Clock. The pointer `free` of a stream is only ever NULL.
pub mod Served
use avserver.Base.{
  ℕ, zero, suc, ◌+◌, ◌==◌, ltb, ℤ, pos, minus_one, ◌+ℤ◌, eqb_ℤ, ltb_ℤ, Bool, true, false, ◌&&◌,
  ◌||◌, not, if◌then◌else◌, Option, none, some,
}
use avserver.Stream.Types.{is_enabled, Vbs, Av, get_bs, get_pb, put}
use avserver.Live.{
  EncBuffer, LiveCall, Live, LiveConsts, LiveIo, call, get_bs_data, write_rtp_frame,
}

-- An entry of `poll_fds`: the bitstreams whose bits are set, and POLLIN_SNAP_BS.
pub record PollFd : Type 0 where
  pub fd : ℤ
  pub main : ℕ → Bool
  pub snap : Bool

-- `poll_fds`, the static `num_time`, the reboots asked for, and `snap_start`, the number of the
-- picture that is wanted.
pub record Poll : Type 0 where
  pub fds : ℕ → PollFd
  pub num_time : ℕ
  pub restarts : ℕ
  pub snap_start : ℕ

-- What a round meets: the result of `poll`; for each channel, whether it has an event and whether
-- one of its first bitstream; the results of the driver's queues with their buffers, and of the
-- other calls.
pub record Answers : Type 0 where
  pub ret : ℤ
  pub revents : ℕ → Bool
  pub main_in : ℕ → Bool
  pub got : ℕ → ℤ
  pub buffer : ℕ → EncBuffer
  pub io : ℕ → LiveIo
  pub got_snap : ℕ → ℤ
  pub snap : ℕ → EncBuffer

unfoldable pub has_video : Av → ℕ → Bool
has_video e zero = false
has_video e (suc n) = is_enabled ((e.bs n).video.enabled) || has_video e n

module _ (k : LiveConsts) where
  -- One channel of the loop of `set_poll_event`. The flag of the snapshot is that of the bitstream
  -- with the number of the channel.
  unfoldable pub poll_channel : ℕ → Poll × Live → Poll × Live
  unfolding call put
  poll_channel ch (p, s) =
      let e : Av = s.enc ch in
      let on : Bool = is_enabled e.enabled in
      let wanted : Bool =
        on
        && not (eqb_ℤ (get_bs s ch ch).video.enabled_snapshot (pos 0))
        && s.snap_init_ok
        && not (p.snap_start == 0) in
      (
        record p {
          fds = put p.fds ch (record {
            fd = if on then e.enc_fd else minus_one;
            main = λ j. on && ltb j k.bt_num && is_enabled ((e.bs j).video.enabled);
            snap = wanted;
          });
        },
        if wanted then call (LiveCall.enc_snap e.enc_fd) s else s,
      )

  -- Whether a stream of the channel is to be polled.
  unfoldable pub polled : ℕ → Live → Bool
  unfolding has_video
  polled ch s = is_enabled ((s.enc ch).enabled) && has_video (s.enc ch) k.bt_num

  unfoldable pub set_poll_event : Poll → Live → ℤ × (Poll × Live)
  unfolding poll_channel polled
  set_poll_event p s = (
    if polled 0 s || polled 1 s then pos 0 else minus_one,
    poll_channel 1 (poll_channel 0 (p, s)),
  )

  -- `write_jpg`, for a result of the queue of pictures.
  unfoldable pub write_jpg : ℕ → ℕ → ℤ → EncBuffer → Live → ℤ × Live
  unfolding call
  write_jpg ch id got d s =
      let e : Av = s.enc ch in
      let a : ℤ = e.v_bs_mbuf_addr +ℤ e.bs_buf_snap_offset +ℤ d.offset in
      if ltb_ℤ got (pos 0) then (minus_one, s) else (
        pos 0,
        call (LiveCall.queue_put e.enc_fd d.queue) (call (LiveCall.write_jpg_data a d.size id) s),
      )

  -- Reading of a buffer of the first bitstream. `ret` is what the variable held before.
  unfoldable pub read_main : Answers → ℕ → ℤ → Live → ℤ × Live
  read_main a ch ret s =
      if (get_pb s ch 0).has_read then get_bs_data k (a.got ch) ch 0 s else (ret, s)

  unfoldable pub with_ret : ℤ → Option (ℤ × Live) → Option (ℤ × Live)
  with_ret r none = none
  with_ret r (some (_, u)) = some (r, u)

  unfoldable pub write_main : Answers → ℕ → ℤ × Live → Option (ℤ × Live)
  unfolding with_ret
  write_main a ch (r, t) =
      if ltb_ℤ r (pos 0)
      then some (r, t)
      else if (get_pb t ch 0).has_write
      then with_ret r (write_rtp_frame k (a.io ch) ch 0 (a.buffer ch) t)
      else some (r, t)

  -- The picture, whose result the variable `ret` keeps.
  unfoldable pub serve_snap : Answers → ℕ → ℤ → Poll → Live → ℤ × (Poll × Live)
  unfolding write_jpg
  serve_snap a ch ret p s =
      let (r, t) = write_jpg ch p.snap_start (a.got_snap ch) (a.snap ch) s in
      if s.snap_init_ok && not (p.snap_start == 0) && (p.fds ch).snap
      then (r, (if eqb_ℤ r (pos 0) then record p { snap_start = 0 } else p, t))
      else (ret, (p, s))

  -- The picture, which a failed reading skips.
  unfoldable pub then_snap : Answers → ℕ → Poll → Option (ℤ × Live) → Option (ℤ × (Poll × Live))
  unfolding serve_snap
  then_snap a ch p none = none
  then_snap a ch p (some (r, t)) =
      if ltb_ℤ r (pos 0) then some (r, (p, t)) else some (serve_snap a ch r p t)

  -- One channel of the loop of `do_poll_event`, with the variable `ret`.
  unfoldable pub serve_channel : Answers → ℕ → ℤ × (Poll × Live) → Option (ℤ × (Poll × Live))
  unfolding read_main write_main then_snap serve_snap
  serve_channel a ch (ret, (p, s)) =
      if not (a.revents ch)
      then some (ret, (p, s))
      else if a.main_in ch
      then then_snap a ch p (write_main a ch (read_main a ch ret s))
      else some (serve_snap a ch ret p s)

  unfoldable pub serve_next : Answers → ℕ → Option (ℤ × (Poll × Live)) → Option (ℤ × (Poll × Live))
  unfolding serve_channel
  serve_next a ch none = none
  serve_next a ch (some x) = serve_channel a ch x

  unfoldable pub without_ret : Option (ℤ × (Poll × Live)) → Option (Poll × Live)
  without_ret none = none
  without_ret (some (_, y)) = some y

  unfoldable pub do_poll_event : Answers → Poll → Live → Option (Poll × Live)
  unfolding serve_next without_ret
  do_poll_event a p s =
      let n : ℕ = suc p.num_time in
      if ltb_ℤ a.ret (pos 0)
      then some (
        record p { num_time = n; restarts = if ltb 3000 n then suc p.restarts else p.restarts },
        s,
      )
      else without_ret
          (serve_next a 1 (serve_next a 0 (some (a.ret, (record p { num_time = 0 }, s)))))
