-- ===== src/Stream/Bitstream.antt =====
-- `open_bs` and `close_bs` of src/rtspd.c with what they call: 2353-2569, 2651-2679, 2887-2989.
pub mod Failures
pub mod Closing
use avserver.Base.{
  ℕ, zero, suc, ℤ, pos, minus_one, Bool, true, false, ◌||◌, not, ◌==◌, leb, ltb_ℤ, eqb_ℤ,
  if◌then◌else◌,
}
use avserver.Stream.Types.{
  enable, disable, is_enabled, Avbs, PrivAvbs, Av, channel_num, rtsp_live_streaming,
}
use avserver.Stream.Env.{Env, start, stop}
use avserver.Stream.Param.{main_param, sub_param, source_param, source_fps}
use avserver.Stream.Monad.{
  M, pure, ◌>>=◌, ◌>>◌, call, gets, effect, get_av, modify_av, modify_bs, modify_pb,
}
use avserver.Stream.Control.{
  tinc_of, sdpstr_of, convert_gmss_media_type, convert_gmss_audio_type, open_channel, close_channel,
  check_bs_param, apply_bs, set_bs_buf,
}

abbrev pub mark_enabled : Avbs → Avbs
mark_enabled b = record b { enabled = enable; video = record (b.video) { enabled = enable } }

abbrev pub mark_disabled : Avbs → Avbs
mark_disabled b = record b { enabled = disable; video = record (b.video) { enabled = disable } }

module _ {W : Type 0} (env : Env W) where
  open env use {bt_num}

  -- The part of `set_main_bs` that follows `open_channel`.
  unfoldable pub start_main : ℕ → M W ℤ
  start_main ch = do
    e ← get_av ch
    modify_bs ch 0
        (λ b. mark_enabled (record b { video = record (b.video) { fps = source_fps e } }))
    ret ← call (env.set_channel_param e.enc_fd (source_param e ch) (main_param e) true)
    if ltb_ℤ ret (pos 0)
        then pure minus_one
        else do buf ← set_bs_buf env ch; pure (if ltb_ℤ buf (pos 0) then minus_one else pos 0)

  unfoldable pub set_main_bs : ℕ → M W ℤ
  unfolding start_main
  set_main_bs ch = do
    ok ← check_bs_param env ch 0
    e ← get_av ch
    let refused = ltb_ℤ ok (pos 0) || is_enabled (e.bs 0).enabled || ltb_ℤ (pos 0) e.enc_fd
    if refused then pure minus_one else do
      fd ← open_channel env ch
      modify_av ch (λ a. record a { enc_fd = fd })
      if ltb_ℤ fd (pos 0) then pure minus_one else start_main ch

  unfoldable pub set_sub_bs : ℕ → ℕ → M W ℤ
  set_sub_bs ch sub = do
    ok ← check_bs_param env ch sub
    e ← get_av ch
    let start_sub = do
      ret ← call (env.set_sub_bs_param e.enc_fd (sub_param e sub))
      if ltb_ℤ ret (pos 0) then pure minus_one else do modify_bs ch sub mark_enabled; pure (pos 0)
    if ltb_ℤ ok (pos 0)
        then pure minus_one
        else if is_enabled (e.bs sub).video.enabled
        then pure (pos 0)
        else start_sub

  unfoldable pub open_live_streaming : ℕ → ℕ → M W ℤ
  open_live_streaming ch sub = if leb channel_num ch || leb bt_num sub then pure minus_one else do
    b ← gets (λ s. (s.enc ch).bs sub)
    video_qno ← call (env.queue_alloc (convert_gmss_media_type env b.video.enc_type))
    modify_pb ch sub (λ p. record p { video = record (p.video) { qno = video_qno } })
    audio_qno ← call (env.queue_alloc (convert_gmss_audio_type env b.audio_enc_type))
    modify_pb ch sub (λ p. record p { audio_qno = audio_qno })
    p ← gets (λ s. (s.enc ch).priv_bs sub)
    let livename = if ch == 0 then "0" else "4"
    sr ← call (env.stream_reg livename video_qno p.video.sdpstr audio_qno)
    modify_pb ch sub (λ p. record p { sr = sr })
    if ltb_ℤ sr (pos 0) then pure minus_one else do
      effect (env.init_video_frame video_qno)
      modify_pb ch sub (λ p. record p { name = livename })
      pure (pos 0)

  unfoldable pub close_live_streaming : ℕ → ℕ → M W ℤ
  close_live_streaming ch sub = if leb channel_num ch || leb bt_num sub then pure minus_one else do
    p ← gets (λ s. (s.enc ch).priv_bs sub)
    effect (env.free_video_frame p.video.qno)
    if ltb_ℤ p.sr (pos 0) then pure (pos 0) else do
      ret ← call (env.stream_dereg p.sr)
      if ltb_ℤ ret (pos 0) then pure ret else do
        modify_pb ch sub
            (λ p. record p { sr = minus_one; video = record (p.video) { qno = minus_one } })
        pure ret

  -- What `open_bs` installs for live streaming.
  unfoldable pub install : ℤ → ℤ → PrivAvbs → PrivAvbs
  install enc_type fps p = record p {
    video = record (p.video) { tinc = tinc_of fps; buf_usage = pos 0; sdpstr = sdpstr_of enc_type };
    has_open = true;
    has_close = true;
    has_read = true;
    has_free = false;
    has_write = true;
  }

  unfoldable pub open_bs : ℕ → ℕ → M W ℤ
  unfolding install
  open_bs ch sub = if leb channel_num ch || leb bt_num sub then pure minus_one else do
    ret ← if sub == 0 then set_main_bs ch else set_sub_bs ch sub
    if ltb_ℤ ret (pos 0) then pure ret else do
      applied ← apply_bs env ch sub start
      b ← gets (λ s. (s.enc ch).bs sub)
      let live = eqb_ℤ b.opt_type rtsp_live_streaming
      if ltb_ℤ applied (pos 0)
          then pure applied
          else if live
          then (do modify_pb ch sub (install b.video.enc_type b.video.fps); pure applied)
          else pure applied

  -- Whether one of the first `n` bitstreams of a channel is enabled.
  unfoldable pub any_bs_enabled : ℕ → Av → Bool
  any_bs_enabled zero e = false
  any_bs_enabled (suc n) e = is_enabled (e.bs n).video.enabled || any_bs_enabled n e

  -- The statistics that `close_bs` clears.
  unfoldable pub clear_statistics : PrivAvbs → PrivAvbs
  clear_statistics p = record p {
    video = record (p.video) {
      timeval = 0;
      itvl_fps = pos 0;
      itvl_bps = pos 0;
      avg_fps = pos 0;
      avg_bps = pos 0;
    };
  }

  unfoldable pub close_bs : ℕ → ℕ → M W ℤ
  unfolding clear_statistics any_bs_enabled
  close_bs ch sub = if leb channel_num ch || leb bt_num sub then pure minus_one else do
    e ← get_av ch
    let disabled = modify_bs ch sub mark_disabled >> pure (pos 0)
    if not (is_enabled (e.bs sub).video.enabled) then disabled else do
      modify_pb ch sub clear_statistics
      ret ← apply_bs env ch sub stop
      if ltb_ℤ ret (pos 0) then pure ret else do
        modify_bs ch sub mark_disabled
        others ← gets (λ s. any_bs_enabled bt_num (s.enc ch))
        if others then pure ret else do close_channel env ch; pure ret
