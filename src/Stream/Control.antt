-- ===== src/Stream/Control.antt =====
-- Opening and closing of bitstreams: src/rtspd.c 892-916, 1234-1245, 1553-1591, 2192-2226,
-- 2275-2307, 2353-2569, 2651-2679, 2887-2989.
use Prim.Native.String.{String}
use avserver.Base.{
  ℕ, zero, suc, ◌+◌, ◌-◌, ◌/◌, ℤ, pos, minus_one, Bool, false, ◌&&◌, ◌||◌, not, leb, eqb_ℤ, leb_ℤ,
  ltb_ℤ, neg, negsuc, if◌then◌else◌,
}
use avserver.Stream.Types.{
  enable, disable, is_enabled, Av, channel_num, enc_type_h264, enc_type_mpeg, enc_type_mjpeg,
}
use avserver.Stream.Env.{Env, Command}
use avserver.Stream.Param.{bs_ok}
use avserver.Stream.Monad.{
  M, pure, ◌>>=◌, ◌>>◌, call, gets, modify, effect, get_av, modify_av, modify_pb,
}

-- 90000 / fps, rounded towards 0; at 0 the C code divides by zero, and this is 0.
unfoldable pub tinc_of : ℤ → ℤ
tinc_of (pos n) = pos (90000 / n)
tinc_of (negsuc n) = neg (90000 / suc n)

-- `set_sdpstr`
unfoldable pub sdpstr_of : ℤ → String
sdpstr_of t =
    if eqb_ℤ t enc_type_mpeg
    then "000001B001000001B50900000100000001200086C400670C281078518F"
    else if eqb_ℤ t enc_type_mjpeg
    then "281e19"
    else if eqb_ℤ t enc_type_h264
    then "Z0IAKOkA8AQ9cSAA27oAM3+YA2IEJQ==,aM4xUg=="
    else "Z0IAKOkCw/I=,aM44gA=="

-- The test of CHECK_CHANNUM_AND_SUBNUM.
unfoldable pub in_range : ℕ → ℤ → ℤ → Bool
in_range bt ch sub =
    not (leb_ℤ (pos channel_num) ch || ltb_ℤ ch (pos 0) || leb_ℤ (pos bt) sub || ltb_ℤ sub (pos 0))

module _ {W : Type 0} (env : Env W) where
  open env use {bt_num}

  unfoldable pub convert_gmss_media_type : ℤ → ℤ
  convert_gmss_media_type t =
      if eqb_ℤ t enc_type_h264
      then env.ss_h264
      else if eqb_ℤ t enc_type_mpeg
      then env.ss_mp4
      else if eqb_ℤ t enc_type_mjpeg
      then env.ss_mjpeg
      else minus_one

  unfoldable pub convert_gmss_audio_type : ℤ → ℤ
  convert_gmss_audio_type t =
      if eqb_ℤ t (pos 0)
      then env.ss_g711
      else if eqb_ℤ t (pos 1)
      then env.ss_g726
      else if eqb_ℤ t (pos 2)
      then env.ss_aac
      else minus_one

  -- The file descriptor, -1 on failure.
  unfoldable pub open_channel : ℕ → M W ℤ
  open_channel ch = do
    e ← get_av ch
    if is_enabled e.enabled then pure minus_one else do
      fd ← call env.open_enc
      if ltb_ℤ fd (pos 0)
          then pure minus_one
          else do modify_av ch (λ a. record a { enabled = enable }); pure fd

  -- The loop of `close_channel` over the channels.
  unfoldable pub any_channel_enabled : ℕ → (ℕ → Av) → Bool
  any_channel_enabled zero enc = false
  any_channel_enabled (suc n) enc = is_enabled (enc n).enabled || any_channel_enabled n enc

  unfoldable pub close_channel : ℕ → M W (Unit {0})
  unfolding any_channel_enabled
  close_channel ch = do
    e ← get_av ch
    effect (env.munmap e.v_bs_mbuf_addr e.v_bs_mbuf_size)
    effect (env.close_fd e.enc_fd)
    modify_av ch (λ a. record a { enc_fd = minus_one; enabled = disable })
    open_left ← gets (λ s. any_channel_enabled channel_num s.enc)
    if open_left then pure tt else do
      fd ← gets (λ s. s.dvr_fd)
      effect (env.close_fd fd)
      modify (λ s. record s { dvr_fd = pos 0 })

  unfoldable pub check_bs_param : ℕ → ℕ → M W ℤ
  check_bs_param ch sub = do
    b ← gets (λ s. (s.enc ch).bs sub)
    let ok = not (leb channel_num ch || leb bt_num sub) && bs_ok b
    pure (if ok then pos 0 else minus_one)

  unfoldable pub apply_bs : ℕ → ℕ → Command → M W ℤ
  apply_bs ch sub command = do
    e ← get_av ch
    ret ← call (env.enc_control e.enc_fd command sub)
    if ltb_ℤ ret (pos 0) then pure minus_one else do
      fd ← gets (λ s. s.dvr_fd)
      applied ← call (env.common_apply fd ch sub)
      pure (if ltb_ℤ applied (pos 0) then minus_one else pos 0)

  -- The queries for the buffer offsets of the sub-streams: `n` are left, from number `i` on.
  unfoldable pub query_offsets : ℕ → ℕ → ℕ → M W ℤ
  query_offsets zero i ch = pure (pos 0)
  query_offsets (suc n) i ch = do
    e ← get_av ch
    (ret, offs) ← call (λ w. let (r, v, w') = env.query_sub_offset e.enc_fd i w in ((r, v), w'))
    if ltb_ℤ ret (pos 0) then pure minus_one else do
      modify_pb ch i (λ p. record p { video = record (p.video) { offs = offs } })
      query_offsets n (i + 1) ch

  unfoldable pub set_bs_buf : ℕ → M W ℤ
  unfolding query_offsets
  set_bs_buf ch = do
    e ← get_av ch
    (ret, size) ← call (λ w. let (r, v, w') = env.query_buffer_size e.enc_fd w in ((r, v), w'))
    if ltb_ℤ ret (pos 0) then pure minus_one else do
      modify_av ch (λ a. record a { v_bs_mbuf_size = size })
      (snap, offset) ← call (λ w. let (r, v, w') = env.query_snap_offset e.enc_fd w in ((r, v), w'))
      modify_av ch (λ a. record a { bs_buf_snap_offset = offset })
      modify (λ s. record s { snap_init_ok = not (ltb_ℤ snap (pos 0)) })
      modify_pb ch 0 (λ p. record p { video = record (p.video) { offs = pos 0 } })
      offsets ← query_offsets (bt_num - 1) 1 ch
      if ltb_ℤ offsets (pos 0) then pure minus_one else do
        (failed, addr) ← call (λ w. let (f, v, w') = env.mmap e.enc_fd size w in ((f, v), w'))
        modify_av ch (λ a. record a { v_bs_mbuf_addr = addr })
        pure (if failed then minus_one else pos 0)
