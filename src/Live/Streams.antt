-- ===== src/Live/Streams.antt =====
-- The commands of the RTSP server: `find_file_sr` and `cmd_cb`, src/rtspd.c 3349-3403.
pub mod Play
use Prim.Native.String.{String}
use text.Mathlib.Text.{◌==◌}
use avserver.Base.{
  ℕ, zero, suc, ◌+◌, ℤ, pos, negsuc, minus_one, eqb_ℤ, leb_ℤ, Bool, true, false, ◌&&◌,
  if◌then◌else◌, Option, none, some,
}
use avserver.Stream.Types.{PrivAvbs, get_pb, set_pb}
use avserver.Live.{Live, LiveConsts}

-- GM_STREAM_CMD_OPEN and the others; `other` is any other number.
pub data StreamCmd : Type 0 where
  open_cmd play pause teardown other : StreamCmd

unfoldable pub is_stream : String → ℤ → PrivAvbs → Bool
is_stream name srno pb = eqb_ℤ pb.sr srno && (pb.name == name)

-- The first of `n` bitstreams from number `i` on.
unfoldable pub find_sub : (PrivAvbs → Bool) → ℕ → ℕ → (ℕ → PrivAvbs) → Option ℕ
find_sub test zero i pbs = none
find_sub test (suc n) i pbs =
    let rest = find_sub test n (i + 1) pbs in if test (pbs i) then some i else rest

unfoldable pub in_channel : ℕ → Option ℕ → Option (ℕ × ℕ) → Option (ℕ × ℕ)
in_channel ch none rest = rest
in_channel ch (some sub) rest = some (ch, sub)

-- The numbers of the channel and of the bitstream.
unfoldable pub find_place : LiveConsts → String → ℤ → Live → Option (ℕ × ℕ)
unfolding find_sub is_stream in_channel
find_place k name srno s =
    let test = is_stream name srno in
    in_channel 0 (find_sub test k.bt_num 0 ((s.enc 0).priv_bs))
      (in_channel 1 (find_sub test k.bt_num 0 ((s.enc 1).priv_bs)) none)

-- The stream that is found is to begin with a key frame.
unfoldable pub mark_found : Option (ℕ × ℕ) → Live → Live
unfolding set_pb
mark_found none s = s
mark_found (some (ch, sub)) s =
    set_pb ch sub (record (get_pb s ch sub) { reset_intra_frame = true }) s

unfoldable pub find_file_sr : LiveConsts → String → ℤ → Live → Option (ℕ × ℕ) × Live
unfolding find_place mark_found
find_file_sr k name srno s = let o = find_place k name srno s in (o, mark_found o s)

unfoldable pub start_play : PrivAvbs → PrivAvbs
start_play pb = if leb_ℤ (pos 0) pb.video.qno then record pb { play = true } else pb

unfoldable pub stop_play : PrivAvbs → PrivAvbs
stop_play pb = record pb { play = false; video = record (pb.video) { timed = false } }

-- A stream that was looked for is changed.
unfoldable pub change : (PrivAvbs → PrivAvbs) → Option (ℕ × ℕ) × Live → ℤ × Live
unfolding set_pb
change f (none, s) = (minus_one, s)
change f (some (ch, sub), s) = (pos 0, set_pb ch sub (f (get_pb s ch sub)) s)

unfoldable pub cmd_cb : LiveConsts → String → ℤ → StreamCmd → Live → ℤ × Live
unfolding find_file_sr change start_play stop_play
cmd_cb k name srno StreamCmd.open_cmd s = (negsuc 9, s)
cmd_cb k name srno StreamCmd.play s = change start_play (find_file_sr k name srno s)
cmd_cb k name srno StreamCmd.pause s = (pos 0, s)
cmd_cb k name srno StreamCmd.teardown s = change stop_play (find_file_sr k name srno s)
cmd_cb k name srno StreamCmd.other s = (minus_one, s)
