-- ===== src/Recorder.antt =====
-- The recorder of src/avi_save.c: its messages, the sizes that it computes, and the loop that fills a
-- file. The frame server (`mt_get`) and the AVI library are outside the repository: what they return
-- stands in the arguments.
pub mod Files
mod Tests
use avserver.Base.{
  ℕ, suc, ◌+◌, ◌*◌, ◌/◌, ◌%◌, ◌^◌, ◌==◌, leb, ltb, ℤ, pos, minus_one, pos_part, ◌+ℤ◌, Bool, true,
  false, ◌&&◌, ◌||◌, not, ltb_ℤ, leb_ℤ, eqb_ℤ, if◌then◌else◌, List, [], ◌∷◌,
}
use avserver.Server.{Clients, Io, round}

-- `g_rec_enable`, `g_rec_schdule`, `g_rec_status` and `g_rec_TimeL`, and how many threads were
-- started.
pub record Rec : Type 0 where
  pub enable : ℤ
  pub schedule : ℤ
  pub status : Bool
  pub time_l : ℤ
  pub threads : ℕ

-- The variables at the start.
unfoldable pub init_rec : Rec
init_rec = record {
  enable = pos 0;
  schedule = pos 0;
  status = false;
  time_l = pos 300;
  threads = 0;
}

-- `other` is a key out of range, or one without a case.
pub data AviKey : Type 0 where
  e_avi_enable e_avi_time_l e_avi_schd other : AviKey

-- The minutes of a file, from MIN_REC_TIME_LEN to MAX_REC_TIME_LEN.
unfoldable pub clamp_time : ℤ → ℕ
clamp_time v = if ltb_ℤ (pos 5) v then 5 else if ltb_ℤ v (pos 1) then 1 else pos_part v

unfoldable pub handle_avi : AviKey × ℤ → Rec → Rec
unfolding clamp_time
handle_avi (AviKey.e_avi_enable, v) r = record r {
  enable = v;
  threads = if not (eqb_ℤ v (pos 0)) && not r.status then suc r.threads else r.threads;
}
handle_avi (AviKey.e_avi_time_l, v) r = record r { time_l = pos (clamp_time v * 60) }
handle_avi (AviKey.e_avi_schd, v) r = record r { schedule = v }
handle_avi (AviKey.other, v) r = r

unfoldable pub process_msg_avi : List (AviKey × ℤ) → Rec → Rec
unfolding handle_avi
process_msg_avi [] r = r
process_msg_avi (i ∷ is) r = process_msg_avi is (handle_avi i r)

-- A round of `Avi_Ctrl`: that of the control server, on four client slots, where `processMsg_avi`
-- returns 0 for every message.
unfoldable pub ctrl_round : Io → Clients → Clients
ctrl_round io t = round (record io { reply_len = λ fd. pos 0 }) t

-- Whether the bit of an hour is set.
unfoldable pub save_schedule : ℕ → ℕ → Bool
save_schedule schd hour = schd / 2 ^ hour % 2 == 1

-- What `Avi_save` makes of the frame rate and the bit rate of the stream.
unfoldable pub frame_rate_of : ℤ → ℤ
frame_rate_of v = if ltb_ℤ v (pos 8) then pos 9 else if ltb_ℤ (pos 30) v then pos 25 else v

unfoldable pub bit_rate_of : ℤ → ℤ
bit_rate_of v = if ltb_ℤ v (pos 512) then pos 512 else if ltb_ℤ (pos 4000) v then pos 4000 else v

-- The space in KB and the number of frames of a file.
unfoldable pub need_free : ℕ → ℕ → ℕ
need_free time_l bitsrate = time_l * bitsrate * 2 / 8

unfoldable pub totel_frames : ℕ → ℕ → ℕ
totel_frames time_l framerate = time_l * framerate

-- `AVI_stream_status`, `rec_frames`, and the frames that the current file holds.
pub record Status : Type 0 where
  pub stream_flag : Bool
  pub serial_book : ℤ
  pub serial_lock : ℤ
  pub check : ℤ
  pub rec_frames : ℕ
  pub saved : ℕ

-- What a round gets: whether `mt_get` succeeds, the frame's serial, whether its pointer is NULL and
-- whether it is an I frame, and the newest serial.
pub record Got : Type 0 where
  pub success : Bool
  pub serial : ℤ
  pub is_null : Bool
  pub is_iframe : Bool
  pub serial_now : ℤ

-- `AVI_TO_CHECK`
abbrev pub avi_to_check : ℤ
avi_to_check = pos 3

-- The first part of a round: the status, and whether the round goes on.
unfoldable pub fetch : Got → Status → Status × Bool
fetch g s =
    if s.stream_flag
    then (record s { serial_book = g.serial; stream_flag = false }, true)
    else if ltb_ℤ g.serial s.serial_book
    then (s, false)
    else (record s { serial_book = g.serial }, not g.is_null)

-- The second part: every third I frame or so, whether the recorder has fallen behind by more than 25
-- frames.
unfoldable pub catch_up : Got → Status → Status × Bool
catch_up g s =
    if not (g.success && leb_ℤ (pos 0) s.check)
    then (s, true)
    else if g.is_iframe && eqb_ℤ s.check (pos 0)
    then (let late : Bool = ltb_ℤ (s.serial_book +ℤ pos 25) g.serial_now in
        (record s { check = avi_to_check; stream_flag = late || s.stream_flag }, not late))
    else (record s { check = s.check +ℤ minus_one }, true)

-- The third part: the frame is written, or the stream starts anew.
unfoldable pub save_frame : Got → Status → Status
save_frame g s =
    if g.success
    then record s {
      saved = suc s.saved;
      rec_frames = suc s.rec_frames;
      serial_lock = s.serial_book;
      serial_book = s.serial_book +ℤ pos 1;
    }
    else record s { stream_flag = true; serial_book = minus_one; check = avi_to_check }

-- The rounds of one file: the status, and whether the file was finished.
unfoldable pub fill : ℕ → List Got → Status → Status × Bool
unfolding fetch catch_up save_frame
fill totel [] s = (s, false)
fill totel (g ∷ gs) s =
    let a : Status × Bool = fetch g s in
    let b : Status × Bool = catch_up g a.0 in
    let t : Status = save_frame g b.0 in
    let skip_a : Status × Bool = fill totel gs a.0 in
    let skip_b : Status × Bool = fill totel gs b.0 in
    let rest : Status × Bool = fill totel gs t in
    if not a.1
    then skip_a
    else if not b.1
    then skip_b
    else if leb totel t.rec_frames
    then (t, true)
    else rest

-- A new file. `rec_frames` goes on from the last one.
unfoldable pub new_file : Status → Status
new_file s = record s {
  stream_flag = true;
  serial_book = minus_one;
  serial_lock = pos 0;
  check = avi_to_check;
  saved = 0;
}

unfoldable pub record_file : ℕ → List Got → Status → Status × Bool
unfolding fill new_file
record_file totel gs s = fill totel gs (new_file s)
