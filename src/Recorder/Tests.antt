-- ===== src/Recorder/Tests.antt =====
-- The recorder of src/avi_save.c at concrete inputs.
use avserver.Base.{
  ℕ, ◌+ℤ◌, ◌⊎◌, ◌<◌, ◌-◌, ◌≤◌, ◌≡◌, refl, arith, ℤ, pos, true, false, List, [], ◌∷◌,
}
use avserver.Recorder.{AviKey, init_rec, process_msg_avi, save_schedule, Status, Got, record_file}
use avserver.Recorder.Files.{IsTimed, process_msg_avi-IsTimed, record_file-length}

abbrev message : List (AviKey × ℤ)
message = (AviKey.e_avi_time_l, pos 9) ∷ (AviKey.e_avi_enable, pos 1) ∷ []

nine_minutes : (process_msg_avi message init_rec).time_l ≡ pos 300
unfolding process_msg_avi init_rec
nine_minutes = refl

-- Two messages before the thread has marked itself busy start two threads.
two_threads : (process_msg_avi message (process_msg_avi message init_rec)).threads ≡ 2
unfolding process_msg_avi init_rec
two_threads = refl

IsTimed-after : IsTimed (process_msg_avi message init_rec)
unfolding IsTimed init_rec
IsTimed-after = process_msg_avi-IsTimed message init_rec (omega arith, omega arith)

afternoon : save_schedule 8192 13 ≡ true
unfolding save_schedule
afternoon = refl

abbrev frame : ℤ → Got
frame n = record { success = true; serial = n; is_null = false; is_iframe = false; serial_now = n }

abbrev frames : List Got
frames = frame (pos 1) ∷ frame (pos 2) ∷ frame (pos 3) ∷ frame (pos 4) ∷ []

abbrev idle : ℕ → Status
idle n = record {
  stream_flag = false;
  serial_book = pos 0;
  serial_lock = pos 0;
  check = pos 0;
  rec_frames = n;
  saved = 0;
}

-- After a file of three frames the next one ends with its first.
record_file-length_example :
    ((3 < 3) × ((record_file 3 frames (idle 3)).0.saved ≡ 3 - 3))
    ⊎ ((3 ≤ 3) × ((record_file 3 frames (idle 3)).0.saved ≤ 1))
unfolding record_file ◌+ℤ◌
record_file-length_example = record_file-length 3 frames (idle 3) refl

three_frames : (record_file 3 frames (idle 0)).0.saved ≡ 3
unfolding record_file ◌+ℤ◌
three_frames = refl
