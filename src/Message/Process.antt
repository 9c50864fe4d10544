-- ===== src/Message/Process.antt =====
-- A whole message: the loop of `processMsg` and what follows it, src/processMsg.c 685-747 and
-- 3661-3729.
use Prim.Native.String.{String}
use avserver.Base.{
  ℕ, zero, suc, ltb, ℤ, pos, negsuc, minus_one, Bool, false, if◌then◌else◌, Option, none, some,
  List, [], ◌∷◌,
}
use avserver.Message.Keys.{Key}
use avserver.Message.Vars.{File, file_no, Num, Txt}
use avserver.Message.Session.{Consts, Value, Call, Session, clr_file_changed, make}
use avserver.Message.Row.{Row, handle_row}
use avserver.Message.Encode.{row_audio, row_stream, row_rate}
use avserver.Message.Quality.{row_size, row_quant, row_roi}
use avserver.Message.Picture.{row_image, row_white, row_osd}
use avserver.Message.Network.{row_net, row_port, row_wifi, row_ptz}
use avserver.Message.Alarm.{row_alarm, row_schedule, row_area, row_mask}
use avserver.Message.Mail.{row_ftp, row_smtp}
use avserver.Message.System.{row_time, row_sys, row_cloud, row_rec}
use avserver.Message.Act.{handle_context, handle_act, when}

-- The row of a key whose case is one.
unfoldable pub row_of : Key → Consts → Session → Row
row_of (Key.audio k) c s = row_audio k s
row_of (Key.stream k) c s = row_stream k c s
row_of (Key.rate k) c s = row_rate k c s
row_of (Key.size k) c s = row_size k c s
row_of (Key.quant k) c s = row_quant k c s
row_of (Key.roi k) c s = row_roi k c s
row_of (Key.image k) c s = row_image k s
row_of (Key.white k) c s = row_white k s
row_of (Key.osd k) c s = row_osd k c s
row_of (Key.net k) c s = row_net k s
row_of (Key.port k) c s = row_port k s
row_of (Key.wifi k) c s = row_wifi k s
row_of (Key.ptz k) c s = row_ptz k s
row_of (Key.alarm k) c s = row_alarm k s
row_of (Key.schedule k) c s = row_schedule k s
row_of (Key.area k) c s = row_area k s
row_of (Key.ftp k) c s = row_ftp k s
row_of (Key.smtp k) c s = row_smtp k s
row_of (Key.mask k) c s = row_mask k s
row_of (Key.time k) c s = row_time k c s
row_of (Key.sys k) c s = row_sys k s
row_of (Key.cloud k) c s = row_cloud k s
row_of (Key.rec k) c s = row_rec k s
row_of (Key.context k) c s = Row.skip
row_of (Key.act k) c s = Row.skip

-- The switch.
unfoldable pub handle : Consts → Key × Value → Session → Session
unfolding handle_row row_of handle_context handle_act
handle c (Key.context k, v) s = handle_context c k v.number s
handle c (Key.act k, v) s = handle_act c k v s
handle c (k, v) s = handle_row c (row_of k c s) v s

-- The loop over the variables of the message.
unfoldable pub handle_all : Consts → List (Key × Value) → Session → Session
unfolding handle
handle_all c [] s = s
handle_all c (i ∷ is) s = handle_all c is (handle c i s)

-- The last loop, from file i on.
unfoldable pub write_files : ℕ → ℕ → Session → Session
unfolding make clr_file_changed
write_files zero i s = s
write_files (suc n) i s =
    let t : Session =
      if s.file_changed i
      then make (Call.write_cfg_file i ∷ [])
          (record s { file_changed = clr_file_changed i s.file_changed })
      else s in
    write_files n (suc i) t

-- `e_END_FILE`
abbrev pub end_file : ℕ
end_file = 23

-- What follows the loop, up to the files.
unfoldable pub announce : Session → Session
unfolding make when
announce s = when s.osd_cfg (make (Call.send_osd ∷ [])) (
    when (s.file_changed (file_no File.rec)) (make (Call.rec_cfg_set ∷ [])) (
      when (ltb 0 s.ntpserver_cfg) (make (Call.start_ntp ∷ []))
        (when s.if_cfg (make (Call.gen_if_cfg ∷ [])) s)))

-- The last loop runs up to `e_END_FILE`.
unfoldable pub finish : Session → Session
unfolding make when write_files announce
finish s =
    when (ltb 0 s.reboot) (make (Call.restart ∷ [])) (write_files (suc end_file) 0 (announce s))

-- The local variables at the start.
unfoldable pub start : (Num → ℤ) → (Txt → String) → Session
start numbers texts = record {
  numbers = numbers;
  texts = texts;
  cmd_type = minus_one;
  yl_set = false;
  channel = minus_one;
  sub_channel = pos 0;
  osd_region = minus_one;
  index = minus_one;
  file_changed = λ i. false;
  osd_cfg = false;
  if_cfg = false;
  ntpserver_cfg = 0;
  reboot = 0;
  ret = 0;
  wild = false;
  reply = [];
  calls = [];
}

-- The result, and the session at the end. There is no message where a buffer is NULL.
unfoldable pub process_msg :
    Consts → Bool → Option (List (Key × Value)) → (Num → ℤ) → (Txt → String) → ℤ × Session
unfolding start finish handle_all
process_msg c has_memory none numbers texts = (minus_one, start numbers texts)
process_msg c has_memory (some message) numbers texts =
    let s : Session = finish (handle_all c message (start numbers texts)) in
    if has_memory then (pos s.ret, s) else (negsuc 1, start numbers texts)
