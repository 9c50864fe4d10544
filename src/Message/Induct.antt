-- ===== src/Message/Induct.antt =====
-- Invariants of the loop of `processMsg` (src/processMsg.c 735-3665): what holds of the session after
-- a whole message, given that storing a value keeps it.
use Prim.Native.String.{String}
use avserver.Base.{
  ℕ, ◌≡◌, refl, ℤ, pos, Bool, true, false, not, ◌&&◌, ◌||◌, eqb_ℤ, leb_ℤ, if◌then◌else◌, List, [],
  ◌∷◌,
}
use avserver.Message.Keys.{Key, ContextKey, ActKey}
use avserver.Message.Vars.{AvFile, Num, OtherField}
use avserver.Message.Session.{
  Consts, Value, PtzCommand, Call, Shown, Note, Session, is_set, is_get, answer, echo, make, note,
  touch, num_inside, txt_inside, same_text,
}
use avserver.Message.Row.{NumRow, TxtRow, Row, set_num, store_txt, set_txt, handle_row}
use avserver.Message.Act.{
  handle_context, set_type, has_width, show_devtype, shown_resolution, switch_resolution,
  handle_act, nvr_inside, enc_inside, reload, set_systime,
}
use avserver.Message.Process.{row_of, handle, handle_all}
use avserver.Message.Stored.{Spares, note-Spares}

abbrev same :
    {s t : Session}
    → t.numbers ≡ s.numbers
    → t.texts ≡ s.texts
    → t.file_changed ≡ s.file_changed
    → Spares s t
same a b c = record { same-numbers = a; same-texts = b; same-marks = c }

-- `Ok` is what is known of each row.
module _ (Inv : Session → Type 0) (Ok : Row → Type 0) (c : Consts)
    (ok : (k : Key) (s : Session) → Ok (row_of k c s))
    (spares : (s t : Session) → Spares s t → Inv s → Inv t)
    (num : (r : NumRow) (v : ℤ) (s : Session) → Ok (Row.num r) → Inv s → Inv (set_num r v s))
    (txt : (r : TxtRow) (v : String) (s : Session) → Ok (Row.txt r) → Inv s → Inv (store_txt r v s))
    (devtype : (s : Session) → Inv s → Inv (show_devtype s))
    (reset : (s : Session) → Inv s → Inv (reload c s))
    (systime : (v : String) (s : Session) → Inv s → Inv (set_systime c v s)) where
  moved : {s t : Session} → Spares s t → Inv s → Inv t
  moved {s} {t} = spares s t

  if-Holds : (b : Bool) {s t : Session} → Inv s → Inv t → Inv (if b then s else t)
  if-Holds true k l = k
  if-Holds false k l = l

  answer-Holds : (k : Key) (x : Shown) (s : Session) → Inv s → Inv (answer k x s)
  unfolding answer
  answer-Holds k x s = moved (same refl refl refl)

  touch-Holds : (b : Bool) (s : Session) → Inv s → Inv (touch b s)
  unfolding touch
  touch-Holds b s = moved (same refl refl refl)

  handle_row-Holds : (r : Row) (v : Value) (s : Session) → Ok r → Inv s → Inv (handle_row c r v s)
  unfolding handle_row set_txt
  handle_row-Holds (Row.num r) v s ok k =
      let t : Session = touch (num_inside c r.var) s in
      let k' : Inv t = touch-Holds (num_inside c r.var) s k in
      if-Holds (is_set c s) (num r v.number t ok k') (
        if-Holds (is_get c s || r.otherwise) (answer-Holds r.answers (Shown.number r.shown) t k') k)
  handle_row-Holds (Row.txt r) v s ok k =
      let t : Session = touch (txt_inside c r.var v.text) s in
      let k' : Inv t = touch-Holds (txt_inside c r.var v.text) s k in
      if-Holds (is_set c s) (if-Holds (same_text (t.texts r.var) v.text) k' (txt r v.text t ok k'))
        (if-Holds (is_get c s) (answer-Holds r.answers (Shown.text r.shown) s k) k)
  handle_row-Holds (Row.fixed x y) v s ok k = if-Holds (is_get c s) (answer-Holds x y s k) k
  handle_row-Holds Row.skip v s ok k = k

  make-Holds : (cs : List Call) (s : Session) → Inv s → Inv (make cs s)
  unfolding make
  make-Holds cs s = moved (same refl refl refl)

  echo-Holds : (k : Key) (x : Shown) (s : Session) → Inv s → Inv (echo k x s)
  unfolding echo
  echo-Holds k x s = moved (same refl refl refl)

  handle_context-Holds :
      (k : ContextKey) (v : ℤ) (s : Session) → Inv s → Inv (handle_context c k v s)
  unfolding handle_context set_type echo answer
  handle_context-Holds ContextKey.e_type v s h = moved (same refl refl refl) h
  handle_context-Holds ContextKey.e_chn v s h = moved (same refl refl refl) h
  handle_context-Holds ContextKey.e_sub_chn v s h = moved (same refl refl refl) h
  handle_context-Holds ContextKey.e_osd_region v s h = moved (same refl refl refl) h
  handle_context-Holds ContextKey.e_md_area v s h =
      if-Holds (leb_ℤ (pos 4) v) (moved (same refl refl refl) h) (moved (same refl refl refl) h)
  handle_context-Holds ContextKey.e_vdmask_no v s h = moved (same refl refl refl) h
  handle_context-Holds ContextKey.e_wfsearch_accesspoints v s h =
      if-Holds (is_get c s && not (leb_ℤ (s.numbers (Num.other OtherField.waccess_points)) v))
        (moved (same refl refl refl) h) h

  switch_resolution-Holds : (v : ℤ) (s : Session) → Inv s → Inv (switch_resolution v s)
  unfolding switch_resolution
  switch_resolution-Holds v s h =
      let to : (a b : ℕ) → Inv (make (Call.switch a b ∷ []) s) =
        λ a b. make-Holds (Call.switch a b ∷ []) s h in
      if-Holds (eqb_ℤ v (pos 1))
        (if-Holds (has_width AvFile.av_0 (pos 1920) s) h
          (if-Holds (has_width AvFile.av_1 (pos 352) s) (to 1 0) (to 1 2)))
        (if-Holds (eqb_ℤ v (pos 2))
          (if-Holds (has_width AvFile.av_1 (pos 640) s) h
            (if-Holds (has_width AvFile.av_0 (pos 1280) s) (to 2 0) (to 2 1)))
          (if-Holds (not (has_width AvFile.av_0 (pos 1280) s)) (to 0 1)
            (if-Holds (has_width AvFile.av_1 (pos 640) s) (to 0 2) h)))

  note-Holds : (n : Note) (s : Session) → Inv s → Inv (note n s)
  note-Holds n s = moved (note-Spares n s)

  handle_act-Holds : (k : ActKey) (v : Value) (s : Session) → Inv s → Inv (handle_act c k v s)
  unfolding handle_act
  handle_act-Holds ActKey.e_video_synchronization_point v s h =
      if-Holds (is_set c s && leb_ℤ (pos 0) v.number && leb_ℤ v.number (pos 1))
        (make-Holds (Call.set_i_frame v.number ∷ []) s h) h
  handle_act-Holds ActKey.e_nvr_opt v s h =
      let t : Session = touch (nvr_inside c s) s in
      if-Holds (is_set c s)
        (make-Holds (Call.set_nvr_send_status s.channel s.sub_channel v.number ∷ []) t
          (touch-Holds (nvr_inside c s) s h))
        h
  handle_act-Holds ActKey.e_nvr_for_idr v s h =
      let t : Session = touch (enc_inside c s) s in
      if-Holds (is_set c s)
        (make-Holds (Call.set_idr s.channel s.sub_channel ∷ []) t
          (touch-Holds (enc_inside c s) s h))
        h
  handle_act-Holds ActKey.e_nvr_client_id v s h =
      if-Holds (is_get c s)
        (answer-Holds (Key.act ActKey.e_nvr_client_id) (Shown.number v.number) s h) h
  handle_act-Holds ActKey.e_enc_resolution v s h =
      if-Holds (is_get c s)
        (answer-Holds (Key.act ActKey.e_enc_resolution) (Shown.number (shown_resolution s)) s h)
        (switch_resolution-Holds v.number s h)
  handle_act-Holds ActKey.e_reset v s h =
      let cs : List Call = Call.mctp_ptz PtzCommand.goto_preset (pos 95) ∷ Call.do_reset ∷ [] in
      if-Holds (is_set c s)
        (note-Holds Note.restart (reload c (make cs s)) (reset (make cs s) (make-Holds cs s h))) h
  handle_act-Holds ActKey.e_reboot v s h = if-Holds (is_set c s) (note-Holds Note.restart s h) h
  handle_act-Holds ActKey.e_mctp_ptzstring v s h =
      if-Holds (is_set c s) (make-Holds (Call.mctp_text v.text ∷ []) s h) h
  handle_act-Holds ActKey.e_ptz_continue_move_default_timeout v s h = if-Holds (is_set c s) h (
      if-Holds (is_get c s)
        (echo-Holds (Key.act ActKey.e_ptz_continue_move_default_timeout) (Shown.number (pos 10000))
          s h)
        h)
  handle_act-Holds ActKey.e_ptz_stop_pt v s h =
      if-Holds (is_set c s) (make-Holds (Call.mctp_ptz PtzCommand.ptz_stop (pos 0) ∷ []) s h) h
  handle_act-Holds ActKey.e_ptz_stop_zoom v s h =
      if-Holds (is_set c s) (make-Holds (Call.mctp_ptz PtzCommand.ptz_stop (pos 0) ∷ []) s h) h
  handle_act-Holds ActKey.e_sys_devtype v s h = if-Holds (is_get c s) (devtype s h) h
  handle_act-Holds ActKey.e_time_systime v s h = if-Holds (is_set c s) (systime v.text s h) (
      if-Holds (is_get c s) (answer-Holds (Key.act ActKey.e_time_systime) (Shown.text c.now) s h) h)

  handle-Holds : (i : Key × Value) (s : Session) → Inv s → Inv (handle c i s)
  unfolding handle
  handle-Holds (Key.context k, v) s h = handle_context-Holds k v.number s h
  handle-Holds (Key.act k, v) s h = handle_act-Holds k v s h
  handle-Holds (Key.audio k, v) s h =
      handle_row-Holds (row_of (Key.audio k) c s) v s (ok (Key.audio k) s) h
  handle-Holds (Key.stream k, v) s h =
      handle_row-Holds (row_of (Key.stream k) c s) v s (ok (Key.stream k) s) h
  handle-Holds (Key.rate k, v) s h =
      handle_row-Holds (row_of (Key.rate k) c s) v s (ok (Key.rate k) s) h
  handle-Holds (Key.size k, v) s h =
      handle_row-Holds (row_of (Key.size k) c s) v s (ok (Key.size k) s) h
  handle-Holds (Key.quant k, v) s h =
      handle_row-Holds (row_of (Key.quant k) c s) v s (ok (Key.quant k) s) h
  handle-Holds (Key.roi k, v) s h =
      handle_row-Holds (row_of (Key.roi k) c s) v s (ok (Key.roi k) s) h
  handle-Holds (Key.image k, v) s h =
      handle_row-Holds (row_of (Key.image k) c s) v s (ok (Key.image k) s) h
  handle-Holds (Key.white k, v) s h =
      handle_row-Holds (row_of (Key.white k) c s) v s (ok (Key.white k) s) h
  handle-Holds (Key.osd k, v) s h =
      handle_row-Holds (row_of (Key.osd k) c s) v s (ok (Key.osd k) s) h
  handle-Holds (Key.net k, v) s h =
      handle_row-Holds (row_of (Key.net k) c s) v s (ok (Key.net k) s) h
  handle-Holds (Key.port k, v) s h =
      handle_row-Holds (row_of (Key.port k) c s) v s (ok (Key.port k) s) h
  handle-Holds (Key.wifi k, v) s h =
      handle_row-Holds (row_of (Key.wifi k) c s) v s (ok (Key.wifi k) s) h
  handle-Holds (Key.ptz k, v) s h =
      handle_row-Holds (row_of (Key.ptz k) c s) v s (ok (Key.ptz k) s) h
  handle-Holds (Key.alarm k, v) s h =
      handle_row-Holds (row_of (Key.alarm k) c s) v s (ok (Key.alarm k) s) h
  handle-Holds (Key.schedule k, v) s h =
      handle_row-Holds (row_of (Key.schedule k) c s) v s (ok (Key.schedule k) s) h
  handle-Holds (Key.area k, v) s h =
      handle_row-Holds (row_of (Key.area k) c s) v s (ok (Key.area k) s) h
  handle-Holds (Key.ftp k, v) s h =
      handle_row-Holds (row_of (Key.ftp k) c s) v s (ok (Key.ftp k) s) h
  handle-Holds (Key.smtp k, v) s h =
      handle_row-Holds (row_of (Key.smtp k) c s) v s (ok (Key.smtp k) s) h
  handle-Holds (Key.mask k, v) s h =
      handle_row-Holds (row_of (Key.mask k) c s) v s (ok (Key.mask k) s) h
  handle-Holds (Key.time k, v) s h =
      handle_row-Holds (row_of (Key.time k) c s) v s (ok (Key.time k) s) h
  handle-Holds (Key.sys k, v) s h =
      handle_row-Holds (row_of (Key.sys k) c s) v s (ok (Key.sys k) s) h
  handle-Holds (Key.cloud k, v) s h =
      handle_row-Holds (row_of (Key.cloud k) c s) v s (ok (Key.cloud k) s) h
  handle-Holds (Key.rec k, v) s h =
      handle_row-Holds (row_of (Key.rec k) c s) v s (ok (Key.rec k) s) h

  -- The loop over a whole message.
  pub handle_all-Holds : (is : List (Key × Value)) (s : Session) → Inv s → Inv (handle_all c is s)
  unfolding handle_all
  handle_all-Holds [] s h = h
  handle_all-Holds (i ∷ is) s h = handle_all-Holds is (handle c i s) (handle-Holds i s h)
