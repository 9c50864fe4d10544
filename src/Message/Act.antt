-- ===== src/Message/Act.antt =====
-- The cases of `processMsg` that set its local variables or only make calls: src/processMsg.c
-- 748-768, 855-860, 1719-1723, 2202-2210, 2576-2582, 2996-3001, 3172-3182, 3277-3380, 3419-3431.
use Prim.Native.String.{String}
use avserver.Base.{
  ℤ, pos, Bool, not, ◌&&◌, ◌||◌, true, false, eqb_ℤ, leb_ℤ, ltb_ℤ, if◌then◌else◌, [], ◌∷◌,
}
use avserver.Message.Keys.{Key, ContextKey, ActKey}
use avserver.Message.Vars.{AvFile, UbsField, OtherField, Num, Txt}
use avserver.Message.Session.{
  Consts, Value, PtzCommand, Call, Shown, Note, Session, put_num, is_set, is_get, answer, echo,
  make, note, put_txt, touch, txt_inside, in_array, same_text,
}

-- Any type above 1 is a T_Set that leaves the rates out of the file. The answer starts anew.
unfoldable pub set_type : Consts → ℤ → Session → Session
set_type c v s =
    let above : Bool = ltb_ℤ (pos 1) v in
    let t : ℤ = if above then c.t_set else v in
    record s {
      cmd_type = t;
      yl_set = above;
      reply = (Key.context ContextKey.e_type, Shown.number t) ∷ [];
    }

unfoldable pub handle_context : Consts → ContextKey → ℤ → Session → Session
unfolding set_type echo answer
handle_context c ContextKey.e_type v s = set_type c v s
handle_context c ContextKey.e_chn v s =
    echo (Key.context ContextKey.e_chn) (Shown.number v) (record s { channel = v })
handle_context c ContextKey.e_sub_chn v s =
    echo (Key.context ContextKey.e_sub_chn) (Shown.number v) (record s { sub_channel = v })
handle_context c ContextKey.e_osd_region v s =
    echo (Key.context ContextKey.e_osd_region) (Shown.number v) (record s { osd_region = v })
handle_context c ContextKey.e_md_area v s =
    let s' : Session = record s { index = v } in
    if leb_ℤ (pos 4) v then s' else answer (Key.context ContextKey.e_md_area) (Shown.number v) s'
handle_context c ContextKey.e_vdmask_no v s = record s { index = v }
handle_context c ContextKey.e_wfsearch_accesspoints v s =
    if is_get c s && not (leb_ℤ (s.numbers (Num.other OtherField.waccess_points)) v)
    then answer (Key.context ContextKey.e_wfsearch_accesspoints) (Shown.number v)
        (record s { index = v })
    else s

-- Whether a width of the first bitstream of a channel is the given one.
unfoldable pub has_width : AvFile → ℤ → Session → Bool
has_width f n s = eqb_ℤ (s.numbers (Num.ubs f (pos 0) UbsField.width)) n

-- The case `e_enc_resolution`: 1080, 640 or 720 lines.
unfoldable pub shown_resolution : Session → ℤ
unfolding has_width
shown_resolution s =
    if has_width AvFile.av_0 (pos 1920) s
    then pos 1
    else if has_width AvFile.av_1 (pos 352) s
    then pos 0
    else pos 2

unfoldable pub switch_resolution : ℤ → Session → Session
unfolding has_width make
switch_resolution v s =
    if eqb_ℤ v (pos 1)
    then (if has_width AvFile.av_0 (pos 1920) s
        then s
        else if has_width AvFile.av_1 (pos 352) s
        then make (Call.switch 1 0 ∷ []) s
        else make (Call.switch 1 2 ∷ []) s)
    else if eqb_ℤ v (pos 2)
    then (if has_width AvFile.av_1 (pos 640) s
        then s
        else if has_width AvFile.av_0 (pos 1280) s
        then make (Call.switch 2 0 ∷ []) s
        else make (Call.switch 2 1 ∷ []) s)
    else if not (has_width AvFile.av_0 (pos 1280) s)
    then make (Call.switch 0 1 ∷ []) s
    else if has_width AvFile.av_1 (pos 640) s
    then make (Call.switch 0 2 ∷ []) s
    else s

-- `e_sys_devtype`, which also stores what it shows.
unfoldable pub show_devtype : Session → Session
unfolding has_width answer
show_devtype s =
    let v : ℤ = if has_width AvFile.av_0 (pos 1920) s then pos 1 else pos 0 in
    answer (Key.act ActKey.e_sys_devtype) (Shown.number v)
      (record s { numbers = put_num (Num.other OtherField.devtype) v s.numbers })

unfoldable pub when : Bool → (Session → Session) → Session → Session
when b f s = if b then f s else s

-- The numbers and texts of the files that `do_reset` restores.
unfoldable pub is_restored : Num → Bool
is_restored (Num.av _ _) = true
is_restored (Num.ubs _ _ _) = true
is_restored (Num.osd _ _) = true
is_restored (Num.other OtherField.cloud_enable) = true
is_restored (Num.other OtherField.cloud_port) = true
is_restored _ = false

unfoldable pub is_restored_txt : Txt → Bool
is_restored_txt (Txt.osd_name _) = true
is_restored_txt Txt.cloud_id = true
is_restored_txt Txt.cloud_pw = true
is_restored_txt Txt.cloud_addr = true
is_restored_txt Txt.cloud_name = true
is_restored_txt _ = false

-- What `do_reset` (src/init_system.c 195-214) leaves, once its readings have worked.
unfoldable pub reload : Consts → Session → Session
unfolding is_restored is_restored_txt
reload c s = record s {
  numbers = λ x. if is_restored x then c.default_num x else s.numbers x;
  texts = λ y. if is_restored_txt y then c.default_txt y else s.texts y;
}

-- `e_time_systime`: the file is not marked.
unfoldable pub set_systime : Consts → String → Session → Session
unfolding make touch txt_inside
set_systime c v s =
    let s' : Session =
      make (Call.set_date v ∷ Call.kill_thttpd ∷ []) (touch (txt_inside c Txt.sys_time v) s) in
    if same_text (s.texts Txt.sys_time) v
    then s
    else record s' { texts = put_txt Txt.sys_time v s.texts }

-- `set_IDR_BR` and `set_nvr_send_status` (src/rtspd.c 2632-2649) write at the numbers they are given;
-- the second one does nothing above CHANNEL_NUM, where it has a row too.
unfoldable pub enc_inside : Consts → Session → Bool
unfolding in_array
enc_inside c s = in_array c.channels s.channel && in_array c.bt_num s.sub_channel

unfoldable pub nvr_inside : Consts → Session → Bool
unfolding enc_inside in_array
nvr_inside c s =
    ltb_ℤ c.channels s.channel
    || (eqb_ℤ s.channel c.channels && in_array c.bt_num s.sub_channel)
    || enc_inside c s

unfoldable pub handle_act : Consts → ActKey → Value → Session → Session
unfolding when touch nvr_inside enc_inside set_systime reload make note answer echo shown_resolution
    switch_resolution show_devtype
handle_act c ActKey.e_video_synchronization_point v s =
    when (is_set c s && leb_ℤ (pos 0) v.number && leb_ℤ v.number (pos 1))
      (make (Call.set_i_frame v.number ∷ [])) s
handle_act c ActKey.e_nvr_opt v s =
    when (is_set c s)
      (λ t.
        make (Call.set_nvr_send_status s.channel s.sub_channel v.number ∷ [])
          (touch (nvr_inside c s) t))
      s
handle_act c ActKey.e_nvr_for_idr v s =
    when (is_set c s)
      (λ t. make (Call.set_idr s.channel s.sub_channel ∷ []) (touch (enc_inside c s) t)) s
handle_act c ActKey.e_nvr_client_id v s =
    when (is_get c s) (answer (Key.act ActKey.e_nvr_client_id) (Shown.number v.number)) s
handle_act c ActKey.e_enc_resolution v s =
    if is_get c s
    then answer (Key.act ActKey.e_enc_resolution) (Shown.number (shown_resolution s)) s
    else switch_resolution v.number s
handle_act c ActKey.e_reset v s =
    when (is_set c s)
      (λ t.
        note Note.restart
          (reload c (make (Call.mctp_ptz PtzCommand.goto_preset (pos 95) ∷ Call.do_reset ∷ []) t)))
      s
handle_act c ActKey.e_reboot v s = when (is_set c s) (note Note.restart) s
handle_act c ActKey.e_mctp_ptzstring v s = when (is_set c s) (make (Call.mctp_text v.text ∷ [])) s
handle_act c ActKey.e_ptz_continue_move_default_timeout v s =
    if is_set c s
    then s
    else when (is_get c s)
        (echo (Key.act ActKey.e_ptz_continue_move_default_timeout) (Shown.number (pos 10000))) s
handle_act c ActKey.e_ptz_stop_pt v s =
    when (is_set c s) (make (Call.mctp_ptz PtzCommand.ptz_stop (pos 0) ∷ [])) s
handle_act c ActKey.e_ptz_stop_zoom v s =
    when (is_set c s) (make (Call.mctp_ptz PtzCommand.ptz_stop (pos 0) ∷ [])) s
handle_act c ActKey.e_sys_devtype v s = when (is_get c s) show_devtype s
handle_act c ActKey.e_time_systime v s =
    if is_set c s
    then set_systime c v.text s
    else when (is_get c s) (answer (Key.act ActKey.e_time_systime) (Shown.text c.now)) s
