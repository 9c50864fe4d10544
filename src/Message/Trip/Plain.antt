-- ===== src/Message/Trip/Plain.antt =====
-- The keys of src/processMsg.c that answer with what was set.
use avserver.Base.{◌≡◌, Bool, true, false, eqb_ℤ, [], ◌∷◌, ◌++◌}
use avserver.Message.Keys.{
  Key, StreamKey, QuantKey, RoiKey, WhiteKey, NetKey, PortKey, WifiKey, PtzKey, AlarmKey,
  ScheduleKey, AreaKey, FtpKey, SmtpKey, MaskKey, TimeKey,
}
use avserver.Message.Vars.{
  File, AvField, UbsField, ImgField, BoxField, MdField, NetField, PtzField, OtherField, Num,
}
use avserver.Message.Session.{Consts, Value, Shown, Session, is_set}
use avserver.Message.Encode.{file_of_av, row_stream}
use avserver.Message.Quality.{row_quant, row_roi}
use avserver.Message.Picture.{row_white}
use avserver.Message.Network.{row_net, row_port, row_wifi, row_ptz}
use avserver.Message.Alarm.{row_alarm, row_schedule, row_area, row_mask}
use avserver.Message.Mail.{row_ftp, row_smtp}
use avserver.Message.System.{row_time}
use avserver.Message.Process.{row_of, handle}
use avserver.Message.Trip.{as_get, row-trip}

-- The keys whose number is stored as it comes and shown as it is, under the key itself.
unfoldable pub is_plain : Key → Bool
is_plain (Key.stream StreamKey.e_denoise) = true
is_plain (Key.stream StreamKey.e_input_system) = true
is_plain (Key.stream StreamKey.e_de_interlace) = true
is_plain (Key.stream StreamKey.e_stream_enable) = true
is_plain (Key.stream StreamKey.e_enc_type) = true
is_plain (Key.quant QuantKey.e_rate_ctl_type) = true
is_plain (Key.quant QuantKey.e_target_rate_max) = true
is_plain (Key.quant QuantKey.e_reaction_delay_max) = true
is_plain (Key.quant QuantKey.e_init_quant) = true
is_plain (Key.quant QuantKey.e_max_quant) = true
is_plain (Key.quant QuantKey.e_min_quant) = true
is_plain (Key.roi RoiKey.e_mjpeg_quality) = true
is_plain (Key.roi RoiKey.e_enable_roi) = true
is_plain (Key.roi RoiKey.e_roi_x) = true
is_plain (Key.roi RoiKey.e_roi_y) = true
is_plain (Key.roi RoiKey.e_roi_w) = true
is_plain (Key.roi RoiKey.e_roi_h) = true
is_plain (Key.white WhiteKey.e_wb_r) = true
is_plain (Key.white WhiteKey.e_wb_g) = true
is_plain (Key.white WhiteKey.e_wb_b) = true
is_plain (Key.net NetKey.e_net_dnsstat) = true
is_plain (Key.port PortKey.e_port_rtspport) = true
is_plain (Key.port PortKey.e_upnp_upmenable) = true
is_plain (Key.port PortKey.e_ddns_d3thenable) = true
is_plain (Key.port PortKey.e_ddns_d3thservice) = true
is_plain (Key.wifi WifiKey.e_wf_enable) = true
is_plain (Key.wifi WifiKey.e_wf_auth) = true
is_plain (Key.wifi WifiKey.e_wf_enc) = true
is_plain (Key.wifi WifiKey.e_wf_mode) = true
is_plain (Key.ptz PtzKey.e_ptz_protocal) = true
is_plain (Key.ptz PtzKey.e_ptz_address) = true
is_plain (Key.ptz PtzKey.e_ptz_baud) = true
is_plain (Key.ptz PtzKey.e_ptz_databit) = true
is_plain (Key.ptz PtzKey.e_ptz_stopbit) = true
is_plain (Key.ptz PtzKey.e_ptz_check) = true
is_plain (Key.alarm AlarmKey.e_md_io_alarm_enable) = true
is_plain (Key.alarm AlarmKey.e_md_io_alarm_flag) = true
is_plain (Key.alarm AlarmKey.e_md_email_switch) = true
is_plain (Key.alarm AlarmKey.e_md_snap_switch) = true
is_plain (Key.alarm AlarmKey.e_md_record_switch) = true
is_plain (Key.alarm AlarmKey.e_md_ftp_switch) = true
is_plain (Key.alarm AlarmKey.e_md_relay_switch) = true
is_plain (Key.alarm AlarmKey.e_md_relay_time) = true
is_plain (Key.schedule ScheduleKey.e_md_schedule_type) = true
is_plain (Key.schedule ScheduleKey.e_md_schedule_ename) = true
is_plain (Key.schedule ScheduleKey.e_md_schedule_etm) = true
is_plain (Key.schedule ScheduleKey.e_md_schedule_workday_tend) = true
is_plain (Key.schedule ScheduleKey.e_md_schedule_workday_tstart) = true
is_plain (Key.schedule ScheduleKey.e_md_schedule_workend_tstart) = true
is_plain (Key.schedule ScheduleKey.e_md_schedule_workend_tend) = true
is_plain (Key.schedule ScheduleKey.e_md_schedule_week_tstart) = true
is_plain (Key.schedule ScheduleKey.e_md_schedule_week_tend) = true
is_plain (Key.area AreaKey.e_md_area_eable) = true
is_plain (Key.area AreaKey.e_md_area_method) = true
is_plain (Key.area AreaKey.e_md_area_x) = true
is_plain (Key.area AreaKey.e_md_area_y) = true
is_plain (Key.mask MaskKey.e_vdmask_enable) = true
is_plain (Key.mask MaskKey.e_vdmask_x) = true
is_plain (Key.mask MaskKey.e_vdmask_y) = true
is_plain (Key.mask MaskKey.e_vdmask_w) = true
is_plain (Key.mask MaskKey.e_vdmask_h) = true
is_plain (Key.mask MaskKey.e_vdmask_color) = true
is_plain (Key.area AreaKey.e_snap_t_enable) = true
is_plain (Key.area AreaKey.e_snap_t_interval) = true
is_plain (Key.area AreaKey.e_snap_t_type) = true
is_plain (Key.ftp FtpKey.e_ft_port) = true
is_plain (Key.ftp FtpKey.e_ft_mode) = true
is_plain (Key.smtp SmtpKey.e_smtp_port) = true
is_plain (Key.smtp SmtpKey.e_smtp_sslflag) = true
is_plain (Key.smtp SmtpKey.e_smtp_logintype) = true
is_plain (Key.time TimeKey.e_time_zone) = true
is_plain _ = false

-- For each of 71 keys whose case stores the number as it comes, where T_Get and T_Set differ:
-- the number that the key sets under T_Set is what the same key answers next under T_Get.
pub set-get :
    (c : Consts) (k : Key) (v v' : Value) (s : Session)
    → is_plain k ≡ true
    → is_set c s ≡ true
    → eqb_ℤ c.t_get c.t_set ≡ false
    → let t = handle c (k, v) s in
      (handle c (k, v') (as_get c t)).reply ≡ t.reply ++ (k, Shown.number v.number) ∷ []
unfolding handle row_of is_plain row_alarm row_area row_ftp row_mask row_net row_port row_ptz
    row_quant row_roi row_schedule row_smtp row_stream row_time row_white row_wifi
set-get c (Key.stream StreamKey.e_denoise) v v' s p h g =
    row-trip (λ a i j. Num.av a AvField.denoise) file_of_av (Key.stream StreamKey.e_denoise) c v v'
      s h g
set-get c (Key.stream StreamKey.e_input_system) v v' s p h g =
    row-trip (λ a i j. Num.av a AvField.input_system) file_of_av
      (Key.stream StreamKey.e_input_system) c v v' s h g
set-get c (Key.stream StreamKey.e_de_interlace) v v' s p h g =
    row-trip (λ a i j. Num.av a AvField.de_interlace) file_of_av
      (Key.stream StreamKey.e_de_interlace) c v v' s h g
set-get c (Key.stream StreamKey.e_stream_enable) v v' s p h g =
    row-trip (λ a i j. Num.ubs a i UbsField.stream_enable) file_of_av
      (Key.stream StreamKey.e_stream_enable) c v v' s h g
set-get c (Key.stream StreamKey.e_enc_type) v v' s p h g =
    row-trip (λ a i j. Num.ubs a i UbsField.enc_type) file_of_av (Key.stream StreamKey.e_enc_type) c
      v v' s h g
set-get c (Key.quant QuantKey.e_rate_ctl_type) v v' s p h g =
    row-trip (λ a i j. Num.ubs a i UbsField.rate_ctl_type) file_of_av
      (Key.quant QuantKey.e_rate_ctl_type) c v v' s h g
set-get c (Key.quant QuantKey.e_target_rate_max) v v' s p h g =
    row-trip (λ a i j. Num.ubs a i UbsField.target_rate_max) file_of_av
      (Key.quant QuantKey.e_target_rate_max) c v v' s h g
set-get c (Key.quant QuantKey.e_reaction_delay_max) v v' s p h g =
    row-trip (λ a i j. Num.ubs a i UbsField.reaction_delay_max) file_of_av
      (Key.quant QuantKey.e_reaction_delay_max) c v v' s h g
set-get c (Key.quant QuantKey.e_init_quant) v v' s p h g =
    row-trip (λ a i j. Num.ubs a i UbsField.init_quant) file_of_av (Key.quant QuantKey.e_init_quant)
      c v v' s h g
set-get c (Key.quant QuantKey.e_max_quant) v v' s p h g =
    row-trip (λ a i j. Num.ubs a i UbsField.max_quant) file_of_av (Key.quant QuantKey.e_max_quant) c
      v v' s h g
set-get c (Key.quant QuantKey.e_min_quant) v v' s p h g =
    row-trip (λ a i j. Num.ubs a i UbsField.min_quant) file_of_av (Key.quant QuantKey.e_min_quant) c
      v v' s h g
set-get c (Key.roi RoiKey.e_mjpeg_quality) v v' s p h g =
    row-trip (λ a i j. Num.ubs a i UbsField.mjpeg_quality) file_of_av
      (Key.roi RoiKey.e_mjpeg_quality) c v v' s h g
set-get c (Key.roi RoiKey.e_enable_roi) v v' s p h g =
    row-trip (λ a i j. Num.ubs a i UbsField.enabled_roi) file_of_av (Key.roi RoiKey.e_enable_roi) c
      v v' s h g
set-get c (Key.roi RoiKey.e_roi_x) v v' s p h g =
    row-trip (λ a i j. Num.ubs a i UbsField.roi_x) file_of_av (Key.roi RoiKey.e_roi_x) c v v' s h g
set-get c (Key.roi RoiKey.e_roi_y) v v' s p h g =
    row-trip (λ a i j. Num.ubs a i UbsField.roi_y) file_of_av (Key.roi RoiKey.e_roi_y) c v v' s h g
set-get c (Key.roi RoiKey.e_roi_w) v v' s p h g =
    row-trip (λ a i j. Num.ubs a i UbsField.roi_w) file_of_av (Key.roi RoiKey.e_roi_w) c v v' s h g
set-get c (Key.roi RoiKey.e_roi_h) v v' s p h g =
    row-trip (λ a i j. Num.ubs a i UbsField.roi_h) file_of_av (Key.roi RoiKey.e_roi_h) c v v' s h g
set-get c (Key.white WhiteKey.e_wb_r) v v' s p h g =
    row-trip (λ a i j. Num.img ImgField.wb_0) (λ a. File.image_attr) (Key.white WhiteKey.e_wb_r) c v
      v' s h g
set-get c (Key.white WhiteKey.e_wb_g) v v' s p h g =
    row-trip (λ a i j. Num.img ImgField.wb_1) (λ a. File.image_attr) (Key.white WhiteKey.e_wb_g) c v
      v' s h g
set-get c (Key.white WhiteKey.e_wb_b) v v' s p h g =
    row-trip (λ a i j. Num.img ImgField.wb_2) (λ a. File.image_attr) (Key.white WhiteKey.e_wb_b) c v
      v' s h g
set-get c (Key.net NetKey.e_net_dnsstat) v v' s p h g =
    row-trip (λ a i j. Num.net NetField.dnsstat) (λ a. File.net) (Key.net NetKey.e_net_dnsstat) c v
      v' s h g
set-get c (Key.port PortKey.e_port_rtspport) v v' s p h g =
    row-trip (λ a i j. Num.net NetField.rtspport) (λ a. File.port)
      (Key.port PortKey.e_port_rtspport) c v v' s h g
set-get c (Key.port PortKey.e_upnp_upmenable) v v' s p h g =
    row-trip (λ a i j. Num.net NetField.upm_enable) (λ a. File.upnp)
      (Key.port PortKey.e_upnp_upmenable) c v v' s h g
set-get c (Key.port PortKey.e_ddns_d3thenable) v v' s p h g =
    row-trip (λ a i j. Num.net NetField.d3th_enable) (λ a. File.ddns)
      (Key.port PortKey.e_ddns_d3thenable) c v v' s h g
set-get c (Key.port PortKey.e_ddns_d3thservice) v v' s p h g =
    row-trip (λ a i j. Num.net NetField.d3th_service) (λ a. File.ddns)
      (Key.port PortKey.e_ddns_d3thservice) c v v' s h g
set-get c (Key.wifi WifiKey.e_wf_enable) v v' s p h g =
    row-trip (λ a i j. Num.net NetField.wf_enable) (λ a. File.wf) (Key.wifi WifiKey.e_wf_enable) c v
      v' s h g
set-get c (Key.wifi WifiKey.e_wf_auth) v v' s p h g =
    row-trip (λ a i j. Num.net NetField.wf_auth) (λ a. File.wf) (Key.wifi WifiKey.e_wf_auth) c v v'
      s h g
set-get c (Key.wifi WifiKey.e_wf_enc) v v' s p h g =
    row-trip (λ a i j. Num.net NetField.wf_enc) (λ a. File.wf) (Key.wifi WifiKey.e_wf_enc) c v v' s
      h g
set-get c (Key.wifi WifiKey.e_wf_mode) v v' s p h g =
    row-trip (λ a i j. Num.net NetField.wf_mode) (λ a. File.wf) (Key.wifi WifiKey.e_wf_mode) c v v'
      s h g
set-get c (Key.ptz PtzKey.e_ptz_protocal) v v' s p h g =
    row-trip (λ a i j. Num.ptz PtzField.protocal) (λ a. File.ptzcom) (Key.ptz PtzKey.e_ptz_protocal)
      c v v' s h g
set-get c (Key.ptz PtzKey.e_ptz_address) v v' s p h g =
    row-trip (λ a i j. Num.ptz PtzField.address) (λ a. File.ptzcom) (Key.ptz PtzKey.e_ptz_address) c
      v v' s h g
set-get c (Key.ptz PtzKey.e_ptz_baud) v v' s p h g =
    row-trip (λ a i j. Num.ptz PtzField.baud) (λ a. File.ptzcom) (Key.ptz PtzKey.e_ptz_baud) c v v'
      s h g
set-get c (Key.ptz PtzKey.e_ptz_databit) v v' s p h g =
    row-trip (λ a i j. Num.ptz PtzField.databit) (λ a. File.ptzcom) (Key.ptz PtzKey.e_ptz_databit) c
      v v' s h g
set-get c (Key.ptz PtzKey.e_ptz_stopbit) v v' s p h g =
    row-trip (λ a i j. Num.ptz PtzField.stopbit) (λ a. File.ptzcom) (Key.ptz PtzKey.e_ptz_stopbit) c
      v v' s h g
set-get c (Key.ptz PtzKey.e_ptz_check) v v' s p h g =
    row-trip (λ a i j. Num.ptz PtzField.check) (λ a. File.ptzcom) (Key.ptz PtzKey.e_ptz_check) c v
      v' s h g
set-get c (Key.alarm AlarmKey.e_md_io_alarm_enable) v v' s p h g =
    row-trip (λ a i j. Num.md MdField.io_alarm_enable) (λ a. File.md)
      (Key.alarm AlarmKey.e_md_io_alarm_enable) c v v' s h g
set-get c (Key.alarm AlarmKey.e_md_io_alarm_flag) v v' s p h g =
    row-trip (λ a i j. Num.md MdField.io_alarm_flag) (λ a. File.md)
      (Key.alarm AlarmKey.e_md_io_alarm_flag) c v v' s h g
set-get c (Key.alarm AlarmKey.e_md_email_switch) v v' s p h g =
    row-trip (λ a i j. Num.md MdField.email_switch) (λ a. File.md)
      (Key.alarm AlarmKey.e_md_email_switch) c v v' s h g
set-get c (Key.alarm AlarmKey.e_md_snap_switch) v v' s p h g =
    row-trip (λ a i j. Num.md MdField.snap_switch) (λ a. File.md)
      (Key.alarm AlarmKey.e_md_snap_switch) c v v' s h g
set-get c (Key.alarm AlarmKey.e_md_record_switch) v v' s p h g =
    row-trip (λ a i j. Num.md MdField.record_switch) (λ a. File.md)
      (Key.alarm AlarmKey.e_md_record_switch) c v v' s h g
set-get c (Key.alarm AlarmKey.e_md_ftp_switch) v v' s p h g =
    row-trip (λ a i j. Num.md MdField.ftp_switch) (λ a. File.md)
      (Key.alarm AlarmKey.e_md_ftp_switch) c v v' s h g
set-get c (Key.alarm AlarmKey.e_md_relay_switch) v v' s p h g =
    row-trip (λ a i j. Num.md MdField.relay_switch) (λ a. File.md)
      (Key.alarm AlarmKey.e_md_relay_switch) c v v' s h g
set-get c (Key.alarm AlarmKey.e_md_relay_time) v v' s p h g =
    row-trip (λ a i j. Num.md MdField.relay_time) (λ a. File.md)
      (Key.alarm AlarmKey.e_md_relay_time) c v v' s h g
set-get c (Key.schedule ScheduleKey.e_md_schedule_type) v v' s p h g =
    row-trip (λ a i j. Num.md MdField.schedule_type) (λ a. File.md)
      (Key.schedule ScheduleKey.e_md_schedule_type) c v v' s h g
set-get c (Key.schedule ScheduleKey.e_md_schedule_ename) v v' s p h g =
    row-trip (λ a i j. Num.md MdField.schedule_ename) (λ a. File.md)
      (Key.schedule ScheduleKey.e_md_schedule_ename) c v v' s h g
set-get c (Key.schedule ScheduleKey.e_md_schedule_etm) v v' s p h g =
    row-trip (λ a i j. Num.md MdField.schedule_etm) (λ a. File.md)
      (Key.schedule ScheduleKey.e_md_schedule_etm) c v v' s h g
set-get c (Key.schedule ScheduleKey.e_md_schedule_workday_tend) v v' s p h g =
    row-trip (λ a i j. Num.md MdField.workday_end) (λ a. File.md)
      (Key.schedule ScheduleKey.e_md_schedule_workday_tend) c v v' s h g
set-get c (Key.schedule ScheduleKey.e_md_schedule_workday_tstart) v v' s p h g =
    row-trip (λ a i j. Num.md MdField.workday_start) (λ a. File.md)
      (Key.schedule ScheduleKey.e_md_schedule_workday_tstart) c v v' s h g
set-get c (Key.schedule ScheduleKey.e_md_schedule_workend_tstart) v v' s p h g =
    row-trip (λ a i j. Num.md MdField.weekend_start) (λ a. File.md)
      (Key.schedule ScheduleKey.e_md_schedule_workend_tstart) c v v' s h g
set-get c (Key.schedule ScheduleKey.e_md_schedule_workend_tend) v v' s p h g =
    row-trip (λ a i j. Num.md MdField.weekend_end) (λ a. File.md)
      (Key.schedule ScheduleKey.e_md_schedule_workend_tend) c v v' s h g
set-get c (Key.schedule ScheduleKey.e_md_schedule_week_tstart) v v' s p h g =
    row-trip (λ a i j. Num.md MdField.week_start) (λ a. File.md)
      (Key.schedule ScheduleKey.e_md_schedule_week_tstart) c v v' s h g
set-get c (Key.schedule ScheduleKey.e_md_schedule_week_tend) v v' s p h g =
    row-trip (λ a i j. Num.md MdField.week_end) (λ a. File.md)
      (Key.schedule ScheduleKey.e_md_schedule_week_tend) c v v' s h g
set-get c (Key.area AreaKey.e_md_area_eable) v v' s p h g =
    row-trip (λ a i j. Num.area j BoxField.enable) (λ a. File.md) (Key.area AreaKey.e_md_area_eable)
      c v v' s h g
set-get c (Key.area AreaKey.e_md_area_method) v v' s p h g =
    row-trip (λ a i j. Num.area j BoxField.method) (λ a. File.md)
      (Key.area AreaKey.e_md_area_method) c v v' s h g
set-get c (Key.area AreaKey.e_md_area_x) v v' s p h g =
    row-trip (λ a i j. Num.area j BoxField.x) (λ a. File.md) (Key.area AreaKey.e_md_area_x) c v v' s
      h g
set-get c (Key.area AreaKey.e_md_area_y) v v' s p h g =
    row-trip (λ a i j. Num.area j BoxField.y) (λ a. File.md) (Key.area AreaKey.e_md_area_y) c v v' s
      h g
set-get c (Key.mask MaskKey.e_vdmask_enable) v v' s p h g =
    row-trip (λ a i j. Num.aera j BoxField.enable) (λ a. File.vidmask)
      (Key.mask MaskKey.e_vdmask_enable) c v v' s h g
set-get c (Key.mask MaskKey.e_vdmask_x) v v' s p h g =
    row-trip (λ a i j. Num.aera j BoxField.x) (λ a. File.vidmask) (Key.mask MaskKey.e_vdmask_x) c v
      v' s h g
set-get c (Key.mask MaskKey.e_vdmask_y) v v' s p h g =
    row-trip (λ a i j. Num.aera j BoxField.y) (λ a. File.vidmask) (Key.mask MaskKey.e_vdmask_y) c v
      v' s h g
set-get c (Key.mask MaskKey.e_vdmask_w) v v' s p h g =
    row-trip (λ a i j. Num.aera j BoxField.w) (λ a. File.vidmask) (Key.mask MaskKey.e_vdmask_w) c v
      v' s h g
set-get c (Key.mask MaskKey.e_vdmask_h) v v' s p h g =
    row-trip (λ a i j. Num.aera j BoxField.h) (λ a. File.vidmask) (Key.mask MaskKey.e_vdmask_h) c v
      v' s h g
set-get c (Key.mask MaskKey.e_vdmask_color) v v' s p h g =
    row-trip (λ a i j. Num.aera j BoxField.color) (λ a. File.vidmask)
      (Key.mask MaskKey.e_vdmask_color) c v v' s h g
set-get c (Key.area AreaKey.e_snap_t_enable) v v' s p h g =
    row-trip (λ a i j. Num.other OtherField.as_enable) (λ a. File.snaptimer)
      (Key.area AreaKey.e_snap_t_enable) c v v' s h g
set-get c (Key.area AreaKey.e_snap_t_interval) v v' s p h g =
    row-trip (λ a i j. Num.other OtherField.as_interval) (λ a. File.snaptimer)
      (Key.area AreaKey.e_snap_t_interval) c v v' s h g
set-get c (Key.area AreaKey.e_snap_t_type) v v' s p h g =
    row-trip (λ a i j. Num.other OtherField.as_type) (λ a. File.snaptimer)
      (Key.area AreaKey.e_snap_t_type) c v v' s h g
set-get c (Key.ftp FtpKey.e_ft_port) v v' s p h g =
    row-trip (λ a i j. Num.other OtherField.ft_port) (λ a. File.ftp) (Key.ftp FtpKey.e_ft_port) c v
      v' s h g
set-get c (Key.ftp FtpKey.e_ft_mode) v v' s p h g =
    row-trip (λ a i j. Num.other OtherField.ft_mode) (λ a. File.ftp) (Key.ftp FtpKey.e_ft_mode) c v
      v' s h g
set-get c (Key.smtp SmtpKey.e_smtp_port) v v' s p h g =
    row-trip (λ a i j. Num.other OtherField.smtp_port) (λ a. File.smtp)
      (Key.smtp SmtpKey.e_smtp_port) c v v' s h g
set-get c (Key.smtp SmtpKey.e_smtp_sslflag) v v' s p h g =
    row-trip (λ a i j. Num.other OtherField.ssl_flag) (λ a. File.smtp)
      (Key.smtp SmtpKey.e_smtp_sslflag) c v v' s h g
set-get c (Key.smtp SmtpKey.e_smtp_logintype) v v' s p h g =
    row-trip (λ a i j. Num.other OtherField.logintype) (λ a. File.smtp)
      (Key.smtp SmtpKey.e_smtp_logintype) c v v' s h g
set-get c (Key.time TimeKey.e_time_zone) v v' s p h g =
    row-trip (λ a i j. Num.other OtherField.time_zone) (λ a. File.sys_timer)
      (Key.time TimeKey.e_time_zone) c v v' s h g
set-get c k v v' s p h g = absurd (cc)
