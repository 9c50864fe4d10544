-- ===== src/Message/Range/Rows.antt =====
-- What each row of the cases of src/processMsg.c stores is in range.
use avserver.Base.{pos, eqb_ℤ, ltb_ℤ}
use avserver.Message.Keys.{
  Key, NetKey, PortKey, WifiKey, PtzKey, AlarmKey, ScheduleKey, AreaKey, FtpKey, SmtpKey, MaskKey,
  TimeKey, SysKey, CloudKey, RecKey,
}
use avserver.Message.Session.{Consts, Session}
use avserver.Message.Range.{IsBounded}
use avserver.Message.Network.{row_net, row_port, row_wifi, row_ptz}
use avserver.Message.Alarm.{row_alarm, row_schedule, row_area, row_mask}
use avserver.Message.Mail.{row_ftp, row_smtp}
use avserver.Message.System.{row_time, row_sys, row_cloud, row_rec}
use avserver.Message.Process.{row_of}
use avserver.Message.Range.Media.{
  switch-bounds, switch-bounds_not, row_audio-IsBounded, row_stream-IsBounded, row_rate-IsBounded,
  row_size-IsBounded, row_quant-IsBounded, row_roi-IsBounded, row_image-IsBounded,
  row_white-IsBounded, row_osd-IsBounded,
}

row_net-IsBounded : (k : NetKey) (s : Session) → IsBounded (row_net k s)
unfolding row_net IsBounded
row_net-IsBounded NetKey.e_infrad_stat s = λ v. tt
row_net-IsBounded NetKey.e_net_dhcpflag s = λ v. tt
row_net-IsBounded NetKey.e_net_ip s = tt
row_net-IsBounded NetKey.e_net_netmask s = tt
row_net-IsBounded NetKey.e_net_gateway s = tt
row_net-IsBounded NetKey.e_net_dnsstat s = λ v. tt
row_net-IsBounded NetKey.e_net_fdnsip s = tt
row_net-IsBounded NetKey.e_net_sdnsip s = tt

row_port-IsBounded : (k : PortKey) (s : Session) → IsBounded (row_port k s)
unfolding row_port IsBounded
row_port-IsBounded PortKey.e_net_protocols s = tt
row_port-IsBounded PortKey.e_net_cardname s = tt
row_port-IsBounded PortKey.e_net_nettype s = λ v. tt
row_port-IsBounded PortKey.e_port_httpport s = λ v. tt
row_port-IsBounded PortKey.e_port_rtspport s = λ v. tt
row_port-IsBounded PortKey.e_upnp_upmenable s = λ v. tt
row_port-IsBounded PortKey.e_ddns_d3thenable s = λ v. tt
row_port-IsBounded PortKey.e_ddns_d3thservice s = λ v. tt
row_port-IsBounded PortKey.e_ddns_d3thuname s = tt
row_port-IsBounded PortKey.e_ddns_d3thpasswd s = tt
row_port-IsBounded PortKey.e_ddns_domain s = tt

row_wifi-IsBounded : (k : WifiKey) (s : Session) → IsBounded (row_wifi k s)
unfolding row_wifi IsBounded
row_wifi-IsBounded WifiKey.e_wf_enable s = λ v. tt
row_wifi-IsBounded WifiKey.e_wf_ssid s = tt
row_wifi-IsBounded WifiKey.e_wf_auth s = λ v. tt
row_wifi-IsBounded WifiKey.e_wf_key s = tt
row_wifi-IsBounded WifiKey.e_wf_enc s = λ v. tt
row_wifi-IsBounded WifiKey.e_wf_mode s = λ v. tt
row_wifi-IsBounded WifiKey.e_wfsearch_channel s = tt
row_wifi-IsBounded WifiKey.e_wfsearch_rssi s = tt
row_wifi-IsBounded WifiKey.e_wfsearch_essid s = tt
row_wifi-IsBounded WifiKey.e_wfsearch_enc s = tt
row_wifi-IsBounded WifiKey.e_wfsearch_auth s = tt
row_wifi-IsBounded WifiKey.e_wfsearch_net s = tt

row_ptz-IsBounded : (k : PtzKey) (s : Session) → IsBounded (row_ptz k s)
unfolding row_ptz IsBounded
row_ptz-IsBounded PtzKey.e_ptz_protocal s = λ v. tt
row_ptz-IsBounded PtzKey.e_ptz_address s = λ v. tt
row_ptz-IsBounded PtzKey.e_ptz_baud s = λ v. tt
row_ptz-IsBounded PtzKey.e_ptz_databit s = λ v. tt
row_ptz-IsBounded PtzKey.e_ptz_stopbit s = λ v. tt
row_ptz-IsBounded PtzKey.e_ptz_check s = λ v. tt

row_alarm-IsBounded : (k : AlarmKey) (s : Session) → IsBounded (row_alarm k s)
unfolding row_alarm IsBounded
row_alarm-IsBounded AlarmKey.e_md_io_alarm_enable s = λ v. tt
row_alarm-IsBounded AlarmKey.e_md_io_alarm_flag s = λ v. tt
row_alarm-IsBounded AlarmKey.e_md_email_switch s = λ v. tt
row_alarm-IsBounded AlarmKey.e_md_snap_switch s = λ v. tt
row_alarm-IsBounded AlarmKey.e_md_record_switch s = λ v. tt
row_alarm-IsBounded AlarmKey.e_md_ftp_switch s = λ v. tt
row_alarm-IsBounded AlarmKey.e_md_relay_switch s = λ v. tt
row_alarm-IsBounded AlarmKey.e_md_relay_time s = λ v. tt

row_schedule-IsBounded : (k : ScheduleKey) (s : Session) → IsBounded (row_schedule k s)
unfolding row_schedule IsBounded
row_schedule-IsBounded ScheduleKey.e_md_schedule_type s = λ v. tt
row_schedule-IsBounded ScheduleKey.e_md_schedule_ename s = λ v. tt
row_schedule-IsBounded ScheduleKey.e_md_schedule_etm s = λ v. tt
row_schedule-IsBounded ScheduleKey.e_md_schedule_workday_tend s = λ v. tt
row_schedule-IsBounded ScheduleKey.e_md_schedule_workday_tstart s = λ v. tt
row_schedule-IsBounded ScheduleKey.e_md_schedule_workend_tstart s = λ v. tt
row_schedule-IsBounded ScheduleKey.e_md_schedule_workend_tend s = λ v. tt
row_schedule-IsBounded ScheduleKey.e_md_schedule_week_tstart s = λ v. tt
row_schedule-IsBounded ScheduleKey.e_md_schedule_week_tend s = λ v. tt

row_area-IsBounded : (k : AreaKey) (s : Session) → IsBounded (row_area k s)
unfolding row_area IsBounded
row_area-IsBounded AreaKey.e_snap_t_type s = λ v. tt
row_area-IsBounded AreaKey.e_snap_t_interval s = λ v. tt
row_area-IsBounded AreaKey.e_snap_t_enable s = λ v. tt
row_area-IsBounded AreaKey.e_md_area_eable s = λ v. tt
row_area-IsBounded AreaKey.e_md_area_s s = λ v. tt
row_area-IsBounded AreaKey.e_md_area_method s = λ v. tt
row_area-IsBounded AreaKey.e_md_area_x s = λ v. tt
row_area-IsBounded AreaKey.e_md_area_y s = λ v. tt
row_area-IsBounded AreaKey.e_md_area_w s = λ v. tt
row_area-IsBounded AreaKey.e_md_area_h s = λ v. tt

row_ftp-IsBounded : (k : FtpKey) (s : Session) → IsBounded (row_ftp k s)
unfolding row_ftp IsBounded
row_ftp-IsBounded FtpKey.e_ft_serverip s = tt
row_ftp-IsBounded FtpKey.e_ft_port s = λ v. tt
row_ftp-IsBounded FtpKey.e_ft_username s = tt
row_ftp-IsBounded FtpKey.e_ft_password s = tt
row_ftp-IsBounded FtpKey.e_ft_mode s = λ v. tt
row_ftp-IsBounded FtpKey.e_ft_dirname s = tt

row_smtp-IsBounded : (k : SmtpKey) (s : Session) → IsBounded (row_smtp k s)
unfolding row_smtp IsBounded
row_smtp-IsBounded SmtpKey.e_smtp_serverip s = tt
row_smtp-IsBounded SmtpKey.e_smtp_port s = λ v. tt
row_smtp-IsBounded SmtpKey.e_smtp_sslflag s = λ v. tt
row_smtp-IsBounded SmtpKey.e_smtp_logintype s = λ v. tt
row_smtp-IsBounded SmtpKey.e_smtp_username s = tt
row_smtp-IsBounded SmtpKey.e_smtp_password s = tt
row_smtp-IsBounded SmtpKey.e_smtp_from s = tt
row_smtp-IsBounded SmtpKey.e_smtp_to s = tt
row_smtp-IsBounded SmtpKey.e_smtp_subject s = tt
row_smtp-IsBounded SmtpKey.e_smtp_text s = tt

row_mask-IsBounded : (k : MaskKey) (s : Session) → IsBounded (row_mask k s)
unfolding row_mask IsBounded
row_mask-IsBounded MaskKey.e_vdmask_number s = tt
row_mask-IsBounded MaskKey.e_vdmask_enable s = λ v. tt
row_mask-IsBounded MaskKey.e_vdmask_x s = λ v. tt
row_mask-IsBounded MaskKey.e_vdmask_y s = λ v. tt
row_mask-IsBounded MaskKey.e_vdmask_w s = λ v. tt
row_mask-IsBounded MaskKey.e_vdmask_h s = λ v. tt
row_mask-IsBounded MaskKey.e_vdmask_color s = λ v. tt

row_time-IsBounded : (c : Consts) (k : TimeKey) (s : Session) → IsBounded (row_time k c s)
unfolding row_time IsBounded
row_time-IsBounded c TimeKey.e_time_zone s = λ v. tt
row_time-IsBounded c TimeKey.e_time_dstmode s = λ v. tt
row_time-IsBounded c TimeKey.e_time_ntpenable s = λ v. tt
row_time-IsBounded c TimeKey.e_time_ntpserver s = tt
row_time-IsBounded c TimeKey.e_time_ntpinterval s = λ v. tt

row_sys-IsBounded : (k : SysKey) (s : Session) → IsBounded (row_sys k s)
unfolding row_sys IsBounded
row_sys-IsBounded SysKey.e_sys_model s = tt
row_sys-IsBounded SysKey.e_sys_hdversion s = tt
row_sys-IsBounded SysKey.e_sys_swversion s = tt
row_sys-IsBounded SysKey.e_sys_devname s = tt
row_sys-IsBounded SysKey.e_sys_startdate s = tt
row_sys-IsBounded SysKey.e_sys_runtimes s = tt
row_sys-IsBounded SysKey.e_sys_sdstatus s = tt
row_sys-IsBounded SysKey.e_sys_sdfreespace s = tt
row_sys-IsBounded SysKey.e_sys_sdtotalspace s = tt
row_sys-IsBounded SysKey.e_sys_hardware_id s = tt
row_sys-IsBounded SysKey.e_sys_manufacturer s = tt
row_sys-IsBounded SysKey.e_sys_model_2 s = tt
row_sys-IsBounded SysKey.e_user_number s = tt

row_cloud-IsBounded : (k : CloudKey) (s : Session) → IsBounded (row_cloud k s)
unfolding row_cloud IsBounded
row_cloud-IsBounded CloudKey.e_cld_enable s = λ v. switch-bounds (ltb_ℤ (pos 0) v)
row_cloud-IsBounded CloudKey.e_cld_id s = tt
row_cloud-IsBounded CloudKey.e_cld_pw s = tt
row_cloud-IsBounded CloudKey.e_cld_srv_prt s = λ v. tt
row_cloud-IsBounded CloudKey.e_cld_srv_addr s = tt
row_cloud-IsBounded CloudKey.e_cld_dev_name s = tt

row_rec-IsBounded : (k : RecKey) (s : Session) → IsBounded (row_rec k s)
unfolding row_rec IsBounded
row_rec-IsBounded RecKey.e_rec_enable s = λ v. switch-bounds_not (eqb_ℤ v (pos 0))
row_rec-IsBounded RecKey.e_rec_len s = λ v. tt
row_rec-IsBounded RecKey.e_rec_time s = λ v. tt

-- Every row of the switch is bounded.
pub row_of-IsBounded : (c : Consts) (k : Key) (s : Session) → IsBounded (row_of k c s)
unfolding row_of IsBounded
row_of-IsBounded c (Key.audio k) s = row_audio-IsBounded k s
row_of-IsBounded c (Key.stream k) s = row_stream-IsBounded c k s
row_of-IsBounded c (Key.rate k) s = row_rate-IsBounded c k s
row_of-IsBounded c (Key.size k) s = row_size-IsBounded c k s
row_of-IsBounded c (Key.quant k) s = row_quant-IsBounded c k s
row_of-IsBounded c (Key.roi k) s = row_roi-IsBounded c k s
row_of-IsBounded c (Key.image k) s = row_image-IsBounded k s
row_of-IsBounded c (Key.white k) s = row_white-IsBounded k s
row_of-IsBounded c (Key.net k) s = row_net-IsBounded k s
row_of-IsBounded c (Key.port k) s = row_port-IsBounded k s
row_of-IsBounded c (Key.wifi k) s = row_wifi-IsBounded k s
row_of-IsBounded c (Key.ptz k) s = row_ptz-IsBounded k s
row_of-IsBounded c (Key.alarm k) s = row_alarm-IsBounded k s
row_of-IsBounded c (Key.schedule k) s = row_schedule-IsBounded k s
row_of-IsBounded c (Key.area k) s = row_area-IsBounded k s
row_of-IsBounded c (Key.ftp k) s = row_ftp-IsBounded k s
row_of-IsBounded c (Key.smtp k) s = row_smtp-IsBounded k s
row_of-IsBounded c (Key.mask k) s = row_mask-IsBounded k s
row_of-IsBounded c (Key.time k) s = row_time-IsBounded c k s
row_of-IsBounded c (Key.sys k) s = row_sys-IsBounded k s
row_of-IsBounded c (Key.cloud k) s = row_cloud-IsBounded k s
row_of-IsBounded c (Key.rec k) s = row_rec-IsBounded k s
row_of-IsBounded c (Key.osd k) s = row_osd-IsBounded c k s
row_of-IsBounded c (Key.context k) s = tt
row_of-IsBounded c (Key.act k) s = tt
