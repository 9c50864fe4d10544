-- ===== src/Message/Filed/Rows.antt =====
-- Each row of the cases of src/processMsg.c marks the file of the variable that it sets.
use avserver.Base.{refl, inl}
use avserver.Message.Keys.{
  Key, NetKey, PortKey, WifiKey, PtzKey, AlarmKey, ScheduleKey, AreaKey, FtpKey, SmtpKey, MaskKey,
  TimeKey, SysKey, CloudKey, RecKey,
}
use avserver.Message.Session.{Consts, Session}
use avserver.Message.Filed.{IsFiled, is_passing, file_of, file_of_txt}
use avserver.Message.Network.{row_net, row_port, row_wifi, row_ptz}
use avserver.Message.Alarm.{row_alarm, row_schedule, row_area, row_mask}
use avserver.Message.Mail.{row_ftp, row_smtp}
use avserver.Message.System.{row_time, row_sys, row_cloud, row_rec}
use avserver.Message.Process.{row_of}
use avserver.Message.Filed.Media.{
  row_audio-IsFiled, row_stream-IsFiled, row_rate-IsFiled, row_size-IsFiled, row_quant-IsFiled,
  row_roi-IsFiled, row_image-IsFiled, row_white-IsFiled, row_osd-IsFiled,
}

row_net-IsFiled : (k : NetKey) (s : Session) → IsFiled (row_net k s)
unfolding row_net IsFiled is_passing file_of file_of_txt
row_net-IsFiled NetKey.e_infrad_stat s = (inl refl, refl)
row_net-IsFiled NetKey.e_net_dhcpflag s = (inl refl, refl)
row_net-IsFiled NetKey.e_net_ip s = refl
row_net-IsFiled NetKey.e_net_netmask s = refl
row_net-IsFiled NetKey.e_net_gateway s = refl
row_net-IsFiled NetKey.e_net_dnsstat s = (inl refl, refl)
row_net-IsFiled NetKey.e_net_fdnsip s = refl
row_net-IsFiled NetKey.e_net_sdnsip s = refl

row_port-IsFiled : (k : PortKey) (s : Session) → IsFiled (row_port k s)
unfolding row_port IsFiled is_passing file_of file_of_txt
row_port-IsFiled PortKey.e_net_protocols s = tt
row_port-IsFiled PortKey.e_net_cardname s = tt
row_port-IsFiled PortKey.e_net_nettype s = (inl refl, refl)
row_port-IsFiled PortKey.e_port_httpport s = (inl refl, refl)
row_port-IsFiled PortKey.e_port_rtspport s = (inl refl, refl)
row_port-IsFiled PortKey.e_upnp_upmenable s = (inl refl, refl)
row_port-IsFiled PortKey.e_ddns_d3thenable s = (inl refl, refl)
row_port-IsFiled PortKey.e_ddns_d3thservice s = (inl refl, refl)
row_port-IsFiled PortKey.e_ddns_d3thuname s = refl
row_port-IsFiled PortKey.e_ddns_d3thpasswd s = refl
row_port-IsFiled PortKey.e_ddns_domain s = refl

row_wifi-IsFiled : (k : WifiKey) (s : Session) → IsFiled (row_wifi k s)
unfolding row_wifi IsFiled is_passing file_of file_of_txt
row_wifi-IsFiled WifiKey.e_wf_enable s = (inl refl, refl)
row_wifi-IsFiled WifiKey.e_wf_ssid s = refl
row_wifi-IsFiled WifiKey.e_wf_auth s = (inl refl, refl)
row_wifi-IsFiled WifiKey.e_wf_key s = refl
row_wifi-IsFiled WifiKey.e_wf_enc s = (inl refl, refl)
row_wifi-IsFiled WifiKey.e_wf_mode s = (inl refl, refl)
row_wifi-IsFiled WifiKey.e_wfsearch_channel s = tt
row_wifi-IsFiled WifiKey.e_wfsearch_rssi s = tt
row_wifi-IsFiled WifiKey.e_wfsearch_essid s = tt
row_wifi-IsFiled WifiKey.e_wfsearch_enc s = tt
row_wifi-IsFiled WifiKey.e_wfsearch_auth s = tt
row_wifi-IsFiled WifiKey.e_wfsearch_net s = tt

row_ptz-IsFiled : (k : PtzKey) (s : Session) → IsFiled (row_ptz k s)
unfolding row_ptz IsFiled is_passing file_of file_of_txt
row_ptz-IsFiled PtzKey.e_ptz_protocal s = (inl refl, refl)
row_ptz-IsFiled PtzKey.e_ptz_address s = (inl refl, refl)
row_ptz-IsFiled PtzKey.e_ptz_baud s = (inl refl, refl)
row_ptz-IsFiled PtzKey.e_ptz_databit s = (inl refl, refl)
row_ptz-IsFiled PtzKey.e_ptz_stopbit s = (inl refl, refl)
row_ptz-IsFiled PtzKey.e_ptz_check s = (inl refl, refl)

row_alarm-IsFiled : (k : AlarmKey) (s : Session) → IsFiled (row_alarm k s)
unfolding row_alarm IsFiled is_passing file_of file_of_txt
row_alarm-IsFiled AlarmKey.e_md_io_alarm_enable s = (inl refl, refl)
row_alarm-IsFiled AlarmKey.e_md_io_alarm_flag s = (inl refl, refl)
row_alarm-IsFiled AlarmKey.e_md_email_switch s = (inl refl, refl)
row_alarm-IsFiled AlarmKey.e_md_snap_switch s = (inl refl, refl)
row_alarm-IsFiled AlarmKey.e_md_record_switch s = (inl refl, refl)
row_alarm-IsFiled AlarmKey.e_md_ftp_switch s = (inl refl, refl)
row_alarm-IsFiled AlarmKey.e_md_relay_switch s = (inl refl, refl)
row_alarm-IsFiled AlarmKey.e_md_relay_time s = (inl refl, refl)

row_schedule-IsFiled : (k : ScheduleKey) (s : Session) → IsFiled (row_schedule k s)
unfolding row_schedule IsFiled is_passing file_of file_of_txt
row_schedule-IsFiled ScheduleKey.e_md_schedule_type s = (inl refl, refl)
row_schedule-IsFiled ScheduleKey.e_md_schedule_ename s = (inl refl, refl)
row_schedule-IsFiled ScheduleKey.e_md_schedule_etm s = (inl refl, refl)
row_schedule-IsFiled ScheduleKey.e_md_schedule_workday_tend s = (inl refl, refl)
row_schedule-IsFiled ScheduleKey.e_md_schedule_workday_tstart s = (inl refl, refl)
row_schedule-IsFiled ScheduleKey.e_md_schedule_workend_tstart s = (inl refl, refl)
row_schedule-IsFiled ScheduleKey.e_md_schedule_workend_tend s = (inl refl, refl)
row_schedule-IsFiled ScheduleKey.e_md_schedule_week_tstart s = (inl refl, refl)
row_schedule-IsFiled ScheduleKey.e_md_schedule_week_tend s = (inl refl, refl)

row_area-IsFiled : (k : AreaKey) (s : Session) → IsFiled (row_area k s)
unfolding row_area IsFiled is_passing file_of file_of_txt
row_area-IsFiled AreaKey.e_snap_t_type s = (inl refl, refl)
row_area-IsFiled AreaKey.e_snap_t_interval s = (inl refl, refl)
row_area-IsFiled AreaKey.e_snap_t_enable s = (inl refl, refl)
row_area-IsFiled AreaKey.e_md_area_eable s = (inl refl, refl)
row_area-IsFiled AreaKey.e_md_area_s s = (inl refl, refl)
row_area-IsFiled AreaKey.e_md_area_method s = (inl refl, refl)
row_area-IsFiled AreaKey.e_md_area_x s = (inl refl, refl)
row_area-IsFiled AreaKey.e_md_area_y s = (inl refl, refl)
row_area-IsFiled AreaKey.e_md_area_w s = (inl refl, refl)
row_area-IsFiled AreaKey.e_md_area_h s = (inl refl, refl)

row_ftp-IsFiled : (k : FtpKey) (s : Session) → IsFiled (row_ftp k s)
unfolding row_ftp IsFiled is_passing file_of file_of_txt
row_ftp-IsFiled FtpKey.e_ft_serverip s = refl
row_ftp-IsFiled FtpKey.e_ft_port s = (inl refl, refl)
row_ftp-IsFiled FtpKey.e_ft_username s = refl
row_ftp-IsFiled FtpKey.e_ft_password s = refl
row_ftp-IsFiled FtpKey.e_ft_mode s = (inl refl, refl)
row_ftp-IsFiled FtpKey.e_ft_dirname s = refl

row_smtp-IsFiled : (k : SmtpKey) (s : Session) → IsFiled (row_smtp k s)
unfolding row_smtp IsFiled is_passing file_of file_of_txt
row_smtp-IsFiled SmtpKey.e_smtp_serverip s = refl
row_smtp-IsFiled SmtpKey.e_smtp_port s = (inl refl, refl)
row_smtp-IsFiled SmtpKey.e_smtp_sslflag s = (inl refl, refl)
row_smtp-IsFiled SmtpKey.e_smtp_logintype s = (inl refl, refl)
row_smtp-IsFiled SmtpKey.e_smtp_username s = refl
row_smtp-IsFiled SmtpKey.e_smtp_password s = refl
row_smtp-IsFiled SmtpKey.e_smtp_from s = refl
row_smtp-IsFiled SmtpKey.e_smtp_to s = refl
row_smtp-IsFiled SmtpKey.e_smtp_subject s = refl
row_smtp-IsFiled SmtpKey.e_smtp_text s = refl

row_mask-IsFiled : (k : MaskKey) (s : Session) → IsFiled (row_mask k s)
unfolding row_mask IsFiled is_passing file_of file_of_txt
row_mask-IsFiled MaskKey.e_vdmask_number s = tt
row_mask-IsFiled MaskKey.e_vdmask_enable s = (inl refl, refl)
row_mask-IsFiled MaskKey.e_vdmask_x s = (inl refl, refl)
row_mask-IsFiled MaskKey.e_vdmask_y s = (inl refl, refl)
row_mask-IsFiled MaskKey.e_vdmask_w s = (inl refl, refl)
row_mask-IsFiled MaskKey.e_vdmask_h s = (inl refl, refl)
row_mask-IsFiled MaskKey.e_vdmask_color s = (inl refl, refl)

row_time-IsFiled : (c : Consts) (k : TimeKey) (s : Session) → IsFiled (row_time k c s)
unfolding row_time IsFiled is_passing file_of file_of_txt
row_time-IsFiled c TimeKey.e_time_zone s = (inl refl, refl)
row_time-IsFiled c TimeKey.e_time_dstmode s = (inl refl, refl)
row_time-IsFiled c TimeKey.e_time_ntpenable s = (inl refl, refl)
row_time-IsFiled c TimeKey.e_time_ntpserver s = refl
row_time-IsFiled c TimeKey.e_time_ntpinterval s = (inl refl, refl)

row_sys-IsFiled : (k : SysKey) (s : Session) → IsFiled (row_sys k s)
unfolding row_sys IsFiled is_passing file_of file_of_txt
row_sys-IsFiled SysKey.e_sys_model s = tt
row_sys-IsFiled SysKey.e_sys_hdversion s = tt
row_sys-IsFiled SysKey.e_sys_swversion s = tt
row_sys-IsFiled SysKey.e_sys_devname s = tt
row_sys-IsFiled SysKey.e_sys_startdate s = tt
row_sys-IsFiled SysKey.e_sys_runtimes s = tt
row_sys-IsFiled SysKey.e_sys_sdstatus s = tt
row_sys-IsFiled SysKey.e_sys_sdfreespace s = tt
row_sys-IsFiled SysKey.e_sys_sdtotalspace s = tt
row_sys-IsFiled SysKey.e_sys_hardware_id s = tt
row_sys-IsFiled SysKey.e_sys_manufacturer s = tt
row_sys-IsFiled SysKey.e_sys_model_2 s = tt
row_sys-IsFiled SysKey.e_user_number s = tt

row_cloud-IsFiled : (k : CloudKey) (s : Session) → IsFiled (row_cloud k s)
unfolding row_cloud IsFiled is_passing file_of file_of_txt
row_cloud-IsFiled CloudKey.e_cld_enable s = (inl refl, refl)
row_cloud-IsFiled CloudKey.e_cld_id s = refl
row_cloud-IsFiled CloudKey.e_cld_pw s = refl
row_cloud-IsFiled CloudKey.e_cld_srv_prt s = (inl refl, refl)
row_cloud-IsFiled CloudKey.e_cld_srv_addr s = refl
row_cloud-IsFiled CloudKey.e_cld_dev_name s = refl

row_rec-IsFiled : (k : RecKey) (s : Session) → IsFiled (row_rec k s)
unfolding row_rec IsFiled is_passing file_of file_of_txt
row_rec-IsFiled RecKey.e_rec_enable s = (inl refl, refl)
row_rec-IsFiled RecKey.e_rec_len s = (inl refl, refl)
row_rec-IsFiled RecKey.e_rec_time s = (inl refl, refl)

-- Every row of the switch does.
pub row_of-IsFiled : (c : Consts) (k : Key) (s : Session) → IsFiled (row_of k c s)
unfolding row_of IsFiled
row_of-IsFiled c (Key.audio k) s = row_audio-IsFiled k s
row_of-IsFiled c (Key.stream k) s = row_stream-IsFiled c k s
row_of-IsFiled c (Key.rate k) s = row_rate-IsFiled c k s
row_of-IsFiled c (Key.size k) s = row_size-IsFiled c k s
row_of-IsFiled c (Key.quant k) s = row_quant-IsFiled c k s
row_of-IsFiled c (Key.roi k) s = row_roi-IsFiled c k s
row_of-IsFiled c (Key.image k) s = row_image-IsFiled k s
row_of-IsFiled c (Key.white k) s = row_white-IsFiled k s
row_of-IsFiled c (Key.net k) s = row_net-IsFiled k s
row_of-IsFiled c (Key.port k) s = row_port-IsFiled k s
row_of-IsFiled c (Key.wifi k) s = row_wifi-IsFiled k s
row_of-IsFiled c (Key.ptz k) s = row_ptz-IsFiled k s
row_of-IsFiled c (Key.alarm k) s = row_alarm-IsFiled k s
row_of-IsFiled c (Key.schedule k) s = row_schedule-IsFiled k s
row_of-IsFiled c (Key.area k) s = row_area-IsFiled k s
row_of-IsFiled c (Key.ftp k) s = row_ftp-IsFiled k s
row_of-IsFiled c (Key.smtp k) s = row_smtp-IsFiled k s
row_of-IsFiled c (Key.mask k) s = row_mask-IsFiled k s
row_of-IsFiled c (Key.time k) s = row_time-IsFiled c k s
row_of-IsFiled c (Key.sys k) s = row_sys-IsFiled k s
row_of-IsFiled c (Key.cloud k) s = row_cloud-IsFiled k s
row_of-IsFiled c (Key.rec k) s = row_rec-IsFiled k s
row_of-IsFiled c (Key.osd k) s = row_osd-IsFiled c k s
row_of-IsFiled c (Key.context k) s = tt
row_of-IsFiled c (Key.act k) s = tt
