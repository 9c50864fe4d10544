-- ===== src/Message/Keys.antt =====
-- The keys of a message: the members of the enumeration from `e_TYPE` to `e_END` that the cases of
-- `processMsg` name, by the group that handles them. The enumeration itself is declared outside the
-- repository. A message of the model has these keys only.

pub data ContextKey : Type 0 where
  e_type e_chn e_sub_chn e_osd_region e_md_area e_vdmask_no e_wfsearch_accesspoints : ContextKey

pub data AudioKey : Type 0 where
  e_video_chn_num e_video_addr e_audio_enable e_audio_enc_type e_audio_bitrate e_audio_rtspport :
      AudioKey
  e_audio_samplesize e_audio_samplerate e_encode_profile e_profile_levels : AudioKey

pub data StreamKey : Type 0 where
  e_fw e_denoise e_input_system e_de_interlace e_stream_enable e_enc_type : StreamKey

pub data RateKey : Type 0 where
  e_frame_rate e_bit_rate e_ip_interval e_min_frame_rate e_max_frame_rate : RateKey
  e_min_ip_interval e_max_ip_interval : RateKey

pub data SizeKey : Type 0 where
  e_width e_height e_min_video_encoding_interval e_max_video_encoding_interval : SizeKey
  e_video_resolutions : SizeKey

pub data QuantKey : Type 0 where
  e_rate_ctl_type e_target_rate_max e_reaction_delay_max e_init_quant e_max_quant : QuantKey
  e_min_quant : QuantKey

pub data RoiKey : Type 0 where
  e_mjpeg_quality e_enable_roi e_roi_x e_roi_y e_roi_w e_roi_h : RoiKey

pub data ImageKey : Type 0 where
  e_brightness e_saturation e_contrast e_sharpness e_hue e_scene e_flip e_mirror : ImageKey
  e_imgctow e_imgwtoc : ImageKey

pub data WhiteKey : Type 0 where
  e_wb_r e_wb_g e_wb_b e_wb_mode e_wb_crgain e_wb_cbgain e_backlightcomp_mode : WhiteKey
  e_backlightcomp_level e_wdrange_mode e_wdrange_level : WhiteKey

pub data OsdKey : Type 0 where
  e_osd_region_name e_osd_enable e_osd_x e_osd_y e_osd_w e_osd_h : OsdKey

pub data NetKey : Type 0 where
  e_infrad_stat e_net_dhcpflag e_net_ip e_net_netmask e_net_gateway e_net_dnsstat : NetKey
  e_net_fdnsip e_net_sdnsip : NetKey

pub data PortKey : Type 0 where
  e_net_nettype e_net_cardname e_net_protocols : PortKey
  e_port_httpport e_port_rtspport e_upnp_upmenable e_ddns_d3thenable : PortKey
  e_ddns_d3thservice e_ddns_d3thuname e_ddns_d3thpasswd e_ddns_domain : PortKey

pub data WifiKey : Type 0 where
  e_wf_enable e_wf_ssid e_wf_auth e_wf_key e_wf_enc e_wf_mode : WifiKey
  e_wfsearch_channel e_wfsearch_rssi e_wfsearch_essid e_wfsearch_enc e_wfsearch_auth : WifiKey
  e_wfsearch_net : WifiKey

pub data PtzKey : Type 0 where
  e_ptz_protocal e_ptz_address e_ptz_baud e_ptz_databit e_ptz_stopbit e_ptz_check : PtzKey

pub data AlarmKey : Type 0 where
  e_md_io_alarm_enable e_md_io_alarm_flag e_md_email_switch e_md_snap_switch : AlarmKey
  e_md_record_switch e_md_ftp_switch e_md_relay_switch e_md_relay_time : AlarmKey

pub data ScheduleKey : Type 0 where
  e_md_schedule_type e_md_schedule_ename e_md_schedule_etm : ScheduleKey
  e_md_schedule_workday_tend e_md_schedule_workday_tstart : ScheduleKey
  e_md_schedule_workend_tstart e_md_schedule_workend_tend : ScheduleKey
  e_md_schedule_week_tstart e_md_schedule_week_tend : ScheduleKey

pub data AreaKey : Type 0 where
  e_snap_t_enable e_snap_t_interval e_snap_t_type : AreaKey
  e_md_area_eable e_md_area_s e_md_area_method e_md_area_x e_md_area_y e_md_area_w : AreaKey
  e_md_area_h : AreaKey

pub data FtpKey : Type 0 where
  e_ft_serverip e_ft_port e_ft_username : FtpKey
  e_ft_password e_ft_mode e_ft_dirname : FtpKey

pub data SmtpKey : Type 0 where
  e_smtp_serverip e_smtp_port e_smtp_sslflag e_smtp_logintype e_smtp_username : SmtpKey
  e_smtp_password e_smtp_from e_smtp_to e_smtp_subject e_smtp_text : SmtpKey

pub data MaskKey : Type 0 where
  e_vdmask_number e_vdmask_enable e_vdmask_x e_vdmask_y e_vdmask_w e_vdmask_h : MaskKey
  e_vdmask_color : MaskKey

pub data TimeKey : Type 0 where
  e_time_zone e_time_dstmode e_time_ntpenable e_time_ntpserver e_time_ntpinterval : TimeKey

pub data SysKey : Type 0 where
  e_sys_model e_sys_hdversion e_sys_swversion e_sys_devname e_sys_startdate : SysKey
  e_sys_runtimes e_sys_sdstatus e_sys_sdfreespace e_sys_sdtotalspace e_sys_hardware_id : SysKey
  e_sys_manufacturer e_sys_model_2 e_user_number : SysKey

pub data CloudKey : Type 0 where
  e_cld_enable e_cld_id e_cld_pw e_cld_srv_prt e_cld_srv_addr e_cld_dev_name : CloudKey

pub data RecKey : Type 0 where
  e_rec_enable e_rec_len e_rec_time : RecKey

-- The keys whose cases only make calls.
pub data ActKey : Type 0 where
  e_video_synchronization_point e_nvr_opt e_nvr_for_idr e_enc_resolution e_reset e_reboot : ActKey
  e_mctp_ptzstring e_ptz_stop_pt e_ptz_stop_zoom e_sys_devtype : ActKey
  e_ptz_continue_move_default_timeout e_nvr_client_id e_time_systime : ActKey

pub data Key : Type 0 where
  context : ContextKey → Key
  audio : AudioKey → Key
  stream : StreamKey → Key
  rate : RateKey → Key
  size : SizeKey → Key
  quant : QuantKey → Key
  roi : RoiKey → Key
  image : ImageKey → Key
  white : WhiteKey → Key
  osd : OsdKey → Key
  net : NetKey → Key
  port : PortKey → Key
  wifi : WifiKey → Key
  ptz : PtzKey → Key
  alarm : AlarmKey → Key
  schedule : ScheduleKey → Key
  area : AreaKey → Key
  ftp : FtpKey → Key
  smtp : SmtpKey → Key
  mask : MaskKey → Key
  time : TimeKey → Key
  sys : SysKey → Key
  cloud : CloudKey → Key
  rec : RecKey → Key
  act : ActKey → Key
