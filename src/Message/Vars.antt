-- ===== src/Message/Vars.antt =====
-- The configuration that src/processMsg.c reads and writes: the variables of src/init_system.c that
-- its cases name, one index for each place that holds a number or a text, and the file that each
-- belongs to. The structures themselves are declared outside the repository.
use native.Mathlib.Decide.{ℕ_discrete}
use avserver.Base.{ℕ, ℤ}

-- The enumeration of 376-401, less its last member.
pub data File : Type 0 where
  enc_0 enc_1 enc_fw image_attr overlay infrared net port upnp wf ddns ptzcom md user : File
  snaptimer ftp smtp vidmask sys sys_timer ptz_preset cloud rec : File

unfoldable pub file_no : File → ℕ
file_no File.enc_0 = 0
file_no File.enc_1 = 1
file_no File.enc_fw = 2
file_no File.image_attr = 3
file_no File.overlay = 4
file_no File.infrared = 5
file_no File.net = 6
file_no File.port = 7
file_no File.upnp = 8
file_no File.wf = 9
file_no File.ddns = 10
file_no File.ptzcom = 11
file_no File.md = 12
file_no File.user = 13
file_no File.snaptimer = 14
file_no File.ftp = 15
file_no File.smtp = 16
file_no File.vidmask = 17
file_no File.sys = 18
file_no File.sys_timer = 19
file_no File.ptz_preset = 20
file_no File.cloud = 21
file_no File.rec = 22

-- `g_stAv_0_file` and `g_stAv_1_file`.
pub data AvFile : Type 0 where
  av_0 av_1 : AvFile

pub data AvField : Type 0 where
  denoise input_system de_interlace : AvField

pub data UbsField : Type 0 where
  stream_enable enc_type frame_rate bit_rate ip_interval width height rate_ctl_type : UbsField
  target_rate_max reaction_delay_max init_quant max_quant min_quant mjpeg_quality : UbsField
  enabled_roi roi_x roi_y roi_w roi_h : UbsField

pub data ImgField : Type 0 where
  brightness saturation contrast hue scene flip mirror imgctow_0 imgctow_1 : ImgField
  wb_0 wb_1 wb_2 : ImgField

pub data BoxField : Type 0 where
  enable x y w h s method color : BoxField

pub data MdField : Type 0 where
  io_alarm_enable io_alarm_flag email_switch snap_switch record_switch ftp_switch : MdField
  relay_switch relay_time schedule_type schedule_ename schedule_etm : MdField
  workday_start workday_end weekend_start weekend_end week_start week_end : MdField

pub data NetField : Type 0 where
  dhcpflag dnsstat nettype httpport rtspport upm_enable d3th_enable d3th_service : NetField
  wf_enable wf_auth wf_enc wf_mode : NetField

pub data PtzField : Type 0 where
  protocal address baud databit stopbit check : PtzField

pub data OtherField : Type 0 where
  fw infrad_stat as_enable as_interval as_type ft_port ft_mode smtp_port ssl_flag : OtherField
  logintype time_zone dstmode ntpenable ntpinterval devtype sdstatus : OtherField
  sdfreespace sdtotalspace user_num aera_num cloud_enable cloud_port : OtherField
  rec_enable time_len sch waccess_points : OtherField

pub data ScanField : Type 0 where
  wchannel wrssi wenc wauth wnet : ScanField

-- The places of numbers. An index of an array is any number: the code tests it only where its case
-- says so.
pub data Num : Type 0 where
  av : AvFile → AvField → Num
  ubs : AvFile → ℤ → UbsField → Num
  img : ImgField → Num
  osd : ℤ → BoxField → Num
  net : NetField → Num
  ptz : PtzField → Num
  md : MdField → Num
  area : ℤ → BoxField → Num
  aera : ℤ → BoxField → Num
  other : OtherField → Num
  scan : ℤ → ScanField → Num

pub data Txt : Type 0 where
  osd_name : ℤ → Txt
  ip netmask gateway fdnsip sdnsip d3th_uname d3th_passwd d3th_domain wf_ssid wf_key : Txt
  wessid : ℤ → Txt
  ft_serverip ft_username ft_password ft_dirname : Txt
  smtp_serverip smtp_username smtp_password smtp_from smtp_to smtp_subject smtp_text : Txt
  ntpserver sys_time sys_model hard_version soft_version sys_name startdate runtimes : Txt
  cloud_id cloud_pw cloud_addr cloud_name : Txt

unfoldable pub ℤ_discrete : Discrete ℤ
ℤ_discrete = hlevel ℕ_discrete

unfoldable pub Num-discrete : Discrete Num
Num-discrete = hlevel ℤ_discrete

unfoldable pub Txt-discrete : Discrete Txt
Txt-discrete = hlevel ℤ_discrete
