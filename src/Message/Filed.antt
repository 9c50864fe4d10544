-- ===== src/Message/Filed.antt =====
-- The file of each variable of src/processMsg.c, after the structure that holds it (403-432).
pub mod Media
pub mod Rows
use avserver.Base.{◌≡◌, ◌⊎◌, Bool, true, false, Option, none, some}
use avserver.Message.Vars.{File, AvFile, UbsField, NetField, OtherField, Num, Txt}
use avserver.Message.Row.{Row}

-- The file that a variable is kept in, after the structure that it belongs to.
unfoldable pub file_of_net : NetField → File
file_of_net NetField.dhcpflag = File.net
file_of_net NetField.dnsstat = File.net
file_of_net NetField.nettype = File.net
file_of_net NetField.httpport = File.port
file_of_net NetField.rtspport = File.port
file_of_net NetField.upm_enable = File.upnp
file_of_net NetField.d3th_enable = File.ddns
file_of_net NetField.d3th_service = File.ddns
file_of_net NetField.wf_enable = File.wf
file_of_net NetField.wf_auth = File.wf
file_of_net NetField.wf_enc = File.wf
file_of_net NetField.wf_mode = File.wf

-- The numbers of networks found are in no file.
unfoldable pub file_of_other : OtherField → Option File
file_of_other OtherField.fw = some File.enc_fw
file_of_other OtherField.infrad_stat = some File.infrared
file_of_other OtherField.as_enable = some File.snaptimer
file_of_other OtherField.as_interval = some File.snaptimer
file_of_other OtherField.as_type = some File.snaptimer
file_of_other OtherField.ft_port = some File.ftp
file_of_other OtherField.ft_mode = some File.ftp
file_of_other OtherField.smtp_port = some File.smtp
file_of_other OtherField.ssl_flag = some File.smtp
file_of_other OtherField.logintype = some File.smtp
file_of_other OtherField.time_zone = some File.sys_timer
file_of_other OtherField.dstmode = some File.sys_timer
file_of_other OtherField.ntpenable = some File.sys_timer
file_of_other OtherField.ntpinterval = some File.sys_timer
file_of_other OtherField.devtype = some File.sys
file_of_other OtherField.sdstatus = some File.sys
file_of_other OtherField.sdfreespace = some File.sys
file_of_other OtherField.sdtotalspace = some File.sys
file_of_other OtherField.user_num = some File.user
file_of_other OtherField.aera_num = some File.vidmask
file_of_other OtherField.cloud_enable = some File.cloud
file_of_other OtherField.cloud_port = some File.cloud
file_of_other OtherField.rec_enable = some File.rec
file_of_other OtherField.time_len = some File.rec
file_of_other OtherField.sch = some File.rec
file_of_other OtherField.waccess_points = none

unfoldable pub file_of : Num → Option File
unfolding file_of_net file_of_other
file_of (Num.av AvFile.av_0 _) = some File.enc_0
file_of (Num.av AvFile.av_1 _) = some File.enc_1
file_of (Num.ubs AvFile.av_0 _ _) = some File.enc_0
file_of (Num.ubs AvFile.av_1 _ _) = some File.enc_1
file_of (Num.img _) = some File.image_attr
file_of (Num.osd _ _) = some File.overlay
file_of (Num.net f) = some (file_of_net f)
file_of (Num.ptz _) = some File.ptzcom
file_of (Num.md _) = some File.md
file_of (Num.area _ _) = some File.md
file_of (Num.aera _ _) = some File.vidmask
file_of (Num.other f) = file_of_other f
file_of (Num.scan _ _) = none

unfoldable pub file_of_txt : Txt → Option File
file_of_txt (Txt.osd_name _) = some File.overlay
file_of_txt Txt.ip = some File.net
file_of_txt Txt.netmask = some File.net
file_of_txt Txt.gateway = some File.net
file_of_txt Txt.fdnsip = some File.net
file_of_txt Txt.sdnsip = some File.net
file_of_txt Txt.d3th_uname = some File.ddns
file_of_txt Txt.d3th_passwd = some File.ddns
file_of_txt Txt.d3th_domain = some File.ddns
file_of_txt Txt.wf_ssid = some File.wf
file_of_txt Txt.wf_key = some File.wf
file_of_txt Txt.ft_serverip = some File.ftp
file_of_txt Txt.ft_username = some File.ftp
file_of_txt Txt.ft_password = some File.ftp
file_of_txt Txt.ft_dirname = some File.ftp
file_of_txt Txt.smtp_serverip = some File.smtp
file_of_txt Txt.smtp_username = some File.smtp
file_of_txt Txt.smtp_password = some File.smtp
file_of_txt Txt.smtp_from = some File.smtp
file_of_txt Txt.smtp_to = some File.smtp
file_of_txt Txt.smtp_subject = some File.smtp
file_of_txt Txt.smtp_text = some File.smtp
file_of_txt Txt.ntpserver = some File.sys_timer
file_of_txt Txt.sys_time = some File.sys_timer
file_of_txt Txt.sys_model = some File.sys
file_of_txt Txt.hard_version = some File.sys
file_of_txt Txt.soft_version = some File.sys
file_of_txt Txt.sys_name = some File.sys
file_of_txt Txt.startdate = some File.sys
file_of_txt Txt.runtimes = some File.sys
file_of_txt Txt.cloud_id = some File.cloud
file_of_txt Txt.cloud_pw = some File.cloud
file_of_txt Txt.cloud_addr = some File.cloud
file_of_txt Txt.cloud_name = some File.cloud
file_of_txt (Txt.wessid _) = none

-- The rates, which a type above 1 changes for the time being, and the type of the device, which is
-- computed anew before it is shown.
unfoldable pub is_passing : Num → Bool
is_passing (Num.ubs _ _ UbsField.frame_rate) = true
is_passing (Num.ubs _ _ UbsField.bit_rate) = true
is_passing (Num.ubs _ _ UbsField.ip_interval) = true
is_passing (Num.other OtherField.devtype) = true
is_passing _ = false

-- The time of the system, which each start sets anew.
unfoldable pub is_passing_txt : Txt → Bool
is_passing_txt Txt.sys_time = true
is_passing_txt _ = false

-- The files with variables that a reset restores.
unfoldable pub is_reset : Option File → Bool
is_reset (some File.enc_0) = true
is_reset (some File.enc_1) = true
is_reset (some File.overlay) = true
is_reset (some File.cloud) = true
is_reset _ = false

-- The row marks the file of its variable.
unfoldable pub IsFiled : Row → Type 0
IsFiled (Row.num r) = ((r.marks ≡ true) ⊎ (is_passing r.var ≡ true)) × (file_of r.var ≡ some r.file)
IsFiled (Row.txt r) = file_of_txt r.var ≡ some r.file
IsFiled (Row.fixed _ _) = Unit {0}
IsFiled Row.skip = Unit {0}
