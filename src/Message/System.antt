-- ===== src/Message/System.antt =====
-- The cases of `processMsg` for the clock, the system, the cloud and the recorder:
-- src/processMsg.c 2724-2730, 3080-3145, 3184-3266, 3535-3660.
use avserver.Base.{pos, true, ltb_ℤ, eqb_ℤ, if◌then◌else◌, some}
use avserver.Message.Keys.{Key, TimeKey, SysKey, CloudKey, RecKey}
use avserver.Message.Vars.{File, OtherField, Num, Txt}
use avserver.Message.Session.{Consts, Shown, Note, Session}
use avserver.Message.Row.{Row, plain, plain_txt, num_row}

-- `ntpenable` is always shown as 0.
unfoldable pub row_time : TimeKey → Consts → Session → Row
row_time TimeKey.e_time_zone c s =
    num_row (Num.other OtherField.time_zone) File.sys_timer (Key.time TimeKey.e_time_zone) s
row_time TimeKey.e_time_dstmode c s =
    Row.num
      (record (plain (Num.other OtherField.dstmode) File.sys_timer (Key.time TimeKey.e_time_dstmode)
        s) { kept = λ v. some (c.to_char v) })
row_time TimeKey.e_time_ntpenable c s =
    Row.num
      (record (plain (Num.other OtherField.ntpenable) File.sys_timer
        (Key.time TimeKey.e_time_ntpenable) s) { notes = Note.ntp; shown = pos 0 })
row_time TimeKey.e_time_ntpserver c s =
    Row.txt (record (plain_txt Txt.ntpserver File.sys_timer (Key.time TimeKey.e_time_ntpserver) s) {
      notes = Note.ntp;
    })
row_time TimeKey.e_time_ntpinterval c s =
    Row.num
      (record (plain (Num.other OtherField.ntpinterval) File.sys_timer
        (Key.time TimeKey.e_time_ntpinterval) s) { notes = Note.ntp })

unfoldable pub row_sys : SysKey → Session → Row
row_sys SysKey.e_sys_model s =
    Row.fixed (Key.sys SysKey.e_sys_model) (Shown.text (s.texts Txt.sys_model))
row_sys SysKey.e_sys_hdversion s =
    Row.fixed (Key.sys SysKey.e_sys_hdversion) (Shown.text (s.texts Txt.hard_version))
row_sys SysKey.e_sys_swversion s =
    Row.fixed (Key.sys SysKey.e_sys_swversion) (Shown.text (s.texts Txt.soft_version))
row_sys SysKey.e_sys_devname s =
    Row.fixed (Key.sys SysKey.e_sys_devname) (Shown.text (s.texts Txt.sys_name))
row_sys SysKey.e_sys_startdate s =
    Row.fixed (Key.sys SysKey.e_sys_startdate) (Shown.text (s.texts Txt.startdate))
row_sys SysKey.e_sys_runtimes s =
    Row.fixed (Key.sys SysKey.e_sys_runtimes) (Shown.text (s.texts Txt.runtimes))
row_sys SysKey.e_sys_sdstatus s =
    Row.fixed (Key.sys SysKey.e_sys_sdstatus)
      (Shown.number (s.numbers (Num.other OtherField.sdstatus)))
row_sys SysKey.e_sys_sdfreespace s =
    Row.fixed (Key.sys SysKey.e_sys_sdfreespace)
      (Shown.number (s.numbers (Num.other OtherField.sdfreespace)))
row_sys SysKey.e_sys_sdtotalspace s =
    Row.fixed (Key.sys SysKey.e_sys_sdtotalspace)
      (Shown.number (s.numbers (Num.other OtherField.sdtotalspace)))
row_sys SysKey.e_user_number s =
    Row.fixed (Key.sys SysKey.e_user_number)
      (Shown.number (s.numbers (Num.other OtherField.user_num)))
row_sys SysKey.e_sys_hardware_id s =
    Row.fixed (Key.sys SysKey.e_sys_hardware_id) (Shown.text "2012-04-25")
row_sys SysKey.e_sys_manufacturer s =
    Row.fixed (Key.sys SysKey.e_sys_manufacturer) (Shown.text "BRVision")
-- `e_sys_Model` answers under `e_sys_model`.
row_sys SysKey.e_sys_model_2 s =
    Row.fixed (Key.sys SysKey.e_sys_model) (Shown.text (s.texts Txt.sys_model))

-- A change of the cloud's variables asks for a restart.
unfoldable pub cloud_txt : Txt → CloudKey → Session → Row
cloud_txt x k s = Row.txt (record (plain_txt x File.cloud (Key.cloud k) s) { notes = Note.restart })

unfoldable pub row_cloud : CloudKey → Session → Row
unfolding cloud_txt
row_cloud CloudKey.e_cld_enable s =
    Row.num
      (record (plain (Num.other OtherField.cloud_enable) File.cloud
        (Key.cloud CloudKey.e_cld_enable) s) {
          kept = λ v. some (if ltb_ℤ (pos 0) v then pos 1 else pos 0);
          notes = Note.restart;
        })
row_cloud CloudKey.e_cld_id s = cloud_txt Txt.cloud_id CloudKey.e_cld_id s
row_cloud CloudKey.e_cld_pw s = cloud_txt Txt.cloud_pw CloudKey.e_cld_pw s
row_cloud CloudKey.e_cld_srv_prt s =
    Row.num
      (record (plain (Num.other OtherField.cloud_port) File.cloud (Key.cloud CloudKey.e_cld_srv_prt)
        s) { notes = Note.restart })
row_cloud CloudKey.e_cld_srv_addr s = cloud_txt Txt.cloud_addr CloudKey.e_cld_srv_addr s
row_cloud CloudKey.e_cld_dev_name s = cloud_txt Txt.cloud_name CloudKey.e_cld_dev_name s

-- Whatever is not T_Set shows the variable. `e_rec_time` answers under `e_rec_len`.
unfoldable pub row_rec : RecKey → Session → Row
row_rec RecKey.e_rec_enable s =
    Row.num
      (record (plain (Num.other OtherField.rec_enable) File.rec (Key.rec RecKey.e_rec_enable) s) {
        kept = λ v. some (if eqb_ℤ v (pos 0) then pos 0 else pos 1);
        tested = λ v v'. v;
        otherwise = true;
      })
row_rec RecKey.e_rec_len s =
    Row.num (record (plain (Num.other OtherField.time_len) File.rec (Key.rec RecKey.e_rec_len) s) {
      otherwise = true;
    })
row_rec RecKey.e_rec_time s =
    Row.num (record (plain (Num.other OtherField.sch) File.rec (Key.rec RecKey.e_rec_len) s) {
      otherwise = true;
    })
