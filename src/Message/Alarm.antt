-- ===== src/Message/Alarm.antt =====
-- The cases of `processMsg` for motion alarms, snapshots and the video mask: src/processMsg.c 2338-2722 and
-- 2989-3078.
use avserver.Message.Keys.{Key, AlarmKey, ScheduleKey, AreaKey, MaskKey}
use avserver.Message.Vars.{File, MdField, BoxField, OtherField, Num}
use avserver.Message.Session.{Shown, Session}
use avserver.Message.Row.{Row, num_row}

unfoldable pub row_alarm : AlarmKey → Session → Row
row_alarm AlarmKey.e_md_io_alarm_enable s =
    num_row (Num.md MdField.io_alarm_enable) File.md (Key.alarm AlarmKey.e_md_io_alarm_enable) s
row_alarm AlarmKey.e_md_io_alarm_flag s =
    num_row (Num.md MdField.io_alarm_flag) File.md (Key.alarm AlarmKey.e_md_io_alarm_flag) s
row_alarm AlarmKey.e_md_email_switch s =
    num_row (Num.md MdField.email_switch) File.md (Key.alarm AlarmKey.e_md_email_switch) s
row_alarm AlarmKey.e_md_snap_switch s =
    num_row (Num.md MdField.snap_switch) File.md (Key.alarm AlarmKey.e_md_snap_switch) s
row_alarm AlarmKey.e_md_record_switch s =
    num_row (Num.md MdField.record_switch) File.md (Key.alarm AlarmKey.e_md_record_switch) s
row_alarm AlarmKey.e_md_ftp_switch s =
    num_row (Num.md MdField.ftp_switch) File.md (Key.alarm AlarmKey.e_md_ftp_switch) s
row_alarm AlarmKey.e_md_relay_switch s =
    num_row (Num.md MdField.relay_switch) File.md (Key.alarm AlarmKey.e_md_relay_switch) s
row_alarm AlarmKey.e_md_relay_time s =
    num_row (Num.md MdField.relay_time) File.md (Key.alarm AlarmKey.e_md_relay_time) s

unfoldable pub row_schedule : ScheduleKey → Session → Row
row_schedule ScheduleKey.e_md_schedule_type s =
    num_row (Num.md MdField.schedule_type) File.md (Key.schedule ScheduleKey.e_md_schedule_type) s
row_schedule ScheduleKey.e_md_schedule_ename s =
    num_row (Num.md MdField.schedule_ename) File.md (Key.schedule ScheduleKey.e_md_schedule_ename) s
row_schedule ScheduleKey.e_md_schedule_etm s =
    num_row (Num.md MdField.schedule_etm) File.md (Key.schedule ScheduleKey.e_md_schedule_etm) s
row_schedule ScheduleKey.e_md_schedule_workday_tend s =
    num_row (Num.md MdField.workday_end) File.md
      (Key.schedule ScheduleKey.e_md_schedule_workday_tend) s
row_schedule ScheduleKey.e_md_schedule_workday_tstart s =
    num_row (Num.md MdField.workday_start) File.md
      (Key.schedule ScheduleKey.e_md_schedule_workday_tstart) s
row_schedule ScheduleKey.e_md_schedule_workend_tstart s =
    num_row (Num.md MdField.weekend_start) File.md
      (Key.schedule ScheduleKey.e_md_schedule_workend_tstart) s
row_schedule ScheduleKey.e_md_schedule_workend_tend s =
    num_row (Num.md MdField.weekend_end) File.md
      (Key.schedule ScheduleKey.e_md_schedule_workend_tend) s
row_schedule ScheduleKey.e_md_schedule_week_tstart s =
    num_row (Num.md MdField.week_start) File.md (Key.schedule ScheduleKey.e_md_schedule_week_tstart)
      s
row_schedule ScheduleKey.e_md_schedule_week_tend s =
    num_row (Num.md MdField.week_end) File.md (Key.schedule ScheduleKey.e_md_schedule_week_tend) s

-- Three of the cases answer under the key of another one.
unfoldable pub row_area : AreaKey → Session → Row
row_area AreaKey.e_snap_t_type s =
    num_row (Num.other OtherField.as_type) File.snaptimer (Key.area AreaKey.e_snap_t_type) s
row_area AreaKey.e_snap_t_interval s =
    num_row (Num.other OtherField.as_interval) File.snaptimer (Key.area AreaKey.e_snap_t_interval) s
row_area AreaKey.e_snap_t_enable s =
    num_row (Num.other OtherField.as_enable) File.snaptimer (Key.area AreaKey.e_snap_t_enable) s
row_area AreaKey.e_md_area_eable s =
    num_row (Num.area s.index BoxField.enable) File.md (Key.area AreaKey.e_md_area_eable) s
row_area AreaKey.e_md_area_s s =
    num_row (Num.area s.index BoxField.s) File.md (Key.area AreaKey.e_md_area_eable) s
row_area AreaKey.e_md_area_method s =
    num_row (Num.area s.index BoxField.method) File.md (Key.area AreaKey.e_md_area_method) s
row_area AreaKey.e_md_area_x s =
    num_row (Num.area s.index BoxField.x) File.md (Key.area AreaKey.e_md_area_x) s
row_area AreaKey.e_md_area_y s =
    num_row (Num.area s.index BoxField.y) File.md (Key.area AreaKey.e_md_area_y) s
row_area AreaKey.e_md_area_w s =
    num_row (Num.area s.index BoxField.w) File.md (Key.area AreaKey.e_md_area_y) s
row_area AreaKey.e_md_area_h s =
    num_row (Num.area s.index BoxField.h) File.md (Key.area AreaKey.e_md_area_y) s

unfoldable pub row_mask : MaskKey → Session → Row
row_mask MaskKey.e_vdmask_number s =
    Row.fixed (Key.mask MaskKey.e_vdmask_number)
      (Shown.number (s.numbers (Num.other OtherField.aera_num)))
row_mask MaskKey.e_vdmask_enable s =
    num_row (Num.aera s.index BoxField.enable) File.vidmask (Key.mask MaskKey.e_vdmask_enable) s
row_mask MaskKey.e_vdmask_x s =
    num_row (Num.aera s.index BoxField.x) File.vidmask (Key.mask MaskKey.e_vdmask_x) s
row_mask MaskKey.e_vdmask_y s =
    num_row (Num.aera s.index BoxField.y) File.vidmask (Key.mask MaskKey.e_vdmask_y) s
row_mask MaskKey.e_vdmask_w s =
    num_row (Num.aera s.index BoxField.w) File.vidmask (Key.mask MaskKey.e_vdmask_w) s
row_mask MaskKey.e_vdmask_h s =
    num_row (Num.aera s.index BoxField.h) File.vidmask (Key.mask MaskKey.e_vdmask_h) s
row_mask MaskKey.e_vdmask_color s =
    num_row (Num.aera s.index BoxField.color) File.vidmask (Key.mask MaskKey.e_vdmask_color) s
