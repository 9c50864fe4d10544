-- ===== src/P2p/Ptz.antt =====
-- The commands to the pan-tilt head that a peer may send: `P2P_do_ptz`, src/p2p.c 256-409.
use avserver.Base.{ℕ, Option, none, some}

-- AVIOCTRL_PTZ_*, AVIOCTRL_LENS_* and the others, in the order of the source.
pub data Control : Type 0 where
  ptz_stop ptz_up ptz_down ptz_left ptz_left_up ptz_left_down ptz_right ptz_right_up : Control
  ptz_right_down ptz_auto ptz_set_point ptz_clear_point ptz_goto_point : Control
  ptz_set_mode_start ptz_set_mode_stop ptz_mode_run ptz_menu_open ptz_menu_exit : Control
  ptz_menu_enter ptz_flip ptz_start lens_aperture_open lens_aperture_close : Control
  lens_zoom_in lens_zoom_out lens_focal_near lens_focal_far : Control
  auto_pan_speed auto_pan_limit auto_pan_start pattern_start pattern_stop pattern_run : Control
  set_aux clear_aux motor_reset_position control_other : Control

-- The commands of the head that are sent.
pub data PtzAct : Type 0 where
  stop tilt_up tilt_down pan_left left_up left_down pan_right right_up right_down : PtzAct
  zoom_in zoom_out focus_near focus_far : PtzAct

-- The command and its speed, which is not the one that is asked for.
unfoldable pub p2p_do_ptz : Control → ℕ → ℕ → Option (PtzAct × ℕ)
p2p_do_ptz ptz_stop speed point = some (PtzAct.stop, 0)
p2p_do_ptz ptz_up speed point = some (PtzAct.tilt_up, 16)
p2p_do_ptz ptz_down speed point = some (PtzAct.tilt_down, 16)
p2p_do_ptz ptz_left speed point = some (PtzAct.pan_left, 16)
p2p_do_ptz ptz_left_up speed point = some (PtzAct.left_up, 16)
p2p_do_ptz ptz_left_down speed point = some (PtzAct.left_down, 16)
p2p_do_ptz ptz_right speed point = some (PtzAct.pan_right, 16)
p2p_do_ptz ptz_right_up speed point = some (PtzAct.right_up, 16)
p2p_do_ptz ptz_right_down speed point = some (PtzAct.right_down, 16)
p2p_do_ptz lens_zoom_in speed point = some (PtzAct.zoom_in, 16)
p2p_do_ptz lens_zoom_out speed point = some (PtzAct.zoom_out, 16)
p2p_do_ptz lens_focal_near speed point = some (PtzAct.focus_near, 16)
p2p_do_ptz lens_focal_far speed point = some (PtzAct.focus_far, 16)
p2p_do_ptz _ speed point = none
