-- ===== src/Message/Quality.antt =====
-- The cases of `processMsg` for sizes, quality and the region of interest: src/processMsg.c
-- 1112-1464.
use avserver.Base.{ℤ, pos, eqb_ℤ, if◌then◌else◌, List, [], ◌∷◌}
use avserver.Message.Keys.{Key, SizeKey, QuantKey, RoiKey}
use avserver.Message.Vars.{UbsField, Num}
use avserver.Message.Session.{Consts, Shown, Session}
use avserver.Message.Row.{Row}
use avserver.Message.Encode.{av_of, ubs_row}

-- A height of 1072 is shown as 1080. The sizes are never set.
unfoldable pub row_size : SizeKey → Consts → Session → Row
unfolding av_of
row_size SizeKey.e_width c s =
    Row.fixed (Key.size SizeKey.e_width)
      (Shown.number (s.numbers (Num.ubs (av_of c s) s.sub_channel UbsField.width)))
row_size SizeKey.e_height c s =
    let h : ℤ = s.numbers (Num.ubs (av_of c s) s.sub_channel UbsField.height) in
    Row.fixed (Key.size SizeKey.e_height)
      (Shown.number (if eqb_ℤ h (pos 1072) then pos 1080 else h))
row_size SizeKey.e_video_resolutions c s =
    let all : List ℤ =
      if eqb_ℤ s.channel (pos 0)
      then pos 1920 ∷ pos 1080 ∷ pos 1280 ∷ pos 720 ∷ []
      else pos 352 ∷ pos 288 ∷ [] in
    Row.fixed (Key.size SizeKey.e_video_resolutions) (Shown.numbers all)
row_size SizeKey.e_min_video_encoding_interval c s =
    Row.fixed (Key.size SizeKey.e_min_video_encoding_interval) (Shown.number (pos 1))
row_size SizeKey.e_max_video_encoding_interval c s =
    Row.fixed (Key.size SizeKey.e_max_video_encoding_interval) (Shown.number (pos 1))

unfoldable pub row_quant : QuantKey → Consts → Session → Row
unfolding ubs_row
row_quant QuantKey.e_rate_ctl_type =
    ubs_row UbsField.rate_ctl_type (Key.quant QuantKey.e_rate_ctl_type)
row_quant QuantKey.e_target_rate_max =
    ubs_row UbsField.target_rate_max (Key.quant QuantKey.e_target_rate_max)
row_quant QuantKey.e_reaction_delay_max =
    ubs_row UbsField.reaction_delay_max (Key.quant QuantKey.e_reaction_delay_max)
row_quant QuantKey.e_init_quant = ubs_row UbsField.init_quant (Key.quant QuantKey.e_init_quant)
row_quant QuantKey.e_max_quant = ubs_row UbsField.max_quant (Key.quant QuantKey.e_max_quant)
row_quant QuantKey.e_min_quant = ubs_row UbsField.min_quant (Key.quant QuantKey.e_min_quant)

unfoldable pub row_roi : RoiKey → Consts → Session → Row
unfolding ubs_row
row_roi RoiKey.e_mjpeg_quality = ubs_row UbsField.mjpeg_quality (Key.roi RoiKey.e_mjpeg_quality)
row_roi RoiKey.e_enable_roi = ubs_row UbsField.enabled_roi (Key.roi RoiKey.e_enable_roi)
row_roi RoiKey.e_roi_x = ubs_row UbsField.roi_x (Key.roi RoiKey.e_roi_x)
row_roi RoiKey.e_roi_y = ubs_row UbsField.roi_y (Key.roi RoiKey.e_roi_y)
row_roi RoiKey.e_roi_w = ubs_row UbsField.roi_w (Key.roi RoiKey.e_roi_w)
row_roi RoiKey.e_roi_h = ubs_row UbsField.roi_h (Key.roi RoiKey.e_roi_h)
