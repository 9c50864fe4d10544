-- ===== src/Message/Picture.antt =====
-- The cases of `processMsg` for the picture and the overlay: src/processMsg.c 1465-1829.
use avserver.Base.{pos, ◌||◌, ltb_ℤ, leb_ℤ, if◌then◌else◌, [], ◌∷◌}
use avserver.Message.Keys.{Key, ImageKey, WhiteKey, OsdKey}
use avserver.Message.Vars.{File, ImgField, BoxField, Num, Txt}
use avserver.Message.Session.{Consts, Call, Shown, Note, Session}
use avserver.Message.Row.{Row, plain, plain_txt, num_row}

-- The flip is the sharpness.
unfoldable pub row_image : ImageKey → Session → Row
row_image ImageKey.e_brightness s =
    Row.num
      (record (plain (Num.img ImgField.brightness) File.image_attr (Key.image ImageKey.e_brightness)
        s) { calls = λ v. Call.adjust_brightness v ∷ [] })
row_image ImageKey.e_saturation s =
    Row.num
      (record (plain (Num.img ImgField.saturation) File.image_attr (Key.image ImageKey.e_saturation)
        s) { calls = λ v. Call.adjust_saturation v ∷ Call.set_img_saturation v ∷ [] })
row_image ImageKey.e_contrast s =
    Row.num
      (record (plain (Num.img ImgField.contrast) File.image_attr (Key.image ImageKey.e_contrast)
        s) { calls = λ v. Call.adjust_contrast v ∷ [] })
row_image ImageKey.e_sharpness s =
    Row.fixed (Key.image ImageKey.e_sharpness) (Shown.number (pos 50))
row_image ImageKey.e_hue s =
    Row.num (record (plain (Num.img ImgField.hue) File.image_attr (Key.image ImageKey.e_hue) s) {
      calls = λ v. Call.adjust_hue v ∷ [];
    })
row_image ImageKey.e_scene s =
    Row.num
      (record (plain (Num.img ImgField.scene) File.image_attr (Key.image ImageKey.e_scene) s) {
        calls = λ v. Call.adjust_awb_scene_mode v ∷ [];
      })
row_image ImageKey.e_flip s =
    Row.num (record (plain (Num.img ImgField.flip) File.image_attr (Key.image ImageKey.e_flip) s) {
      calls = λ v. Call.adjust_shapness v ∷ [];
    })
row_image ImageKey.e_mirror s =
    Row.num
      (record (plain (Num.img ImgField.mirror) File.image_attr (Key.image ImageKey.e_mirror) s) {
        calls = λ v. Call.set_mirror v ∷ [];
      })
row_image ImageKey.e_imgctow s =
    Row.num
      (record (plain (Num.img ImgField.imgctow_0) File.image_attr (Key.image ImageKey.e_imgctow)
        s) { calls = λ v. Call.set_img_c_to_w v ∷ [] })
row_image ImageKey.e_imgwtoc s =
    Row.num
      (record (plain (Num.img ImgField.imgctow_1) File.image_attr (Key.image ImageKey.e_imgwtoc)
        s) { calls = λ v. Call.set_img_w_to_c v ∷ [] })

unfoldable pub row_white : WhiteKey → Session → Row
row_white WhiteKey.e_wb_r s =
    num_row (Num.img ImgField.wb_0) File.image_attr (Key.white WhiteKey.e_wb_r) s
row_white WhiteKey.e_wb_g s =
    num_row (Num.img ImgField.wb_1) File.image_attr (Key.white WhiteKey.e_wb_g) s
row_white WhiteKey.e_wb_b s =
    num_row (Num.img ImgField.wb_2) File.image_attr (Key.white WhiteKey.e_wb_b) s
row_white WhiteKey.e_wb_mode s = Row.fixed (Key.white WhiteKey.e_wb_mode) (Shown.number (pos 0))
row_white WhiteKey.e_wb_crgain s = Row.fixed (Key.white WhiteKey.e_wb_crgain) (Shown.number (pos 0))
row_white WhiteKey.e_wb_cbgain s = Row.fixed (Key.white WhiteKey.e_wb_cbgain) (Shown.number (pos 0))
row_white WhiteKey.e_backlightcomp_mode s =
    Row.fixed (Key.white WhiteKey.e_backlightcomp_mode) (Shown.number (pos 0))
row_white WhiteKey.e_backlightcomp_level s =
    Row.fixed (Key.white WhiteKey.e_backlightcomp_level) (Shown.number (pos 0))
row_white WhiteKey.e_wdrange_mode s =
    Row.fixed (Key.white WhiteKey.e_wdrange_mode) (Shown.number (pos 0))
row_white WhiteKey.e_wdrange_level s =
    Row.fixed (Key.white WhiteKey.e_wdrange_level) (Shown.number (pos 0))

unfoldable pub osd_row : BoxField → Key → Session → Row
osd_row f k s =
    Row.num (record (plain (Num.osd s.osd_region f) File.overlay k s) { notes = Note.osd })

-- The cases after their test of the region.
unfoldable pub row_region : OsdKey → Session → Row
unfolding osd_row
row_region OsdKey.e_osd_region_name s =
    Row.txt
      (record (plain_txt (Txt.osd_name s.osd_region) File.overlay (Key.osd OsdKey.e_osd_region_name)
        s) { notes = Note.osd })
row_region OsdKey.e_osd_enable s = osd_row BoxField.enable (Key.osd OsdKey.e_osd_enable) s
row_region OsdKey.e_osd_x s = osd_row BoxField.x (Key.osd OsdKey.e_osd_x) s
row_region OsdKey.e_osd_y s = osd_row BoxField.y (Key.osd OsdKey.e_osd_y) s
row_region OsdKey.e_osd_w s = osd_row BoxField.w (Key.osd OsdKey.e_osd_w) s
row_region OsdKey.e_osd_h s = osd_row BoxField.h (Key.osd OsdKey.e_osd_h) s

unfoldable pub row_osd : OsdKey → Consts → Session → Row
unfolding row_region
row_osd k c s =
    if ltb_ℤ s.osd_region (pos 0) || leb_ℤ c.region_num s.osd_region
    then Row.skip
    else row_region k s
