-- ===== src/Stream/Param.antt =====
-- The parameters that src/rtspd.c hands to the encoder (1545-1551, 2228-2275, 2308-2569), as pure
-- functions of a stream's configuration. The C `int` is unbounded here: the products of
-- `get_bitrate` are assumed to fit 32 bits.
use avserver.Base.{
  ℕ, ℤ, pos, ◌*ℤ◌, ◌/ℤ◌, Bool, true, false, ◌&&◌, ◌||◌, not, eqb_ℤ, leb_ℤ, ltb_ℤ, if◌then◌else◌,
}
use avserver.Stream.Types.{
  Vbs, Avbs, Av, rtsp_live_streaming, opt_end, enc_type_h264, enc_type_mpeg, enc_type_mjpeg,
  rate_ctl_vbr, rate_ctl_ecbr, rate_ctl_evbr, pal,
}
use avserver.Stream.Env.{RateControl, Roi, BsParam, SourceParam}

-- `MACRO_BLOCK_SIZE` is 100.
unfoldable pub get_bitrate : ℤ → ℤ → ℤ → ℤ
unfolding ◌*ℤ◌ ◌/ℤ◌
get_bitrate width height fps = (width *ℤ height) /ℤ 256 *ℤ pos 100 *ℤ fps

-- The bit rate asked for; the default where none is.
unfoldable pub bit_rate : Vbs → ℤ → ℤ
unfolding get_bitrate
bit_rate v fps = if leb_ℤ v.bps (pos 0) then get_bitrate v.width v.height fps else v.bps

-- The switch on `rate_ctl_type`, which `set_main_bs` and `set_sub_bs` write out alike. `kept` is
-- the bit rate that stands before the switch: only the VBR case keeps it.
unfoldable pub rate_control : Vbs → ℤ → ℤ → RateControl
unfolding bit_rate
rate_control v fps kept =
    let cbr : RateControl = record {
      bit_rate = bit_rate v fps;
      enhance_h264_ratecontrol = false;
      target_rate_max = pos 0;
      reaction_delay_max = pos 0;
      max_quant = v.max_quant;
      min_quant = v.min_quant;
      init_quant = v.init_quant;
    } in
    let ecbr : RateControl = record cbr {
      enhance_h264_ratecontrol = true;
      target_rate_max = v.target_rate_max;
      reaction_delay_max = v.reaction_delay_max;
    } in
    let evbr : RateControl = record cbr {
      bit_rate = pos 0;
      enhance_h264_ratecontrol = true;
      target_rate_max = v.target_rate_max;
    } in
    let vbr : RateControl = record cbr {
      bit_rate = kept;
      max_quant = v.init_quant;
      min_quant = v.init_quant;
    } in
    if eqb_ℤ v.rate_ctl_type rate_ctl_ecbr
    then ecbr
    else if eqb_ℤ v.rate_ctl_type rate_ctl_evbr
    then evbr
    else if eqb_ℤ v.rate_ctl_type rate_ctl_vbr
    then vbr
    else cbr

-- Where the region of interest is off, its window is the template's.
unfoldable pub roi : Vbs → Roi
roi v =
    if eqb_ℤ v.enabled_roi (pos 1)
    then record { is_use_roi = true; x = v.roi_x; y = v.roi_y; width = v.roi_w; height = v.roi_h }
    else record { is_use_roi = false; x = pos 0; y = pos 0; width = pos 320; height = pos 240 }

-- An encoder type that is none of the three becomes H264.
unfoldable pub supported : ℤ → ℤ
supported t =
    if eqb_ℤ t enc_type_mjpeg || eqb_ℤ t enc_type_h264 || eqb_ℤ t enc_type_mpeg
    then t
    else enc_type_h264

unfoldable pub bs_param : ℕ → Vbs → ℤ → ℤ → BsParam
unfolding rate_control roi supported
bs_param sub v fps kept = record {
  out_bs = sub;
  width = v.width;
  height = v.height;
  enc_type = supported v.enc_type;
  frame_rate = fps;
  ip_interval = v.ip_interval;
  mjpeg_function = eqb_ℤ v.enc_type enc_type_mjpeg;
  mj_quality = if eqb_ℤ v.enc_type enc_type_mjpeg then v.mjpeg_quality else pos 0;
  rate = rate_control v fps kept;
  roi = roi v;
}

-- A PAL source gives at most 25 frames a second.
unfoldable pub source_fps : Av → ℤ
source_fps e =
    let fps = (e.bs 0).video.fps in
    if eqb_ℤ e.input_system pal && ltb_ℤ (pos 25) fps then pos 25 else fps

-- The part of `set_main_bs` that fills `ch_param.main_bs`. The width and height are read before
-- the frame rate is capped.
unfoldable pub main_param : Av → BsParam
unfolding bs_param source_fps bit_rate
main_param e = let v = (e.bs 0).video in bs_param 0 v (source_fps e) (bit_rate v (source_fps e))

-- The part of `set_sub_bs` that fills `sub_bs`; 262144 is the bit rate of `sub_ch_setting`.
unfoldable pub sub_param : Av → ℕ → BsParam
unfolding bs_param
sub_param e sub = let v = (e.bs sub).video in bs_param sub v v.fps (pos 262144)

-- `set_main_3di` over the template `main_ch_setting`.
unfoldable pub source_param : Av → ℕ → SourceParam
source_param e ch =
    let denoise : Bool = eqb_ℤ e.denoise (pos 1) in
    let de_interlace : Bool = eqb_ℤ e.de_interlace (pos 1) in
    let cmos : SourceParam = record {
      channel = ch;
      input_pal = eqb_ℤ e.input_system pal;
      gm3di_format = false;
      frame_mode = true;
      is_denoise = denoise;
      is_3di = false;
      denoise_field = false;
    } in
    let d1 : SourceParam = record cmos {
      gm3di_format = true;
      is_denoise = de_interlace || denoise;
      is_3di = de_interlace;
      denoise_field = true;
    } in
    let cif : SourceParam = record cmos { frame_mode = false; denoise_field = true } in
    if eqb_ℤ e.input_system (pos 2)
    then cmos
    else if eqb_ℤ (e.bs 0).video.width (pos 720)
    then d1
    else cif

-- The tests of `check_bs_param` on the configuration, after those on the numbers.
unfoldable pub bs_ok : Avbs → Bool
bs_ok b =
    not (ltb_ℤ b.opt_type rtsp_live_streaming || leb_ℤ opt_end b.opt_type)
    && not (ltb_ℤ b.video.enc_type enc_type_h264 || ltb_ℤ enc_type_mjpeg b.video.enc_type)
    && not (ltb_ℤ (pos 30) b.video.fps || leb_ℤ b.video.fps (pos 0))
    && not (ltb_ℤ b.video.bps (pos 0))
