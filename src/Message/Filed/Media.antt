-- ===== src/Message/Filed/Media.antt =====
-- Each row for the encoder and the picture in src/processMsg.c marks the file of the variable that it sets.
use avserver.Base.{◌≡◌, ℤ, some, refl, inl, inr, ◌||◌, ltb_ℤ, pos, leb_ℤ, Bool-cases}
use avserver.Message.Keys.{
  AudioKey, StreamKey, RateKey, SizeKey, QuantKey, RoiKey, ImageKey, WhiteKey, OsdKey,
}
use avserver.Message.Vars.{AvFile, AvField, UbsField, Num}
use avserver.Message.Session.{Consts, Session}
use avserver.Message.Filed.{IsFiled, is_passing, file_of, file_of_txt}
use avserver.Message.Encode.{av_of, file_of_av, row_audio, row_stream, row_rate}
use avserver.Message.Quality.{row_size, row_quant, row_roi}
use avserver.Message.Picture.{row_image, row_white, row_region, row_osd}

av_filed : (a : AvFile) (f : AvField) → file_of (Num.av a f) ≡ some (file_of_av a)
unfolding file_of file_of_av
av_filed AvFile.av_0 f = refl
av_filed AvFile.av_1 f = refl

ubs_filed : (a : AvFile) (i : ℤ) (f : UbsField) → file_of (Num.ubs a i f) ≡ some (file_of_av a)
unfolding file_of file_of_av
ubs_filed AvFile.av_0 i f = refl
ubs_filed AvFile.av_1 i f = refl

pub row_audio-IsFiled : (k : AudioKey) (s : Session) → IsFiled (row_audio k s)
unfolding row_audio IsFiled is_passing file_of file_of_txt
row_audio-IsFiled AudioKey.e_video_chn_num s = tt
row_audio-IsFiled AudioKey.e_video_addr s = tt
row_audio-IsFiled AudioKey.e_audio_enable s = tt
row_audio-IsFiled AudioKey.e_audio_enc_type s = tt
row_audio-IsFiled AudioKey.e_audio_bitrate s = tt
row_audio-IsFiled AudioKey.e_audio_rtspport s = tt
row_audio-IsFiled AudioKey.e_audio_samplesize s = tt
row_audio-IsFiled AudioKey.e_audio_samplerate s = tt
row_audio-IsFiled AudioKey.e_encode_profile s = tt
row_audio-IsFiled AudioKey.e_profile_levels s = tt

pub row_stream-IsFiled : (c : Consts) (k : StreamKey) (s : Session) → IsFiled (row_stream k c s)
unfolding row_stream IsFiled is_passing file_of file_of_txt
row_stream-IsFiled c StreamKey.e_fw s = (inl refl, refl)
row_stream-IsFiled c StreamKey.e_denoise s = (inl refl, av_filed (av_of c s) AvField.denoise)
row_stream-IsFiled c StreamKey.e_input_system s =
    (inl refl, av_filed (av_of c s) AvField.input_system)
row_stream-IsFiled c StreamKey.e_de_interlace s =
    (inl refl, av_filed (av_of c s) AvField.de_interlace)
row_stream-IsFiled c StreamKey.e_stream_enable s =
    (inl refl, ubs_filed (av_of c s) s.sub_channel UbsField.stream_enable)
row_stream-IsFiled c StreamKey.e_enc_type s =
    (inl refl, ubs_filed (av_of c s) s.sub_channel UbsField.enc_type)

pub row_rate-IsFiled : (c : Consts) (k : RateKey) (s : Session) → IsFiled (row_rate k c s)
unfolding row_rate IsFiled is_passing file_of file_of_txt
row_rate-IsFiled c RateKey.e_frame_rate s =
    (inr refl, ubs_filed (av_of c s) s.sub_channel UbsField.frame_rate)
row_rate-IsFiled c RateKey.e_bit_rate s =
    (inr refl, ubs_filed (av_of c s) s.sub_channel UbsField.bit_rate)
row_rate-IsFiled c RateKey.e_ip_interval s =
    (inr refl, ubs_filed (av_of c s) s.sub_channel UbsField.ip_interval)
row_rate-IsFiled c RateKey.e_min_frame_rate s = tt
row_rate-IsFiled c RateKey.e_max_frame_rate s = tt
row_rate-IsFiled c RateKey.e_min_ip_interval s = tt
row_rate-IsFiled c RateKey.e_max_ip_interval s = tt

pub row_size-IsFiled : (c : Consts) (k : SizeKey) (s : Session) → IsFiled (row_size k c s)
unfolding row_size IsFiled is_passing file_of file_of_txt
row_size-IsFiled c SizeKey.e_width s = tt
row_size-IsFiled c SizeKey.e_height s = tt
row_size-IsFiled c SizeKey.e_min_video_encoding_interval s = tt
row_size-IsFiled c SizeKey.e_max_video_encoding_interval s = tt
row_size-IsFiled c SizeKey.e_video_resolutions s = tt

pub row_quant-IsFiled : (c : Consts) (k : QuantKey) (s : Session) → IsFiled (row_quant k c s)
unfolding row_quant IsFiled is_passing file_of file_of_txt
row_quant-IsFiled c QuantKey.e_rate_ctl_type s =
    (inl refl, ubs_filed (av_of c s) s.sub_channel UbsField.rate_ctl_type)
row_quant-IsFiled c QuantKey.e_target_rate_max s =
    (inl refl, ubs_filed (av_of c s) s.sub_channel UbsField.target_rate_max)
row_quant-IsFiled c QuantKey.e_reaction_delay_max s =
    (inl refl, ubs_filed (av_of c s) s.sub_channel UbsField.reaction_delay_max)
row_quant-IsFiled c QuantKey.e_init_quant s =
    (inl refl, ubs_filed (av_of c s) s.sub_channel UbsField.init_quant)
row_quant-IsFiled c QuantKey.e_max_quant s =
    (inl refl, ubs_filed (av_of c s) s.sub_channel UbsField.max_quant)
row_quant-IsFiled c QuantKey.e_min_quant s =
    (inl refl, ubs_filed (av_of c s) s.sub_channel UbsField.min_quant)

pub row_roi-IsFiled : (c : Consts) (k : RoiKey) (s : Session) → IsFiled (row_roi k c s)
unfolding row_roi IsFiled is_passing file_of file_of_txt
row_roi-IsFiled c RoiKey.e_mjpeg_quality s =
    (inl refl, ubs_filed (av_of c s) s.sub_channel UbsField.mjpeg_quality)
row_roi-IsFiled c RoiKey.e_enable_roi s =
    (inl refl, ubs_filed (av_of c s) s.sub_channel UbsField.enabled_roi)
row_roi-IsFiled c RoiKey.e_roi_x s = (inl refl, ubs_filed (av_of c s) s.sub_channel UbsField.roi_x)
row_roi-IsFiled c RoiKey.e_roi_y s = (inl refl, ubs_filed (av_of c s) s.sub_channel UbsField.roi_y)
row_roi-IsFiled c RoiKey.e_roi_w s = (inl refl, ubs_filed (av_of c s) s.sub_channel UbsField.roi_w)
row_roi-IsFiled c RoiKey.e_roi_h s = (inl refl, ubs_filed (av_of c s) s.sub_channel UbsField.roi_h)

pub row_image-IsFiled : (k : ImageKey) (s : Session) → IsFiled (row_image k s)
unfolding row_image IsFiled is_passing file_of file_of_txt
row_image-IsFiled ImageKey.e_brightness s = (inl refl, refl)
row_image-IsFiled ImageKey.e_saturation s = (inl refl, refl)
row_image-IsFiled ImageKey.e_contrast s = (inl refl, refl)
row_image-IsFiled ImageKey.e_sharpness s = tt
row_image-IsFiled ImageKey.e_hue s = (inl refl, refl)
row_image-IsFiled ImageKey.e_scene s = (inl refl, refl)
row_image-IsFiled ImageKey.e_flip s = (inl refl, refl)
row_image-IsFiled ImageKey.e_mirror s = (inl refl, refl)
row_image-IsFiled ImageKey.e_imgctow s = (inl refl, refl)
row_image-IsFiled ImageKey.e_imgwtoc s = (inl refl, refl)

pub row_white-IsFiled : (k : WhiteKey) (s : Session) → IsFiled (row_white k s)
unfolding row_white IsFiled is_passing file_of file_of_txt
row_white-IsFiled WhiteKey.e_wb_r s = (inl refl, refl)
row_white-IsFiled WhiteKey.e_wb_g s = (inl refl, refl)
row_white-IsFiled WhiteKey.e_wb_b s = (inl refl, refl)
row_white-IsFiled WhiteKey.e_wb_mode s = tt
row_white-IsFiled WhiteKey.e_wb_crgain s = tt
row_white-IsFiled WhiteKey.e_wb_cbgain s = tt
row_white-IsFiled WhiteKey.e_backlightcomp_mode s = tt
row_white-IsFiled WhiteKey.e_backlightcomp_level s = tt
row_white-IsFiled WhiteKey.e_wdrange_mode s = tt
row_white-IsFiled WhiteKey.e_wdrange_level s = tt

row_region-IsFiled : (k : OsdKey) (s : Session) → IsFiled (row_region k s)
unfolding row_region IsFiled is_passing file_of file_of_txt
row_region-IsFiled OsdKey.e_osd_region_name s = refl
row_region-IsFiled OsdKey.e_osd_enable s = (inl refl, refl)
row_region-IsFiled OsdKey.e_osd_x s = (inl refl, refl)
row_region-IsFiled OsdKey.e_osd_y s = (inl refl, refl)
row_region-IsFiled OsdKey.e_osd_w s = (inl refl, refl)
row_region-IsFiled OsdKey.e_osd_h s = (inl refl, refl)

pub row_osd-IsFiled : (c : Consts) (k : OsdKey) (s : Session) → IsFiled (row_osd k c s)
unfolding row_osd IsFiled
row_osd-IsFiled c k s =
    elim (Bool-cases (ltb_ℤ s.osd_region (pos 0) || leb_ℤ c.region_num s.osd_region)) [
      | inl e ↦ rw e tt
      | inr e ↦ rw e (row_region-IsFiled k s)
    ]
