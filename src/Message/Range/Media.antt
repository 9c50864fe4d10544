-- ===== src/Message/Range/Media.antt =====
-- What each row for the encoder and the picture in src/processMsg.c stores is in range.
use avserver.Base.{
  ◌≡◌, ◌⊎◌, inl, inr, refl, ap, arith, ℕ, negsuc, ℤ, pos, ◌≤ℤ◌, ◌*ℤ◌, Bool, true, false, ◌||◌,
  eqb_ℤ, ltb_ℤ, leb_ℤ, if◌then◌else◌, Bool-cases,
}
use avserver.Message.Keys.{
  AudioKey, StreamKey, RateKey, SizeKey, QuantKey, RoiKey, ImageKey, WhiteKey, OsdKey,
}
use avserver.Message.Vars.{OtherField, Num}
use avserver.Message.Session.{Consts, Session}
use avserver.Message.Range.{InRange, KeptInRange, IsBounded}
use avserver.Message.Encode.{kept_fw, clamp_fps, clamp_bps, row_audio, row_stream, row_rate}
use avserver.Message.Quality.{row_size, row_quant, row_roi}
use avserver.Message.Picture.{row_image, row_white, row_region, row_osd}

clamp_fps-bounds : (v : ℤ) → (pos 4 ≤ℤ clamp_fps v) × (clamp_fps v ≤ℤ pos 150)
unfolding clamp_fps
clamp_fps-bounds v = ground arith

times_thousand :
    (z : ℤ)
    → pos 100 ≤ℤ z
    → z ≤ℤ pos 5000
    → (pos 100000 ≤ℤ z *ℤ pos 1000) × (z *ℤ pos 1000 ≤ℤ pos 5000000)
unfolding ◌*ℤ◌
times_thousand (pos n) h k = omega arith
times_thousand (negsuc n) h k = absurd (omega arith)

least : (main : Bool) (v : ℤ) → pos 100 ≤ℤ clamp_bps main v
unfolding clamp_bps
least true v = ground arith
least false v = ground arith

most : (main : Bool) (v : ℤ) → clamp_bps main v ≤ℤ pos 5000
unfolding clamp_bps
most true v = ground arith
most false v = ground arith

eq_of_test : (v : ℤ) (n : ℕ) → eqb_ℤ v (pos n) ≡ true → v ≡ pos n
eq_of_test (pos m) n h = ap pos (ground arith)
eq_of_test (negsuc m) n h = absurd (ground arith)

clamp_bps-bounds :
    (main : Bool) (v : ℤ)
    → (pos 100000 ≤ℤ clamp_bps main v *ℤ pos 1000) × (clamp_bps main v *ℤ pos 1000 ≤ℤ pos 5000000)
clamp_bps-bounds main v = times_thousand (clamp_bps main v) (least main v) (most main v)

kept_fw-bounds : (v : ℤ) → KeptInRange (Num.other OtherField.fw) (kept_fw v)
unfolding kept_fw KeptInRange InRange
kept_fw-bounds v = elim (Bool-cases (eqb_ℤ v (pos 50))) [
  | inl e ↦ rw e (inl (eq_of_test v 50 e))
  | inr e ↦ rw e (elim (Bool-cases (eqb_ℤ v (pos 60))) [
    | inl d ↦ rw d (inr (eq_of_test v 60 d))
    | inr d ↦ rw d tt
  ])
]

pub switch-bounds :
    (b : Bool) → ((if b then pos 1 else pos 0) ≡ pos 0) ⊎ ((if b then pos 1 else pos 0) ≡ pos 1)
switch-bounds true = inr refl
switch-bounds false = inl refl

pub switch-bounds_not :
    (b : Bool) → ((if b then pos 0 else pos 1) ≡ pos 0) ⊎ ((if b then pos 0 else pos 1) ≡ pos 1)
switch-bounds_not true = inl refl
switch-bounds_not false = inr refl

pub row_audio-IsBounded : (k : AudioKey) (s : Session) → IsBounded (row_audio k s)
unfolding row_audio IsBounded
row_audio-IsBounded AudioKey.e_video_chn_num s = tt
row_audio-IsBounded AudioKey.e_video_addr s = tt
row_audio-IsBounded AudioKey.e_audio_enable s = tt
row_audio-IsBounded AudioKey.e_audio_enc_type s = tt
row_audio-IsBounded AudioKey.e_audio_bitrate s = tt
row_audio-IsBounded AudioKey.e_audio_rtspport s = tt
row_audio-IsBounded AudioKey.e_audio_samplesize s = tt
row_audio-IsBounded AudioKey.e_audio_samplerate s = tt
row_audio-IsBounded AudioKey.e_encode_profile s = tt
row_audio-IsBounded AudioKey.e_profile_levels s = tt

pub row_stream-IsBounded : (c : Consts) (k : StreamKey) (s : Session) → IsBounded (row_stream k c s)
unfolding row_stream IsBounded
row_stream-IsBounded c StreamKey.e_fw s = kept_fw-bounds
row_stream-IsBounded c StreamKey.e_denoise s = λ v. tt
row_stream-IsBounded c StreamKey.e_input_system s = λ v. tt
row_stream-IsBounded c StreamKey.e_de_interlace s = λ v. tt
row_stream-IsBounded c StreamKey.e_stream_enable s = λ v. tt
row_stream-IsBounded c StreamKey.e_enc_type s = λ v. tt

pub row_rate-IsBounded : (c : Consts) (k : RateKey) (s : Session) → IsBounded (row_rate k c s)
unfolding row_rate IsBounded
row_rate-IsBounded c RateKey.e_frame_rate s = λ v. clamp_fps-bounds v
row_rate-IsBounded c RateKey.e_bit_rate s =
    λ v. clamp_bps-bounds (eqb_ℤ s.channel c.main_stream_chn) v
row_rate-IsBounded c RateKey.e_ip_interval s = λ v. tt
row_rate-IsBounded c RateKey.e_min_frame_rate s = tt
row_rate-IsBounded c RateKey.e_max_frame_rate s = tt
row_rate-IsBounded c RateKey.e_min_ip_interval s = tt
row_rate-IsBounded c RateKey.e_max_ip_interval s = tt

pub row_size-IsBounded : (c : Consts) (k : SizeKey) (s : Session) → IsBounded (row_size k c s)
unfolding row_size IsBounded
row_size-IsBounded c SizeKey.e_width s = tt
row_size-IsBounded c SizeKey.e_height s = tt
row_size-IsBounded c SizeKey.e_min_video_encoding_interval s = tt
row_size-IsBounded c SizeKey.e_max_video_encoding_interval s = tt
row_size-IsBounded c SizeKey.e_video_resolutions s = tt

pub row_quant-IsBounded : (c : Consts) (k : QuantKey) (s : Session) → IsBounded (row_quant k c s)
unfolding row_quant IsBounded
row_quant-IsBounded c QuantKey.e_rate_ctl_type s = λ v. tt
row_quant-IsBounded c QuantKey.e_target_rate_max s = λ v. tt
row_quant-IsBounded c QuantKey.e_reaction_delay_max s = λ v. tt
row_quant-IsBounded c QuantKey.e_init_quant s = λ v. tt
row_quant-IsBounded c QuantKey.e_max_quant s = λ v. tt
row_quant-IsBounded c QuantKey.e_min_quant s = λ v. tt

pub row_roi-IsBounded : (c : Consts) (k : RoiKey) (s : Session) → IsBounded (row_roi k c s)
unfolding row_roi IsBounded
row_roi-IsBounded c RoiKey.e_mjpeg_quality s = λ v. tt
row_roi-IsBounded c RoiKey.e_enable_roi s = λ v. tt
row_roi-IsBounded c RoiKey.e_roi_x s = λ v. tt
row_roi-IsBounded c RoiKey.e_roi_y s = λ v. tt
row_roi-IsBounded c RoiKey.e_roi_w s = λ v. tt
row_roi-IsBounded c RoiKey.e_roi_h s = λ v. tt

pub row_image-IsBounded : (k : ImageKey) (s : Session) → IsBounded (row_image k s)
unfolding row_image IsBounded
row_image-IsBounded ImageKey.e_brightness s = λ v. tt
row_image-IsBounded ImageKey.e_saturation s = λ v. tt
row_image-IsBounded ImageKey.e_contrast s = λ v. tt
row_image-IsBounded ImageKey.e_sharpness s = tt
row_image-IsBounded ImageKey.e_hue s = λ v. tt
row_image-IsBounded ImageKey.e_scene s = λ v. tt
row_image-IsBounded ImageKey.e_flip s = λ v. tt
row_image-IsBounded ImageKey.e_mirror s = λ v. tt
row_image-IsBounded ImageKey.e_imgctow s = λ v. tt
row_image-IsBounded ImageKey.e_imgwtoc s = λ v. tt

pub row_white-IsBounded : (k : WhiteKey) (s : Session) → IsBounded (row_white k s)
unfolding row_white IsBounded
row_white-IsBounded WhiteKey.e_wb_r s = λ v. tt
row_white-IsBounded WhiteKey.e_wb_g s = λ v. tt
row_white-IsBounded WhiteKey.e_wb_b s = λ v. tt
row_white-IsBounded WhiteKey.e_wb_mode s = tt
row_white-IsBounded WhiteKey.e_wb_crgain s = tt
row_white-IsBounded WhiteKey.e_wb_cbgain s = tt
row_white-IsBounded WhiteKey.e_backlightcomp_mode s = tt
row_white-IsBounded WhiteKey.e_backlightcomp_level s = tt
row_white-IsBounded WhiteKey.e_wdrange_mode s = tt
row_white-IsBounded WhiteKey.e_wdrange_level s = tt

row_region-IsBounded : (k : OsdKey) (s : Session) → IsBounded (row_region k s)
unfolding row_region IsBounded
row_region-IsBounded OsdKey.e_osd_region_name s = tt
row_region-IsBounded OsdKey.e_osd_enable s = λ v. tt
row_region-IsBounded OsdKey.e_osd_x s = λ v. tt
row_region-IsBounded OsdKey.e_osd_y s = λ v. tt
row_region-IsBounded OsdKey.e_osd_w s = λ v. tt
row_region-IsBounded OsdKey.e_osd_h s = λ v. tt

pub row_osd-IsBounded : (c : Consts) (k : OsdKey) (s : Session) → IsBounded (row_osd k c s)
unfolding row_osd IsBounded
row_osd-IsBounded c k s =
    elim (Bool-cases (ltb_ℤ s.osd_region (pos 0) || leb_ℤ c.region_num s.osd_region)) [
      | inl e ↦ rw e tt
      | inr e ↦ rw e (row_region-IsBounded k s)
    ]
