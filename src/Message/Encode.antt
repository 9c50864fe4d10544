-- ===== src/Message/Encode.antt =====
-- The encoder's cases of `processMsg`: src/processMsg.c 769-854, 861-1464.
use Prim.Native.String.{String, ◌++◌}
use avserver.Base.{
  ℤ, pos, ◌*ℤ◌, ◌/ℤ◌, Bool, not, ◌&&◌, ltb_ℤ, eqb_ℤ, if◌then◌else◌, Option, none, some, [], ◌∷◌,
}
use avserver.Message.Keys.{Key, AudioKey, StreamKey, RateKey}
use avserver.Message.Vars.{File, AvFile, AvField, UbsField, Num, Txt, OtherField}
use avserver.Message.Session.{Consts, Call, Shown, Session}
use avserver.Message.Row.{Row, plain, num_row}

-- The file that a channel's variables belong to.
unfoldable pub av_of : Consts → Session → AvFile
av_of c s = if eqb_ℤ s.channel c.main_stream_chn then AvFile.av_0 else AvFile.av_1

unfoldable pub file_of_av : AvFile → File
file_of_av AvFile.av_0 = File.enc_0
file_of_av AvFile.av_1 = File.enc_1

-- A variable of the channel, and one of its bitstream. The code does not test the number of the
-- bitstream; `handle_row` raises the flag `wild` where the array does not have it.
unfoldable pub av_row : AvField → Key → Consts → Session → Row
unfolding file_of_av av_of
av_row f k c s = num_row (Num.av (av_of c s) f) (file_of_av (av_of c s)) k s

unfoldable pub ubs_row : UbsField → Key → Consts → Session → Row
unfolding file_of_av av_of
ubs_row f k c s = num_row (Num.ubs (av_of c s) s.sub_channel f) (file_of_av (av_of c s)) k s

unfoldable pub row_audio : AudioKey → Session → Row
row_audio AudioKey.e_video_chn_num s =
    Row.fixed (Key.audio AudioKey.e_video_chn_num) (Shown.number (pos 2))
row_audio AudioKey.e_audio_enable s =
    Row.fixed (Key.audio AudioKey.e_audio_enable) (Shown.number (pos 1))
row_audio AudioKey.e_audio_enc_type s =
    Row.fixed (Key.audio AudioKey.e_audio_enc_type) (Shown.number (pos 0))
row_audio AudioKey.e_audio_bitrate s =
    Row.fixed (Key.audio AudioKey.e_audio_bitrate) (Shown.number (pos 128000))
row_audio AudioKey.e_audio_rtspport s =
    Row.fixed (Key.audio AudioKey.e_audio_rtspport) (Shown.number (pos 554))
row_audio AudioKey.e_audio_samplesize s =
    Row.fixed (Key.audio AudioKey.e_audio_samplesize) (Shown.number (pos 16))
row_audio AudioKey.e_audio_samplerate s =
    Row.fixed (Key.audio AudioKey.e_audio_samplerate) (Shown.number (pos 8000))
row_audio AudioKey.e_encode_profile s =
    Row.fixed (Key.audio AudioKey.e_encode_profile) (Shown.number (pos 0))
row_audio AudioKey.e_profile_levels s =
    Row.fixed (Key.audio AudioKey.e_profile_levels) (Shown.number (pos 1))
row_audio AudioKey.e_video_addr s =
    let stream : String = if eqb_ℤ s.channel (pos 0) then "/0" else "/4" in
    Row.fixed (Key.audio AudioKey.e_video_addr)
      (Shown.text ("rtsp://" ++ (s.texts Txt.ip ++ stream)))

-- The power frequency is 50 or 60.
unfoldable pub kept_fw : ℤ → Option ℤ
kept_fw v = if not (eqb_ℤ v (pos 50)) && not (eqb_ℤ v (pos 60)) then none else some v

unfoldable pub row_stream : StreamKey → Consts → Session → Row
unfolding av_row ubs_row kept_fw
row_stream StreamKey.e_fw c s =
    Row.num (record (plain (Num.other OtherField.fw) File.enc_fw (Key.stream StreamKey.e_fw) s) {
      kept = kept_fw;
      calls = λ v. Call.init_isp_pw_frequency v ∷ [];
    })
row_stream StreamKey.e_denoise c s = av_row AvField.denoise (Key.stream StreamKey.e_denoise) c s
row_stream StreamKey.e_input_system c s =
    av_row AvField.input_system (Key.stream StreamKey.e_input_system) c s
row_stream StreamKey.e_de_interlace c s =
    av_row AvField.de_interlace (Key.stream StreamKey.e_de_interlace) c s
row_stream StreamKey.e_stream_enable c s =
    ubs_row UbsField.stream_enable (Key.stream StreamKey.e_stream_enable) c s
row_stream StreamKey.e_enc_type c s =
    ubs_row UbsField.enc_type (Key.stream StreamKey.e_enc_type) c s

-- The frame rate from 4 (MIN_SET_FPS) to 150.
unfoldable pub clamp_fps : ℤ → ℤ
clamp_fps v =
    let w : ℤ = if ltb_ℤ v (pos 4) then pos 4 else v in if ltb_ℤ (pos 150) w then pos 150 else w

-- The bit rate in thousands, at most 5000 (MAX_SET_BPS), and at least 512 on the main channel and
-- 100 on another.
unfoldable pub clamp_bps : Bool → ℤ → ℤ
clamp_bps main v =
    let w : ℤ = if ltb_ℤ (pos 5000) v then pos 5000 else v in
    let least : ℤ = if main then pos 512 else pos 100 in if ltb_ℤ w least then least else w

unfoldable pub row_rate : RateKey → Consts → Session → Row
unfolding file_of_av av_of clamp_fps clamp_bps
row_rate RateKey.e_frame_rate c s =
    let x : Num = Num.ubs (av_of c s) s.sub_channel UbsField.frame_rate in
    Row.num (record (plain x (file_of_av (av_of c s)) (Key.rate RateKey.e_frame_rate) s) {
      kept = λ v. some (clamp_fps v);
      calls = λ v. Call.set_fps s.channel s.sub_channel v ∷ [];
      marks = not s.yl_set;
    })
row_rate RateKey.e_bit_rate c s =
    let x : Num = Num.ubs (av_of c s) s.sub_channel UbsField.bit_rate in
    Row.num (record (plain x (file_of_av (av_of c s)) (Key.rate RateKey.e_bit_rate) s) {
      kept = λ v. some (clamp_bps (eqb_ℤ s.channel c.main_stream_chn) v *ℤ pos 1000);
      calls = λ v. Call.set_bps s.channel s.sub_channel v ∷ [];
      marks = not s.yl_set;
      shown = s.numbers (Num.ubs (av_of c s) s.sub_channel UbsField.bit_rate) /ℤ 1000;
    })
row_rate RateKey.e_ip_interval c s =
    let x : Num = Num.ubs (av_of c s) s.sub_channel UbsField.ip_interval in
    Row.num (record (plain x (file_of_av (av_of c s)) (Key.rate RateKey.e_ip_interval) s) {
      kept = some;
      calls = λ v. Call.set_ip_int s.channel s.sub_channel v ∷ [];
      marks = not s.yl_set;
    })
row_rate RateKey.e_min_frame_rate c s =
    Row.fixed (Key.rate RateKey.e_min_frame_rate) (Shown.number (pos 10))
row_rate RateKey.e_max_frame_rate c s =
    Row.fixed (Key.rate RateKey.e_max_frame_rate) (Shown.number (pos 30))
row_rate RateKey.e_min_ip_interval c s =
    Row.fixed (Key.rate RateKey.e_min_ip_interval) (Shown.number (pos 25))
row_rate RateKey.e_max_ip_interval c s =
    Row.fixed (Key.rate RateKey.e_max_ip_interval) (Shown.number (pos 100))
