-- ===== src/Stream/Update.antt =====
-- Updates staged for a bitstream and how they reach its configuration: src/rtspd.c 1593-1620,
-- 1711-1724, 1772-2150. Their type `update_avbs_t` and the value GMVAL_DO_NOT_CARE, `dnc` here,
-- are those of a header outside the repository; the fields are those that `cfgud_init` writes.
pub mod Laws
use avserver.Base.{
  ℕ, ◌+◌, ◌%◌, ℤ, pos, minus_one, pos_part, neg_part, Bool, ◌&&◌, ◌||◌, not, ◌==◌, eqb_ℤ, leb_ℤ,
  ltb_ℤ, if◌then◌else◌, List, [], ◌∷◌,
}
use avserver.Stream.Types.{
  Switch, enable, disable, Vbs, Avbs, opt_none, enc_type_h264, enc_type_mpeg, enc_type_mjpeg,
}

-- The fields of `update_avbs_t`.
pub record UpdateAvbs : Type 0 where
  pub stream_enable : ℤ
  pub enc_type : ℤ
  pub frame_rate : ℤ
  pub bit_rate : ℤ
  pub ip_interval : ℤ
  pub width : ℤ
  pub height : ℤ
  pub rate_ctl_type : ℤ
  pub target_rate_max : ℤ
  pub reaction_delay_max : ℤ
  pub init_quant : ℤ
  pub max_quant : ℤ
  pub min_quant : ℤ
  pub mjpeg_quality : ℤ
  pub enabled_roi : ℤ
  pub roi_x : ℤ
  pub roi_y : ℤ
  pub roi_w : ℤ
  pub roi_h : ℤ

pub cfgud_init : ℤ → UpdateAvbs
cfgud_init dnc = record {
  stream_enable = dnc;
  enc_type = dnc;
  frame_rate = dnc;
  bit_rate = dnc;
  ip_interval = dnc;
  width = dnc;
  height = dnc;
  rate_ctl_type = dnc;
  target_rate_max = dnc;
  reaction_delay_max = dnc;
  init_quant = dnc;
  max_quant = dnc;
  min_quant = dnc;
  mjpeg_quality = dnc;
  enabled_roi = dnc;
  roi_x = dnc;
  roi_y = dnc;
  roi_w = dnc;
  roi_h = dnc;
}

-- `v % 16 == 0` of C, for either sign.
unfoldable pub is_multiple_of_16 : ℤ → Bool
is_multiple_of_16 v = (pos_part v + neg_part v) % 16 == 0

pub cfgud_enc_type : ℤ → UpdateAvbs → ℤ × UpdateAvbs
cfgud_enc_type t u =
    if ltb_ℤ t enc_type_h264 || ltb_ℤ enc_type_mjpeg t
    then (minus_one, u)
    else (pos 0, record u { enc_type = t })

-- The test that `cfgud_iniQ`, `cfgud_maxQ` and `cfgud_minQ` share.
pub quant_ok : ℤ → ℤ → Bool
quant_ok t q =
    if eqb_ℤ t enc_type_h264
    then not (ltb_ℤ (pos 51) q || ltb_ℤ q (pos 1))
    else if eqb_ℤ t enc_type_mpeg
    then not (ltb_ℤ (pos 31) q || ltb_ℤ q (pos 1))
    else Bool.false

pub cfgud_init_q : ℤ → ℤ → UpdateAvbs → UpdateAvbs
unfolding quant_ok
cfgud_init_q t q u = if quant_ok t q then record u { init_quant = q } else u

pub cfgud_max_q : ℤ → ℤ → UpdateAvbs → UpdateAvbs
unfolding quant_ok
cfgud_max_q t q u = if quant_ok t q then record u { max_quant = q } else u

pub cfgud_min_q : ℤ → ℤ → UpdateAvbs → UpdateAvbs
unfolding quant_ok
cfgud_min_q t q u = if quant_ok t q then record u { min_quant = q } else u

pub cfgud_res : ℤ → ℤ → UpdateAvbs → ℤ × UpdateAvbs
unfolding is_multiple_of_16
cfgud_res w h u =
    if not (is_multiple_of_16 w) || not (is_multiple_of_16 h)
    then (minus_one, u)
    else (pos 0, record u { width = w; height = h })

-- The calls on a staged update. The quantisers carry the encoder type that they are checked for.
pub data Setter : Type 0 where
  set_stream_enable set_mjpeg_quality set_rate_ctl_type set_bps : ℤ → Setter
  set_trm set_rdm set_enc_type set_fps set_ip_interval : ℤ → Setter
  set_enabled_roi set_roi_x set_roi_y set_roi_w set_roi_h : ℤ → Setter
  set_init_q set_max_q set_min_q : ℤ → ℤ → Setter
  set_res : ℤ → ℤ → Setter

-- The setters that write what they are given: `cfgud_mjpeg_quality` prints a message for a quality
-- outside 1 to 100, and writes it all the same.
pub stage : Setter → UpdateAvbs → UpdateAvbs
unfolding cfgud_enc_type cfgud_init_q cfgud_max_q cfgud_min_q cfgud_res
stage (set_stream_enable v) u = record u { stream_enable = v }
stage (set_mjpeg_quality v) u = record u { mjpeg_quality = v }
stage (set_rate_ctl_type v) u = record u { rate_ctl_type = v }
stage (set_bps v) u = record u { bit_rate = v }
stage (set_trm v) u = record u { target_rate_max = v }
stage (set_rdm v) u = record u { reaction_delay_max = v }
stage (set_enc_type v) u = (cfgud_enc_type v u).1
stage (set_fps v) u = record u { frame_rate = v }
stage (set_ip_interval v) u = record u { ip_interval = v }
stage (set_enabled_roi v) u = record u { enabled_roi = v }
stage (set_roi_x v) u = record u { roi_x = v }
stage (set_roi_y v) u = record u { roi_y = v }
stage (set_roi_w v) u = record u { roi_w = v }
stage (set_roi_h v) u = record u { roi_h = v }
stage (set_init_q t q) u = cfgud_init_q t q u
stage (set_max_q t q) u = cfgud_max_q t q u
stage (set_min_q t q) u = cfgud_min_q t q u
stage (set_res w h) u = (cfgud_res w h u).1

pub stage_all : List Setter → UpdateAvbs → UpdateAvbs
unfolding stage
stage_all [] u = u
stage_all (x ∷ xs) u = stage_all xs (stage x u)

-- `if (staged != GMVAL_DO_NOT_CARE) old = staged;`
pub pick : ℤ → ℤ → ℤ → ℤ
pick dnc staged old = if eqb_ℤ staged dnc then old else staged

pub pick_switch : ℤ → ℤ → Switch → Switch
pick_switch dnc staged old =
    if eqb_ℤ staged dnc then old else if eqb_ℤ staged (pos 0) then disable else enable

-- The assignments of `cfgud_chk_parm`.
pub merge : ℤ → UpdateAvbs → Avbs → Avbs
unfolding pick pick_switch
merge dnc u b = record b {
  enabled = pick_switch dnc u.stream_enable b.enabled;
  video = record (b.video) {
    enabled = pick_switch dnc u.stream_enable b.video.enabled;
    enc_type = pick dnc u.enc_type b.video.enc_type;
    fps = pick dnc u.frame_rate b.video.fps;
    bps = pick dnc u.bit_rate b.video.bps;
    ip_interval = pick dnc u.ip_interval b.video.ip_interval;
    width = pick dnc u.width b.video.width;
    height = pick dnc u.height b.video.height;
    rate_ctl_type = pick dnc u.rate_ctl_type b.video.rate_ctl_type;
    target_rate_max = pick dnc u.target_rate_max b.video.target_rate_max;
    reaction_delay_max = pick dnc u.reaction_delay_max b.video.reaction_delay_max;
    init_quant = pick dnc u.init_quant b.video.init_quant;
    max_quant = pick dnc u.max_quant b.video.max_quant;
    min_quant = pick dnc u.min_quant b.video.min_quant;
    mjpeg_quality = pick dnc u.mjpeg_quality b.video.mjpeg_quality;
    enabled_roi = pick dnc u.enabled_roi b.video.enabled_roi;
    roi_w = pick dnc u.roi_w b.video.roi_w;
    roi_h = pick dnc u.roi_h b.video.roi_h;
    roi_x = pick dnc u.roi_x b.video.roi_x;
    roi_y = pick dnc u.roi_y b.video.roi_y;
  };
}

pub cfgud_chk_parm : ℤ → UpdateAvbs → Avbs → ℤ × Avbs
unfolding merge
cfgud_chk_parm dnc u b =
    if eqb_ℤ b.opt_type opt_none then (minus_one, b) else (pos 0, merge dnc u b)

-- `set_bs_res`, `set_bs_fps` and `set_bs_bps`, past the test of the numbers.
pub set_bs_res : ℤ → ℤ → Avbs → ℤ × Avbs
unfolding is_multiple_of_16
set_bs_res w h b =
    if not (is_multiple_of_16 w) || not (is_multiple_of_16 h)
    then (minus_one, b)
    else (pos 0, record b { video = record (b.video) { width = w; height = h } })

pub set_bs_fps : ℤ → Avbs → ℤ × Avbs
set_bs_fps fps b =
    if ltb_ℤ (pos 30) fps || leb_ℤ fps (pos 0)
    then (minus_one, b)
    else (pos 0, record b { video = record (b.video) { fps = fps } })

pub set_bs_bps : ℤ → Avbs → UpdateAvbs → ℤ × Avbs × UpdateAvbs
set_bs_bps bps b u =
    if ltb_ℤ bps (pos 0)
    then (minus_one, b, u)
    else (pos 0, record b { video = record (b.video) { bps = bps } }, record u { bit_rate = bps })
