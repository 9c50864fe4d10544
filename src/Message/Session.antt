-- ===== src/Message/Session.antt =====
-- What `processMsg` (src/processMsg.c 685-880) keeps while it handles a message: the configuration,
-- its local variables, the answer, and the calls that it makes.
use Prim.Native.String.{String, compare, len}
use Prim.Native.Nat.{Ordering}
use native.Mathlib.Decide.{ℕ_discrete}
use avserver.Base.{
  ℕ, suc, ◌==◌, ℤ, Bool, true, false, pos, ltb, ltb_ℤ, leb_ℤ, ◌&&◌, ◌||◌, not, eqb_ℤ, if◌then◌else◌,
  List, [], ◌∷◌, ◌++◌,
}
use avserver.Message.Keys.{Key}
use avserver.Message.Vars.{File, file_no, Num, Num-discrete, Txt, Txt-discrete, ℤ_discrete}

-- The constants of cmd_type.h and ipnc.h, and what the C library makes of values.
pub record Consts : Type 0 where
  pub t_set : ℤ
  pub t_get : ℤ
  pub main_stream_chn : ℤ
  pub region_num : ℤ
  -- The conversion to `char`.
  pub to_char : ℤ → ℤ
  -- The lengths of arrays (MAX_UPDATE_SUB_CHN, the areas, the masks and the networks), and the sizes
  -- of the fields of texts.
  pub max_update_sub_chn : ℤ
  pub areas : ℤ
  pub masks : ℤ
  pub networks : ℤ
  -- CHANNEL_NUM and DVR_ENC_REPD_BT_NUM.
  pub channels : ℤ
  pub bt_num : ℤ
  pub field : Txt → ℕ
  -- What the default files hold, and what `ctime` makes of the time.
  pub default_num : Num → ℤ
  pub default_txt : Txt → String
  pub now : String

-- The value of a variable of a message: its text, and what `atoi` makes of it.
pub record Value : Type 0 where
  pub text : String
  pub number : ℤ

-- The commands for the pan-tilt head that the cases below send.
pub data PtzCommand : Type 0 where
  ptz_stop goto_preset : PtzCommand

-- The functions that a case calls.
pub data Call : Type 0 where
  set_i_frame init_isp_pw_frequency adjust_brightness adjust_saturation set_img_saturation :
      ℤ → Call
  adjust_contrast adjust_hue adjust_awb_scene_mode adjust_shapness set_mirror : ℤ → Call
  set_img_c_to_w set_img_w_to_c set_infradstatus set_httpport : ℤ → Call
  set_fps set_ip_int set_bps set_nvr_send_status : ℤ → ℤ → ℤ → Call
  set_idr : ℤ → ℤ → Call
  net_set_netmask mctp_text set_date : String → Call
  -- A command for the pan-tilt head, and its argument.
  mctp_ptz : PtzCommand → ℤ → Call
  -- The two arguments of switch.sh.
  switch : ℕ → ℕ → Call
  do_reset kill_thttpd gen_if_cfg start_ntp rec_cfg_set send_osd : Call
  write_cfg_file : ℕ → Call
  restart : Call

-- What is shown after a key.
pub data Shown : Type 0 where
  number : ℤ → Shown
  text : String → Shown
  numbers : List ℤ → Shown

-- What a case notes for the end of the message, apart from the file.
pub data Note : Type 0 where
  nothing osd net ntp restart : Note

pub record Session : Type 0 where
  pub numbers : Num → ℤ
  pub texts : Txt → String
  pub cmd_type : ℤ
  pub yl_set : Bool
  pub channel : ℤ
  pub sub_channel : ℤ
  pub osd_region : ℤ
  pub index : ℤ
  -- `file_changed_flag`, by the number of the bit.
  pub file_changed : ℕ → Bool
  pub osd_cfg : Bool
  pub if_cfg : Bool
  pub ntpserver_cfg : ℕ
  pub reboot : ℕ
  pub ret : ℕ
  -- Whether a case has gone outside an array or a field. What the variables hold in C is not known
  -- from then on.
  pub wild : Bool
  pub reply : List (Key × Shown)
  pub calls : List Call

unfoldable pub put_num : Num → ℤ → (Num → ℤ) → Num → ℤ
unfolding Num-discrete ℤ_discrete ℕ_discrete
put_num x v vars y = elim (Num-discrete x y) [ yes _ ↦ v | no _ ↦ vars y ]

unfoldable pub put_txt : Txt → String → (Txt → String) → Txt → String
unfolding Txt-discrete ℤ_discrete ℕ_discrete
put_txt x v vars y = elim (Txt-discrete x y) [ yes _ ↦ v | no _ ↦ vars y ]

-- An access that is inside its array or field, or not.
unfoldable pub touch : Bool → Session → Session
touch inside s = record s { wild = s.wild || not inside }

unfoldable pub in_array : ℤ → ℤ → Bool
in_array n i = leb_ℤ (pos 0) i && ltb_ℤ i n

unfoldable pub num_inside : Consts → Num → Bool
unfolding in_array
num_inside c (Num.ubs _ i _) = in_array c.max_update_sub_chn i
num_inside c (Num.osd i _) = in_array c.region_num i
num_inside c (Num.area i _) = in_array c.areas i
num_inside c (Num.aera i _) = in_array c.masks i
num_inside c (Num.scan i _) = in_array c.networks i
num_inside c _ = true

-- The text with its end fits into its field.
unfoldable pub txt_inside : Consts → Txt → String → Bool
unfolding in_array
txt_inside c (Txt.osd_name i) v = in_array c.region_num i && ltb (len v) (c.field (Txt.osd_name i))
txt_inside c (Txt.wessid i) v = in_array c.networks i && ltb (len v) (c.field (Txt.wessid i))
txt_inside c x v = ltb (len v) (c.field x)

-- `strcmp` gives 0.
unfoldable pub same_text : String → String → Bool
same_text a b = elim (compare a b) [ Ordering.eq ↦ true | _ ↦ false ]

-- `SET_FILE_CHANGED`
unfoldable pub set_file_changed : ℕ → (ℕ → Bool) → ℕ → Bool
set_file_changed n flag i = if i == n then true else flag i

-- `CLR_FILE_CHANGED`
unfoldable pub clr_file_changed : ℕ → (ℕ → Bool) → ℕ → Bool
clr_file_changed n flag i = if i == n then false else flag i

abbrev pub is_set : Consts → Session → Bool
is_set c s = eqb_ℤ s.cmd_type c.t_set

abbrev pub is_get : Consts → Session → Bool
is_get c s = eqb_ℤ s.cmd_type c.t_get

-- `strcat` of a key and a value, with `ret++`.
unfoldable pub answer : Key → Shown → Session → Session
answer k v s = record s { reply = s.reply ++ (k, v) ∷ []; ret = suc s.ret }

-- The same without `ret++`.
unfoldable pub echo : Key → Shown → Session → Session
echo k v s = record s { reply = s.reply ++ (k, v) ∷ [] }

unfoldable pub make : List Call → Session → Session
make cs s = record s { calls = s.calls ++ cs }

unfoldable pub mark : File → Session → Session
unfolding set_file_changed file_no
mark f s = record s { file_changed = set_file_changed (file_no f) s.file_changed }

unfoldable pub note : Note → Session → Session
note Note.nothing s = s
note Note.osd s = record s { osd_cfg = true }
note Note.net s = record s { if_cfg = true }
note Note.ntp s = record s { ntpserver_cfg = suc s.ntpserver_cfg }
note Note.restart s = record s { reboot = suc s.reboot }
