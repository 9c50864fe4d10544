-- ===== src/Message/Trip.antt =====
-- Setting a number with one message of src/processMsg.c, and reading it back with the next: a case
-- with a row that stores what comes.
pub mod Plain
use avserver.Base.{
  ℕ, ◌≡◌, refl, sym, ap, ◌∙◌, inl, inr, arith, ℤ, pos, negsuc, Bool, true, false, ◌||◌, eqb_ℤ,
  if◌then◌else◌, Bool-cases, some, List, [], ◌∷◌, ◌++◌,
}
use avserver.Message.Keys.{
  Key, StreamKey, QuantKey, RoiKey, WhiteKey, NetKey, PortKey, WifiKey, PtzKey, AlarmKey,
  ScheduleKey, AreaKey, FtpKey, SmtpKey, MaskKey, TimeKey,
}
use avserver.Message.Vars.{
  File, AvFile, AvField, UbsField, ImgField, BoxField, MdField, NetField, PtzField, OtherField, Num,
  Num-discrete,
}
use avserver.Message.Session.{
  Consts, Value, Shown, Note, Session, put_num, is_set, is_get, answer, make, mark, note, touch,
  num_inside,
}
use avserver.Message.Row.{NumRow, Row, plain, num_row, store_num, set_kept, set_num, handle_row}
use avserver.Message.Encode.{av_of, file_of_av, av_row, ubs_row, row_stream}
use avserver.Message.Quality.{row_quant, row_roi}
use avserver.Message.Picture.{row_white}
use avserver.Message.Network.{row_net, row_port, row_wifi, row_ptz}
use avserver.Message.Alarm.{row_alarm, row_schedule, row_area, row_mask}
use avserver.Message.Mail.{row_ftp, row_smtp}
use avserver.Message.System.{row_time}
use avserver.Message.Process.{row_of, handle}
use avserver.Message.Stored.{put_num-cases, store_num-numbers}

-- The same session under T_Get.
abbrev pub as_get : Consts → Session → Session
as_get c s = record s { cmd_type = c.t_get }

-- What selects a variable: the channel, the bitstream, and the index of an area.
pub record SameContext (s t : Session) : Type 0 where
  pub same-channel : t.channel ≡ s.channel
  pub same-sub : t.sub_channel ≡ s.sub_channel
  pub same-index : t.index ≡ s.index

note-SameContext : (n : Note) (s : Session) → SameContext s (note n s)
unfolding note
note-SameContext Note.nothing s = record { same-channel = refl; same-sub = refl; same-index = refl }
note-SameContext Note.osd s = record { same-channel = refl; same-sub = refl; same-index = refl }
note-SameContext Note.net s = record { same-channel = refl; same-sub = refl; same-index = refl }
note-SameContext Note.ntp s = record { same-channel = refl; same-sub = refl; same-index = refl }
note-SameContext Note.restart s = record { same-channel = refl; same-sub = refl; same-index = refl }

eq_of_test : (a b : ℤ) → eqb_ℤ a b ≡ true → a ≡ b
eq_of_test (pos a) (pos b) h = ap pos (ground arith)
eq_of_test (pos a) (negsuc b) h = absurd (ground arith)
eq_of_test (negsuc a) (pos b) h = absurd (ground arith)
eq_of_test (negsuc a) (negsuc b) h = ap negsuc (ground arith)

eqb_self : (a : ℤ) → eqb_ℤ a a ≡ true
eqb_self a = ground arith

-- What a decision of an equation with itself chooses.
chosen_self {ℓ} :
    {A : Type ℓ} {a : A} {B : Type 0} {v : B} (w : B) (d : Dec (a ≡ a))
    → elim d as (λ _. B) [ yes _ ↦ v | no _ ↦ w ] ≡ v
chosen_self w (yes _) = refl
chosen_self w (no n) = absurd (n refl)

put_num_self : (x : Num) (v : ℤ) (vars : Num → ℤ) → put_num x v vars x ≡ v
unfolding put_num
put_num_self x v vars = chosen_self (vars x) (Num-discrete x x)

-- The row of a variable that is stored as it comes.
module _ (x : AvFile → ℤ → ℤ → Num) (f : AvFile → File) (k : Key) (c : Consts) where
  abbrev var : Session → Num
  var s = x (av_of c s) s.sub_channel s.index

  abbrev row : Session → Row
  row s = num_row (var s) (f (av_of c s)) k s

  var-same : (s t : Session) → SameContext s t → var t ≡ var s
  unfolding av_of
  var-same s t e = rw (e.same-channel, e.same-sub, e.same-index)

  -- The two outcomes of a set.
  set-stores :
      (v : ℤ) (s : Session)
      → let t = set_num (plain (var s) (f (av_of c s)) k s) v s in
        SameContext s t × (t.numbers (var s) ≡ v)
  unfolding set_num set_kept store_num note make mark
  set-stores v s = elim (Bool-cases (eqb_ℤ (s.numbers (var s)) v)) [
    | inl e ↦ rw e (
      record { same-channel = refl; same-sub = refl; same-index = refl },
      eq_of_test (s.numbers (var s)) v e,
    )
    | inr e ↦ rw e (
      record { same-channel = refl; same-sub = refl; same-index = refl },
      put_num_self (var s) v s.numbers,
    )
  ]

  stored_value :
      (v : ℤ) (s : Session)
      → let t = set_num (plain (var s) (f (av_of c s)) k s) v s in t.numbers (var t) ≡ v
  stored_value v s =
      let t : Session = set_num (plain (var s) (f (av_of c s)) k s) v s in
      let (same, e) = set-stores v s in ap t.numbers (var-same s t same) ∙ e

  answers_with :
      (v' : Value) (t : Session)
      → eqb_ℤ c.t_get c.t_set ≡ false
      → (handle_row c (row (as_get c t)) v' (as_get c t)).reply
        ≡ t.reply ++ (k, Shown.number (t.numbers (var t))) ∷ []
  unfolding handle_row answer av_of touch
  answers_with v' t g = rw (g, eqb_self c.t_get)

  pub row-trip :
      (v v' : Value) (s : Session)
      → is_set c s ≡ true
      → eqb_ℤ c.t_get c.t_set ≡ false
      → let t = handle_row c (row s) v s in
        (handle_row c (row (as_get c t)) v' (as_get c t)).reply
        ≡ t.reply ++ (k, Shown.number v.number) ∷ []
  unfolding handle_row touch av_of
  row-trip v v' s h g =
      let t : Session = handle_row c (row s) v s in
      let value : t.numbers (var t) ≡ v.number =
        rw h (stored_value v.number (touch (num_inside c (var s)) s)) in
      answers_with v' t g ∙ ap (λ w. t.reply ++ (k, Shown.number w) ∷ []) value
