-- ===== src/Message/Lossless.antt =====
-- No change of the configuration is lost over a whole message of src/processMsg.c.
use Prim.Native.String.{String}
use avserver.Base.{
  ◌+◌, ◌≤◌, arith, ◌≡◌, refl, sym, ap, ◌∙◌, ◌⊎◌, inl, inr, ℤ, pos, true, false, Bool-cases,
  if◌then◌else◌, Option, none, some, List,
}
use avserver.Message.Keys.{Key}
use avserver.Message.Vars.{File, file_no, AvFile, Num, Txt, OtherField}
use avserver.Message.Session.{Consts, Value, Call, Session, put_txt, answer, make, touch, same_text}
use avserver.Message.Act.{
  reload, set_systime, is_restored, is_restored_txt, has_width, show_devtype,
}
use avserver.Message.Process.{handle_all, start, finish, end_file, process_msg}
use avserver.Message.Filed.{
  IsFiled, file_of, file_of_txt, file_of_other, is_passing, is_passing_txt, is_reset,
}
use avserver.Message.Filed.Rows.{row_of-IsFiled}
use avserver.Message.Stored.{IsMarked, put_num-cases, put_txt-cases}
use avserver.Message.Kept.{
  NumKept, TxtKept, IsKept, num_later, txt_later, IsDefault, Spares-IsKept, set_num-IsKept,
  store_txt-IsKept,
}
use avserver.Message.Induct.{handle_all-Holds}
use avserver.Message.Written.{written, finish-written, finish-numbers, finish-texts}

-- The variables that a reset restores are those of its files.
restored : (x : Num) → is_restored x ≡ true → is_reset (file_of x) ≡ true
unfolding is_restored is_reset file_of file_of_other
restored (Num.av AvFile.av_0 f) e = refl
restored (Num.av AvFile.av_1 f) e = refl
restored (Num.ubs AvFile.av_0 i f) e = refl
restored (Num.ubs AvFile.av_1 i f) e = refl
restored (Num.osd i f) e = refl
restored (Num.other OtherField.cloud_enable) e = refl
restored (Num.other OtherField.cloud_port) e = refl
restored (Num.other _) e = absurd (cc)
restored (Num.img f) e = absurd (cc)
restored (Num.net f) e = absurd (cc)
restored (Num.ptz f) e = absurd (cc)
restored (Num.md f) e = absurd (cc)
restored (Num.area i f) e = absurd (cc)
restored (Num.aera i f) e = absurd (cc)
restored (Num.scan i f) e = absurd (cc)

restored_txt : (y : Txt) → is_restored_txt y ≡ true → is_reset (file_of_txt y) ≡ true
unfolding is_restored_txt is_reset file_of_txt
restored_txt (Txt.osd_name i) e = refl
restored_txt Txt.cloud_id e = refl
restored_txt Txt.cloud_pw e = refl
restored_txt Txt.cloud_addr e = refl
restored_txt Txt.cloud_name e = refl
restored_txt _ e = absurd (cc)

module _ (c : Consts) (numbers : Num → ℤ) (texts : Txt → String) where
  -- The type of the device is passing.
  show_devtype-IsKept :
      (s : Session) → IsKept c numbers texts s → IsKept c numbers texts (show_devtype s)
  unfolding show_devtype answer is_passing
  show_devtype-IsKept s h = record {
    num-kept = λ x.
        elim (put_num-cases (Num.other OtherField.devtype) x
          (if has_width AvFile.av_0 (pos 1920) s then pos 1 else pos 0) s.numbers) [
            | inl (p, _) ↦ inl (inr (inl (ap is_passing (sym p))))
            | inr e ↦ num_later c numbers s (show_devtype s) x (inl refl) e (h.num-kept x)
          ];
    txt-kept = h.txt-kept;
  }

  reload-IsKept : (s : Session) → IsKept c numbers texts s → IsKept c numbers texts (reload c s)
  unfolding reload
  reload-IsKept s h = record {
    num-kept = λ x. elim (Bool-cases (is_restored x)) [
      | inl e ↦ inl (inr (inr (rw e refl, restored x e)))
      | inr e ↦ num_later c numbers s (reload c s) x (inl refl) (rw e refl) (h.num-kept x)
    ];
    txt-kept = λ y. elim (Bool-cases (is_restored_txt y)) [
      | inl e ↦ inl (inr (inr (rw e refl, restored_txt y e)))
      | inr e ↦ txt_later c texts s (reload c s) y (inl refl) (rw e refl) (h.txt-kept y)
    ];
  }

  -- The time of the system is passing.
  set_systime-IsKept :
      (v : String) (s : Session)
      → IsKept c numbers texts s
      → IsKept c numbers texts (set_systime c v s)
  unfolding set_systime make touch is_passing_txt
  set_systime-IsKept v s h = elim (Bool-cases (same_text (s.texts Txt.sys_time) v)) [
    | inl e ↦ rw e h
    | inr e ↦ rw e (record {
      num-kept = h.num-kept;
      txt-kept = λ y. elim (put_txt-cases Txt.sys_time y v s.texts) [
        | inl (p, _) ↦ inl (inr (inl (ap is_passing_txt (sym p))))
        | inr d ↦
            txt_later c texts s (record s { texts = put_txt Txt.sys_time v s.texts }) y (inl refl) d
              (h.txt-kept y)
      ];
    })
  ]

  handle_all-IsKept :
      (is : List (Key × Value)) (s : Session)
      → IsKept c numbers texts s
      → IsKept c numbers texts (handle_all c is s)
  handle_all-IsKept =
      handle_all-Holds (IsKept c numbers texts) IsFiled c (row_of-IsFiled c)
        (λ s t p. Spares-IsKept p) set_num-IsKept store_txt-IsKept show_devtype-IsKept reload-IsKept
        set_systime-IsKept

-- The file of a variable, if it has one, is written by the calls.
unfoldable pub IsWritten : Option File → List Call → Type 0
IsWritten none cs = ⊥
IsWritten (some f) cs = 1 ≤ written (file_no f) cs

file_no-le : (f : File) → file_no f ≤ end_file
unfolding file_no
file_no-le File.enc_0 = omega arith
file_no-le File.enc_1 = omega arith
file_no-le File.enc_fw = omega arith
file_no-le File.image_attr = omega arith
file_no-le File.overlay = omega arith
file_no-le File.infrared = omega arith
file_no-le File.net = omega arith
file_no-le File.port = omega arith
file_no-le File.upnp = omega arith
file_no-le File.wf = omega arith
file_no-le File.ddns = omega arith
file_no-le File.ptzcom = omega arith
file_no-le File.md = omega arith
file_no-le File.user = omega arith
file_no-le File.snaptimer = omega arith
file_no-le File.ftp = omega arith
file_no-le File.smtp = omega arith
file_no-le File.vidmask = omega arith
file_no-le File.sys = omega arith
file_no-le File.sys_timer = omega arith
file_no-le File.ptz_preset = omega arith
file_no-le File.cloud = omega arith
file_no-le File.rec = omega arith

IsMarked-IsWritten :
    (o : Option File) (s : Session) → IsMarked s.file_changed o → IsWritten o (finish s).calls
unfolding IsMarked IsWritten
IsMarked-IsWritten none s m = m
IsMarked-IsWritten (some f) s m =
    let e : written (file_no f) (finish s).calls
        ≡ written (file_no f) s.calls + (if s.file_changed (file_no f) then 1 else 0) =
      finish-written (file_no f) s (file_no-le f) in
    rw e (rw m (omega arith))

num-IsWritten :
    (c : Consts) (numbers : Num → ℤ) (s : Session) (x : Num)
    → NumKept c numbers s x
    → ((finish s).numbers x ≡ numbers x)
      ⊎ (is_passing x ≡ true)
      ⊎ IsDefault ((finish s).numbers x) (c.default_num x) (file_of x)
      ⊎ IsWritten (file_of x) (finish s).calls
num-IsWritten c numbers s x (inl (inl e)) = inl (ap (λ f. f x) (finish-numbers s) ∙ e)
num-IsWritten c numbers s x (inl (inr (inl p))) = inr (inl p)
num-IsWritten c numbers s x (inl (inr (inr (e, r)))) =
    inr (inr (inl (ap (λ f. f x) (finish-numbers s) ∙ e, r)))
num-IsWritten c numbers s x (inr m) = inr (inr (inr (IsMarked-IsWritten (file_of x) s m)))

txt-IsWritten :
    (c : Consts) (texts : Txt → String) (s : Session) (y : Txt)
    → TxtKept c texts s y
    → ((finish s).texts y ≡ texts y)
      ⊎ (is_passing_txt y ≡ true)
      ⊎ IsDefault ((finish s).texts y) (c.default_txt y) (file_of_txt y)
      ⊎ IsWritten (file_of_txt y) (finish s).calls
txt-IsWritten c texts s y (inl (inl e)) = inl (ap (λ f. f y) (finish-texts s) ∙ e)
txt-IsWritten c texts s y (inl (inr (inl p))) = inr (inl p)
txt-IsWritten c texts s y (inl (inr (inr (e, r)))) =
    inr (inr (inl (ap (λ f. f y) (finish-texts s) ∙ e, r)))
txt-IsWritten c texts s y (inr m) = inr (inr (inr (IsMarked-IsWritten (file_of_txt y) s m)))

-- No change of the configuration is lost: after a message in which no access goes outside its
-- array or field, each number is as it was before, or its file has been written, or its file is
-- one that a reset restores and it holds what the default file holds, or it is a frame rate, a
-- bit rate, an interval of I frames or the type of the device; and each text is as it was
-- before, or its file has been written, or it holds its default in the same way, or it is the
-- time of the system.
pub process_msg-lossless :
    (c : Consts) (message : List (Key × Value)) (numbers : Num → ℤ) (texts : Txt → String) (x : Num)
    (y : Txt)
    → let s = (process_msg c true (some message) numbers texts).1 in
      s.wild ≡ false
      → ((s.numbers x ≡ numbers x)
          ⊎ (is_passing x ≡ true)
          ⊎ IsDefault (s.numbers x) (c.default_num x) (file_of x)
          ⊎ IsWritten (file_of x) s.calls)
        × ((s.texts y ≡ texts y)
            ⊎ (is_passing_txt y ≡ true)
            ⊎ IsDefault (s.texts y) (c.default_txt y) (file_of_txt y)
            ⊎ IsWritten (file_of_txt y) s.calls)
unfolding process_msg start
process_msg-lossless c message numbers texts x y inside =
    let s0 : Session = start numbers texts in
    let s : Session = handle_all c message s0 in
    let k : IsKept c numbers texts s =
      handle_all-IsKept c numbers texts message s0
        (record { num-kept = λ z. inl (inl refl); txt-kept = λ z. inl (inl refl) }) in
    (num-IsWritten c numbers s x (k.num-kept x), txt-IsWritten c texts s y (k.txt-kept y))
