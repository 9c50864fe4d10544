-- ===== src/Message/Range/Whole.antt =====
-- A whole message of src/processMsg.c keeps the variables in range.
use Prim.Native.String.{String}
use mathlib.Core.Path.{subst}
use avserver.Base.{
  ◌≡◌, refl, sym, ap, ◌∙◌, inl, inr, ℤ, pos, true, false, eqb_ℤ, if◌then◌else◌, Bool-cases, Option,
  none, some, List,
}
use avserver.Message.Keys.{Key}
use avserver.Message.Vars.{AvFile, Num, Txt, OtherField}
use avserver.Message.Session.{Consts, Value, Session, put_num, answer, make, touch, same_text}
use avserver.Message.Row.{NumRow, Row, store_num, set_kept, set_num, store_txt}
use avserver.Message.Act.{reload, is_restored, set_systime, has_width, show_devtype}
use avserver.Message.Process.{handle_all, start, finish, process_msg}
use avserver.Message.Stored.{put_num-cases, store_num-numbers, store_txt-numbers}
use avserver.Message.Written.{finish-numbers}
use avserver.Message.Induct.{handle_all-Holds}
use avserver.Message.Range.{InRange, KeptInRange, IsBounded}
use avserver.Message.Range.Rows.{row_of-IsBounded}

abbrev Ranged : Session → Type 0
Ranged s = (x : Num) → InRange x (s.numbers x)

Ranged-same : (s t : Session) → t.numbers ≡ s.numbers → Ranged s → Ranged t
Ranged-same s t e h x = subst (InRange x) (ap (λ f. f x) (sym e)) (h x)

-- The variable that is stored, and another one.
put-Ranged :
    (x : Num) (v : ℤ) (s t : Session)
    → t.numbers ≡ put_num x v s.numbers
    → InRange x v
    → Ranged s
    → Ranged t
put-Ranged x v s t e ok h y = elim (put_num-cases x y v s.numbers) [
  | inl (p, q) ↦
      subst (λ w. InRange y w) (sym (ap (λ f. f y) e ∙ q)) (subst (λ z. InRange z v) p ok)
  | inr q ↦ subst (λ w. InRange y w) (sym (ap (λ f. f y) e ∙ q)) (h y)
]

set_kept-Ranged :
    (r : NumRow) (v : ℤ) (o : Option ℤ) (s : Session)
    → KeptInRange r.var o
    → Ranged s
    → Ranged (set_kept r v o s)
unfolding set_kept KeptInRange
set_kept-Ranged r v none s ok h = h
set_kept-Ranged r v (some v') s ok h = elim (Bool-cases (eqb_ℤ (s.numbers r.var) (r.tested v v'))) [
  | inl e ↦ rw e h
  | inr e ↦ rw e (put-Ranged r.var v' s (store_num r v' s) (store_num-numbers r v' s) ok h)
]

set_num-Ranged :
    (r : NumRow) (v : ℤ) (s : Session) → IsBounded (Row.num r) → Ranged s → Ranged (set_num r v s)
unfolding set_num IsBounded
set_num-Ranged r v s ok h = set_kept-Ranged r v (r.kept v) s (ok v) h

show_devtype-Ranged : (s : Session) → Ranged s → Ranged (show_devtype s)
unfolding show_devtype answer InRange
show_devtype-Ranged s h =
    put-Ranged (Num.other OtherField.devtype)
      (if has_width AvFile.av_0 (pos 1920) s then pos 1 else pos 0) s (show_devtype s) refl tt h

module _ (c : Consts) (defaults : (x : Num) → InRange x (c.default_num x)) where
  reload-Ranged : (s : Session) → Ranged s → Ranged (reload c s)
  unfolding reload
  reload-Ranged s h x = elim (Bool-cases (is_restored x)) [
    | inl e ↦ rw e (defaults x)
    | inr e ↦ rw e (h x)
  ]

  set_systime-Ranged : (v : String) (s : Session) → Ranged s → Ranged (set_systime c v s)
  unfolding set_systime make touch
  set_systime-Ranged v s h x = elim (Bool-cases (same_text (s.texts Txt.sys_time) v)) [
    | inl e ↦ rw e (h x)
    | inr e ↦ rw e (h x)
  ]

  -- If each frame rate is from 4 to 150, each bit rate from 100000 to 5000000, the power
  -- frequency 50 or 60, and the switches of the cloud and of the recorder 0 or 1, in the
  -- configuration and in the default files, it is so after any message in which no access goes
  -- outside its array or field.
  pub process_msg-InRange :
      (message : List (Key × Value)) (numbers : Num → ℤ) (texts : Txt → String)
      → ((x : Num) → InRange x (numbers x))
      → (process_msg c true (some message) numbers texts).1.wild ≡ false
      → (x : Num) → InRange x ((process_msg c true (some message) numbers texts).1.numbers x)
  unfolding process_msg start
  process_msg-InRange message numbers texts h inside =
      let s : Session = handle_all c message (start numbers texts) in
      Ranged-same s (finish s) (finish-numbers s) (
        handle_all-Holds Ranged IsBounded c (row_of-IsBounded c)
          (λ s t p. Ranged-same s t p.same-numbers) set_num-Ranged
          (λ r v s _. Ranged-same s (store_txt r v s) (store_txt-numbers r v s)) show_devtype-Ranged
          reload-Ranged set_systime-Ranged message (start numbers texts) h)
