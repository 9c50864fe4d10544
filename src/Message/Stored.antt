-- ===== src/Message/Stored.antt =====
-- What storing a value changes: the variable, and the mark of its file (src/processMsg.c).
use Prim.Native.String.{String}
use avserver.Base.{
  ℕ, arith, ◌≡◌, refl, ap, ◌⊎◌, inl, inr, ℤ, Bool, true, if◌then◌else◌, Bool-cases, Option, none,
  some, ◌++◌,
}
use avserver.Message.Vars.{File, file_no, Num, Num-discrete, Txt, Txt-discrete}
use avserver.Message.Session.{Note, Session, put_num, put_txt, set_file_changed, make, mark, note}
use avserver.Message.Row.{NumRow, TxtRow, store_num, store_txt}

-- A file is marked, if there is one.
unfoldable pub IsMarked : (ℕ → Bool) → Option File → Type 0
IsMarked flag none = ⊥
IsMarked flag (some f) = flag (file_no f) ≡ true

-- A step that keeps both kinds of variables and the marks.
pub record Spares (s t : Session) : Type 0 where
  pub same-numbers : t.numbers ≡ s.numbers
  pub same-texts : t.texts ≡ s.texts
  pub same-marks : t.file_changed ≡ s.file_changed

pub note-Spares : (n : Note) (s : Session) → Spares s (note n s)
unfolding note
note-Spares Note.nothing s = record { same-numbers = refl; same-texts = refl; same-marks = refl }
note-Spares Note.osd s = record { same-numbers = refl; same-texts = refl; same-marks = refl }
note-Spares Note.net s = record { same-numbers = refl; same-texts = refl; same-marks = refl }
note-Spares Note.ntp s = record { same-numbers = refl; same-texts = refl; same-marks = refl }
note-Spares Note.restart s = record { same-numbers = refl; same-texts = refl; same-marks = refl }

-- What a decision chooses.
chosen {ℓ} :
    {A : Type ℓ} {B : Type 0} {v w : B} (d : Dec A)
    → (A × (elim d as (λ _. B) [ yes _ ↦ v | no _ ↦ w ] ≡ v))
      ⊎ (elim d as (λ _. B) [ yes _ ↦ v | no _ ↦ w ] ≡ w)
chosen (yes a) = inl (a, refl)
chosen (no _) = inr refl

pub put_num-cases :
    (x y : Num) (v : ℤ) (vars : Num → ℤ)
    → ((x ≡ y) × (put_num x v vars y ≡ v)) ⊎ (put_num x v vars y ≡ vars y)
unfolding put_num
put_num-cases x y v vars = chosen (Num-discrete x y)

pub put_txt-cases :
    (x y : Txt) (v : String) (vars : Txt → String)
    → ((x ≡ y) × (put_txt x v vars y ≡ v)) ⊎ (put_txt x v vars y ≡ vars y)
unfolding put_txt
put_txt-cases x y v vars = chosen (Txt-discrete x y)

-- A mark marks its file, and takes no other mark away.
pub set-IsMarked :
    (f : File) (flag : ℕ → Bool) → set_file_changed (file_no f) flag (file_no f) ≡ true
unfolding set_file_changed
set-IsMarked f flag = ground arith

pub set-keeps :
    (n : ℕ) (flag : ℕ → Bool) (o : Option File)
    → IsMarked flag o
    → IsMarked (set_file_changed n flag) o
unfolding IsMarked set_file_changed
set-keeps n flag none m = m
set-keeps n flag (some f) m = ground arith

pub store_num-numbers :
    (r : NumRow) (v : ℤ) (s : Session) → (store_num r v s).numbers ≡ put_num r.var v s.numbers
unfolding store_num make mark
store_num-numbers r v s =
    let s' : Session = record s {
      numbers = put_num r.var v s.numbers;
      calls = s.calls ++ r.calls v;
    } in
    elim (Bool-cases r.marks) [
      | inl e ↦ rw e (note-Spares r.notes s').same-numbers
      | inr e ↦ rw e (note-Spares r.notes s').same-numbers
    ]

pub store_num-texts : (r : NumRow) (v : ℤ) (s : Session) → (store_num r v s).texts ≡ s.texts
unfolding store_num make mark
store_num-texts r v s =
    let s' : Session = record s {
      numbers = put_num r.var v s.numbers;
      calls = s.calls ++ r.calls v;
    } in
    elim (Bool-cases r.marks) [
      | inl e ↦ rw e (note-Spares r.notes s').same-texts
      | inr e ↦ rw e (note-Spares r.notes s').same-texts
    ]

pub store_num-marks :
    (r : NumRow) (v : ℤ) (s : Session)
    → (store_num r v s).file_changed
      ≡ (if r.marks then set_file_changed (file_no r.file) s.file_changed else s.file_changed)
unfolding store_num make mark
store_num-marks r v s =
    let s' : Session = record s {
      numbers = put_num r.var v s.numbers;
      calls = s.calls ++ r.calls v;
    } in
    elim (Bool-cases r.marks) [
      | inl e ↦ rw e (ap (set_file_changed (file_no r.file)) (note-Spares r.notes s').same-marks)
      | inr e ↦ rw e (note-Spares r.notes s').same-marks
    ]

pub store_txt-texts :
    (r : TxtRow) (v : String) (s : Session) → (store_txt r v s).texts ≡ put_txt r.var v s.texts
unfolding store_txt make mark
store_txt-texts r v s =
    (note-Spares r.notes
      (record s { texts = put_txt r.var v s.texts; calls = s.calls ++ r.calls v })).same-texts

pub store_txt-numbers :
    (r : TxtRow) (v : String) (s : Session) → (store_txt r v s).numbers ≡ s.numbers
unfolding store_txt make mark
store_txt-numbers r v s =
    (note-Spares r.notes
      (record s { texts = put_txt r.var v s.texts; calls = s.calls ++ r.calls v })).same-numbers

pub store_txt-marks :
    (r : TxtRow) (v : String) (s : Session)
    → (store_txt r v s).file_changed ≡ set_file_changed (file_no r.file) s.file_changed
unfolding store_txt make mark
store_txt-marks r v s =
    ap (set_file_changed (file_no r.file))
      (note-Spares r.notes
        (record s { texts = put_txt r.var v s.texts; calls = s.calls ++ r.calls v })).same-marks
