-- ===== src/Message/Kept.antt =====
-- No change of the configuration is lost: over a whole message of src/processMsg.c, a variable that
-- differs afterwards has its file marked.
use Prim.Native.String.{String}
use avserver.Base.{
  ℕ, ◌≡◌, sym, ap, ◌∙◌, ◌⊎◌, inl, inr, ℤ, true, eqb_ℤ, Bool-cases, Option, none, some,
}
use avserver.Message.Vars.{File, file_no, Num, Txt}
use avserver.Message.Session.{Consts, Session, set_file_changed}
use avserver.Message.Row.{NumRow, TxtRow, Row, store_num, set_kept, set_num, store_txt}
use avserver.Message.Filed.{file_of, file_of_txt, is_passing, is_passing_txt, is_reset, IsFiled}
use avserver.Message.Stored.{
  IsMarked, Spares, put_num-cases, put_txt-cases, set-IsMarked, set-keeps, store_num-numbers,
  store_num-texts, store_num-marks, store_txt-texts, store_txt-numbers, store_txt-marks,
}

-- The variable holds what its file has after a reset.
abbrev pub IsDefault : {A : Type 0} → A → A → Option File → Type 0
IsDefault w d o = (w ≡ d) × (is_reset o ≡ true)

abbrev pub NumKept : Consts → (Num → ℤ) → Session → Num → Type 0
NumKept c numbers s x =
    ((s.numbers x ≡ numbers x)
      ⊎ (is_passing x ≡ true)
      ⊎ IsDefault (s.numbers x) (c.default_num x) (file_of x))
    ⊎ IsMarked s.file_changed (file_of x)

abbrev pub TxtKept : Consts → (Txt → String) → Session → Txt → Type 0
TxtKept c texts s x =
    ((s.texts x ≡ texts x)
      ⊎ (is_passing_txt x ≡ true)
      ⊎ IsDefault (s.texts x) (c.default_txt x) (file_of_txt x))
    ⊎ IsMarked s.file_changed (file_of_txt x)

-- Each variable is as it was, or passing, or restored, or its file is marked.
pub record IsKept (c : Consts) (numbers : Num → ℤ) (texts : Txt → String) (s : Session)
    : Type 0 where
  pub num-kept : (x : Num) → NumKept c numbers s x
  pub txt-kept : (x : Txt) → TxtKept c texts s x

-- The marks of a step are those before, or one more.
abbrev pub MoreMarks : Session → Session → Type 0
MoreMarks s t =
    (t.file_changed ≡ s.file_changed)
    ⊎ ((n : ℕ) × (t.file_changed ≡ set_file_changed n s.file_changed))

more-IsMarked :
    (s t : Session) (o : Option File)
    → MoreMarks s t
    → IsMarked s.file_changed o
    → IsMarked t.file_changed o
more-IsMarked s t o (inl e) m = rw e m
more-IsMarked s t o (inr (n, e)) m = rw e (set-keeps n s.file_changed o m)

module _ (c : Consts) (numbers : Num → ℤ) where
  pub num_later :
      (s t : Session) (x : Num)
      → MoreMarks s t
      → t.numbers x ≡ s.numbers x
      → NumKept c numbers s x
      → NumKept c numbers t x
  num_later s t x more e (inl (inl a)) = inl (inl (e ∙ a))
  num_later s t x more e (inl (inr (inl a))) = inl (inr (inl a))
  num_later s t x more e (inl (inr (inr (a, r)))) = inl (inr (inr (e ∙ a, r)))
  num_later s t x more e (inr m) = inr (more-IsMarked s t (file_of x) more m)

module _ (c : Consts) (texts : Txt → String) where
  pub txt_later :
      (s t : Session) (x : Txt)
      → MoreMarks s t
      → t.texts x ≡ s.texts x
      → TxtKept c texts s x
      → TxtKept c texts t x
  txt_later s t x more e (inl (inl a)) = inl (inl (e ∙ a))
  txt_later s t x more e (inl (inr (inl a))) = inl (inr (inl a))
  txt_later s t x more e (inl (inr (inr (a, r)))) = inl (inr (inr (e ∙ a, r)))
  txt_later s t x more e (inr m) = inr (more-IsMarked s t (file_of_txt x) more m)

store_num-more : (r : NumRow) (v : ℤ) (s : Session) → MoreMarks s (store_num r v s)
store_num-more r v s = elim (Bool-cases r.marks) [
  | inl e ↦ inr (file_no r.file, store_num-marks r v s ∙ rw e)
  | inr e ↦ inl (store_num-marks r v s ∙ rw e)
]

-- The variable of the row itself.
own_num :
    (c : Consts) (numbers : Num → ℤ) (r : NumRow) (v : ℤ) (s : Session) (x : Num)
    → IsFiled (Row.num r)
    → r.var ≡ x
    → NumKept c numbers (store_num r v s) x
unfolding IsFiled IsMarked
own_num c numbers r v s x (inr pass, filed) p = inl (inr (inl (ap is_passing (sym p) ∙ pass)))
own_num c numbers r v s x (inl marks, filed) p = inr (
    rw (ap file_of (sym p) ∙ filed, store_num-marks r v s, marks)
      (set-IsMarked r.file s.file_changed))

own_txt :
    (c : Consts) (texts : Txt → String) (r : TxtRow) (v : String) (s : Session) (x : Txt)
    → IsFiled (Row.txt r)
    → r.var ≡ x
    → TxtKept c texts (store_txt r v s) x
unfolding IsFiled IsMarked
own_txt c texts r v s x filed p = inr (
    rw (ap file_of_txt (sym p) ∙ filed, store_txt-marks r v s) (set-IsMarked r.file s.file_changed))

module _ {c : Consts} {numbers : Num → ℤ} {texts : Txt → String} where
  pub Spares-IsKept :
      {s t : Session} → Spares s t → IsKept c numbers texts s → IsKept c numbers texts t
  Spares-IsKept {s} {t} p k = record {
    num-kept = λ x.
        num_later c numbers s t x (inl p.same-marks) (ap (λ f. f x) p.same-numbers) (k.num-kept x);
    txt-kept =
        λ x. txt_later c texts s t x (inl p.same-marks) (ap (λ f. f x) p.same-texts) (k.txt-kept x);
  }

  store_num-IsKept :
      (r : NumRow) (v : ℤ) (s : Session)
      → IsFiled (Row.num r)
      → IsKept c numbers texts s
      → IsKept c numbers texts (store_num r v s)
  store_num-IsKept r v s filed k = record {
    num-kept = λ x. elim (put_num-cases r.var x v s.numbers) [
      | inl (p, _) ↦ own_num c numbers r v s x filed p
      | inr e ↦
          num_later c numbers s (store_num r v s) x (store_num-more r v s)
            (ap (λ f. f x) (store_num-numbers r v s) ∙ e) (k.num-kept x)
    ];
    txt-kept = λ x.
        txt_later c texts s (store_num r v s) x (store_num-more r v s)
          (ap (λ f. f x) (store_num-texts r v s)) (k.txt-kept x);
  }

  pub store_txt-IsKept :
      (r : TxtRow) (v : String) (s : Session)
      → IsFiled (Row.txt r)
      → IsKept c numbers texts s
      → IsKept c numbers texts (store_txt r v s)
  store_txt-IsKept r v s filed k = record {
    num-kept = λ x.
        num_later c numbers s (store_txt r v s) x (inr (file_no r.file, store_txt-marks r v s))
          (ap (λ f. f x) (store_txt-numbers r v s)) (k.num-kept x);
    txt-kept = λ x. elim (put_txt-cases r.var x v s.texts) [
      | inl (p, _) ↦ own_txt c texts r v s x filed p
      | inr e ↦
          txt_later c texts s (store_txt r v s) x (inr (file_no r.file, store_txt-marks r v s))
            (ap (λ f. f x) (store_txt-texts r v s) ∙ e) (k.txt-kept x)
    ];
  }

  set_kept-IsKept :
      (r : NumRow) (v : ℤ) (o : Option ℤ) (s : Session)
      → IsFiled (Row.num r)
      → IsKept c numbers texts s
      → IsKept c numbers texts (set_kept r v o s)
  unfolding set_kept
  set_kept-IsKept r v none s filed k = k
  set_kept-IsKept r v (some v') s filed k =
      elim (Bool-cases (eqb_ℤ (s.numbers r.var) (r.tested v v'))) [
        | inl e ↦ rw e k
        | inr e ↦ rw e (store_num-IsKept r v' s filed k)
      ]

  pub set_num-IsKept :
      (r : NumRow) (v : ℤ) (s : Session)
      → IsFiled (Row.num r)
      → IsKept c numbers texts s
      → IsKept c numbers texts (set_num r v s)
  unfolding set_num
  set_num-IsKept r v s filed k = set_kept-IsKept r v (r.kept v) s filed k
