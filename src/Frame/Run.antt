-- ===== src/Frame/Run.antt =====
-- Any sequence of takes and puts on a pool, against the pool as two lists of cells.
use mathlib.Core.List.{Perm, perm_middle}
use mathlib.Core.List.Perm
use mathlib.Core.Path.{subst}
use avserver.Base.{
  ℤ, ◌≡◌, refl, ◌∙◌, ap, sym, true, false, Option, none, some, List, [], ◌∷◌, ◌++◌, arith, ◌==◌,
  if◌then◌else◌, Bool-cases, inl, inr,
}
use avserver.Frame.{FrameInfo, qno_ok, take_video_frame, put_video_frame}
use avserver.Frame.Heap.{Ptr, VideoFrame, Heap, and_then}
use avserver.Frame.Dll.{Cells, head}
use avserver.Frame.Pool.{Pool, IsPool, pool, info, take_refines, put_refines}

pub data Op : Type 0 where
  take : Op
  put : Ptr → Op

-- The cell at an address, and the cells without it.
unfoldable pub remove : Ptr → Cells → Option (VideoFrame × Cells)
remove a [] = none
remove a ((x, v) ∷ xs) =
    let rest : Option (VideoFrame × Cells) = elim (remove a xs) [
      | none ↦ none
      | some (w, r) ↦ some (w, (x, v) ∷ r)
    ] in
    if a == x then some (v, xs) else rest

take_spec : Cells → Cells → Option Pool
take_spec [] used = none
take_spec ((x, v) ∷ xs) used = some (pool xs ((x, v) ∷ used))

put_spec : Ptr → Cells → Option (VideoFrame × Cells) → Option Pool
put_spec x avail none = none
put_spec x avail (some (v, rest)) = some (pool ((x, v) ∷ avail) rest)

-- The specification: `none` for a take from an empty pool and for a put of a slot that is not used.
unfoldable pub step : Op → Pool → Option Pool
unfolding take_spec put_spec
step take p = take_spec p.avail p.used
step (put x) p = put_spec x p.avail (remove x p.used)

unfoldable pub run_spec : List Op → Pool → Option Pool
run_spec [] p = some p
run_spec (op ∷ ops) p = elim (step op p) [ none ↦ none | some q ↦ run_spec ops q ]

-- The calls on the heap.
unfoldable pub exec : ℤ → Op → FrameInfo → Heap → Option (FrameInfo × Heap)
exec qno take i h = and_then (take_video_frame qno i h) (λ (fs, j) g. some (j, g))
exec qno (put x) i h = put_video_frame qno x i h

unfoldable pub run : ℤ → List Op → FrameInfo → Heap → Option (FrameInfo × Heap)
run qno [] i h = some (i, h)
run qno (op ∷ ops) i h = and_then (exec qno op i h) (run qno ops)

-- Where a cell stands that is removed.
remove-split :
    (a : Ptr) (xs : Cells) (v : VideoFrame) (rest : Cells)
    → remove a xs ≡ some (v, rest)
    → (ys : Cells) × (zs : Cells) × (xs ≡ ys ++ ((a, v) ∷ zs)) × (rest ≡ ys ++ zs)
unfolding remove
remove-split a [] v rest e = absurd (cc)
remove-split a ((x, w) ∷ xs) v rest e = elim (Bool-cases (a == x)) [
  | inl hit ↦ ([], xs, ground arith, ground arith)
  | inr miss ↦ behind miss (remove a xs) refl (remove-split a xs)
]
  where
    behind :
        (a == x) ≡ false
        → (o : Option (VideoFrame × Cells)) → remove a xs ≡ o
        → ((v : VideoFrame) (rest : Cells)
            → remove a xs ≡ some (v, rest)
            → (ys : Cells) × (zs : Cells) × (xs ≡ ys ++ ((a, v) ∷ zs)) × (rest ≡ ys ++ zs))
        → (ys : Cells) × (zs : Cells) × (((x, w) ∷ xs) ≡ ys ++ ((a, v) ∷ zs)) × (rest ≡ ys ++ zs)
    behind miss none o ih = absurd (ground arith)
    behind miss (some (u, r)) o ih =
        let (ys, zs, whole, left) = ih u r o in
        let moved : rest ≡ (x, w) ∷ r = ground arith in
        let same : u ≡ v = ground arith in
        (
          (x, w) ∷ ys,
          zs,
          ap (λ l. (x, w) ∷ l) (whole ∙ ap (λ f. ys ++ ((a, f) ∷ zs)) same),
          moved ∙ ap (λ l. (x, w) ∷ l) left,
        )

some-eq : {A : Type 0} {a b : A} → some a ≡ some b → a ≡ b
some-eq e = cc

-- A call ends without a fault, in a heap that holds the pool `q`.
abbrev pub Ends : ℤ → Op → Heap → Cells → Cells → Pool → Type 0
Ends qno op h avail used q =
    (h' : Heap) × (exec qno op (info (head avail) (head used)) h
      ≡ some (info (head q.avail) (head q.used), h'))
    × IsPool h' (info (head q.avail) (head q.used)) q

abbrev IsHeld : Heap → Cells → Cells → Type 0
IsHeld h avail used = IsPool h (info (head avail) (head used)) (pool avail used)

take-Ends :
    (qno : ℤ) (h : Heap) (avail used : Cells) (q : Pool)
    → qno_ok qno ≡ true
    → IsHeld h avail used
    → take_spec avail used ≡ some q
    → Ends qno take h avail used q
unfolding take_spec exec
take-Ends qno h [] used q n ok e = absurd (cc)
take-Ends qno h ((x, v) ∷ xs) used q n ok e =
    let (h', called, kept) = take_refines ok qno n in
    subst (λ r. Ends qno take h ((x, v) ∷ xs) used r) (some-eq e) (h', rw called, kept)

put-Ends :
    (qno : ℤ) (x : Ptr) (h : Heap) (avail used : Cells) (q : Pool) (o : Option (VideoFrame × Cells))
    → qno_ok qno ≡ true
    → IsHeld h avail used
    → remove x used ≡ o
    → put_spec x avail o ≡ some q
    → Ends qno (put x) h avail used q
unfolding put_spec exec
put-Ends qno x h avail used q none n ok r e = absurd (cc)
put-Ends qno x h avail used q (some (v, rest)) n ok r e =
    let (ys, zs, whole, left) = remove-split x used v rest r in
    let ok' : IsHeld h avail (ys ++ ((x, v) ∷ zs)) = subst (λ u. IsHeld h avail u) whole ok in
    let called = put_refines x v ys zs ok' qno n in
    subst (λ u. Ends qno (put x) h avail u q) (sym whole)
      (subst (λ t. Ends qno (put x) h avail (ys ++ ((x, v) ∷ zs)) t)
        (ap (λ l. pool ((x, v) ∷ avail) l) (sym left) ∙ some-eq e) called)

-- One call on the heap does what the specification says, and keeps the lists in order.
pub exec_refines :
    (qno : ℤ) (op : Op) (h : Heap) (p q : Pool)
    → qno_ok qno ≡ true
    → IsPool h (info (head p.avail) (head p.used)) p
    → step op p ≡ some q
    → Ends qno op h p.avail p.used q
unfolding step
exec_refines qno take h p q n ok e = take-Ends qno h p.avail p.used q n ok e
exec_refines qno (put x) h p q n ok e =
    put-Ends qno x h p.avail p.used q (remove x p.used) n ok refl e

-- A sequence of calls ends without a fault, in a heap that holds the pool `q`.
abbrev pub RunsTo : ℤ → List Op → Heap → Pool → Pool → Type 0
RunsTo qno ops h p q =
    (h' : Heap) × (run qno ops (info (head p.avail) (head p.used)) h
      ≡ some (info (head q.avail) (head q.used), h'))
    × IsPool h' (info (head q.avail) (head q.used)) q

-- Any sequence of takes and puts on a well-formed pool that the specification on two plain lists
-- allows (a take only while a slot is free, a put only of a slot in use) runs on the heap
-- without a fault, for a queue number in range, and ends in a well-formed pool that holds the
-- lists of the specification.
pub run_refines :
    (qno : ℤ) (ops : List Op) (h : Heap) (p q : Pool)
    → qno_ok qno ≡ true
    → IsPool h (info (head p.avail) (head p.used)) p
    → run_spec ops p ≡ some q
    → RunsTo qno ops h p q
unfolding run run_spec
run_refines qno [] h p q n ok e = subst (RunsTo qno [] h p) (some-eq e) (h, refl, ok)
run_refines qno (op ∷ ops) h p q n ok e = onward (step op p) refl e (run_refines qno ops)
  where
    onward :
        (o : Option Pool)
        → step op p ≡ o
        → elim o [ none ↦ none | some r ↦ run_spec ops r ] ≡ some q
        → ((h : Heap) (p q : Pool)
            → qno_ok qno ≡ true
            → IsPool h (info (head p.avail) (head p.used)) p
            → run_spec ops p ≡ some q
            → RunsTo qno ops h p q)
        → RunsTo qno (op ∷ ops) h p q
    onward none s e ih = absurd (cc)
    onward (some r) s e ih =
        let (g, called, kept) = exec_refines qno op h p r n ok s in
        let (h', rest, final) = ih g r q n kept e in (h', rw (called, rest), final)

-- All slots of a pool.
abbrev pub slots : Pool → Cells
slots p = p.avail ++ p.used

put_perm :
    (c : Ptr × VideoFrame) (avail ys zs : Cells)
    → Perm ((c ∷ avail) ++ (ys ++ zs)) (avail ++ (ys ++ (c ∷ zs)))
put_perm c avail ys zs =
    Perm.symm
      (Perm.trans (Perm.append_left avail (perm_middle ys zs)) (perm_middle avail (ys ++ zs)))

step-perm : (op : Op) (p q : Pool) → step op p ≡ some q → Perm (slots q) (slots p)
unfolding step take_spec put_spec
step-perm take p q e = taken p.avail p.used e
  where
    taken : (avail used : Cells) → take_spec avail used ≡ some q → Perm (slots q) (avail ++ used)
    taken [] used e = absurd (cc)
    taken (c ∷ xs) used e =
        subst (λ r. Perm (slots r) ((c ∷ xs) ++ used)) (some-eq e) (perm_middle xs used)
step-perm (put x) p q e = returned (remove x p.used) refl e
  where
    returned :
        (o : Option (VideoFrame × Cells))
        → remove x p.used ≡ o
        → put_spec x p.avail o ≡ some q
        → Perm (slots q) (slots p)
    returned none r e = absurd (cc)
    returned (some (v, rest)) r e =
        let (ys, zs, whole, left) = remove-split x p.used v rest r in
        subst (λ u. Perm (slots q) (p.avail ++ u)) (sym whole)
          (subst (λ t. Perm (slots t) (p.avail ++ (ys ++ ((x, v) ∷ zs))))
            (ap (λ l. pool ((x, v) ∷ p.avail) l) (sym left) ∙ some-eq e)
            (put_perm (x, v) p.avail ys zs))

-- No sequence of calls makes, loses or doubles a slot: the slots at the end are those at the start,
-- in some order.
pub run-perm : (ops : List Op) (p q : Pool) → run_spec ops p ≡ some q → Perm (slots q) (slots p)
unfolding run_spec
run-perm [] p q e = subst (λ r. Perm (slots r) (slots p)) (some-eq e) (Perm.refl (slots p))
run-perm (op ∷ ops) p q e = onward (step op p) refl e (run-perm ops)
  where
    onward :
        (o : Option Pool)
        → step op p ≡ o
        → elim o [ none ↦ none | some r ↦ run_spec ops r ] ≡ some q
        → ((p q : Pool) → run_spec ops p ≡ some q → Perm (slots q) (slots p))
        → Perm (slots q) (slots p)
    onward none s e ih = absurd (cc)
    onward (some r) s e ih = Perm.trans (ih r q e) (step-perm op p r s)
