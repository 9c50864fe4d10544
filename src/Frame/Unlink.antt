-- ===== src/Frame/Unlink.antt =====
-- What `remove_from_list` does to doubly linked lists.
use avserver.Base.{
  ◌≡◌, refl, ◌≢◌, ◌∙◌, ap, true, false, none, some, [], ◌∷◌, ◌++◌, arith, ◌==◌, if◌then◌else◌,
}
use avserver.Frame.{remove_from_list}
use avserver.Frame.Heap.{Ptr, null, VideoFrame, Slot, slot, Heap, write, pure, set_next, set_prev}
use mathlib.Core.Path.{subst, sym}
use avserver.Frame.Link.{load-ok, set_next-ok, set_prev-ok, write_self}
use avserver.Frame.Dll.{
  Cells, has, head, Dll, has-append, frame-write, set_head_prev, set_head_prev-Dll,
  set_head_prev-other,
}

-- The address of the slot before the cells that follow `xs`.
abbrev pub last : Ptr → Cells → Ptr
last prev [] = prev
last prev ((x, _) ∷ xs) = last x xs

pub last-mem :
    (prev x : Ptr) (v : VideoFrame) (xs : Cells)
    → has (last prev ((x, v) ∷ xs)) ((x, v) ∷ xs) ≡ true
last-mem prev x v [] = ground arith
last-mem prev x v ((y, w) ∷ xs) = ground (arith, last-mem x y w xs)

ne_of_mem : (a b : Ptr) (xs : Cells) → has a xs ≡ false → has b xs ≡ true → a ≢ b
ne_of_mem a b xs out mem e = cc (ap (λ c. has c xs) e)

-- The slot that stands between `ys` and `zs`.
pub middle :
    (h : Heap) (prev x : Ptr) (v : VideoFrame) (ys zs : Cells)
    → Dll h prev (ys ++ ((x, v) ∷ zs))
    → (x ≢ null) × (h x ≡ some (slot (head zs) (last prev ys) v)) × (has x zs ≡ false) × Dll h x zs
middle h prev x v [] zs d = d
middle h prev x v ((y, w) ∷ ys) zs d = middle h y x v ys zs d.3

-- It stands nowhere before.
pub not-before :
    (h : Heap) (prev x : Ptr) (v : VideoFrame) (ys zs : Cells)
    → Dll h prev (ys ++ ((x, v) ∷ zs))
    → has x ys ≡ false
not-before h prev x v [] zs d = refl
not-before h prev x v ((y, w) ∷ ys) zs d =
    ground (arith, not-before h y x v ys zs d.3, has-append y ys ((x, v) ∷ zs))

-- The `next` of the slot at `p` is written.
unfoldable pub set_next_at : Heap → Ptr → Ptr → Heap
set_next_at g p n = elim (g p) [ none ↦ g | some s ↦ write g p (some (record s { next = n })) ]

set_next_at-ok :
    (g : Heap) (p n : Ptr) (s : Slot)
    → g p ≡ some s
    → set_next_at g p n ≡ write g p (some (record s { next = n }))
unfolding set_next_at
set_next_at-ok g p n s e = rw (e, set_next_at)

set_next_at-other : (g : Heap) (p a n : Ptr) → a ≢ p → set_next_at g p n a ≡ g a
unfolding set_next_at write
set_next_at-other g p a n ne = ground arith

-- The heap that `remove_from_list` leaves, for a slot between `ys` and `zs`.
unfoldable pub unlink_heap : Heap → Ptr → Cells → Cells → Heap
unlink_heap h prev [] zs = set_head_prev h prev zs
unlink_heap h prev (y ∷ ys) zs =
    set_next_at (set_head_prev h (last prev (y ∷ ys)) zs) (last prev (y ∷ ys)) (head zs)

pub unlink_heap-Dll :
    (h : Heap) (prev x : Ptr) (v : VideoFrame) (ys zs : Cells)
    → Dll h prev (ys ++ ((x, v) ∷ zs))
    → Dll (unlink_heap h prev ys zs) prev (ys ++ zs)
unfolding unlink_heap
unlink_heap-Dll h prev x v [] zs d = set_head_prev-Dll h x prev zs d.3
unlink_heap-Dll h prev x v ((y, w) ∷ []) zs d =
    let g : Heap = set_head_prev h y zs in
    let s : Slot = slot (head zs) prev w in
    let out : has y zs ≡ false = ground arith in
    let gy : g y ≡ some (slot x prev w) = set_head_prev-other h y y zs out ∙ d.1 in
    let e : write g y (some s) ≡ unlink_heap h prev ((y, w) ∷ []) zs =
      sym (set_next_at-ok g y (head zs) (slot x prev w) gy) in
    subst (λ k. Dll k prev ((y, w) ∷ zs)) e
      (
        d.0,
        write_self g y s,
        out,
        frame-write g y zs y (some s) (set_head_prev-Dll h x y zs d.3.3) out,
      )
unlink_heap-Dll h prev x v ((y, w) ∷ (y', w') ∷ ys) zs d =
    let l : Ptr = last y' ys in
    let g : Heap = set_head_prev h l zs in
    let apart : has y ((y', w') ∷ ys) ≡ false =
      ground (arith, has-append y ((y', w') ∷ ys) ((x, v) ∷ zs)) in
    let out : has y zs ≡ false = ground (arith, has-append y ((y', w') ∷ ys) ((x, v) ∷ zs)) in
    let ne : y ≢ l = λ e. ne_of_mem y l ((y', w') ∷ ys) apart (last-mem y y' w' ys) e in
    (
      d.0,
      set_next_at-other g l y (head zs) ne ∙ set_head_prev-other h l y zs out ∙ d.1,
      has-append y ((y', w') ∷ ys) zs ∙ ground arith,
      unlink_heap-Dll h y x v ((y', w') ∷ ys) zs d.3,
    )

pub unlink_heap-other :
    (h : Heap) (prev a : Ptr) (ys zs : Cells)
    → has a ys ≡ false
    → has a zs ≡ false
    → unlink_heap h prev ys zs a ≡ h a
unfolding unlink_heap
unlink_heap-other h prev a [] zs oy oz = set_head_prev-other h prev a zs oz
unlink_heap-other h prev a ((y, w) ∷ ys) zs oy oz =
    let l : Ptr = last y ys in
    let ne : a ≢ l = λ e. ne_of_mem a l ((y, w) ∷ ys) oy (last-mem prev y w ys) e in
    set_next_at-other (set_head_prev h l zs) l a (head zs) ne ∙ set_head_prev-other h l a zs oz

-- The slot before the cells that follow `ys`.
last-slot :
    (h : Heap) (prev x y : Ptr) (v w : VideoFrame) (ys zs : Cells)
    → Dll h prev (((y, w) ∷ ys) ++ ((x, v) ∷ zs))
    → (s : Slot) × (h (last y ys) ≡ some s) × (last y ys ≢ null) × (has (last y ys) zs ≡ false)
last-slot h prev x y v w [] zs d = (slot x prev w, d.1, d.0, ground arith)
last-slot h prev x y v w ((y', w') ∷ ys) zs d = last-slot h y x y' v w' ys zs d.3

-- The step of the removals that mends the slot behind.
fix_behind :
    (h : Heap) (x p : Ptr) (zs : Cells)
    → Dll h x zs
    → (if head zs == null then pure tt else set_prev (head zs) p) h
      ≡ some (tt, set_head_prev h p zs)
unfolding set_head_prev
fix_behind h x p [] d = refl
fix_behind h x p ((z, u) ∷ zs) d =
    let nz : (z == null) ≡ false = ground arith in
    rw (nz, set_prev-ok z p h (slot (head zs) x u) d.0 d.1)

-- The step of `remove_from_list` that mends the slot before.
fix_before :
    (h : Heap) (x y : Ptr) (v w : VideoFrame) (ys zs : Cells)
    → Dll h null (((y, w) ∷ ys) ++ ((x, v) ∷ zs))
    → set_next (last y ys) (head zs) (set_head_prev h (last y ys) zs)
      ≡ some (tt, unlink_heap h null ((y, w) ∷ ys) zs)
unfolding unlink_heap
fix_before h x y v w ys zs d =
    let l : Ptr = last y ys in
    let g : Heap = set_head_prev h l zs in
    let (s, e, ne, out) = last-slot h null x y v w ys zs d in
    let e' : g l ≡ some s = set_head_prev-other h l l zs out ∙ e in
    set_next-ok l (head zs) g s ne e'
    ∙ ap (λ k. some (tt, k)) (sym (set_next_at-ok g l (head zs) s e'))

-- Taking a slot out of a well-formed list, wherever it stands in it, does not fault, and returns
-- the head of the list without it and the heap in which its neighbours are linked.
pub remove_from_list_lem :
    (h : Heap) (x : Ptr) (v : VideoFrame) (ys zs : Cells)
    → Dll h null (ys ++ ((x, v) ∷ zs))
    → remove_from_list x (head (ys ++ ((x, v) ∷ zs))) h
      ≡ some (head (ys ++ zs), unlink_heap h null ys zs)
unfolding remove_from_list unlink_heap
remove_from_list_lem h x v [] zs d =
    rw (load-ok x h (slot (head zs) null v) d.0 d.1, fix_behind h x null zs d.3)
remove_from_list_lem h x v ((y, w) ∷ ys) zs d =
    let l : Ptr = last y ys in
    let (nx, e, _, rest) = middle h null x v ((y, w) ∷ ys) zs d in
    let (s, el, nl, out) = last-slot h null x y v w ys zs d in
    let nz : (l == null) ≡ false = ground arith in
    rw (
      load-ok x h (slot (head zs) l v) nx e,
      fix_behind h x l zs rest,
      nz,
      fix_before h x y v w ys zs d,
    )
