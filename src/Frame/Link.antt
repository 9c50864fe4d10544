-- ===== src/Frame/Link.antt =====
-- What the list functions of `frame_slot_t` do to doubly linked lists.
use avserver.Base.{◌≡◌, refl, ◌≢◌, ◌∙◌, false, none, some, [], ◌∷◌, arith, ◌==◌, if◌then◌else◌}
use avserver.Frame.{add_to_list, remove_from_listhead}
use avserver.Frame.Heap.{
  Ptr, null, VideoFrame, Slot, slot, Heap, write, pure, load, set_next, set_prev, ◌>>◌,
}
use mathlib.Core.Path.{fun_ext}
use avserver.Frame.Dll.{
  Cells, has, head, Dll, frame-write, set_head_prev, set_head_prev-Dll, set_head_prev-other,
}

-- A list never holds the null pointer.
pub null-not-mem : (h : Heap) (prev : Ptr) (xs : Cells) → Dll h prev xs → has null xs ≡ false
null-not-mem h prev [] d = refl
null-not-mem h prev ((x, v) ∷ xs) d = ground (arith, null-not-mem h x xs d.3)

pub load-ok : (p : Ptr) (h : Heap) (s : Slot) → p ≢ null → h p ≡ some s → load p h ≡ some (s, h)
unfolding load
load-ok p h s ne e = ground arith

pub set_next-ok :
    (p q : Ptr) (h : Heap) (s : Slot)
    → p ≢ null
    → h p ≡ some s
    → set_next p q h ≡ some (tt, write h p (some (record s { next = q })))
unfolding set_next
set_next-ok p q h s ne e = rw (load-ok p h s ne e)

pub set_prev-ok :
    (p q : Ptr) (h : Heap) (s : Slot)
    → p ≢ null
    → h p ≡ some s
    → set_prev p q h ≡ some (tt, write h p (some (record s { prev = q })))
unfolding set_prev
set_prev-ok p q h s ne e = rw (load-ok p h s ne e)

pub write_self : (h : Heap) (p : Ptr) (s : Slot) → write h p (some s) p ≡ some s
unfolding write
write_self h p s = ground arith

pub write-ne : (h : Heap) (p a : Ptr) (s : Slot) → a ≢ p → write h p (some s) a ≡ h a
unfolding write
write-ne h p a s ne = ground arith

pub write-write :
    (h : Heap) (p : Ptr) (s t : Slot) → write (write h p (some s)) p (some t) ≡ write h p (some t)
unfolding write
write-write h p s t = fun_ext (λ a. ground arith)

-- The heap that `add_to_list` leaves.
unfoldable pub add_heap : Heap → Ptr → VideoFrame → Cells → Heap
add_heap h fs v xs = set_head_prev (write h fs (some (slot (head xs) null v))) fs xs

-- The two writes to the slot itself.
set_links :
    (h : Heap) (fs list n p : Ptr) (v : VideoFrame)
    → fs ≢ null
    → h fs ≡ some (slot n p v)
    → add_to_list fs list h
      ≡ (do (if list == null then pure tt else set_prev list fs); pure fs)
          (write h fs (some (slot list null v)))
unfolding add_to_list
set_links h fs list n p v ne e = rw (
  set_prev-ok fs null h (slot n p v) ne e,
  set_next-ok fs list (write h fs (some (slot n null v))) (slot n null v) ne
      (write_self h fs (slot n null v)),
  write-write h fs (slot n null v) (slot list null v),
  load-ok fs (write h fs (some (slot list null v))) (slot list null v) ne
      (write_self h fs (slot list null v)),
)

-- An allocated slot outside a list goes to its front.
pub add_to_list_lem :
    (h : Heap) (fs n p : Ptr) (v : VideoFrame) (xs : Cells)
    → Dll h null xs
    → fs ≢ null
    → h fs ≡ some (slot n p v)
    → has fs xs ≡ false
    → add_to_list fs (head xs) h ≡ some (fs, add_heap h fs v xs)
unfolding add_heap set_head_prev
add_to_list_lem h fs n p v [] d ne e out = set_links h fs null n p v ne e
add_to_list_lem h fs n p v ((x, w) ∷ xs) d ne e out =
    let g : Heap = write h fs (some (slot x null v)) in
    let ex : g x ≡ some (slot (head xs) null w) =
      write-ne h fs x (slot x null v) (ground arith) ∙ d.1 in
    let nz : (x == null) ≡ false = ground arith in
    rw (set_links h fs x n p v ne e, nz, set_prev-ok x fs g (slot (head xs) null w) d.0 ex)

pub add_heap-Dll :
    (h : Heap) (fs : Ptr) (v : VideoFrame) (xs : Cells)
    → Dll h null xs
    → fs ≢ null
    → has fs xs ≡ false
    → Dll (add_heap h fs v xs) null ((fs, v) ∷ xs)
unfolding add_heap
add_heap-Dll h fs v xs d ne out =
    let s : Slot = slot (head xs) null v in
    let g : Heap = write h fs (some s) in
    (
      ne,
      set_head_prev-other g fs fs xs out ∙ write_self h fs s,
      out,
      set_head_prev-Dll g null fs xs (frame-write h null xs fs (some s) d out),
    )

-- Nothing outside the new list is written.
pub add_heap-other :
    (h : Heap) (fs a : Ptr) (v : VideoFrame) (xs : Cells)
    → has a ((fs, v) ∷ xs) ≡ false
    → add_heap h fs v xs a ≡ h a
unfolding add_heap
add_heap-other h fs a v xs out =
    set_head_prev-other (write h fs (some (slot (head xs) null v))) fs a xs (ground arith)
    ∙ write-ne h fs a (slot (head xs) null v) (ground arith)

-- The first slot of a list is taken off.
pub remove_from_listhead_lem :
    (h : Heap) (x : Ptr) (v : VideoFrame) (xs : Cells)
    → Dll h null ((x, v) ∷ xs)
    → remove_from_listhead x h ≡ some ((x, head xs), set_head_prev h null xs)
unfolding remove_from_listhead set_head_prev
remove_from_listhead_lem h x v [] d = rw (load-ok x h (slot null null v) d.0 d.1)
remove_from_listhead_lem h x v ((y, w) ∷ xs) d =
    let nz : (y == null) ≡ false = ground arith in
    rw (
      load-ok x h (slot y null v) d.0 d.1,
      nz,
      set_prev-ok y null h (slot (head xs) x w) d.3.0 d.3.1,
    )

-- On an empty list it reads through the null pointer.
pub remove_from_listhead-null : (h : Heap) → remove_from_listhead null h ≡ none
unfolding remove_from_listhead load
remove_from_listhead-null h = refl
