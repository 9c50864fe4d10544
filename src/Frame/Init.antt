-- ===== src/Frame/Init.antt =====
-- `init_video_frame` makes a pool of free slots.
use avserver.Base.{
  ◌+◌, ℤ, pos, minus_one, ◌≡◌, refl, ◌≢◌, ◌∙◌, true, false, some, List, [], ◌∷◌, ◌++◌, arith, ◌==◌,
  length,
}
use avserver.Frame.{qno_ok, init_loop, init_video_frame, video_frame_number}
use avserver.Frame.Heap.{Ptr, null, Slot, slot, blank, Heap, write, alloc}
use avserver.Frame.Dll.{Cells, has, head, Dll, frame-write}
use avserver.Frame.Link.{add_heap, add_to_list_lem, add_heap-Dll}
use avserver.Frame.Pool.{IsPool, pool, info}

-- What `malloc` promises: addresses that are not null, and of nothing allocated before.
abbrev pub AreFresh : List Ptr → Cells → Type 0
AreFresh [] xs = Unit {0}
AreFresh (p ∷ ps) xs = (p ≢ null) × (has p xs ≡ false) × AreFresh ps ((p, blank) ∷ xs)

-- Each slot goes to the front.
abbrev pub pushed : List Ptr → Cells → Cells
pushed [] xs = xs
pushed (p ∷ ps) xs = pushed ps ((p, blank) ∷ xs)

pub length-pushed : (ps : List Ptr) (xs : Cells) → length (pushed ps xs) ≡ length ps + length xs
length-pushed [] xs = omega arith
length-pushed (p ∷ ps) xs = omega (arith, length-pushed ps ((p, blank) ∷ xs))

-- The heap after one round of the loop.
abbrev one_round : Heap → Ptr → Cells → Heap
one_round h p xs = add_heap (write h p (some (slot null null blank))) p blank xs

-- The heap after the loop.
abbrev filled : Heap → List Ptr → Cells → Heap
filled h [] xs = h
filled h (p ∷ ps) xs = filled (one_round h p xs) ps ((p, blank) ∷ xs)

write_self : (h : Heap) (p : Ptr) (s : Slot) → write h p (some s) p ≡ some s
unfolding write
write_self h p s = ground arith

init_round :
    (h : Heap) (p : Ptr) (ps : List Ptr) (xs : Cells)
    → Dll h null xs
    → p ≢ null
    → has p xs ≡ false
    → init_loop (p ∷ ps) (head xs) h ≡ init_loop ps p (one_round h p xs)
unfolding init_loop alloc
init_round h p ps xs d ne out =
    let s : Slot = slot null null blank in
    let nz : (p == null) ≡ false = ground arith in
    rw (
      nz,
      add_to_list_lem (write h p (some s)) p null null blank xs
          (frame-write h null xs p (some s) d out) ne (write_self h p s) out,
    )

one_round-Dll :
    (h : Heap) (p : Ptr) (xs : Cells)
    → Dll h null xs
    → p ≢ null
    → has p xs ≡ false
    → Dll (one_round h p xs) null ((p, blank) ∷ xs)
one_round-Dll h p xs d ne out =
    let s : Slot = slot null null blank in
    add_heap-Dll (write h p (some s)) p blank xs (frame-write h null xs p (some s) d out) ne out

init_loop_lem :
    (h : Heap) (ps : List Ptr) (xs : Cells)
    → Dll h null xs
    → AreFresh ps xs
    → (init_loop ps (head xs) h ≡ some ((pos 0, head (pushed ps xs)), filled h ps xs))
      × Dll (filled h ps xs) null (pushed ps xs)
unfolding init_loop
init_loop_lem h [] xs d f = (refl, d)
init_loop_lem h (p ∷ ps) xs d f =
    let ih =
      init_loop_lem (one_round h p xs) ps ((p, blank) ∷ xs) (one_round-Dll h p xs d f.0 f.1) f.2 in
    (init_round h p ps xs d f.0 f.1 ∙ ih.0, ih.1)

-- With a queue number in range and six fresh addresses, init_video_frame returns 0 and leaves a
-- well-formed pool of six free slots and no used ones.
pub init_video_frame_lem :
    (h : Heap) (qno : ℤ) (ps : List Ptr)
    → qno_ok qno ≡ true
    → AreFresh ps []
    → length ps ≡ video_frame_number
    → (h' : Heap) × (avail : Cells) × (init_video_frame qno ps h
        ≡ some ((pos 0, some (info (head avail) null)), h'))
      × IsPool h' (info (head avail) null) (pool avail [])
      × (length avail ≡ video_frame_number)
unfolding init_video_frame
init_video_frame_lem h qno ps q f six =
    let made = init_loop_lem h ps [] tt f in
    (
      filled h ps [],
      pushed ps [],
      rw (q, made.0),
      record {
        avail_list = made.1;
        used_list = tt;
        avail_head = refl;
        used_head = refl;
        apart = λ a m. refl;
      },
      omega (arith, length-pushed ps []),
    )

-- With a queue number in range, if an allocation fails after some that gave fresh addresses,
-- init_video_frame returns -1, and the slots made before the failure stand on the free list.
pub init_out_of_memory :
    (h : Heap) (qno : ℤ) (ps rest : List Ptr)
    → qno_ok qno ≡ true
    → AreFresh ps []
    → (h' : Heap) × (init_video_frame qno (ps ++ (null ∷ rest)) h
        ≡ some ((minus_one, some (info (head (pushed ps [])) null)), h'))
unfolding init_video_frame
init_out_of_memory h qno ps rest q f = (filled h ps [], rw (q, stops h ps [] tt f))
  where
    stops :
        (h : Heap) (ps : List Ptr) (xs : Cells)
        → Dll h null xs
        → AreFresh ps xs
        → init_loop (ps ++ (null ∷ rest)) (head xs) h
          ≡ some ((minus_one, head (pushed ps xs)), filled h ps xs)
    stops h [] xs d f = refl
    stops h (p ∷ ps) xs d f =
        init_round h p (ps ++ (null ∷ rest)) xs d f.0 f.1
        ∙ stops (one_round h p xs) ps ((p, blank) ∷ xs) (one_round-Dll h p xs d f.0 f.1) f.2
