-- ===== src/Frame/Walk.antt =====
-- The walks over a list of slots: counting, searching by key, and freeing.
use avserver.Base.{
  ℕ, zero, suc, ◌+◌, ◌<◌, ◌≤◌, ℤ, pos, minus_one, ◌≡◌, refl, ◌≢◌, ap, true, false, none, some, [],
  ◌∷◌, arith, ◌==◌, leb, eqb_ℤ, if◌then◌else◌, length, Bool-cases, inl, inr,
}
use avserver.Frame.{
  get_num_of_list, search_from_list, free_loop, free_video_frame, video_frame_number,
}
use avserver.Frame.Heap.{Ptr, null, Slot, slot, Heap, write, free}
use avserver.Frame.Dll.{Cells, has, head, Dll, frame-write}
use avserver.Frame.Link.{load-ok}
use avserver.Frame.Pool.{IsPool, pool, info}

-- Counting a list gives its length and changes nothing.
pub get_num_of_list_lem :
    (fuel : ℕ) (h : Heap) (prev : Ptr) (xs : Cells)
    → Dll h prev xs
    → length xs < fuel
    → get_num_of_list fuel (head xs) h ≡ some (length xs, h)
unfolding get_num_of_list
get_num_of_list_lem zero h prev xs d lt = elim lt [ ]
get_num_of_list_lem (suc k) h prev [] d lt = refl
get_num_of_list_lem (suc k) h prev ((x, v) ∷ xs) d lt =
    let nz : (x == null) ≡ false = ground arith in
    rw
      (
        nz,
        load-ok x h (slot (head xs) prev v) d.0 d.1,
        get_num_of_list_lem k h x xs d.3 (omega arith),
      )
      (ap (λ n. some (n, h)) (omega arith))

-- The first slot whose frame has the key, null if there is none.
unfoldable pub find : ℤ → Cells → Ptr
find key [] = null
find key ((x, v) ∷ xs) = if eqb_ℤ v.search_key key then x else find key xs

-- On a well-formed list, with more fuel than its slots, the search for a key does not fault,
-- changes nothing, and returns the first slot whose frame has the key, null if there is none.
pub search_from_list_lem :
    (fuel : ℕ) (key : ℤ) (h : Heap) (prev : Ptr) (xs : Cells)
    → Dll h prev xs
    → length xs < fuel
    → search_from_list fuel key (head xs) h ≡ some (find key xs, h)
unfolding search_from_list find
search_from_list_lem zero key h prev xs d lt = elim lt [ ]
search_from_list_lem (suc k) key h prev [] d lt = refl
search_from_list_lem (suc k) key h prev ((x, v) ∷ xs) d lt =
    let nz : (x == null) ≡ false = ground arith in
    let ih = search_from_list_lem k key h x xs d.3 (omega arith) in
    let first = load-ok x h (slot (head xs) prev v) d.0 d.1 in
    elim (Bool-cases (eqb_ℤ v.search_key key)) [
      | inl e ↦ rw (nz, first, e)
      | inr e ↦ rw (nz, first, e) ih
    ]

free-ok :
    (p : Ptr) (h : Heap) (s : Slot) → p ≢ null → h p ≡ some s → free p h ≡ some (tt, write h p none)
unfolding free
free-ok p h s ne e = rw (load-ok p h s ne e)

-- The heap with the slots of a list given back.
unfoldable pub freed : Heap → Cells → Heap
freed h [] = h
freed h ((x, v) ∷ xs) = freed (write h x none) xs

free_loop_lem :
    (fuel i : ℕ) (h : Heap) (prev : Ptr) (xs : Cells)
    → Dll h prev xs
    → length xs < fuel
    → i + length xs ≤ video_frame_number
    → free_loop fuel (head xs) i h ≡ some ((i + length xs, true), freed h xs)
unfolding free_loop freed
free_loop_lem zero i h prev xs d lt le = elim lt [ ]
free_loop_lem (suc k) i h prev [] d lt le = ap (λ n. some ((n, true), h)) (omega arith)
free_loop_lem (suc k) i h prev ((x, v) ∷ xs) d lt le =
    let nz : (x == null) ≡ false = ground arith in
    let s : Slot = slot (head xs) prev v in
    let few : leb video_frame_number i ≡ false = ground arith in
    rw
      (
        nz,
        load-ok x h s d.0 d.1,
        free-ok x h s d.0 d.1,
        few,
        free_loop_lem k (i + 1) (write h x none) x xs (frame-write h x xs x none d.3 d.2)
            (omega arith) (omega arith),
      )
      (ap (λ n. some ((n, true), freed (write h x none) xs)) (omega arith))

-- Freed slots are gone, and nothing else is touched.
pub freed-none : (h : Heap) (a : Ptr) (xs : Cells) → freed h xs a ≡ (if has a xs then none else h a)
unfolding freed write
freed-none h a [] = refl
freed-none h a ((x, v) ∷ xs) = ground (arith, freed-none (write h x none) a xs)

-- On a well-formed pool of at most six free slots, with more fuel than these, free_video_frame
-- frees exactly the slots of the free list, keeps every other address of the heap, forgets both
-- lists, and returns 0 if the free slots were six and -1 otherwise. So slots in use stay
-- allocated.
pub free_video_frame_lem :
    (fuel : ℕ) (h : Heap) (avail used : Cells)
    → IsPool h (info (head avail) (head used)) (pool avail used)
    → length avail < fuel
    → length avail ≤ video_frame_number
    → (h' : Heap) × (free_video_frame fuel (info (head avail) (head used)) h
        ≡ some
            ((if length avail == video_frame_number then pos 0 else minus_one, info null null), h'))
      × ((a : Ptr) → h' a ≡ (if has a avail then none else h a))
unfolding free_video_frame
free_video_frame_lem fuel h avail used ok lt le = (
  freed h avail,
  rw (free_loop_lem fuel 0 h null avail ok.avail_list lt (omega arith)) (ground arith),
  λ a. freed-none h a avail,
)
