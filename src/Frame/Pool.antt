-- ===== src/Frame/Pool.antt =====
-- A pool of slots as its two lists of cells, and how the functions of the pool act on them.
use avserver.Base.{
  ℤ, ◌≡◌, refl, ◌≢◌, ◌∙◌, inl, inr, Bool-cases, true, false, none, some, ◌∷◌, ◌++◌, arith, ◌==◌,
}
use avserver.Frame.{FrameInfo, qno_ok, take_video_frame, put_video_frame}
use avserver.Frame.Heap.{Ptr, null, VideoFrame, slot, Heap}
use avserver.Frame.Dll.{
  Cells, has, head, Dll, has-append, frame, set_head_prev, set_head_prev-Dll, set_head_prev-other,
}
use avserver.Frame.Link.{
  add_heap, add_to_list_lem, add_heap-Dll, add_heap-other, remove_from_listhead_lem,
  remove_from_listhead-null,
}
use avserver.Frame.Unlink.{
  middle, unlink_heap, unlink_heap-Dll, unlink_heap-other, remove_from_list_lem, last, not-before,
}

pub record Pool : Type 0 where
  pub avail : Cells
  pub used : Cells

-- On the heap `h` the two lists of `info` hold the cells of the pool, and share no slot.
pub record IsPool (h : Heap) (info : FrameInfo) (p : Pool) : Type 0 where
  pub avail_list : Dll h null p.avail
  pub used_list : Dll h null p.used
  pub avail_head : info.avail ≡ head p.avail
  pub used_head : info.used ≡ head p.used
  pub apart : (a : Ptr) → has a p.avail ≡ true → has a p.used ≡ false

abbrev pub pool : Cells → Cells → Pool
pool avail used = record { avail = avail; used = used }

abbrev pub info : Ptr → Ptr → FrameInfo
info avail used = record { avail = avail; used = used }

module _ {h : Heap} {x : Ptr} {v : VideoFrame} {xs used : Cells}
    (ok : IsPool h (info x (head used)) (pool ((x, v) ∷ xs) used)) where
  -- The heap after the slot has left the free list.
  removed : Heap
  removed = set_head_prev h null xs

  taken : Heap
  unfolding removed
  taken = add_heap removed x v used

  x_out : has x used ≡ false
  x_out = ok.apart x (ground arith)

  used_spared : Dll removed null used
  unfolding removed
  used_spared =
      frame h removed null used ok.used_list
        (λ a m. set_head_prev-other h null a xs (ground (arith, ok.apart a)))

  x_cell : removed x ≡ some (slot (head xs) null v)
  unfolding removed
  x_cell = set_head_prev-other h null x xs ok.avail_list.2 ∙ ok.avail_list.1

  taken-IsPool : IsPool taken (info (head xs) x) (pool xs ((x, v) ∷ used))
  unfolding taken removed
  taken-IsPool = record {
    avail_list =
        frame removed taken null xs (set_head_prev-Dll h x null xs ok.avail_list.3)
          (λ a m. add_heap-other removed x a v used (ground (arith, ok.apart a)));
    used_list = add_heap-Dll removed x v used used_spared ok.avail_list.0 x_out;
    avail_head = refl;
    used_head = refl;
    apart = λ a m. ground (arith, ok.apart a);
  }

  take_step :
      (qno : ℤ)
      → qno_ok qno ≡ true
      → take_video_frame qno (info x (head used)) h ≡ some ((x, info (head xs) x), taken)
  unfolding take_video_frame taken removed
  take_step qno q =
      let nz : (x == null) ≡ false = ground arith in
      rw (
        q,
        remove_from_listhead_lem h x v xs ok.avail_list,
        nz,
        add_to_list_lem removed x (head xs) null v used used_spared ok.avail_list.0 x_cell x_out,
      )

  -- A slot is taken from the front of the free list, and goes to the front of the used one.
  pub take_refines :
      (qno : ℤ)
      → qno_ok qno ≡ true
      → (h' : Heap) × (take_video_frame qno (info x (head used)) h
          ≡ some ((x, info (head xs) x), h'))
        × IsPool h' (info (head xs) x) (pool xs ((x, v) ∷ used))
  take_refines qno q = (taken, take_step qno q, taken-IsPool)

module _ {h : Heap} {avail : Cells} (x : Ptr) (v : VideoFrame) (ys zs : Cells)
    (ok : IsPool h
      (info (head avail) (head (ys ++ ((x, v) ∷ zs))))
      (pool avail (ys ++ ((x, v) ∷ zs)))) where
  unlinked : Heap
  unlinked = unlink_heap h null ys zs

  returned : Heap
  unfolding unlinked
  returned = add_heap unlinked x v avail

  spared : (a : Ptr) → has a avail ≡ true → (has a ys ≡ false) × (has a zs ≡ false) × (a ≢ x)
  spared a m = ground (arith, ok.apart a m, has-append a ys ((x, v) ∷ zs))

  x_outside : has x avail ≡ false
  x_outside = elim (Bool-cases (has x avail)) [
    | inl m ↦ absurd ((spared x m).2 refl)
    | inr out ↦ out
  ]

  avail_spared : Dll unlinked null avail
  unfolding unlinked
  avail_spared =
      frame h unlinked null avail ok.avail_list
        (λ a m. unlink_heap-other h null a ys zs (spared a m).0 (spared a m).1)

  cell :
      (x ≢ null) × (h x ≡ some (slot (head zs) (last null ys) v)) × (has x zs ≡ false) × Dll h x zs
  cell = middle h null x v ys zs ok.used_list

  x_before : has x ys ≡ false
  x_before = not-before h null x v ys zs ok.used_list

  cell_unlinked : unlinked x ≡ some (slot (head zs) (last null ys) v)
  unfolding unlinked
  cell_unlinked = unlink_heap-other h null x ys zs x_before cell.2 ∙ cell.1

  used_apart : (a : Ptr) → has a (ys ++ zs) ≡ true → has a ((x, v) ∷ avail) ≡ false
  used_apart a m = elim (Bool-cases (has a avail)) [
    | inl i ↦ ground (arith, has-append a ys zs, spared a i)
    | inr o ↦ ground (arith, has-append x ys zs, x_before, cell)
  ]

  avail_apart : (a : Ptr) → has a ((x, v) ∷ avail) ≡ true → has a (ys ++ zs) ≡ false
  avail_apart a m = elim (Bool-cases (has a (ys ++ zs))) [
    | inl i ↦ absurd (cc (used_apart a i))
    | inr o ↦ o
  ]

  returned-IsPool : IsPool returned (info x (head (ys ++ zs))) (pool ((x, v) ∷ avail) (ys ++ zs))
  unfolding returned unlinked
  returned-IsPool = record {
    avail_list = add_heap-Dll unlinked x v avail avail_spared cell.0 x_outside;
    used_list =
        frame unlinked returned null (ys ++ zs) (unlink_heap-Dll h null x v ys zs ok.used_list)
          (λ a m. add_heap-other unlinked x a v avail (used_apart a m));
    avail_head = refl;
    used_head = refl;
    apart = avail_apart;
  }

  put_step :
      (qno : ℤ)
      → qno_ok qno ≡ true
      → put_video_frame qno x (info (head avail) (head (ys ++ ((x, v) ∷ zs)))) h
        ≡ some (info x (head (ys ++ zs)), returned)
  unfolding put_video_frame returned unlinked
  put_step qno q =
      let nz : (x == null) ≡ false = ground (arith, cell) in
      rw (
        q,
        nz,
        remove_from_list_lem h x v ys zs ok.used_list,
        add_to_list_lem unlinked x (head zs) (last null ys) v avail avail_spared cell.0
            cell_unlinked x_outside,
      )

  -- On a well-formed pool, putting back a slot in use, for a queue number in range, takes it out
  -- of the used list wherever it stands, puts it in front of the free list, and leaves a
  -- well-formed pool.
  pub put_refines :
      (qno : ℤ)
      → qno_ok qno ≡ true
      → (h' : Heap) × (put_video_frame qno x (info (head avail) (head (ys ++ ((x, v) ∷ zs)))) h
          ≡ some (info x (head (ys ++ zs)), h'))
        × IsPool h' (info x (head (ys ++ zs))) (pool ((x, v) ∷ avail) (ys ++ zs))
  put_refines qno q = (returned, put_step qno q, returned-IsPool)

-- With a queue number in range and no free slot, take_video_frame faults: it reads through the
-- null head before its own test of the result.
pub take-faults :
    (h : Heap) (qno : ℤ) (i : FrameInfo)
    → qno_ok qno ≡ true
    → i.avail ≡ null
    → take_video_frame qno i h ≡ none
unfolding take_video_frame
take-faults h qno i q e = rw (q, e, remove_from_listhead-null h)
