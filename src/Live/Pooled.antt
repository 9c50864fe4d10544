-- ===== src/Live/Pooled.antt =====
-- The frame pool under the calls of live streaming, src/rtspd.c 2702-2848 and 3280-3291.
use mathlib.Core.Path.{subst}
use avserver.Base.{
  ◌+◌, ◌≤◌, ◌≡◌, ◌≢◌, refl, ap, arith, ℤ, eqb_ℤ, true, false, Bool-cases, inl, inr, some, [], ◌∷◌,
  ◌++◌, length,
}
use avserver.Frame.{qno_ok, search_video_frame, video_frame_number}
use avserver.Frame.Heap.{Ptr, null, VideoFrame, slot, Heap, write}
use avserver.Frame.Dll.{Cells, has, head, Dll, frame-write}
use avserver.Frame.Unlink.{middle, last}
use avserver.Frame.Link.{load-ok, write_self}
use avserver.Frame.Pool.{IsPool, pool, info, take_refines}
use avserver.Frame.Walk.{find, search_from_list_lem}
use avserver.Live.{set_frame, take_slot, find_slot}

-- The first slot in use is not free.
first_out :
    (h : Heap) (x : Ptr) (v : VideoFrame) (avail used : Cells)
    → IsPool h (info (head avail) x) (pool avail ((x, v) ∷ used))
    → has x avail ≡ false
first_out h x v avail used ok = elim (Bool-cases (has x avail)) [
  | inl m ↦ absurd (ground (arith, ok.apart x m))
  | inr o ↦ o
]

-- Filling the first slot in use.
filled-IsPool :
    (h : Heap) (x : Ptr) (v w : VideoFrame) (avail used : Cells)
    → IsPool h (info (head avail) x) (pool avail ((x, v) ∷ used))
    → (set_frame x w h ≡ some (tt, write h x (some (slot (head used) null w))))
      × IsPool
          (write h x (some (slot (head used) null w)))
          (info (head avail) x)
          (pool avail ((x, w) ∷ used))
unfolding set_frame write
filled-IsPool h x v w avail used ok = (
  rw (load-ok x h (slot (head used) null v) ok.used_list.0 ok.used_list.1) refl,
  record {
    avail_list =
        frame-write h null avail x (some (slot (head used) null w)) ok.avail_list
          (first_out h x v avail used ok);
    used_list = (
      ok.used_list.0,
      write_self h x (slot (head used) null w),
      ok.used_list.2,
      frame-write h x used x (some (slot (head used) null w)) ok.used_list.3 ok.used_list.2,
    );
    avail_head = refl;
    used_head = refl;
    apart = λ a m. ok.apart a m;
  },
)

pub take_slot_lem :
    (h : Heap) (qno : ℤ) (x : Ptr) (v w : VideoFrame) (avail used : Cells)
    → qno_ok qno ≡ true
    → IsPool h (info x (head used)) (pool ((x, v) ∷ avail) used)
    → (h' : Heap) × (take_slot qno w (info x (head used)) h ≡ some ((x, info (head avail) x), h'))
      × IsPool h' (info (head avail) x) (pool avail ((x, w) ∷ used))
unfolding take_slot
take_slot_lem h qno x v w avail used q ok =
    let (g, e, k) = take_refines ok qno q in
    let (d, r) = filled-IsPool g x v w avail used k in
    (write g x (some (slot (head used) null w)), rw (e, d) refl, r)

-- Where the slot with a key stands.
find-split :
    (key : ℤ) (xs : Cells)
    → find key xs ≢ null
    → (ys : Cells) × (v : VideoFrame) × (zs : Cells) × (xs ≡ ys ++ ((find key xs, v) ∷ zs))
      × (eqb_ℤ v.search_key key ≡ true)
unfolding find
find-split key [] n = absurd (n refl)
find-split key ((x, v) ∷ xs) n = elim (Bool-cases (eqb_ℤ v.search_key key)) [
  | inl t ↦ ([], v, xs, rw t refl, t)
  | inr t ↦
      let (ys, w, zs, e, d) = find-split key xs (λ z. n (rw t z)) in
      ((x, v) ∷ ys, w, zs, rw t (ap (λ l. (x, v) ∷ l) e), d)
]

pub find_slot_lem :
    (h : Heap) (key : ℤ) (avail used : Cells)
    → IsPool h (info (head avail) (head used)) (pool avail used)
    → length used ≤ video_frame_number
    → find key used ≢ null
    → (ys : Cells) × (v : VideoFrame) × (zs : Cells) × (used ≡ ys ++ ((find key used, v) ∷ zs))
      × (eqb_ℤ v.search_key key ≡ true)
      × (find_slot key (info (head avail) (head used)) h ≡ some ((find key used, v), h))
unfolding find_slot search_video_frame
find_slot_lem h key avail used ok l n =
    let (ys, v, zs, e, d) = find-split key used n in
    let x : Ptr = find key used in
    let m = middle h null x v ys zs (subst (Dll h null) e ok.used_list) in
    (
      ys,
      v,
      zs,
      e,
      d,
      rw
          (
            search_from_list_lem (video_frame_number + 1) key h null used ok.used_list
                (omega (arith, l)),
            load-ok x h (slot (head zs) (last null ys) v) m.0 m.1,
          )
          refl,
    )
