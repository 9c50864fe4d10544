-- ===== src/Live/Callback.antt =====
-- The callback by which the server gives a buffer back: `frm_cb`, src/rtspd.c 3280-3291.
use mathlib.Core.Path.{subst}
use avserver.Base.{
  ℕ, ◌+◌, ◌≤◌, ◌==◌, ◌≡◌, ◌≢◌, refl, ap, ◌∙◌, arith, ℤ, pos, minus_one, eqb_ℤ, true, not, Option,
  none, some, [], ◌∷◌, ◌++◌, length, if_false,
}
use avserver.Frame.{FrameInfo, qno_ok, put_video_frame, search_video_frame, video_frame_number}
use avserver.Frame.Heap.{Ptr, null, VideoFrame, Heap, load}
use avserver.Frame.Dll.{Cells, head}
use avserver.Frame.Pool.{Pool, IsPool, pool, info, put_refines}
use avserver.Frame.Walk.{find, search_from_list_lem}
use avserver.Stream.Control.{in_range}
use avserver.Live.{Live, LiveConsts, LiveIo, set_pool, free_bs_data, find_slot, release, frm_cb}
use avserver.Live.Pooled.{find_slot_lem}
use avserver.Live.Buffers.{
  puts, one, Holds, Holds-same, set_pool-Holds, set_pool-puts, free_bs_data-puts, free_bs_data-pool,
}

-- The slots hold numbers of a channel and a bitstream.
abbrev pub AreInRange : ℕ → Cells → Type 0
AreInRange n [] = Unit {0}
AreInRange n ((x, v) ∷ xs) = (in_range n (pos v.ch_num) (pos v.sub_num) ≡ true) × AreInRange n xs

in_range-at :
    (n : ℕ) (x : Ptr) (v : VideoFrame) (ys zs : Cells)
    → AreInRange n (ys ++ ((x, v) ∷ zs))
    → in_range n (pos v.ch_num) (pos v.sub_num) ≡ true
in_range-at n x v [] zs r = r.0
in_range-at n x v ((y, w) ∷ ys) zs r = in_range-at n x v ys zs r.1

find_slot-none :
    (h : Heap) (key : ℤ) (avail used : Cells)
    → IsPool h (info (head avail) (head used)) (pool avail used)
    → length used ≤ video_frame_number
    → find key used ≡ null
    → find_slot key (info (head avail) (head used)) h ≡ none
unfolding find_slot search_video_frame load
find_slot-none h key avail used ok l z =
    rw
      (
        search_from_list_lem (video_frame_number + 1) key h null used ok.used_list
            (omega (arith, l)),
        z,
      )
      refl

release-returns :
    (k : LiveConsts) (io : LiveIo) (qno : ℤ) (x : Ptr) (v : VideoFrame) (s : Live) (i : FrameInfo)
    (g : Heap)
    → in_range k.bt_num (pos v.ch_num) (pos v.sub_num) ≡ true
    → (let t = (free_bs_data k io v.ch_num v.sub_num v.queue s).1 in
        put_video_frame qno x (t.world.frame_info qno) t.world.heap ≡ some (i, g))
    → release k io qno x v s
      ≡ some (pos 0, set_pool qno i g (free_bs_data k io v.ch_num v.sub_num v.queue s).1)
unfolding release
release-returns k io qno x v s i g r e =
    let t : Live = (free_bs_data k io v.ch_num v.sub_num v.queue s).1 in
    let rest = λ (o : Option (FrameInfo × Heap)). elim o as (λ _. Option (ℤ × Live)) [
      | none ↦ none
      | some (j, f) ↦ some (pos 0, set_pool qno j f t)
    ] in
    if_false (not (in_range k.bt_num (pos v.ch_num) (pos v.sub_num))) (some (minus_one, s))
      (rest (put_video_frame qno x (t.world.frame_info qno) t.world.heap)) (ap not r)
    ∙ ap rest e

module _ (k : LiveConsts) (io : LiveIo) (qno : ℤ) (key : ℤ) (s : Live) (avail used : Cells) where
  -- On a well-formed pool with at most six slots in use, none of which has the key, the callback
  -- of a video faults: it reads the slot that it has not found.
  pub frm_cb-faults :
      Holds s qno (pool avail used)
      → length used ≤ video_frame_number
      → find key used ≡ null
      → frm_cb k io true qno key s ≡ none
  unfolding frm_cb
  frm_cb-faults h l z =
      ap (λ o. elim o [ none ↦ none | some ((fs, v), _) ↦ release k io qno fs v s ])
        (ap (λ i. find_slot key i s.world.heap) h.0
          ∙ find_slot-none s.world.heap key avail used h.1 l z)

  -- On a well-formed pool with at most six slots in use, whose slots hold numbers in range, for
  -- a queue number in range and a key that some slot in use has, the callback of a video returns
  -- 0: the first such slot goes from the used list to the front of the free one, the pool stays
  -- well-formed, and the buffer of that slot is given back once.
  pub frm_cb-returns :
      qno_ok qno ≡ true
      → Holds s qno (pool avail used)
      → length used ≤ video_frame_number
      → AreInRange k.bt_num used
      → find key used ≢ null
      → (ys : Cells) × (v : VideoFrame) × (zs : Cells) × (t : Live) × (used
          ≡ ys ++ ((find key used, v) ∷ zs))
        × (eqb_ℤ v.search_key key ≡ true)
        × (frm_cb k io true qno key s ≡ some (pos 0, t))
        × Holds t qno (pool ((find key used, v) ∷ avail) (ys ++ zs))
        × ((b : ℕ) → puts b t.world.calls ≡ puts b s.world.calls + one (b == v.queue))
  unfolding frm_cb
  frm_cb-returns q h l r n =
      let (ys, v, zs, e, d, f) = find_slot_lem s.world.heap key avail used h.1 l n in
      let x : Ptr = find key used in
      let range = in_range-at k.bt_num x v ys zs (subst (AreInRange k.bt_num) e r) in
      let s' : Live = (free_bs_data k io v.ch_num v.sub_num v.queue s).1 in
      let (i, j) = free_bs_data-pool v.ch_num v.sub_num k io v.queue s in
      let P : Pool = pool avail (ys ++ ((x, v) ∷ zs)) in
      let h' : Holds s' qno P =
        Holds-same s s' qno P i j (subst (λ u. Holds s qno (pool avail u)) e h) in
      let (g, c, ok) = put_refines x v ys zs h'.1 qno q in
      let I : FrameInfo = info x (head (ys ++ zs)) in
      (
        ys,
        v,
        zs,
        set_pool qno I g s',
        e,
        d,
        ap (λ o. elim o [ none ↦ none | some ((fs, w), _) ↦ release k io qno fs w s ])
              (ap (λ a. find_slot key a s.world.heap) h.0 ∙ f)
            ∙ release-returns k io qno x v s I g range
                (ap (λ a. put_video_frame qno x a s'.world.heap) h'.0 ∙ c),
        set_pool-Holds qno g s' (pool ((x, v) ∷ avail) (ys ++ zs)) ok,
        λ b.
            set_pool-puts qno I g s' b
            ∙ free_bs_data-puts v.ch_num v.sub_num k io v.queue b s range,
      )
