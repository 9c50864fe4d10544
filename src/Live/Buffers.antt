-- ===== src/Live/Buffers.antt =====
-- No buffer of the encoder is lost by live streaming: src/rtspd.c 2609-2630, 2702-2848, 3280-3291.
use mathlib.Core.Path.{subst}
use avserver.Base.{
  ℕ, ◌*◌, ◌&&◌, ◌||◌, ◌+◌, ◌==◌, ◌≡◌, refl, sym, ap, ◌∙◌, arith, ℤ, pos, eqb_ℤ, ltb_ℤ, Bool, true,
  false, if◌then◌else◌, not, Bool-cases, inl, inr, Option, none, some, List, [], ◌∷◌, ◌++◌, if_true,
  if_false,
}
use avserver.Frame.{FrameInfo, qno_ok, put_video_frame}
use avserver.Frame.Heap.{Ptr, VideoFrame, Heap}
use avserver.Frame.Dll.{Cells, head}
use avserver.Frame.Pool.{Pool, IsPool, pool, info, put_refines}
use avserver.Stream.Types.{PrivAvbs, Event, event_eq, get_bs, get_pb, set_pb, set_av, put}
use avserver.Stream.Control.{in_range}
use avserver.Live.{
  EncBuffer, LiveCall, Live, LiveConsts, LiveIo, call, set_pool, free_bs_data, begin, ask_intra,
  reset_wanted, send_nvr, give_slot, mark_congest, enqueue, queue_frame, write_rtp_frame, entity,
  is_key, take_slot,
}
use avserver.Live.Pooled.{take_slot_lem}

abbrev pub one : Bool → ℕ
one true = 1
one false = 0

-- How often a buffer was given back, and how many slots in use hold it.
unfoldable pub puts : ℕ → List LiveCall → ℕ
puts b [] = 0
puts b (LiveCall.queue_put fd q ∷ cs) = one (b == q) + puts b cs
puts b (_ ∷ cs) = puts b cs

unfoldable pub held : ℕ → Cells → ℕ
held b [] = 0
held b ((x, v) ∷ xs) = one (b == v.queue) + held b xs

held-append : (b : ℕ) (xs ys : Cells) → held b (xs ++ ys) ≡ held b xs + held b ys
unfolding held
held-append b [] ys = omega arith
held-append b ((x, v) ∷ xs) ys = omega (arith, held-append b xs ys)

puts-append :
    (b : ℕ) (xs : List LiveCall) (c : LiveCall)
    → puts b (xs ++ c ∷ []) ≡ puts b xs + puts b (c ∷ [])
unfolding puts
puts-append b [] c = omega arith
puts-append b (LiveCall.queue_put fd q ∷ xs) c = omega (arith, puts-append b xs c)
puts-append b (LiveCall.reset_intra fd n ∷ xs) c = puts-append b xs c
puts-append b (LiveCall.send_video a m i z h w ∷ xs) c = puts-append b xs c
puts-append b (LiveCall.media_enqueue q a z t ∷ xs) c = puts-append b xs c
puts-append b (LiveCall.mt_write a z i n t h w ∷ xs) c = puts-append b xs c
puts-append b (LiveCall.enc_snap fd ∷ xs) c = puts-append b xs c
puts-append b (LiveCall.write_jpg_data a z i ∷ xs) c = puts-append b xs c

-- The state holds the pool `p` for the queue.
abbrev pub Holds : Live → ℤ → Pool → Type 0
Holds s qno p =
    (s.world.frame_info qno ≡ info (head p.avail) (head p.used))
    × IsPool s.world.heap (info (head p.avail) (head p.used)) p

-- The pools, the buffers given back and the queue of a stream are as before.
pub record Quiet (ch sub : ℕ) (s t : Live) : Type 0 where
  pub infos : t.world.frame_info ≡ s.world.frame_info
  pub heaps : t.world.heap ≡ s.world.heap
  pub given : (b : ℕ) → puts b t.world.calls ≡ puts b s.world.calls
  pub queue : (get_pb t ch sub).video.qno ≡ (get_pb s ch sub).video.qno

module _ (ch sub : ℕ) where
  Quiet-refl : (s : Live) → Quiet ch sub s s
  Quiet-refl s = record { infos = refl; heaps = refl; given = λ b. refl; queue = refl }

  Quiet-trans : (s t u : Live) → Quiet ch sub s t → Quiet ch sub t u → Quiet ch sub s u
  Quiet-trans s t u h k = record {
    infos = k.infos ∙ h.infos;
    heaps = k.heaps ∙ h.heaps;
    given = λ b. k.given b ∙ h.given b;
    queue = k.queue ∙ h.queue;
  }

  Quiet-if :
      (b : Bool) (s t u : Live)
      → Quiet ch sub s t
      → Quiet ch sub s u
      → Quiet ch sub s (if b then t else u)
  Quiet-if true s t u h k = h
  Quiet-if false s t u h k = k

  call-Quiet :
      (c : LiveCall) (s : Live) → ((b : ℕ) → puts b (c ∷ []) ≡ 0) → Quiet ch sub s (call c s)
  unfolding call
  call-Quiet c s z = record {
    infos = refl;
    heaps = refl;
    given = λ b. omega (arith, puts-append b s.world.calls c, z b);
    queue = refl;
  }

  ask_intra-Quiet : (s : Live) → Quiet ch sub s (ask_intra ch sub s)
  unfolding ask_intra puts
  ask_intra-Quiet s = call-Quiet (LiveCall.reset_intra (s.enc ch).enc_fd sub) s (λ b. refl)

  pub set_pb-Quiet :
      (s : Live) (p : PrivAvbs)
      → p.video.qno ≡ (get_pb s ch sub).video.qno
      → Quiet ch sub s (set_pb ch sub p s)
  unfolding set_pb set_av put
  set_pb-Quiet s p e = record {
    infos = refl;
    heaps = refl;
    given = λ b. refl;
    queue = ground (arith, e);
  }

  begin-Quiet : (d : EncBuffer) (s : Live) → Quiet ch sub s (begin ch sub d s)
  unfolding begin
  begin-Quiet d s =
      let pb : PrivAvbs = get_pb s ch sub in
      let p : PrivAvbs = record pb {
        congest = false;
        video = record (pb.video) { tick = d.tick; timed = true };
      } in
      Quiet-if pb.video.timed s s (set_pb ch sub p s) (Quiet-refl s) (set_pb-Quiet s p refl)

  reset_wanted-Quiet : (s : Live) → Quiet ch sub s (reset_wanted ch sub s)
  unfolding reset_wanted
  reset_wanted-Quiet s =
      let p : PrivAvbs = record (get_pb s ch sub) { reset_intra_frame = false } in
      let t : Live = ask_intra ch sub s in
      let a = ask_intra-Quiet s in
      Quiet-if (get_pb s ch sub).reset_intra_frame s (set_pb ch sub p t) s
        (Quiet-trans s t (set_pb ch sub p t) a (set_pb-Quiet t p (sym a.queue))) (Quiet-refl s)

  module _ (k : LiveConsts) where
    send_nvr-Quiet : (d : EncBuffer) (s : Live) → Quiet ch sub s (send_nvr k ch sub d s)
    unfolding send_nvr puts
    send_nvr-Quiet d s =
        let v = (get_bs s ch sub).video in
        let c : LiveCall =
          LiveCall.send_video (entity ch sub d s) (not (ch == 0)) (is_key k d) d.size v.height
            v.width in
        Quiet-if (not (s.world.nvr_send_status ch sub)) s s _ (Quiet-refl s) (
          Quiet-if
            (ltb_ℤ (pos (500 * 1024)) d.size
              && (eqb_ℤ v.rate_ctl_type (pos 0) || eqb_ℤ v.rate_ctl_type (pos 2)))
            s (ask_intra ch sub s) (call c s) (ask_intra-Quiet s) (call-Quiet c s (λ b. refl)))

    -- Giving a buffer back.
    pub free_bs_data-puts :
        (io : LiveIo) (q b : ℕ) (s : Live)
        → in_range k.bt_num (pos ch) (pos sub) ≡ true
        → puts b (free_bs_data k io ch sub q s).1.world.calls ≡ puts b s.world.calls + one (b == q)
    unfolding free_bs_data call set_pb set_av puts
    free_bs_data-puts io q b s h =
        ground (arith, h, puts-append b s.world.calls (LiveCall.queue_put (s.enc ch).enc_fd q))

    pub free_bs_data-pool :
        (io : LiveIo) (q : ℕ) (s : Live)
        → let t = (free_bs_data k io ch sub q s).1 in
          (t.world.frame_info ≡ s.world.frame_info) × (t.world.heap ≡ s.world.heap)
    unfolding free_bs_data call set_pb set_av
    free_bs_data-pool io q s = ground arith

eqb_self : (a : ℤ) → eqb_ℤ a a ≡ true
eqb_self a = ground arith

pub set_pool-Holds :
    (qno : ℤ) (h : Heap) (s : Live) (p : Pool)
    → IsPool h (info (head p.avail) (head p.used)) p
    → Holds (set_pool qno (info (head p.avail) (head p.used)) h s) qno p
unfolding set_pool
set_pool-Holds qno h s p ok = (rw (eqb_self qno) refl, ok)

pub set_pool-puts :
    (qno : ℤ) (i : FrameInfo) (h : Heap) (s : Live) (b : ℕ)
    → puts b (set_pool qno i h s).world.calls ≡ puts b s.world.calls
unfolding set_pool
set_pool-puts qno i h s b = refl

set_pool-qno :
    {ch sub : ℕ} (qno : ℤ) (i : FrameInfo) (h : Heap) (s : Live)
    → (get_pb (set_pool qno i h s) ch sub).video.qno ≡ (get_pb s ch sub).video.qno
unfolding set_pool
set_pool-qno qno i h s = refl

pub Holds-same :
    (s t : Live) (qno : ℤ) (p : Pool)
    → t.world.frame_info ≡ s.world.frame_info
    → t.world.heap ≡ s.world.heap
    → Holds s qno p
    → Holds t qno p
Holds-same s t qno p i h k = (
  ap (λ f. f qno) i ∙ k.0,
  subst (λ g. IsPool g (info (head p.avail) (head p.used)) p) (sym h) k.1,
)

module _ (k : LiveConsts) (io : LiveIo) (ch sub : ℕ) where
  -- The call ends, in a state with some pool, and the buffer is once more given back or held.
  abbrev pub Conserves : ℕ → Live → Pool → Option (ℤ × Live) → Type 0
  Conserves q s p o =
      (r : ℤ) × (t : Live) × (p' : Pool) × (o ≡ some (r, t))
      × Holds t (get_pb s ch sub).video.qno p'
      × ((b : ℕ)
          → puts b t.world.calls + held b p'.used
            ≡ puts b s.world.calls + held b p.used + one (b == q))

  Conserves-if :
      (q : ℕ) (s : Live) (p : Pool) (b : Bool) (o o' : Option (ℤ × Live))
      → Conserves q s p o
      → Conserves q s p o'
      → Conserves q s p (if b then o else o')
  Conserves-if q s p true o o' h h' = h
  Conserves-if q s p false o o' h h' = h'

  pub Conserves-Quiet :
      (q : ℕ) (s t : Live) (p : Pool)
      → Quiet ch sub s t
      → (o : Option (ℤ × Live)) → Conserves q t p o
      → Conserves q s p o
  Conserves-Quiet q s t p u o (r, t', p', e, h, n) =
      (r, t', p', e, subst (λ z. Holds t' z p') u.queue h, λ b. omega (arith, n b, u.given b))

  module _ (range : in_range k.bt_num (pos ch) (pos sub) ≡ true) where
    give_back-Conserves :
        (q : ℕ) (r : ℤ) (s t : Live) (p : Pool)
        → Quiet ch sub s t
        → Holds s (get_pb s ch sub).video.qno p
        → Conserves q s p (some (r, (free_bs_data k io ch sub q t).1))
    give_back-Conserves q r s t p u h =
        let (i, g) = free_bs_data-pool ch sub k io q t in
        (
          r,
          (free_bs_data k io ch sub q t).1,
          p,
          refl,
          Holds-same s (free_bs_data k io ch sub q t).1 (get_pb s ch sub).video.qno p (i ∙ u.infos)
              (g ∙ u.heaps) h,
          λ b. omega (arith, free_bs_data-puts ch sub k io q b t range, u.given b),
        )

    mark_congest-Quiet : (s : Live) → Quiet ch sub s (mark_congest k io ch sub s)
    unfolding mark_congest
    mark_congest-Quiet s =
        let p : PrivAvbs = record (get_pb s ch sub) { congest = true } in
        Quiet-if ch sub (eqb_ℤ io.media_enqueue k.err_full) s (set_pb ch sub p s) s
          (set_pb-Quiet ch sub s p refl) (Quiet-refl ch sub s)

    -- The slot just filled goes back.
    give_slot-gives :
        (d : EncBuffer) (x : Ptr) (v : VideoFrame) (s : Live) (avail used : Cells)
        → qno_ok (get_pb s ch sub).video.qno ≡ true
        → Holds s (get_pb s ch sub).video.qno (pool avail ((x, v) ∷ used))
        → (t : Live) × (give_slot k io ch sub d x s ≡ some (io.media_enqueue, t))
          × Holds t (get_pb s ch sub).video.qno (pool ((x, v) ∷ avail) used)
          × ((b : ℕ) → puts b t.world.calls ≡ puts b s.world.calls + one (b == d.queue))
    unfolding give_slot
    give_slot-gives d x v s avail used ok h =
        let qno : ℤ = (get_pb s ch sub).video.qno in
        let (g, e, ok') = put_refines x v [] used h.1 qno ok in
        let t : Live = set_pool qno (info x (head used)) g s in
        let (i, j) = free_bs_data-pool ch sub k io d.queue t in
        (
          (free_bs_data k io ch sub d.queue t).1,
          ap
              (λ o. elim o [
                | none ↦ none
                | some (j, f) ↦
                    some
                      (io.media_enqueue, (free_bs_data k io ch sub d.queue (set_pool qno j f s)).1)
              ])
              (ap (λ j. put_video_frame qno x j s.world.heap) h.0 ∙ e),
          Holds-same t (free_bs_data k io ch sub d.queue t).1 qno (pool ((x, v) ∷ avail) used) i j
              (set_pool-Holds qno g s (pool ((x, v) ∷ avail) used) ok'),
          λ b.
              free_bs_data-puts ch sub k io d.queue b t range
              ∙ ap (λ n. n + one (b == d.queue)) (set_pool-puts qno (info x (head used)) g s b),
        )

    -- The filled slot stays, or goes back with its buffer.
    enqueue-Conserves :
        (d : EncBuffer) (x : Ptr) (v : VideoFrame) (s : Live) (avail used : Cells)
        → qno_ok (get_pb s ch sub).video.qno ≡ true
        → v.queue ≡ d.queue
        → Holds s (get_pb s ch sub).video.qno (pool avail ((x, v) ∷ used))
        → Conserves d.queue s (pool avail used) (enqueue k io ch sub d x s)
    unfolding enqueue puts held
    enqueue-Conserves d x v s avail used ok vq h =
        let qno : ℤ = (get_pb s ch sub).video.qno in
        let a : ℤ = entity ch sub d s in
        let w = (get_bs s ch sub).video in
        let c : LiveCall = LiveCall.media_enqueue qno a d.size d.tick in
        let c' : LiveCall =
          LiveCall.mt_write a d.size (is_key k d) (if ch == 0 then 0 else 1) d.tick w.height
            w.width in
        let s' : Live = call c s in
        let u : Quiet ch sub s s' = call-Quiet ch sub c s (λ b. refl) in
        let u' : Quiet ch sub s (call c' s') =
          Quiet-trans ch sub s s' (call c' s') u (call-Quiet ch sub c' s' (λ b. refl)) in
        let m : Live = mark_congest k io ch sub s' in
        let q : Quiet ch sub s m = Quiet-trans ch sub s s' m u (mark_congest-Quiet s') in
        elim (Bool-cases (ltb_ℤ io.media_enqueue (pos 0))) [
          | inl t ↦
              (let P : Pool = pool avail ((x, v) ∷ used) in
                let ok' = ap qno_ok q.queue ∙ ok in
                let h' =
                  subst (λ z. Holds m z P) (sym q.queue) (Holds-same s m qno P q.infos q.heaps h) in
                let (r, e, g, n) = give_slot-gives d x v m avail used ok' h' in
                (
                  io.media_enqueue,
                  r,
                  pool ((x, v) ∷ avail) used,
                  if_true (ltb_ℤ io.media_enqueue (pos 0)) (give_slot k io ch sub d x m)
                        (some (pos 0, call c' s')) t
                      ∙ e,
                  subst (λ z. Holds r z (pool ((x, v) ∷ avail) used)) q.queue g,
                  λ b. omega (arith, n b, q.given b),
                ))
          | inr t ↦ (
            pos 0,
            call c' s',
            pool avail ((x, v) ∷ used),
            if_false (ltb_ℤ io.media_enqueue (pos 0)) (give_slot k io ch sub d x m)
                (some (pos 0, call c' s')) t,
            Holds-same s (call c' s') qno (pool avail ((x, v) ∷ used)) u'.infos u'.heaps h,
            λ b. omega (arith, u'.given b, ap (λ n. one (b == n)) vq),
          )
        ]

    queue_frame-Conserves :
        (d : EncBuffer) (x : Ptr) (v : VideoFrame) (s : Live) (avail used : Cells)
        → qno_ok (get_pb s ch sub).video.qno ≡ true
        → Holds s (get_pb s ch sub).video.qno (pool ((x, v) ∷ avail) used)
        → Conserves d.queue s (pool ((x, v) ∷ avail) used) (queue_frame k io ch sub d s)
    unfolding queue_frame
    queue_frame-Conserves d x v s avail used ok h =
        let qno : ℤ = (get_pb s ch sub).video.qno in
        let w : VideoFrame = record {
          ch_num = ch;
          sub_num = sub;
          queue = d.queue;
          search_key = entity ch sub d s;
        } in
        let (g, e, ok') = take_slot_lem s.world.heap qno x v w avail used ok h.1 in
        let P : Pool = pool avail ((x, w) ∷ used) in
        let t : Live = set_pool qno (info (head avail) x) g s in
        let h' : Holds t qno P = set_pool-Holds qno g s P ok' in
        let (r, t', p', e', c, n) =
          enqueue-Conserves d x w t avail used
            (ap qno_ok (set_pool-qno qno (info (head avail) x) g s) ∙ ok) refl
            (subst (λ z. Holds t z P) (sym (set_pool-qno qno (info (head avail) x) g s)) h') in
        (
          r,
          t',
          p',
          ap
                (λ o. elim o [
                  | none ↦ none
                  | some ((fs, i), f) ↦ enqueue k io ch sub d fs (set_pool qno i f s)
                ])
                (ap (λ j. take_slot qno w j s.world.heap) h.0 ∙ e)
              ∙ e',
          subst (λ z. Holds t' z p') (set_pool-qno qno (info (head avail) x) g s) c,
          λ b.
              n b
              ∙ ap (λ z. z + held b used + one (b == d.queue))
                  (set_pool-puts qno (info (head avail) x) g s b),
        )

    -- On a well-formed pool with a free slot, for a queue number in range and numbers of a
    -- channel and a bitstream in range, write_rtp_frame ends without a fault, whatever the
    -- request, the state of the stream and the answers of the driver and the server, and leaves
    -- a well-formed pool. For each buffer of the encoder, the times that it was given back and
    -- the slots in use that hold it are together as many as before, and one more for the buffer
    -- that is written: none is lost or given back twice.
    pub write_rtp_frame-Conserves :
        (d : EncBuffer) (x : Ptr) (v : VideoFrame) (s : Live) (avail used : Cells)
        → qno_ok (get_pb s ch sub).video.qno ≡ true
        → Holds s (get_pb s ch sub).video.qno (pool ((x, v) ∷ avail) used)
        → Conserves d.queue s (pool ((x, v) ∷ avail) used) (write_rtp_frame k io ch sub d s)
    unfolding write_rtp_frame
    write_rtp_frame-Conserves d x v s avail used ok h =
        let P : Pool = pool ((x, v) ∷ avail) used in
        let a : Live = begin ch sub d s in
        let b : Live = reset_wanted ch sub a in
        let t : Live = send_nvr k ch sub d b in
        let u : Quiet ch sub s t =
          Quiet-trans ch sub s a t (begin-Quiet ch sub d s) (
            Quiet-trans ch sub a b t (reset_wanted-Quiet ch sub a) (send_nvr-Quiet ch sub k d b)) in
        let h' =
          subst (λ z. Holds t z P) (sym u.queue)
            (Holds-same s t (get_pb s ch sub).video.qno P u.infos u.heaps h) in
        Conserves-if d.queue s P (not (event_eq (get_bs s ch sub).event Event.none)) _ _
          (give_back-Conserves d.queue (pos 1) s s P (Quiet-refl ch sub s) h)
          (Conserves-if d.queue s P (not (get_pb t ch sub).play) _ _
            (give_back-Conserves d.queue (pos 1) s t P u h)
            (Conserves-Quiet d.queue s t P u (queue_frame k io ch sub d t)
              (queue_frame-Conserves d x v t avail used (ap qno_ok u.queue ∙ ok) h')))
