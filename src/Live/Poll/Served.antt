-- ===== src/Live/Poll/Served.antt =====
-- No buffer is lost by a round of the poll: `do_poll_event`, src/rtspd.c 3197-3253.
use mathlib.Core.Path.{subst}
use avserver.Base.{
  ℕ, zero, suc, ◌+◌, ◌+ℤ◌, ◌<◌, ◌==◌, ◌≡◌, refl, sym, ap, ◌∙◌, arith, ℤ, pos, ltb_ℤ, Bool, true,
  false, ◌&&◌, not, if◌then◌else◌, Bool-cases, inl, inr, Option, some, ◌∷◌,
}
use avserver.Frame.{qno_ok}
use avserver.Frame.Heap.{Ptr, VideoFrame}
use avserver.Frame.Dll.{Cells}
use avserver.Frame.Pool.{Pool, pool}
use avserver.Stream.Types.{PrivAvbs, get_pb, set_pb, set_av, put}
use avserver.Stream.Control.{in_range}
use avserver.Live.{Live, LiveConsts, get_bs_data, write_rtp_frame}
use avserver.Live.Buffers.{
  puts, held, one, Holds, Holds-same, Quiet, set_pb-Quiet, Conserves-Quiet,
  write_rtp_frame-Conserves,
}
use avserver.Live.Poll.{
  Poll, Answers, read_main, with_ret, write_main, serve_snap, then_snap, serve_channel, serve_next,
  without_ret, do_poll_event,
}

-- How often the driver hands out a buffer for the channel in a round.
unfoldable pub handed : Answers → ℕ → ℕ → ℕ
handed a ch b =
    if a.revents ch && a.main_in ch && not (ltb_ℤ (a.got ch) (pos 0))
    then one (b == (a.buffer ch).queue)
    else 0

if_swap : (c : Bool) (m : ℕ) → (if c then 0 else m) ≡ (if not c then m else 0)
if_swap true m = refl
if_swap false m = refl

module _ (k : LiveConsts) (a : Answers) (ch : ℕ) where
  -- The call ends, in a state with some pool, in which `n` buffers more are given back or held.
  abbrev pub Ends : (ℕ → ℕ) → Live → Pool → {A : Type 0} → (Live → A) → Option A → Type 0
  Ends n s p f o =
      (t : Live) × (p' : Pool) × (o ≡ some (f t))
      × Holds t (get_pb s ch 0).video.qno p'
      × ((b : ℕ)
          → puts b t.world.calls + held b p'.used ≡ puts b s.world.calls + held b p.used + n b)

  taken : Live → Live
  taken s =
      let pb : PrivAvbs = get_pb s ch 0 in
      set_pb ch 0
        (record pb { video = record (pb.video) { buf_usage = pb.video.buf_usage +ℤ pos 1 } }) s

  module _ (s : Live) (range : in_range k.bt_num (pos ch) (pos 0) ≡ true)
      (reads : (get_pb s ch 0).has_read ≡ true) (writes : (get_pb s ch 0).has_write ≡ true) where
    read_ok :
        (ret : ℤ)
        → read_main k a ch ret s
          ≡ (if ltb_ℤ (a.got ch) (pos 0) then (a.got ch, s) else (a.got ch, taken s))
    unfolding read_main get_bs_data taken
    read_ok ret = rw (reads, range) refl

    get_fails :
        ltb_ℤ (a.got ch) (pos 0) ≡ true
        → (ret : ℤ) → write_main k a ch (read_main k a ch ret s) ≡ some (a.got ch, s)
    unfolding write_main
    get_fails h ret = rw (read_ok ret, h, h) refl

    taken-writes : (get_pb (taken s) ch 0).has_write ≡ true
    unfolding taken set_pb set_av put
    taken-writes = ground (arith, writes)

    get_works :
        ltb_ℤ (a.got ch) (pos 0) ≡ false
        → (r : ℤ) (u : Live)
        → write_rtp_frame k (a.io ch) ch 0 (a.buffer ch) (taken s) ≡ some (r, u)
        → (ret : ℤ) → write_main k a ch (read_main k a ch ret s) ≡ some (a.got ch, u)
    unfolding write_main with_ret
    get_works h r u e ret = rw (read_ok ret, h, h, taken-writes, e) refl

    main-Ends :
        (ret : ℤ) (x : Ptr) (v : VideoFrame) (avail used : Cells)
        → qno_ok (get_pb s ch 0).video.qno ≡ true
        → Holds s (get_pb s ch 0).video.qno (pool ((x, v) ∷ avail) used)
        → Ends
            (λ b. if ltb_ℤ (a.got ch) (pos 0) then 0 else one (b == (a.buffer ch).queue))
            s
            (pool ((x, v) ∷ avail) used)
            (λ t. (a.got ch, t))
            (write_main k a ch (read_main k a ch ret s))
    unfolding taken
    main-Ends ret x v avail used ok h = elim (Bool-cases (ltb_ℤ (a.got ch) (pos 0))) [
      | inl t ↦ (s, pool ((x, v) ∷ avail) used, get_fails t ret, h, λ b. rw t (omega arith))
      | inr t ↦
          (let P : Pool = pool ((x, v) ∷ avail) used in
            let pb : PrivAvbs = get_pb s ch 0 in
            let q : Quiet ch 0 s (taken s) =
              set_pb-Quiet ch 0 s
                (record pb {
                  video = record (pb.video) { buf_usage = pb.video.buf_usage +ℤ pos 1 };
                })
                refl in
            let h' =
              subst (λ z. Holds (taken s) z P) (sym q.queue)
                (Holds-same s (taken s) pb.video.qno P q.infos q.heaps h) in
            let (r, u, p', e, g, n) =
              Conserves-Quiet k (a.io ch) ch 0 (a.buffer ch).queue s (taken s) P q
                (write_rtp_frame k (a.io ch) ch 0 (a.buffer ch) (taken s))
                (write_rtp_frame-Conserves k (a.io ch) ch 0 range (a.buffer ch) x v (taken s) avail
                  used (ap qno_ok q.queue ∙ ok) h') in
            (u, p', get_works t r u e ret, g, λ b. rw t (n b)))
    ]

    no_picture :
        (r : ℤ) (p : Poll) (t : Live) → p.snap_start ≡ 0 → serve_snap k a ch r p t ≡ (r, (p, t))
    unfolding serve_snap
    no_picture r p t z = elim (Bool-cases t.snap_init_ok) [
      | inl e ↦ rw (z, e) refl
      | inr e ↦ rw (z, e) refl
    ]

    then_no_picture :
        (p : Poll) (r : ℤ) (t : Live)
        → p.snap_start ≡ 0
        → then_snap k a ch p (some (r, t)) ≡ some (r, (p, t))
    unfolding then_snap
    then_no_picture p r t z =
        rw (no_picture r p t z)
          (elim (Bool-cases (ltb_ℤ r (pos 0))) [ inl e ↦ rw e refl | inr e ↦ rw e refl ])

    channel-Ends :
        (p : Poll) (ret : ℤ) (x : Ptr) (v : VideoFrame) (avail used : Cells)
        → p.snap_start ≡ 0
        → qno_ok (get_pb s ch 0).video.qno ≡ true
        → Holds s (get_pb s ch 0).video.qno (pool ((x, v) ∷ avail) used)
        → Ends
            (handed a ch)
            s
            (pool ((x, v) ∷ avail) used)
            (λ t. (if a.revents ch && a.main_in ch then a.got ch else ret, (p, t)))
            (serve_channel k a ch (ret, (p, s)))
    unfolding serve_channel handed
    channel-Ends p ret x v avail used z ok h = elim (Bool-cases (a.revents ch)) [
      | inr e ↦ (s, pool ((x, v) ∷ avail) used, rw e refl, h, λ b. rw e (omega arith))
      | inl e ↦ (elim (Bool-cases (a.main_in ch)) [
        | inr f ↦ (
          s,
          pool ((x, v) ∷ avail) used,
          rw (e, f, no_picture ret p s z) refl,
          h,
          λ b. rw (e, f) (omega arith),
        )
        | inl f ↦
            (let (t, p', g, j, n) = main-Ends ret x v avail used ok h in
              (
                t,
                p',
                rw (e, f) (ap (then_snap k a ch p) g ∙ then_no_picture p (a.got ch) t z),
                j,
                λ b.
                    rw (e, f)
                      (n b
                        ∙ ap (λ m. puts b s.world.calls + held b used + m)
                            (if_swap (ltb_ℤ (a.got ch) (pos 0)) (one (b == (a.buffer ch).queue)))),
              ))
      ])
    ]

idle :
    (k : LiveConsts) (a : Answers) (ch : ℕ) (x : ℤ × (Poll × Live))
    → a.revents ch ≡ false
    → serve_channel k a ch x ≡ some x
unfolding serve_channel
idle k a ch x e = rw e refl

-- A round of do_poll_event in which poll does not fail, at most one channel has an event, and no
-- picture is wanted: if the first bitstream of that channel is read and written, with a queue
-- number in range and a well-formed pool with a free slot, the round ends without a fault,
-- whatever the driver and the server answer, with the failures of poll counted from 0 again and
-- a well-formed pool. Each buffer was then given back or is held by a slot in use as often as
-- before, and once more if the driver handed it out in the round.
pub do_poll_event-Ends :
    (k : LiveConsts) (a : Answers) (ch : ℕ) (s : Live) (p : Poll) (x : Ptr) (v : VideoFrame)
    (avail used : Cells)
    → ch < 2
    → ltb_ℤ a.ret (pos 0) ≡ false
    → ((c : ℕ) → ¬ (c ≡ ch) → a.revents c ≡ false)
    → in_range k.bt_num (pos ch) (pos 0) ≡ true
    → (get_pb s ch 0).has_read ≡ true
    → (get_pb s ch 0).has_write ≡ true
    → p.snap_start ≡ 0
    → qno_ok (get_pb s ch 0).video.qno ≡ true
    → Holds s (get_pb s ch 0).video.qno (pool ((x, v) ∷ avail) used)
    → Ends k a ch
        (handed a ch)
        s
        (pool ((x, v) ∷ avail) used)
        (λ t. (record p { num_time = 0 }, t))
        (do_poll_event k a p s)
unfolding do_poll_event serve_next without_ret
do_poll_event-Ends k a zero s p x v avail used l r i range reads writes z ok h =
    let q : Poll = record p { num_time = 0 } in
    let (t, p', e, j, n) = channel-Ends k a 0 s range reads writes q a.ret x v avail used z ok h in
    let r' : ℤ = if a.revents 0 && a.main_in 0 then a.got 0 else a.ret in
    (
      t,
      p',
      rw r (
          ap (λ o. without_ret k (serve_next k a 1 o)) e
          ∙ ap (without_ret k) (idle k a 1 (r', (q, t)) (i 1 (λ w. absurd (omega (arith, w)))))),
      j,
      n,
    )
do_poll_event-Ends k a (suc zero) s p x v avail used l r i range reads writes z ok h =
    let q : Poll = record p { num_time = 0 } in
    let (t, p', e, j, n) = channel-Ends k a 1 s range reads writes q a.ret x v avail used z ok h in
    (
      t,
      p',
      rw r (
          ap (λ o. without_ret k (serve_next k a 1 o))
            (idle k a 0 (a.ret, (q, s)) (i 0 (λ w. absurd (omega (arith, w)))))
          ∙ ap (without_ret k) e),
      j,
      n,
    )
do_poll_event-Ends k a (suc (suc ch)) s p x v avail used l r i range reads writes z ok h =
    absurd (omega (arith, l))
