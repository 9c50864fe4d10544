-- ===== src/Live/Streams/Play.antt =====
-- What the commands of the RTSP server do to the streams: src/rtspd.c 3349-3403.
use Prim.Native.String.{String}
use avserver.Base.{
  ℕ, zero, suc, ◌+◌, ◌<◌, ◌≡◌, refl, sym, ap, ◌∙◌, arith, ℤ, pos, leb_ℤ, Bool, true, false, none,
  some,
}
use avserver.Stream.Types.{PrivAvbs, get_pb, set_pb, set_av, put}
use avserver.Live.{Live, LiveConsts}
use avserver.Live.Streams.{
  StreamCmd, is_stream, find_sub, in_channel, find_place, mark_found, find_file_sr, start_play,
  stop_play, change, cmd_cb,
}

at_zero : (i : ℕ) → i + 0 ≡ i
at_zero i = omega arith

at_suc : (i m : ℕ) → i + 1 + m ≡ i + suc m
at_suc i m = omega arith

find_sub-first :
    (test : PrivAvbs → Bool) (n i j : ℕ) (pbs : ℕ → PrivAvbs)
    → test (pbs (i + j)) ≡ true
    → j < n
    → ((m : ℕ) → m < j → test (pbs (i + m)) ≡ false)
    → find_sub test n i pbs ≡ some (i + j)
unfolding find_sub
find_sub-first test zero i j pbs h l u = absurd (omega (arith, l))
find_sub-first test (suc n) i zero pbs h l u =
    rw (ap (λ z. test (pbs z)) (sym (at_zero i)) ∙ h) (ap some (omega arith))
find_sub-first test (suc n) i (suc j) pbs h l u =
    let e = at_suc i in
    rw (ap (λ z. test (pbs z)) (sym (at_zero i)) ∙ u 0 (omega arith)) (
      find_sub-first test n (i + 1) j pbs (ap (λ z. test (pbs z)) (e j) ∙ h) (omega (arith, l))
        (λ m g. ap (λ z. test (pbs z)) (e m) ∙ u (suc m) (omega (arith, g)))
      ∙ ap some (e j))

find_sub-none :
    (test : PrivAvbs → Bool) (n i : ℕ) (pbs : ℕ → PrivAvbs)
    → ((m : ℕ) → m < n → test (pbs (i + m)) ≡ false)
    → find_sub test n i pbs ≡ none
unfolding find_sub
find_sub-none test zero i pbs u = refl
find_sub-none test (suc n) i pbs u =
    rw (ap (λ z. test (pbs z)) (sym (at_zero i)) ∙ u 0 (omega arith)) (
      find_sub-none test n (i + 1) pbs
        (λ m g. ap (λ z. test (pbs z)) (at_suc i m) ∙ u (suc m) (omega (arith, g))))

at_left : (m : ℕ) → 0 + m ≡ m
at_left m = omega arith

-- From the first bitstream on.
find_first :
    (test : PrivAvbs → Bool) (n j : ℕ) (pbs : ℕ → PrivAvbs)
    → test (pbs j) ≡ true
    → j < n
    → ((m : ℕ) → m < j → test (pbs m) ≡ false)
    → find_sub test n 0 pbs ≡ some j
find_first test n j pbs h l u =
    find_sub-first test n 0 j pbs (ap (λ z. test (pbs z)) (at_left j) ∙ h) l
      (λ m g. ap (λ z. test (pbs z)) (at_left m) ∙ u m g)
    ∙ ap some (at_left j)

find_nothing :
    (test : PrivAvbs → Bool) (n : ℕ) (pbs : ℕ → PrivAvbs)
    → ((m : ℕ) → m < n → test (pbs m) ≡ false)
    → find_sub test n 0 pbs ≡ none
find_nothing test n pbs u =
    find_sub-none test n 0 pbs (λ m g. ap (λ z. test (pbs z)) (at_left m) ∙ u m g)

module _ (k : LiveConsts) (name : String) (srno : ℤ) where
  abbrev test : PrivAvbs → Bool
  test = is_stream name srno

  -- The stream has the name and the number, and no other one has.
  pub record IsOnly (ch sub : ℕ) (s : Live) : Type 0 where
    pub ch_ok : ch < 2
    pub sub_ok : sub < k.bt_num
    pub matches : is_stream name srno (get_pb s ch sub) ≡ true
    pub alone :
        (c j : ℕ)
        → c < 2
        → j < k.bt_num
        → ¬ ((c ≡ ch) × (j ≡ sub))
        → is_stream name srno (get_pb s c j) ≡ false

  find_place-IsOnly :
      (ch sub : ℕ) (s : Live) → IsOnly ch sub s → find_place k name srno s ≡ some (ch, sub)
  unfolding find_place in_channel
  find_place-IsOnly zero sub s o =
      ap (λ a. in_channel 0 a (in_channel 1 (find_sub test k.bt_num 0 ((s.enc 1).priv_bs)) none))
        (find_first test k.bt_num sub ((s.enc 0).priv_bs) o.matches o.sub_ok (λ m g.
          o.alone 0 m o.ch_ok (omega (arith, g, o.sub_ok)) (λ e. absurd (omega (arith, e.1, g)))))
  find_place-IsOnly (suc zero) sub s o =
      ap (λ a. in_channel 0 a (in_channel 1 (find_sub test k.bt_num 0 ((s.enc 1).priv_bs)) none))
        (find_nothing test k.bt_num ((s.enc 0).priv_bs)
          (λ m g. o.alone 0 m (omega arith) g (λ e. absurd (omega (arith, e.0)))))
      ∙ ap (λ a. in_channel 1 a none)
          (find_first test k.bt_num sub ((s.enc 1).priv_bs) o.matches o.sub_ok (λ m g.
            o.alone 1 m o.ch_ok (omega (arith, g, o.sub_ok)) (λ e. absurd (omega (arith, e.1, g)))))
  find_place-IsOnly (suc (suc ch)) sub s o = absurd (omega (arith, o.ch_ok))

  -- The parts of a stream by which it is found.
  abbrev IsAlike : PrivAvbs → PrivAvbs → Type 0
  IsAlike p q = (p.sr ≡ q.sr) × (p.name ≡ q.name)

  set_pb-same : (ch sub : ℕ) (p : PrivAvbs) (s : Live) → get_pb (set_pb ch sub p s) ch sub ≡ p
  unfolding set_pb set_av put
  set_pb-same ch sub p s = ground arith

  set_pb-apart :
      (ch sub c j : ℕ) (p : PrivAvbs) (s : Live)
      → ¬ ((c ≡ ch) × (j ≡ sub))
      → get_pb (set_pb ch sub p s) c j ≡ get_pb s c j
  unfolding set_pb set_av put
  set_pb-apart ch sub c j p s u = ground arith

  is_stream-same : (p q : PrivAvbs) → IsAlike p q → is_stream name srno p ≡ is_stream name srno q
  unfolding is_stream
  is_stream-same p q (a, b) = rw (a, b) refl

  set_pb-IsOnly :
      (ch sub : ℕ) (p : PrivAvbs) (s : Live)
      → IsAlike p (get_pb s ch sub)
      → IsOnly ch sub s
      → IsOnly ch sub (set_pb ch sub p s)
  set_pb-IsOnly ch sub p s a o = record {
    ch_ok = o.ch_ok;
    sub_ok = o.sub_ok;
    matches =
        ap (is_stream name srno) (set_pb-same ch sub p s)
        ∙ is_stream-same p (get_pb s ch sub) a
        ∙ o.matches;
    alone =
        λ c j l m u. ap (is_stream name srno) (set_pb-apart ch sub c j p s u) ∙ o.alone c j l m u;
  }

  abbrev marked : ℕ → ℕ → Live → PrivAvbs
  marked ch sub s = record (get_pb s ch sub) { reset_intra_frame = true }

  -- The state after the stream has been found and changed.
  abbrev changed : (PrivAvbs → PrivAvbs) → ℕ → ℕ → Live → Live
  changed f ch sub s = set_pb ch sub (f (marked ch sub s)) (set_pb ch sub (marked ch sub s) s)

  change-IsOnly :
      (f : PrivAvbs → PrivAvbs) (ch sub : ℕ) (s : Live)
      → IsOnly ch sub s
      → change f (find_file_sr k name srno s) ≡ (pos 0, changed f ch sub s)
  unfolding change find_file_sr mark_found
  change-IsOnly f ch sub s o =
      ap (λ o. change f (o, mark_found o s)) (find_place-IsOnly ch sub s o)
      ∙ ap (λ q. (pos 0, set_pb ch sub (f q) (set_pb ch sub (marked ch sub s) s)))
          (set_pb-same ch sub (marked ch sub s) s)

  changed-at :
      (f : PrivAvbs → PrivAvbs) (ch sub : ℕ) (s : Live)
      → get_pb (changed f ch sub s) ch sub ≡ f (marked ch sub s)
  changed-at f ch sub s =
      set_pb-same ch sub (f (marked ch sub s)) (set_pb ch sub (marked ch sub s) s)

  changed-apart :
      (f : PrivAvbs → PrivAvbs) (ch sub : ℕ) (s : Live) (c j : ℕ)
      → ¬ ((c ≡ ch) × (j ≡ sub))
      → get_pb (changed f ch sub s) c j ≡ get_pb s c j
  changed-apart f ch sub s c j u =
      set_pb-apart ch sub c j (f (marked ch sub s)) (set_pb ch sub (marked ch sub s) s) u
      ∙ set_pb-apart ch sub c j (marked ch sub s) s u

  changed-IsOnly :
      (f : PrivAvbs → PrivAvbs) (ch sub : ℕ) (s : Live)
      → ((p : PrivAvbs) → IsAlike (f p) p)
      → IsOnly ch sub s
      → IsOnly ch sub (changed f ch sub s)
  changed-IsOnly f ch sub s a o =
      let m : PrivAvbs = marked ch sub s in
      let t : Live = set_pb ch sub m s in
      let e = set_pb-same ch sub m s in
      let (x, y) = a m in
      set_pb-IsOnly ch sub (f m) t (x ∙ sym (ap (λ p. p.sr) e), y ∙ sym (ap (λ p. p.name) e))
        (set_pb-IsOnly ch sub m s (refl, refl) o)

  start_play-IsAlike : (p : PrivAvbs) → IsAlike (start_play p) p
  unfolding start_play
  start_play-IsAlike p = ground arith

  started :
      (p : PrivAvbs) → leb_ℤ (pos 0) p.video.qno ≡ true → start_play p ≡ record p { play = true }
  unfolding start_play
  started p h = rw h refl

  -- If a stream of a channel and bitstream in range has the number and the name of a command, no
  -- other one has both, and its queue number is not negative, then a play command returns 0, and
  -- the stream plays and is to begin with a key frame. A teardown after it returns 0, and the
  -- stream does not play and its time is to begin anew. Both leave every other stream as it was.
  pub play-teardown :
      (ch sub : ℕ) (s : Live)
      → IsOnly ch sub s
      → leb_ℤ (pos 0) ((get_pb s ch sub).video.qno) ≡ true
      → let (r, t) = cmd_cb k name srno StreamCmd.play s in
        let (q, u) = cmd_cb k name srno StreamCmd.teardown t in
        (r ≡ pos 0)
        × (q ≡ pos 0)
        × (get_pb t ch sub ≡ record (get_pb s ch sub) { reset_intra_frame = true; play = true })
        × ((get_pb u ch sub).play ≡ false)
        × ((get_pb u ch sub).video.timed ≡ false)
        × ((c j : ℕ)
            → ¬ ((c ≡ ch) × (j ≡ sub))
            → (get_pb t c j ≡ get_pb s c j) × (get_pb u c j ≡ get_pb s c j))
  unfolding cmd_cb stop_play
  play-teardown ch sub s o h =
      let t : Live = changed start_play ch sub s in
      let a = change-IsOnly start_play ch sub s o in
      let b =
        change-IsOnly stop_play ch sub t
          (changed-IsOnly start_play ch sub s start_play-IsAlike o) in
      rw (a, b)
        (
          refl,
          refl,
          changed-at start_play ch sub s ∙ started (marked ch sub s) h,
          ap (λ p. p.play) (changed-at stop_play ch sub t),
          ap (λ p. p.video.timed) (changed-at stop_play ch sub t),
          λ c j u. (
            changed-apart start_play ch sub s c j u,
            changed-apart stop_play ch sub t c j u ∙ changed-apart start_play ch sub s c j u,
          ),
        )
