-- ===== src/Stream/Events/Serve.antt =====
-- One round of `bs_new_event`, bitstream by bitstream.
use avserver.Base.{
  ℕ, zero, suc, ◌+◌, ◌≡◌, refl, ◌∙◌, arith, Bool, true, false, ◌&&◌, ◌||◌, if◌then◌else◌, ◌==◌, ltb,
  leb, Bool-cases, inl, inr,
}
use avserver.Stream.Types.{Event, none, start, event_eq, Rtspd, set_av, set_bs, put, channel_num}
use avserver.Stream.Env.{Env}
use avserver.Stream.Monad.{modify_bs}
use avserver.Stream.Events.{for_up, with_event, do_open, serve_start, serve, visit, serve_all}
use avserver.Stream.Bitstream.{open_bs}
use avserver.Stream.Events.Keeps.{event_at, SameEvents, Keeps, open_bs-Keeps, do_open-Keeps}

module _ {W : Type 0} where
  -- From `s` to `t` the requests that `p` picks are gone, and nothing else of the loop's state moves.
  unfoldable pub Drops : Rtspd W → Rtspd W → (ℕ → ℕ → Bool) → Type 0
  Drops s t p =
      (t.bs_event ≡ s.bs_event)
      × (t.set_event ≡ s.set_event)
      × ((ch sub : ℕ) → event_at t ch sub ≡ (if p ch sub then none else event_at s ch sub))

  Drops-event :
      (ch sub : ℕ) (s : Rtspd W)
      → Drops s (modify_bs ch sub (with_event none) s).1 (λ c b. (c == ch) && (b == sub))
  unfolding Drops with_event set_bs set_av put
  Drops-event ch sub s = (refl, refl, λ c b. ground arith)

  Drops-same : (s t u : Rtspd W) (p : ℕ → ℕ → Bool) → SameEvents s t → Drops t u p → Drops s u p
  unfolding Drops SameEvents
  Drops-same s t u p (e, q, r) (e', q', r') =
      (e' ∙ e, q' ∙ q, λ ch sub. ground (arith, r ch sub, r' ch sub))

  -- Two steps that drop requests of different bitstreams.
  Drops-both :
      (s t u : Rtspd W) (p q r : ℕ → ℕ → Bool)
      → Drops s t p
      → Drops t u q
      → ((ch sub : ℕ) → r ch sub ≡ (p ch sub || q ch sub))
      → Drops s u r
  unfolding Drops
  Drops-both s t u p q r (e, f, g) (e', f', g') h =
      (e' ∙ e, f' ∙ f, λ ch sub. ground (arith, g ch sub, g' ch sub, h ch sub))

abbrev pub is_start : Event → Bool
is_start ev = event_eq ev start

module _ {W : Type 0} (env : Env W) where
  open env use {bt_num}

  serve_start-Drops :
      (ch sub : ℕ) (s : Rtspd W)
      → Drops s (serve_start env ch sub s).1 (λ c b. (c == ch) && (b == sub))
  unfolding serve_start Keeps
  serve_start-Drops ch sub s =
      let opened : Rtspd W = (open_bs env ch sub s).1 in
      let streamed : Rtspd W = (do_open env ch sub opened).1 in
      let last : Rtspd W = (modify_bs ch sub (with_event none) streamed).1 in
      let here : ℕ → ℕ → Bool = λ c b. (c == ch) && (b == sub) in
      Drops-same s opened last here (open_bs-Keeps env ch sub s) (
        Drops-same opened streamed last here (do_open-Keeps env ch sub opened)
          (Drops-event ch sub streamed))

  -- The test of `visit`.
  visit-start-Drops :
      (ch sub : ℕ) (s : Rtspd W)
      → Drops s
          (visit env start ch sub s).1
          (λ c b. (c == ch) && (b == sub) && is_start (event_at s c b))
  unfolding visit serve Drops
  visit-start-Drops ch sub s = elim (Bool-cases (is_start (event_at s ch sub))) [
    | inl e ↦ rw e (weaken e (serve_start-Drops ch sub s))
    | inr e ↦ rw e (idle e)
  ]
    where
      weaken :
          is_start (event_at s ch sub) ≡ true
          → Drops s (serve_start env ch sub s).1 (λ c b. (c == ch) && (b == sub))
          → Drops s
              (serve_start env ch sub s).1
              (λ c b. (c == ch) && (b == sub) && is_start (event_at s c b))
      weaken e (f, g, h) = (f, g, λ c b. ground (arith, h c b))

      idle :
          is_start (event_at s ch sub) ≡ false
          → Drops s s (λ c b. (c == ch) && (b == sub) && is_start (event_at s c b))
      idle e = (refl, refl, λ c b. ground arith)

  -- The bitstreams of a channel from number `i` on.
  visit_row-Drops :
      (n i ch : ℕ) (s : Rtspd W)
      → Drops s
          (for_up n i (λ sub. visit env start ch sub) s).1
          (λ c b. (c == ch) && leb i b && ltb b (i + n) && is_start (event_at s c b))
  unfolding for_up Drops
  visit_row-Drops zero i ch s = (refl, refl, λ c b. ground arith)
  visit_row-Drops (suc n) i ch s =
      let t : Rtspd W = (visit env start ch i s).1 in
      let (e, f, g) = visit-start-Drops ch i s in
      let (e', f', g') = visit_row-Drops n (suc i) ch t in
      (e' ∙ e, f' ∙ f, λ c b. ground (arith, g c b, g' c b))

  visit_rows-Drops :
      (n i : ℕ) (s : Rtspd W)
      → Drops s
          (for_up n i (λ ch. for_up bt_num 0 (λ sub. visit env start ch sub)) s).1
          (λ c b. leb i c && ltb c (i + n) && ltb b bt_num && is_start (event_at s c b))
  unfolding for_up Drops
  visit_rows-Drops zero i s = (refl, refl, λ c b. ground arith)
  visit_rows-Drops (suc n) i s =
      let t : Rtspd W = (for_up bt_num 0 (λ sub. visit env start i sub) s).1 in
      let (e, f, g) = visit_row-Drops bt_num 0 i s in
      let (e', f', g') = visit_rows-Drops n (suc i) t in
      (e' ∙ e, f' ∙ f, λ c b. ground (arith, g c b, g' c b))

  pub serve_all-start-Drops :
      (s : Rtspd W)
      → Drops s
          (serve_all env start s).1
          (λ c b. ltb c channel_num && ltb b bt_num && is_start (event_at s c b))
  unfolding serve_all Drops
  serve_all-start-Drops s =
      let (e, f, g) = visit_rows-Drops channel_num 0 s in (e, f, λ c b. ground (arith, g c b))
