-- ===== src/Stream/Events/Rounds.antt =====
-- What `bs_new_event` does in a round, and over rounds.
use avserver.Base.{
  ℕ, zero, suc, ◌+◌, ◌<◌, ◌≤◌, ◌≡◌, ◌≢◌, refl, sym, ◌∙◌, ap, arith, Bool, true, false, not,
  if◌then◌else◌, ◌==◌, Bool-cases, inl, inr, ◌⊎◌,
}
use mathlib.Core.Path.{subst}
use avserver.Stream.Types.{Event, none, start, update, stop, event_eq, Avbs, Av, Rtspd, channel_num}
use avserver.Stream.Env.{Env}
use avserver.Stream.Monad.{M}
use avserver.Stream.Events.{
  any_below, any_bs, for_up, bs_check_event, bs_check_event_type, is_live, serve_update, serve,
  visit, serve_all, next_turn, bs_new_event,
}
use avserver.Stream.Events.Keeps.{event_at}
use avserver.Stream.Events.Serve.{Drops, serve_all-start-Drops}
use avserver.Stream.Events.Fades.{Fading, Fades, serve_all-Fades}

any_below-false : (n i : ℕ) (t : ℕ → Bool) → any_below n t ≡ false → i < n → t i ≡ false
unfolding any_below
any_below-false zero i t e lt = elim lt [ ]
any_below-false (suc n) i t e lt = elim (Bool-cases (i == n)) [
  | inl here ↦ ground arith
  | inr away ↦ any_below-false n i t (ground arith) (ground arith)
]

any_below-none : (n : ℕ) (t : ℕ → Bool) → ((i : ℕ) → i < n → t i ≡ false) → any_below n t ≡ false
unfolding any_below
any_below-none zero t h = refl
any_below-none (suc n) t h =
    ground (arith, h n (omega arith), any_below-none n t (λ i lt. h i (omega arith)))

-- No bitstream of the device passes the test.
pub any_bs-false :
    (bt ch sub : ℕ) (enc : ℕ → Av) (t : Avbs → Bool)
    → any_bs bt enc t ≡ false
    → ch < channel_num
    → sub < bt
    → t ((enc ch).bs sub) ≡ false
unfolding any_bs
any_bs-false bt ch sub enc t e c b =
    any_below-false bt sub (λ i. t ((enc ch).bs i))
      (any_below-false channel_num ch (λ j. any_below bt (λ i. t ((enc j).bs i))) e c) b

pub any_bs-none :
    (bt : ℕ) (enc : ℕ → Av) (t : Avbs → Bool)
    → ((ch sub : ℕ) → ch < channel_num → sub < bt → t ((enc ch).bs sub) ≡ false)
    → any_bs bt enc t ≡ false
unfolding any_bs
any_bs-none bt enc t h =
    any_below-none channel_num (λ j. any_below bt (λ i. t ((enc j).bs i)))
      (λ j c. any_below-none bt (λ i. t ((enc j).bs i)) (λ i b. h j i c b))

module _ {W : Type 0} (env : Env W) where
  open env use {bt_num}

  -- The state after a round when something waits, by the turn.
  abbrev pub after_round : Event → Rtspd W → Rtspd W
  after_round ev s =
      let t : Rtspd W = (serve_all env ev s).1 in
      record t { bs_event = if bs_check_event_type env ev t then ev else next_turn ev }

  pub bs_new_event-busy :
      (ev : Event) (s : Rtspd W)
      → bs_check_event env s ≡ true
      → s.bs_event ≡ ev
      → (bs_new_event env s).1 ≡ after_round ev s
  unfolding bs_new_event
  bs_new_event-busy ev s e turn = subst (λ x. (bs_new_event env s).1 ≡ after_round x s) turn here
    where
      here : (bs_new_event env s).1 ≡ after_round s.bs_event s
      here = rw e

  starts_done : (s : Rtspd W) → bs_check_event_type env start (serve_all env start s).1 ≡ false
  unfolding bs_check_event_type Drops
  starts_done s =
      let t : Rtspd W = (serve_all env start s).1 in
      let (_, _, gone) = serve_all-start-Drops env s in
      any_bs-none bt_num t.enc (λ b. event_eq b.event start)
        (λ ch sub c b. ground (arith, gone ch sub))

  -- If a request waits and the turn is that of the starts, one call of bs_new_event serves every
  -- start: at each bitstream of the device a start is gone and any other request is as before.
  -- The turn passes to the stops, and the flag that calls the loop stays.
  pub start_round :
      (s : Rtspd W)
      → bs_check_event env s ≡ true
      → s.bs_event ≡ start
      → let t = (bs_new_event env s).1 in
        ((ch sub : ℕ)
          → ch < channel_num
          → sub < bt_num
          → event_at t ch sub
            ≡ (if event_eq (event_at s ch sub) start then none else event_at s ch sub))
        × (t.bs_event ≡ stop)
        × (t.set_event ≡ s.set_event)
  unfolding Drops next_turn
  start_round s e turn =
      let (_, flag, gone) = serve_all-start-Drops env s in
      rw (bs_new_event-busy start s e turn, starts_done s)
        ((λ ch sub c b. ground (arith, gone ch sub)), refl, flag)

  -- Whatever the state, a call of bs_new_event leaves the request of each bitstream as it was or
  -- takes it away: it makes none.
  pub round-fades :
      (s : Rtspd W) (ch sub : ℕ)
      → let t = (bs_new_event env s).1 in
        (event_at t ch sub ≡ event_at s ch sub) ⊎ (event_at t ch sub ≡ none)
  unfolding bs_new_event Fades Fading
  round-fades s ch sub = elim (Bool-cases (bs_check_event env s)) [
    | inl e ↦ rw e ((serve_all-Fades env s.bs_event s).2 ch sub)
    | inr e ↦ rw e (inl refl)
  ]

  -- A visit for an event that the bitstream does not ask for.
  for_up-still :
      (n i : ℕ) (body : ℕ → M W (Unit {0})) (s : Rtspd W)
      → ((j : ℕ) → j < i + n → body j s ≡ (tt, s))
      → for_up n i body s ≡ (tt, s)
  unfolding for_up
  for_up-still zero i body s h = refl
  for_up-still (suc n) i body s h =
      rw (h i (omega arith)) (for_up-still n (suc i) body s (λ j lt. h j (omega arith)))

  pub serve_all-still :
      (ev : Event) (s : Rtspd W)
      → ((ch sub : ℕ) → ch < channel_num → sub < bt_num → visit env ev ch sub s ≡ (tt, s))
      → serve_all env ev s ≡ (tt, s)
  unfolding serve_all
  serve_all-still ev s h =
      for_up-still channel_num 0 (λ ch. for_up bt_num 0 (λ sub. visit env ev ch sub)) s
        (λ ch c.
          for_up-still bt_num 0 (λ sub. visit env ev ch sub) s
            (λ sub b. h ch sub (omega arith) (omega arith)))

  visit-other :
      (ev : Event) (ch sub : ℕ) (s : Rtspd W)
      → event_eq (event_at s ch sub) ev ≡ false
      → visit env ev ch sub s ≡ (tt, s)
  unfolding visit
  visit-other ev ch sub s e = rw e

  -- With requests, but none of the kind whose turn it is, a round only passes the turn on.
  pub idle_round :
      (s : Rtspd W)
      → bs_check_event env s ≡ true
      → bs_check_event_type env s.bs_event s ≡ false
      → bs_new_event env s ≡ (tt, record s { bs_event = next_turn s.bs_event })
  unfolding bs_new_event bs_check_event_type
  idle_round s e n = rw (
    e,
    serve_all-still s.bs_event s (λ ch sub c b.
        visit-other s.bs_event ch sub s
          (any_bs-false bt_num ch sub s.enc (λ x. event_eq x.event s.bs_event) n c b)),
    n,
  )

  -- An update of a stream without a queue.
  visit-stuck :
      (ch sub : ℕ) (s : Rtspd W)
      → (event_at s ch sub ≡ update → is_live env ch sub s ≡ false)
      → visit env update ch sub s ≡ (tt, s)
  unfolding visit serve serve_update
  visit-stuck ch sub s h = elim (Bool-cases (event_eq (event_at s ch sub) update)) [
    | inl e ↦ rw (e, h (event_eq-update (event_at s ch sub) e))
    | inr e ↦ rw e
  ]
    where
      event_eq-update : (ev : Event) → event_eq ev update ≡ true → ev ≡ update
      event_eq-update none e = absurd (cc)
      event_eq-update start e = absurd (cc)
      event_eq-update update e = refl
      event_eq-update stop e = absurd (cc)

  round-still :
      (s : Rtspd W)
      → bs_check_event env s ≡ true
      → serve_all env s.bs_event s ≡ (tt, s)
      → bs_check_event_type env s.bs_event s ≡ true
      → bs_new_event env s ≡ (tt, s)
  unfolding bs_new_event
  round-still s e still waits = rw (e, still, waits)

  -- At the turn of the updates, if an update waits and each update is for a bitstream whose
  -- queue number is negative, a call of bs_new_event changes nothing at all: the turn never
  -- passes on, and starts and stops wait behind it.
  pub update_round-stuck :
      (s : Rtspd W)
      → bs_check_event env s ≡ true
      → s.bs_event ≡ update
      → bs_check_event_type env update s ≡ true
      → ((ch sub : ℕ) → event_at s ch sub ≡ update → is_live env ch sub s ≡ false)
      → bs_new_event env s ≡ (tt, s)
  update_round-stuck s e turn waits h =
      round-still s e
        (subst (λ x. serve_all env x s ≡ (tt, s)) (sym turn)
          (serve_all-still update s (λ ch sub c b. visit-stuck ch sub s (h ch sub))))
        (subst (λ x. bs_check_event_type env x s ≡ true) (sym turn) waits)

  waiting :
      (s : Rtspd W) (ch sub : ℕ)
      → ch < channel_num
      → sub < bt_num
      → event_at s ch sub ≡ start
      → bs_check_event env s ≡ true
  unfolding bs_check_event
  waiting s ch sub c b e = elim (Bool-cases (bs_check_event env s)) [
    | inl w ↦ w
    | inr n ↦
        let off = any_bs-false bt_num ch sub s.enc (λ x. not (event_eq x.event none)) n c b in
        absurd (ground (arith, off))
  ]

  -- That many rounds.
  unfoldable pub rounds : ℕ → Rtspd W → Rtspd W
  rounds zero s = s
  rounds (suc n) s = rounds n (bs_new_event env s).1

  -- If no stop and no update waits and the turn is not none, a start that waits at an existing
  -- bitstream is gone after at most three calls of bs_new_event, whatever the turn.
  pub start_served :
      (s : Rtspd W) (ch sub : ℕ)
      → s.bs_event ≢ none
      → bs_check_event_type env stop s ≡ false
      → bs_check_event_type env update s ≡ false
      → ch < channel_num
      → sub < bt_num
      → event_at s ch sub ≡ start
      → (k : ℕ) × (k ≤ 3) × (event_at (rounds k s) ch sub ≡ none)
  unfolding rounds next_turn bs_check_event_type
  start_served s ch sub turn stops updates c b e = by_turn s.bs_event refl
    where
      waits : bs_check_event env s ≡ true
      waits = waiting s ch sub c b e

      -- The request in a state that differs from `s` by its turn.
      once :
          (t : Rtspd W)
          → t.enc ≡ s.enc
          → t.bs_event ≡ start
          → event_at (bs_new_event env t).1 ch sub ≡ none
      once t same r =
          let asked : event_at t ch sub ≡ start = ap (λ x. ((x ch).bs sub).event) same ∙ e in
          let (gone, _, _) = start_round t (waiting t ch sub c b asked) r in
          ground (arith, gone ch sub)

      pass :
          (t : Rtspd W) (ev : Event)
          → t.enc ≡ s.enc
          → t.bs_event ≡ ev
          → bs_check_event_type env ev t ≡ false
          → bs_new_event env t ≡ (tt, record t { bs_event = next_turn ev })
      pass t ev same r none_left =
          subst (λ x. bs_new_event env t ≡ (tt, record t { bs_event = next_turn x })) r
            (idle_round t (waiting t ch sub c b (ap (λ x. ((x ch).bs sub).event) same ∙ e))
              (subst (λ x. bs_check_event_type env x t ≡ false) (sym r) none_left))

      from_update : s.bs_event ≡ update → event_at (rounds 2 s) ch sub ≡ none
      from_update r =
          ap (λ t. event_at (rounds 1 t.1) ch sub) (pass s update refl r updates)
          ∙ once (record s { bs_event = start }) refl refl

      from_stop : s.bs_event ≡ stop → event_at (rounds 3 s) ch sub ≡ none
      from_stop r =
          ap (λ t. event_at (rounds 2 t.1) ch sub) (pass s stop refl r stops)
          ∙ ap (λ t. event_at (rounds 1 t.1) ch sub)
              (pass (record s { bs_event = update }) update refl refl updates)
          ∙ once (record s { bs_event = start }) refl refl

      by_turn :
          (ev : Event) → s.bs_event ≡ ev → (k : ℕ) × (k ≤ 3) × (event_at (rounds k s) ch sub ≡ none)
      by_turn none r = absurd (turn r)
      by_turn start r = (1, omega arith, once s refl r)
      by_turn update r = (2, omega arith, from_update r)
      by_turn stop r = (3, omega arith, from_stop r)
