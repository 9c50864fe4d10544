-- ===== src/Stream/Events/Requests.antt =====
-- What `env_set_bs_new_event` accepts and refuses.
use avserver.Base.{
  ℕ, zero, suc, ℤ, pos, pos_part, ◌≡◌, refl, arith, true, false, ◌&&◌, if◌then◌else◌, ◌==◌,
  Bool-cases, inl, inr, ◌⊎◌, eqb_ℤ,
}
use avserver.Stream.Types.{
  Event, none, start, update, stop, event_eq, is_enabled, opt_none, Rtspd, get_bs, set_bs, set_av,
  put,
}
use avserver.Stream.Env.{Env}
use avserver.Stream.Control.{in_range}
use avserver.Stream.Events.{
  with_event, is_bs_all_disable, to_event, judge, submit, env_set_bs_new_event,
}
use avserver.Stream.Events.Keeps.{event_at}

module _ {W : Type 0} (env : Env W) where
  open env use {bt_num}

  -- The requests that make sense: a start of a stream that has a use and is off, an update, a stop
  -- of a sub-stream that is on, and a stop of a whole channel while anything is on.
  pub data Wanted (s : Rtspd W) (ch : ℕ) : ℕ → Event → Type 0 where
    starts :
        {sub : ℕ}
        → eqb_ℤ (get_bs s ch sub).opt_type opt_none ≡ false
        → is_enabled (get_bs s ch sub).enabled ≡ false
        → Wanted s ch sub start
    updates : {sub : ℕ} → Wanted s ch sub update
    stops_all : is_bs_all_disable env s ≡ false → Wanted s ch 0 stop
    stops_one :
        {sub : ℕ} → is_enabled (get_bs s ch (suc sub)).enabled ≡ true → Wanted s ch (suc sub) stop

  judge-Wanted :
      (s : Rtspd W) (ch sub : ℕ) (ev : Event)
      → Wanted s ch sub ev
      → judge env ch sub ev s ≡ (pos 0, ev)
  unfolding judge
  judge-Wanted s ch sub none w = elim w [ ]
  judge-Wanted s ch sub start (starts o d) = rw (o, d)
  judge-Wanted s ch sub update updates = refl
  judge-Wanted s ch zero stop (stops_all a) = rw a
  judge-Wanted s ch (suc sub) stop (stops_one a) = ground arith

  Wanted-some :
      (s : Rtspd W) (ch sub : ℕ) (ev : Event) → Wanted s ch sub ev → event_eq ev none ≡ false
  Wanted-some s ch sub none w = elim w [ ]
  Wanted-some s ch sub start (starts o d) = refl
  Wanted-some s ch sub update updates = refl
  Wanted-some s ch sub stop w = refl

  -- What an accepted request leaves.
  unfoldable pub Records : Rtspd W → ℕ → ℕ → Event → ℤ × Rtspd W → Type 0
  Records s ch sub ev r =
      (r.0 ≡ pos 0)
      × (r.1.set_event ≡ true)
      × (r.1.bs_event ≡ s.bs_event)
      × ((c b : ℕ) → event_at r.1 c b ≡ (if (c == ch) && (b == sub) then ev else event_at s c b))

  submit-Records :
      (s : Rtspd W) (ch sub : ℕ) (ev : Event)
      → event_eq ev none ≡ false
      → Records s ch sub ev (submit env ch sub (pos 0, ev) s)
  unfolding Records submit with_event set_bs set_av put
  submit-Records s ch sub ev e = rw e (refl, refl, refl, λ c b. ground arith)

  -- For channel and bitstream numbers in range, a request that makes sense (a start of a stream
  -- that has a use and is off, an update, a stop of a sub-stream that is on, a stop of a main
  -- stream while anything is on) returns 0, raises the flag for the loop, keeps the turn, and is
  -- recorded at its bitstream and at no other.
  pub env_set-accepts :
      (s : Rtspd W) (ch sub event : ℤ)
      → in_range bt_num ch sub ≡ true
      → Wanted s (pos_part ch) (pos_part sub) (to_event event)
      → Records s
          (pos_part ch)
          (pos_part sub)
          (to_event event)
          (env_set_bs_new_event env ch sub event s)
  unfolding env_set_bs_new_event
  env_set-accepts s ch sub event r w =
      rw (r, judge-Wanted s (pos_part ch) (pos_part sub) (to_event event) w)
        (submit-Records s (pos_part ch) (pos_part sub) (to_event event)
          (Wanted-some s (pos_part ch) (pos_part sub) (to_event event) w))

  refused :
      (s : Rtspd W) (ch sub : ℕ) (ev : Event)
      → ¬ Wanted s ch sub ev
      → (judge env ch sub ev s).1 ≡ none
  unfolding judge
  refused s ch sub none n = refl
  refused s ch sub start n = elim (Bool-cases (eqb_ℤ (get_bs s ch sub).opt_type opt_none)) [
    | inl e ↦ rw e
    | inr e ↦ elim (Bool-cases (is_enabled (get_bs s ch sub).enabled)) [
      | inl f ↦ rw (e, f)
      | inr f ↦ absurd (n (starts e f))
    ]
  ]
  refused s ch sub update n = absurd (n updates)
  refused s ch zero stop n = elim (Bool-cases (is_bs_all_disable env s)) [
    | inl e ↦ rw e
    | inr e ↦ absurd (n (stops_all e))
  ]
  refused s ch (suc sub) stop n = elim (Bool-cases (is_enabled (get_bs s ch (suc sub)).enabled)) [
    | inl e ↦ absurd (n (stops_one e))
    | inr e ↦ ground arith
  ]

  -- A request with numbers out of range, or that does not make sense in the current state,
  -- leaves the whole state as it was.
  pub env_set-refuses :
      (s : Rtspd W) (ch sub event : ℤ)
      → (in_range bt_num ch sub ≡ false)
        ⊎ (¬ Wanted s (pos_part ch) (pos_part sub) (to_event event))
      → (env_set_bs_new_event env ch sub event s).1 ≡ s
  unfolding env_set_bs_new_event submit
  env_set-refuses s ch sub event (inl r) = rw r
  env_set-refuses s ch sub event (inr n) = elim (Bool-cases (in_range bt_num ch sub)) [
    | inl r ↦ rw (r, refused s (pos_part ch) (pos_part sub) (to_event event) n)
    | inr r ↦ rw r
  ]
