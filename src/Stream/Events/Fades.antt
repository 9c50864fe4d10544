-- ===== src/Stream/Events/Fades.antt =====
-- Whatever the turn, a round only drops requests.
use avserver.Base.{ℕ, zero, suc, ◌≡◌, refl, ◌∙◌, arith, Bool, true, false, if◌then◌else◌, inl, ◌⊎◌}
use avserver.Stream.Types.{Event, none, start, update, stop, Rtspd, set_av, set_bs, put}
use avserver.Stream.Env.{Env}
use avserver.Stream.Monad.{M, pure, ◌>>=◌, ◌>>◌, gets, modify_bs}
use avserver.Stream.Events.{
  for_up, with_event, serve_start, serve_update, shut, stop_down, serve_stop, serve, visit,
  serve_all,
}
use avserver.Stream.Events.Keeps.{
  event_at, SameEvents, Keeps, open_bs-Keeps, do_open-Keeps, do_close-Keeps, close_bs-Keeps,
  Keeps-gets, Keeps-pb, Keeps-pure,
}

module _ {W : Type 0} where
  -- The turn and the flag stay, and each request stays or goes.
  unfoldable pub Fading : Rtspd W → Rtspd W → Type 0
  Fading s t =
      (t.bs_event ≡ s.bs_event)
      × (t.set_event ≡ s.set_event)
      × ((ch sub : ℕ) → (event_at t ch sub ≡ event_at s ch sub) ⊎ (event_at t ch sub ≡ none))

  unfoldable pub Fades : {A : Type 0} → M W A → Type 0
  unfolding Fading
  Fades m = (s : Rtspd W) → Fading s (m s).1

  module _ {A : Type 0} where
    Fades-Keeps : (m : M W A) → Keeps m → Fades m
    unfolding Fades Fading Keeps SameEvents
    Fades-Keeps m k s = let (e, f, g) = k s in (e, f, λ ch sub. inl (g ch sub))

    Fades-if : (b : Bool) (m n : M W A) → Fades m → Fades n → Fades (if b then m else n)
    Fades-if true m n k l = k
    Fades-if false m n k l = l

    module _ {B : Type 0} where
      pub Fades-bind :
          (m : M W A) (f : A → M W B) → Fades m → ((a : A) → Fades (f a)) → Fades (m >>= f)
      unfolding Fades Fading
      Fades-bind m f k l s =
          let (e, q, r) = k s in
          let (e', q', r') = l (m s).0 (m s).1 in
          (e' ∙ e, q' ∙ q, λ ch sub. ground (arith, r ch sub, r' ch sub))

      Fades-then : (m : M W A) (n : M W B) → Fades m → Fades n → Fades (m >> n)
      Fades-then m n k l = Fades-bind m (λ _. n) k (λ _. l)

    Fades-gets : (f : Rtspd W → A) → Fades (gets f)
    Fades-gets f = Fades-Keeps (gets f) (Keeps-gets f)

module _ (W : Type 0) where
  pub Fades-event : (ch sub : ℕ) → Fades (modify_bs {W = W} ch sub (with_event none))
  unfolding Fades Fading with_event set_bs set_av put
  Fades-event ch sub s = (refl, refl, λ c b. ground arith)

  Fades-tt : Fades (pure {W = W} {A = Unit {0}} tt)
  Fades-tt = Fades-Keeps (pure tt) (Keeps-pure W tt)

module _ {W : Type 0} where
  pub Fades-for :
      (n i : ℕ) (body : ℕ → M W (Unit {0})) → ((j : ℕ) → Fades (body j)) → Fades (for_up n i body)
  unfolding for_up
  Fades-for zero i body k = Fades-tt W
  Fades-for (suc n) i body k =
      Fades-then (body i) (for_up n (suc i) body) (k i) (Fades-for n (suc i) body k)

ruleset fading =
    (Fades-if, Fades-bind, Fades-then, Fades-gets, Fades-event, Fades-tt, Fades-Keeps, Keeps-pb)

module _ {W : Type 0} (env : Env W) where
  serve_start-Fades : (ch sub : ℕ) → Fades (serve_start env ch sub)
  unfolding serve_start
  serve_start-Fades ch sub = search (fading, open_bs-Keeps, do_open-Keeps) depth 40

  serve_update-Fades : (ch sub : ℕ) → Fades (serve_update env ch sub)
  unfolding serve_update
  serve_update-Fades ch sub = search (fading, do_close-Keeps, do_open-Keeps) depth 40

  pub shut-Fades : (ch sub : ℕ) → Fades (shut env ch sub)
  unfolding shut
  shut-Fades ch sub = search (fading, do_close-Keeps, close_bs-Keeps) depth 40

  pub stop_down-Fades : (n i ch : ℕ) → Fades (stop_down env n i ch)
  unfolding stop_down
  stop_down-Fades zero i ch = Fades-tt W
  stop_down-Fades (suc n) i ch = search (fading, shut-Fades, stop_down-Fades n i ch) depth 40

  pub visit-Fades : (ev : Event) (ch sub : ℕ) → Fades (visit env ev ch sub)
  unfolding visit serve serve_stop
  visit-Fades none ch sub = search fading depth 20
  visit-Fades start ch sub = search (fading, serve_start-Fades) depth 20
  visit-Fades update ch sub = search (fading, serve_update-Fades) depth 20
  visit-Fades stop ch sub = search (fading, stop_down-Fades) depth 20

  pub serve_all-Fades : (ev : Event) → Fades (serve_all env ev)
  unfolding serve_all
  serve_all-Fades ev = search (Fades-for, visit-Fades) depth 20
