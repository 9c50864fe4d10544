-- ===== src/Stream/Events/Keeps.antt =====
-- Commands that leave the requests and the turn alone: all but those of `Events` itself.
use avserver.Base.{ℕ, zero, suc, ◌+◌, ◌≡◌, refl, ◌∙◌, ap, arith, Bool, true, false, if◌then◌else◌}
use avserver.Stream.Types.{Event, Avbs, PrivAvbs, Av, Rtspd, get_bs, set_av, set_bs, set_pb, put}
use avserver.Stream.Events.{do_open, do_close}
use avserver.Stream.Env.{Env, Command}
use avserver.Stream.Monad.{
  M, pure, ◌>>=◌, ◌>>◌, call, gets, effect, modify_av, modify_bs, modify_pb,
}
use avserver.Stream.Control.{
  check_bs_param, apply_bs, open_channel, close_channel, query_offsets, set_bs_buf,
}
use avserver.Stream.Bitstream.{
  start_main, set_main_bs, set_sub_bs, open_live_streaming, close_live_streaming, open_bs, close_bs,
}

module _ {W : Type 0} where
  abbrev pub event_at : Rtspd W → ℕ → ℕ → Event
  event_at s ch sub = (get_bs s ch sub).event

  unfoldable pub SameEvents : Rtspd W → Rtspd W → Type 0
  SameEvents s t =
      (t.bs_event ≡ s.bs_event)
      × (t.set_event ≡ s.set_event)
      × ((ch sub : ℕ) → event_at t ch sub ≡ event_at s ch sub)

  unfoldable pub Keeps : {A : Type 0} → M W A → Type 0
  unfolding SameEvents
  Keeps m = (s : Rtspd W) → SameEvents s (m s).1

  module _ {A : Type 0} where
    pub Keeps-gets : (f : Rtspd W → A) → Keeps (gets f)
    unfolding Keeps SameEvents
    Keeps-gets f s = (refl, refl, λ ch sub. refl)

    Keeps-call : (f : W → A × W) → Keeps (call f)
    unfolding Keeps SameEvents
    Keeps-call f s = (refl, refl, λ ch sub. refl)

    Keeps-if : (b : Bool) (m n : M W A) → Keeps m → Keeps n → Keeps (if b then m else n)
    Keeps-if true m n k l = k
    Keeps-if false m n k l = l

    module _ {B : Type 0} where
      Keeps-bind : (m : M W A) (f : A → M W B) → Keeps m → ((a : A) → Keeps (f a)) → Keeps (m >>= f)
      unfolding Keeps SameEvents
      Keeps-bind m f k l s =
          let (e, q, r) = k s in
          let (e', q', r') = l (m s).0 (m s).1 in (e' ∙ e, q' ∙ q, λ ch sub. r' ch sub ∙ r ch sub)

      Keeps-then : (m : M W A) (n : M W B) → Keeps m → Keeps n → Keeps (m >> n)
      Keeps-then m n k l = Keeps-bind m (λ _. n) k (λ _. l)

  Keeps-effect : (f : W → W) → Keeps (effect f)
  unfolding Keeps SameEvents
  Keeps-effect f s = (refl, refl, λ ch sub. refl)

module _ (W : Type 0) where
  pub Keeps-pure : {A : Type 0} (a : A) → Keeps (pure {W = W} a)
  unfolding Keeps SameEvents
  Keeps-pure a s = (refl, refl, λ ch sub. refl)

  pub Keeps-pb : (ch sub : ℕ) (f : PrivAvbs → PrivAvbs) → Keeps (modify_pb {W = W} ch sub f)
  unfolding Keeps SameEvents set_pb set_av put
  Keeps-pb ch sub f s = (refl, refl, λ c b. ground arith)

  Keeps-av :
      (ch : ℕ) (f : Av → Av)
      → ((a : Av) (sub : ℕ) → ((f a).bs sub).event ≡ (a.bs sub).event)
      → Keeps (modify_av {W = W} ch f)
  unfolding Keeps SameEvents set_av put
  Keeps-av ch f k s = (refl, refl, λ c b. ground (arith, k (s.enc ch) b))

  Keeps-bs :
      (ch sub : ℕ) (f : Avbs → Avbs)
      → ((b : Avbs) → (f b).event ≡ b.event)
      → Keeps (modify_bs {W = W} ch sub f)
  unfolding Keeps SameEvents set_bs set_av put
  Keeps-bs ch sub f k s = (refl, refl, λ c b. ground (arith, k ((s.enc ch).bs sub)))

ruleset keeps =
    (Keeps-pure, Keeps-gets, Keeps-call, Keeps-if, Keeps-effect, Keeps-pb, Keeps-bind, Keeps-then)

module _ {W : Type 0} (env : Env W) where
  apply_bs-Keeps : (ch sub : ℕ) (command : Command) → Keeps (apply_bs env ch sub command)
  unfolding apply_bs
  apply_bs-Keeps ch sub command = search keeps depth 20

  check_bs_param-Keeps : (ch sub : ℕ) → Keeps (check_bs_param env ch sub)
  unfolding check_bs_param
  check_bs_param-Keeps ch sub = search keeps depth 20

  open_live_streaming-Keeps : (ch sub : ℕ) → Keeps (open_live_streaming env ch sub)
  unfolding open_live_streaming
  open_live_streaming-Keeps ch sub = search keeps depth 40

  close_live_streaming-Keeps : (ch sub : ℕ) → Keeps (close_live_streaming env ch sub)
  unfolding close_live_streaming
  close_live_streaming-Keeps ch sub = search keeps depth 40

  Keeps-fields :
      (ch : ℕ) (f : Av → Av) → ((a : Av) → (f a).bs ≡ a.bs) → Keeps (modify_av {W = W} ch f)
  Keeps-fields ch f k = Keeps-av W ch f (λ a sub. ap (λ b. (b sub).event) (k a))

  Keeps-bs_field :
      (ch sub : ℕ) (f : Avbs → Avbs)
      → ((b : Avbs) → (f b).event ≡ b.event)
      → Keeps (modify_bs {W = W} ch sub f)
  Keeps-bs_field ch sub f k = Keeps-bs W ch sub f k

  open_channel-Keeps : (ch : ℕ) → Keeps (open_channel env ch)
  unfolding open_channel
  open_channel-Keeps ch = search (keeps, Keeps-fields) depth 40

  close_channel-Keeps : (ch : ℕ) → Keeps (close_channel env ch)
  unfolding close_channel SameEvents Keeps
  close_channel-Keeps ch = search (keeps, Keeps-fields) depth 40

  query_offsets-Keeps : (n i ch : ℕ) → Keeps (query_offsets env n i ch)
  unfolding query_offsets
  query_offsets-Keeps zero i ch = search keeps
  query_offsets-Keeps (suc n) i ch = search (keeps, query_offsets-Keeps n (i + 1) ch) depth 40

  set_bs_buf-Keeps : (ch : ℕ) → Keeps (set_bs_buf env ch)
  unfolding set_bs_buf SameEvents Keeps
  set_bs_buf-Keeps ch = search (keeps, Keeps-fields, query_offsets-Keeps) depth 60 fits 2000

  start_main-Keeps : (ch : ℕ) → Keeps (start_main env ch)
  unfolding start_main
  start_main-Keeps ch = search (keeps, Keeps-bs_field, set_bs_buf-Keeps) depth 60 fits 2000

  set_main_bs-Keeps : (ch : ℕ) → Keeps (set_main_bs env ch)
  unfolding set_main_bs
  set_main_bs-Keeps ch =
      search (keeps, Keeps-fields, start_main-Keeps, open_channel-Keeps, check_bs_param-Keeps) depth
        60 fits 2000

  set_sub_bs-Keeps : (ch sub : ℕ) → Keeps (set_sub_bs env ch sub)
  unfolding set_sub_bs
  set_sub_bs-Keeps ch sub = search (keeps, Keeps-bs_field, check_bs_param-Keeps) depth 60 fits 2000

  -- Opening a bitstream, whatever its result, leaves the requests alone.
  pub open_bs-Keeps : (ch sub : ℕ) → Keeps (open_bs env ch sub)
  unfolding open_bs
  open_bs-Keeps ch sub =
      search (keeps, set_main_bs-Keeps, set_sub_bs-Keeps, apply_bs-Keeps) depth 60 fits 2000

  pub close_bs-Keeps : (ch sub : ℕ) → Keeps (close_bs env ch sub)
  unfolding close_bs
  close_bs-Keeps ch sub =
      search (keeps, Keeps-bs_field, close_channel-Keeps, apply_bs-Keeps) depth 60 fits 2000

  pub do_open-Keeps : (ch sub : ℕ) → Keeps (do_open env ch sub)
  unfolding do_open
  do_open-Keeps ch sub = search (keeps, open_live_streaming-Keeps) depth 40

  pub do_close-Keeps : (ch sub : ℕ) → Keeps (do_close env ch sub)
  unfolding do_close
  do_close-Keeps ch sub = search (keeps, close_live_streaming-Keeps) depth 40
