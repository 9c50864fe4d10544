-- ===== src/Stream/Bitstream/Failures.antt =====
-- What `open_bs` and `close_bs` leave where a device fails, and where it does not.
use avserver.Base.{
  ℕ, ℤ, pos, minus_one, ◌≡◌, refl, ◌∙◌, ap, arith, Bool, true, false, ◌||◌, leb, ltb_ℤ, Bool-cases,
  inl, inr,
}
use avserver.Stream.Types.{is_enabled, Rtspd, get_bs, channel_num, set_bs, set_av, put}
use avserver.Stream.Env.{Env, SourceParam, BsParam}
use avserver.Stream.Param.{bs_ok, source_param, main_param}
use avserver.Stream.Monad.{modify_av}
use avserver.Stream.Control.{check_bs_param, open_channel}
use avserver.Stream.Bitstream.{start_main, set_main_bs, open_bs}

module _ {W : Type 0} (env : Env W) where
  open env use {bt_num}

  -- A main stream that is marked as on is not opened.
  pub open_bs-enabled :
      (ch : ℕ) (s : Rtspd W)
      → is_enabled (get_bs s ch 0).enabled ≡ true
      → open_bs env ch 0 s ≡ (minus_one, s)
  unfolding open_bs set_main_bs check_bs_param
  open_bs-enabled ch s e = elim (Bool-cases (leb channel_num ch || leb bt_num 0)) [
    | inl r ↦ rw r
    | inr r ↦ elim (Bool-cases (bs_ok (get_bs s ch 0))) [ inl o ↦ rw (r, o, e) | inr o ↦ rw (r, o) ]
  ]

  -- The encoder opens, and refuses the parameters.
  pub record IsRefusing (s : Rtspd W) : Type 0 where
    pub opens : ltb_ℤ (env.open_enc s.world).0 (pos 0) ≡ false
    pub refuses :
        (fd : ℤ) (sp : SourceParam) (bp : BsParam) (b : Bool) (w : W)
        → ltb_ℤ (env.set_channel_param fd sp bp b w).0 (pos 0) ≡ true

  -- A main stream that could be opened.
  pub record CanOpen (s : Rtspd W) (ch : ℕ) : Type 0 where
    pub channel : leb channel_num ch ≡ false
    pub number : leb bt_num 0 ≡ false
    pub config : bs_ok (get_bs s ch 0) ≡ true
    pub off : is_enabled (get_bs s ch 0).enabled ≡ false
    pub closed : ltb_ℤ (pos 0) (s.enc ch).enc_fd ≡ false
    pub idle : is_enabled (s.enc ch).enabled ≡ false

  -- The state when the encoder has been opened.
  opened : ℕ → Rtspd W → Rtspd W
  opened ch s =
      let c = open_channel env ch s in (modify_av ch (λ a. record a { enc_fd = c.0 }) c.1).1

  check_bs_param-ok : (ch : ℕ) (s : Rtspd W) → CanOpen s ch → check_bs_param env ch 0 s ≡ (pos 0, s)
  unfolding check_bs_param
  check_bs_param-ok ch s c = rw (c.channel, c.number, c.config)

  open_channel-fd :
      (ch : ℕ) (s : Rtspd W)
      → CanOpen s ch
      → ltb_ℤ (env.open_enc s.world).0 (pos 0) ≡ false
      → ltb_ℤ (open_channel env ch s).0 (pos 0) ≡ false
  unfolding open_channel
  open_channel-fd ch s c o = rw (c.idle, o) o

  set_main_bs-start :
      (ch : ℕ) (s : Rtspd W)
      → CanOpen s ch
      → ltb_ℤ (env.open_enc s.world).0 (pos 0) ≡ false
      → set_main_bs env ch s ≡ start_main env ch (opened ch s)
  unfolding set_main_bs opened
  set_main_bs-start ch s c o =
      rw (check_bs_param-ok ch s c, c.off, c.closed, open_channel-fd ch s c o)

  start_main-refused :
      (ch : ℕ) (u : Rtspd W)
      → ((fd : ℤ) (sp : SourceParam) (bp : BsParam) (b : Bool) (w : W)
          → ltb_ℤ (env.set_channel_param fd sp bp b w).0 (pos 0) ≡ true)
      → ((start_main env ch u).0 ≡ minus_one)
        × (is_enabled (get_bs (start_main env ch u).1 ch 0).enabled ≡ true)
  unfolding start_main set_bs set_av put
  start_main-refused ch u r =
      rw (r (u.enc ch).enc_fd (source_param (u.enc ch) ch) (main_param (u.enc ch)) true u.world)
        (refl, ground arith)

  open_bs-passes :
      (ch : ℕ) (s : Rtspd W)
      → CanOpen s ch
      → (set_main_bs env ch s).0 ≡ minus_one
      → open_bs env ch 0 s ≡ (minus_one, (set_main_bs env ch s).1)
  unfolding open_bs
  open_bs-passes ch s c e = rw (c.channel, c.number, e)

  -- If a main stream that could be opened (numbers in range, a valid configuration, the stream
  -- and its channel off and no encoder open) gets an encoder that opens but refuses its
  -- parameters, open_bs returns -1, and a second call returns -1 and changes nothing: the stream
  -- stays marked as on.
  pub open_bs-retry :
      (ch : ℕ) (s : Rtspd W)
      → CanOpen s ch
      → IsRefusing s
      → let (ret, t) = open_bs env ch 0 s in
        (ret ≡ minus_one) × (open_bs env ch 0 t ≡ (minus_one, t))
  open_bs-retry ch s c r =
      let begins = set_main_bs-start ch s c r.opens in
      let (fails, on) = start_main-refused ch (opened ch s) r.refuses in
      let whole = open_bs-passes ch s c (ap (λ x. x.0) begins ∙ fails) in
      (
        ap (λ x. x.0) whole,
        open_bs-enabled ch (open_bs env ch 0 s).1 (
            ap (λ x. is_enabled (get_bs x.1 ch 0).enabled) whole
            ∙ ap (λ x. is_enabled (get_bs x.1 ch 0).enabled) begins
            ∙ on),
      )
