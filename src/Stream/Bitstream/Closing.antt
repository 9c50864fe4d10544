-- ===== src/Stream/Bitstream/Closing.antt =====
-- What `close_bs` leaves where the encoder obeys.
use avserver.Base.{ℕ, ◌<◌, ℤ, pos, minus_one, ◌≡◌, true, false, ◌⊎◌, ltb_ℤ}
use avserver.Stream.Types.{is_enabled, disable, Av, Rtspd, get_bs}
use avserver.Stream.Env.{Env, Command, stop}
use avserver.Stream.Monad.{modify_bs, modify_pb}
use avserver.Stream.Control.{apply_bs}
use avserver.Stream.Bitstream.{mark_disabled, clear_statistics}

module _ {W : Type 0} (env : Env W) where
  open env use {bt_num}

  -- The encoder obeys every command.
  pub record IsObeying : Type 0 where
    pub controls :
        (fd : ℤ) (c : Command) (i : ℕ) (w : W) → ltb_ℤ (env.enc_control fd c i w).0 (pos 0) ≡ false
    pub applies :
        (fd : ℤ) (ch sub : ℕ) (w : W) → ltb_ℤ (env.common_apply fd ch sub w).0 (pos 0) ≡ false

  closed_av : Av → Av
  closed_av a = record a { enc_fd = minus_one; enabled = disable }

  -- The state when the stream is marked as off.
  stopped : ℕ → ℕ → Rtspd W → Rtspd W
  stopped ch sub s =
      (modify_bs ch sub mark_disabled
        (apply_bs env ch sub stop (modify_pb ch sub (clear_statistics env) s).1).1).1

  -- Some stream of the channel is on.
  abbrev pub IsUsed : Av → Type 0
  IsUsed a = (i : ℕ) × (i < bt_num) × (is_enabled (a.bs i).video.enabled ≡ true)

  -- What a successful close leaves: the stream is off, and where no other stream of the channel is
  -- on, so is the channel.
  unfoldable pub Closes : ℕ → ℕ → ℤ × Rtspd W → Type 0
  Closes ch sub r =
      (r.0 ≡ pos 0)
      × (is_enabled (get_bs r.1 ch sub).video.enabled ≡ false)
      × (IsUsed (r.1.enc ch)
          ⊎ (((i : ℕ) → i < bt_num → is_enabled ((r.1.enc ch).bs i).video.enabled ≡ false)
              × (is_enabled (r.1.enc ch).enabled ≡ false)
              × ((r.1.enc ch).enc_fd ≡ minus_one)))
