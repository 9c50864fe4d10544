-- ===== src/Stream/Monad.antt =====
-- Commands on the state of the streams.
use avserver.Base.{ℕ}
use avserver.Stream.Types.{Avbs, PrivAvbs, Av, Rtspd, set_av, set_bs, set_pb}

abbrev pub M : Type 0 → Type 0 → Type 0
M W A = Rtspd W → A × Rtspd W

module _ {W A : Type 0} where
  abbrev pub pure : A → M W A
  pure a s = (a, s)

  module _ {B : Type 0} where
    infixl 5 ◌>>=◌ ◌>>◌
    abbrev pub ◌>>=◌ : M W A → (A → M W B) → M W B
    ◌>>=◌ m f s = f (m s).0 (m s).1

    abbrev pub ◌>>◌ : M W A → M W B → M W B
    ◌>>◌ m n s = n (m s).1

  -- A call of the world.
  abbrev pub call : (W → A × W) → M W A
  call f s = let r = f s.world in (r.0, record s { world = r.1 })

module _ {W : Type 0} where
  abbrev pub gets : {A : Type 0} → (Rtspd W → A) → M W A
  gets f s = (f s, s)

  abbrev pub modify : (Rtspd W → Rtspd W) → M W (Unit {0})
  modify f s = (tt, f s)

  abbrev pub effect : (W → W) → M W (Unit {0})
  effect f s = (tt, record s { world = f s.world })

  abbrev pub get_av : ℕ → M W Av
  get_av ch s = (s.enc ch, s)

  abbrev pub modify_av : ℕ → (Av → Av) → M W (Unit {0})
  modify_av ch f s = (tt, set_av ch (f (s.enc ch)) s)

  abbrev pub modify_bs : ℕ → ℕ → (Avbs → Avbs) → M W (Unit {0})
  modify_bs ch sub f s = (tt, set_bs ch sub (f ((s.enc ch).bs sub)) s)

  abbrev pub modify_pb : ℕ → ℕ → (PrivAvbs → PrivAvbs) → M W (Unit {0})
  modify_pb ch sub f s = (tt, set_pb ch sub (f ((s.enc ch).priv_bs sub)) s)
