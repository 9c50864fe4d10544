-- ===== src/Isp/Laws.antt =====
-- What the functions of src/isp.c do to the registers of a device that keeps its driver's contract.
use avserver.Base.{
  ℕ, ◌≤ℤ◌, ◌≡◌, refl, ap, ◌∙◌, ◌⊎◌, inl, inr, arith, ℤ, pos, minus_one, ◌&&◌, Bool, true, false,
  ltb_ℤ, leb_ℤ, ◌==◌, if◌then◌else◌, Bool-cases,
}
use mathlib.Core.Path.{ap₂}
use avserver.Isp.{Reg, State, Device, pure, failed, get, set, any, adjust}
use avserver.Isp.Image.{is_byte, below_six, not_negative}
use avserver.Isp.Balance.{freeze_ok, adjust_ae_speed, adjust_awb_speed}
use avserver.Isp.Controls.{Control, reg, run}

-- The contract of the driver: it keeps a value at each address, and `code` gives the address of a
-- register. Reading changes none and returns the value, writing changes one, and a call that fails
-- changes none.
pub record HasRegisters {W : Type 0} (dev : Device W) (code : Reg → ℕ) (read : W → ℕ → ℤ)
    : Type 0 where
  pub get-read : (fd : ℤ) (r : Reg) (w : W) (q : ℕ) → read (dev.ioc_get fd r w).2 q ≡ read w q
  pub get-value :
      (fd : ℤ) (r : Reg) (w : W)
      → failed (dev.ioc_get fd r w).0 ≡ false
      → (dev.ioc_get fd r w).1 ≡ read w (code r)
  pub set-read :
      (fd : ℤ) (r : Reg) (val : ℤ) (w : W) (q : ℕ)
      → failed (dev.ioc_set fd r val w).0 ≡ false
      → read (dev.ioc_set fd r val w).1 q ≡ (if q == code r then val else read w q)
  pub set-failed :
      (fd : ℤ) (r : Reg) (val : ℤ) (w : W) (q : ℕ)
      → failed (dev.ioc_set fd r val w).0 ≡ true
      → read (dev.ioc_set fd r val w).1 q ≡ read w q

-- The arguments that the functions accept. The test of freeze_seg refuses none.
unfoldable pub Accepts : Control → ℤ → Type 0
Accepts Control.brightness v = (pos 0 ≤ℤ v) × (v ≤ℤ pos 255)
Accepts Control.contrast v = (pos 0 ≤ℤ v) × (v ≤ℤ pos 255)
Accepts Control.hue v = (pos 0 ≤ℤ v) × (v ≤ℤ pos 255)
Accepts Control.saturation v = (pos 0 ≤ℤ v) × (v ≤ℤ pos 255)
Accepts Control.shapness v = (pos 0 ≤ℤ v) × (v ≤ℤ pos 255)
Accepts Control.gamma v = (pos 0 ≤ℤ v) × (v ≤ℤ pos 5)
Accepts Control.scene_mode v = (pos 0 ≤ℤ v) × (v ≤ℤ pos 5)
Accepts Control.ce_intensity v = pos 0 ≤ℤ v
Accepts _ v = Unit {0}

-- Reading the register fails, or writing it after that.
unfoldable pub Breaks : {W : Type 0} → Device W → Reg → ℤ → State W → Type 0
Breaks dev r val s =
    (failed (dev.ioc_get s.isp_fd r s.world).0 ≡ true)
    ⊎ (failed (dev.ioc_set s.isp_fd r val (dev.ioc_get s.isp_fd r s.world).2).0 ≡ true)

-- A result and the registers after a call with a value, where `A` says that it is accepted: done,
-- and the value stands in its register; or failed, because the value is refused or the device
-- fails. No other register has changed.
unfoldable pub Adjusts :
    {W : Type 0}
    → Device W
    → (Reg → ℕ)
    → (W → ℕ → ℤ)
    → Reg
    → Type 0
    → ℤ
    → State W
    → ℤ × State W
    → ℕ
    → Type 0
Adjusts dev code read r A val s res q =
    ((failed res.0 ≡ false)
      × A
      × (read res.1.world q ≡ (if q == code r then val else read s.world q)))
    ⊎ ((failed res.0 ≡ true) × (read res.1.world q ≡ read s.world q) × (¬ A ⊎ Breaks dev r val s))

get-Breaks :
    {W : Type 0} (dev : Device W) (r : Reg) (val : ℤ) (s : State W)
    → failed (dev.ioc_get s.isp_fd r s.world).0 ≡ true
    → Breaks dev r val s
unfolding Breaks
get-Breaks dev r val s e = inl e

set-Breaks :
    {W : Type 0} (dev : Device W) (r : Reg) (val : ℤ) (s : State W)
    → failed (dev.ioc_set s.isp_fd r val (dev.ioc_get s.isp_fd r s.world).2).0 ≡ true
    → Breaks dev r val s
unfolding Breaks
set-Breaks dev r val s e = inr e

same_address : (read : ℕ → ℤ) (q c : ℕ) → (if q == c then read c else read q) ≡ read q
same_address read q c = elim (Bool-cases (q == c)) [
  | inl e ↦ rw e (ap read (ground arith))
  | inr e ↦ rw e
]

module _ {W : Type 0} {dev : Device W} {code : Reg → ℕ} {read : W → ℕ → ℤ}
    (h : HasRegisters dev code read) where
  open h use {get-read, get-value, set-read, set-failed}

  -- The part after the old value has been read, with the outcome of the test.
  choose-Adjusts :
      (b : Bool) (r : Reg) (A : Type 0) (val : ℤ) (s : State W) (q : ℕ)
      → (b ≡ true → A)
      → (b ≡ false → ¬ A)
      → read (get dev r s).1.world q ≡ read s.world q
      → Adjusts dev code read r A val s
          ((if b then set dev r val else pure minus_one) (get dev r s).1)
          q
  unfolding Adjusts
  choose-Adjusts true r A val s q acc ref e =
      let w : W = (dev.ioc_get s.isp_fd r s.world).2 in
      elim (Bool-cases (failed (dev.ioc_set s.isp_fd r val w).0)) [
        | inl bad ↦
            inr (bad, set-failed s.isp_fd r val w q bad ∙ e, inr (set-Breaks dev r val s bad))
        | inr good ↦ inl (
          good,
          acc refl,
          set-read s.isp_fd r val w q good ∙ ap (λ v. if q == code r then val else v) e,
        )
      ]
  choose-Adjusts false r A val s q acc ref e = inr (refl, e, inl (ref refl))

  adjust-Adjusts :
      (r : Reg) (accepts : ℤ → Bool) (A : Type 0) (val : ℤ) (s : State W) (q : ℕ)
      → (accepts val ≡ true → A)
      → (accepts val ≡ false → ¬ A)
      → Adjusts dev code read r A val s (adjust dev r accepts val s) q
  unfolding Adjusts adjust
  adjust-Adjusts r accepts A val s q acc ref =
      let kept : read (dev.ioc_get s.isp_fd r s.world).2 q ≡ read s.world q =
        get-read s.isp_fd r s.world q in
      elim (Bool-cases (failed (dev.ioc_get s.isp_fd r s.world).0)) [
        | inl bad ↦ rw bad (inr (bad, kept, inr (get-Breaks dev r val s bad)))
        | inr good ↦ rw good (choose-Adjusts (accepts val) r A val s q acc ref kept)
      ]

  byte-Adjusts :
      (r : Reg) (val : ℤ) (s : State W) (q : ℕ)
      → Adjusts dev code read r
          ((pos 0 ≤ℤ val) × (val ≤ℤ pos 255))
          val
          s
          (adjust dev r is_byte val s)
          q
  unfolding is_byte
  byte-Adjusts r val s q =
      adjust-Adjusts r is_byte ((pos 0 ≤ℤ val) × (val ≤ℤ pos 255)) val s q
        (λ e. (ground (arith, e), ground (arith, e))) (λ e a. ground (arith, e, a.0, a.1))

  six-Adjusts :
      (r : Reg) (val : ℤ) (s : State W) (q : ℕ)
      → Adjusts dev code read r
          ((pos 0 ≤ℤ val) × (val ≤ℤ pos 5))
          val
          s
          (adjust dev r below_six val s)
          q
  unfolding below_six
  six-Adjusts r val s q =
      adjust-Adjusts r below_six ((pos 0 ≤ℤ val) × (val ≤ℤ pos 5)) val s q
        (λ e. (ground (arith, e), ground (arith, e))) (λ e a. ground (arith, e, a.0, a.1))

  sign-Adjusts :
      (r : Reg) (val : ℤ) (s : State W) (q : ℕ)
      → Adjusts dev code read r (pos 0 ≤ℤ val) val s (adjust dev r not_negative val s) q
  unfolding not_negative
  sign-Adjusts r val s q =
      adjust-Adjusts r not_negative (pos 0 ≤ℤ val) val s q (λ e. ground (arith, e))
        (λ e a. ground (arith, e, a))

  freeze-Adjusts :
      (r : Reg) (val : ℤ) (s : State W) (q : ℕ)
      → Adjusts dev code read r (Unit {0}) val s (adjust dev r freeze_ok val s) q
  unfolding freeze_ok
  freeze-Adjusts r val s q =
      adjust-Adjusts r freeze_ok (Unit {0}) val s q (λ e. tt) (λ e a. ground (arith, e))

  any-Adjusts :
      (r : Reg) (val : ℤ) (s : State W) (q : ℕ)
      → Adjusts dev code read r (Unit {0}) val s (adjust dev r any val s) q
  any-Adjusts r val s q = adjust-Adjusts r any (Unit {0}) val s q (λ e. tt) (λ e a. absurd (cc))

  -- On a device that keeps a value for each register, each of 24 functions of isp.c that set one
  -- register either returns no failure, its argument being accepted, and then the register holds
  -- the argument and no other has changed; or it fails, no register has changed, and the
  -- argument is not accepted or the device failed to read or to write the register. Accepted are
  -- 0 to 255 by five of them, 0 to 5 by two, 0 and above by one, and everything by the others.
  pub run-Adjusts :
      (c : Control) (val : ℤ) (s : State W) (q : ℕ)
      → Adjusts dev code read (reg c) (Accepts c val) val s (run dev c val s) q
  unfolding reg Accepts run
  run-Adjusts Control.brightness val s q = byte-Adjusts Reg.brightness val s q
  run-Adjusts Control.contrast val s q = byte-Adjusts Reg.contrast val s q
  run-Adjusts Control.hue val s q = byte-Adjusts Reg.hue val s q
  run-Adjusts Control.saturation val s q = byte-Adjusts Reg.saturation val s q
  run-Adjusts Control.shapness val s q = byte-Adjusts Reg.sharpness val s q
  run-Adjusts Control.denoise val s q = any-Adjusts Reg.denoise val s q
  run-Adjusts Control.gamma val s q = six-Adjusts Reg.gamma val s q
  run-Adjusts Control.auto_cs_th val s q = any-Adjusts Reg.auto_cs_th val s q
  run-Adjusts Control.auto_cs_ratio val s q = any-Adjusts Reg.auto_cs_gain val s q
  run-Adjusts Control.ce_intensity val s q = sign-Adjusts Reg.ce_intensity val s q
  run-Adjusts Control.mirror val s q = any-Adjusts Reg.sensor_mirror val s q
  run-Adjusts Control.flip val s q = any-Adjusts Reg.sensor_flip val s q
  run-Adjusts Control.sensor_ae val s q = any-Adjusts Reg.sensor_ae_en val s q
  run-Adjusts Control.sensor_awb val s q = any-Adjusts Reg.sensor_awb_en val s q
  run-Adjusts Control.ev_mode val s q = any-Adjusts Reg.ev_mode val s q
  run-Adjusts Control.pwr_freq val s q = any-Adjusts Reg.pwr_freq val s q
  run-Adjusts Control.min_gain val s q = any-Adjusts Reg.min_gain val s q
  run-Adjusts Control.max_gain val s q = any-Adjusts Reg.max_gain val s q
  run-Adjusts Control.min_exp val s q = any-Adjusts Reg.min_exposure val s q
  run-Adjusts Control.max_exp val s q = any-Adjusts Reg.max_exposure val s q
  run-Adjusts Control.target_y val s q = any-Adjusts Reg.target_y val s q
  run-Adjusts Control.scene_mode val s q = six-Adjusts Reg.scene_mode val s q
  run-Adjusts Control.interval val s q = any-Adjusts Reg.interval val s q
  run-Adjusts Control.freeze_seg val s q = freeze-Adjusts Reg.freeze_seg val s q

  -- What is read and written back changes nothing.
  set-same :
      (r : Reg) (s : State W) (q : ℕ)
      → failed (get dev r s).0.0 ≡ false
      → read (set dev r (get dev r s).0.1 (get dev r s).1).1.world q ≡ read s.world q
  set-same r s q good =
      let s' : State W = (get dev r s).1 in
      let v : ℤ = (get dev r s).0.1 in
      elim (Bool-cases (failed (dev.ioc_set s'.isp_fd r v s'.world).0)) [
        | inl bad ↦ set-failed s'.isp_fd r v s'.world q bad ∙ get-read s.isp_fd r s.world q
        | inr done ↦
            set-read s'.isp_fd r v s'.world q done
            ∙ ap₂ (λ a b. if q == code r then a else b) (get-value s.isp_fd r s.world good)
                (get-read s.isp_fd r s.world q)
            ∙ same_address (read s.world) q (code r)
      ]

  -- What is left of a function that reads the old value into its argument.
  write_back :
      (b : Bool) (r : Reg) (s : State W) (q : ℕ)
      → failed (get dev r s).0.0 ≡ false
      → read ((if b then pure minus_one else set dev r (get dev r s).0.1) (get dev r s).1).1.world q
        ≡ read s.world q
  write_back true r s q good = get-read s.isp_fd r s.world q
  write_back false r s q good = set-same r s q good

  -- On a device that keeps a value for each register, a call of adjust_ae_speed changes no
  -- register, whatever its argument.
  pub adjust_ae_speed-same :
      (val : ℤ) (s : State W) (q : ℕ) → read (adjust_ae_speed dev val s).1.world q ≡ read s.world q
  unfolding adjust_ae_speed
  adjust_ae_speed-same val s q =
      let g : ℤ × ℤ = (get dev Reg.ae_speed s).0 in
      elim (Bool-cases (failed g.0)) [
        | inl bad ↦ rw bad (get-read s.isp_fd Reg.ae_speed s.world q)
        | inr good ↦
            rw good (write_back (ltb_ℤ g.1 (pos 1) && leb_ℤ (pos 512) g.1) Reg.ae_speed s q good)
      ]

  -- The speed of the white balance never changes, whatever the argument: no register does.
  pub adjust_awb_speed-same :
      (val : ℤ) (s : State W) (q : ℕ) → read (adjust_awb_speed dev val s).1.world q ≡ read s.world q
  unfolding adjust_awb_speed
  adjust_awb_speed-same val s q =
      let g : ℤ × ℤ = (get dev Reg.awb_speed s).0 in
      elim (Bool-cases (failed g.0)) [
        | inl bad ↦ rw bad (get-read s.isp_fd Reg.awb_speed s.world q)
        | inr good ↦
            rw good (write_back (ltb_ℤ g.1 (pos 1) && leb_ℤ (pos 1024) g.1) Reg.awb_speed s q good)
      ]
