-- ===== src/Stream/Direct.antt =====
-- The requests that change one setting of the encoder at once: `set_fps`, `set_ip_int` and
-- `set_bps`, src/rtspd.c 1073-1185. The results of the driver are not looked at.
use avserver.Base.{
  ℕ, ℤ, pos, minus_one, ltb, ltb_ℤ, true, false, ◌&&◌, ◌≡◌, refl, arith, if◌then◌else◌, List, [],
  ◌∷◌, ◌++◌,
}
use avserver.Stream.Types.{Av}
use avserver.Stream.Control.{in_range}

-- `dvr_enc_control` with ENC_UPDATE: its stream, which is enabled, and the three settings that are
-- ever given. The others are GMVAL_DO_NOT_CARE.
pub record EncUpdate : Type 0 where
  pub stream : ℕ
  pub frame_rate : ℤ
  pub bit_rate : ℤ
  pub ip_interval : ℤ

-- DVR_ENC_CONTROL at the encoder of a channel, and DVR_COMMON_APPLY for the channel.
pub data DirectCall : Type 0 where
  control : ℤ → EncUpdate → DirectCall
  apply : ℕ → DirectCall

never : (m n : ℕ) (v : ℤ) → ltb n m ≡ true → (ltb_ℤ (pos m) v && ltb_ℤ v (pos n)) ≡ false
never m n v l = ground (arith, l)

-- GMVAL_DO_NOT_CARE, and DVR_ENC_REPD_BT_NUM.
module _ (dnc : ℤ) (bt_num : ℕ) where
  -- The two calls, for numbers in range.
  unfoldable pub send_update : (ℕ → Av) → ℕ → EncUpdate → List DirectCall → ℤ × List DirectCall
  send_update enc ch u cs =
      if in_range bt_num (pos ch) (pos u.stream)
      then (pos 0, cs ++ DirectCall.control (enc ch).enc_fd u ∷ DirectCall.apply ch ∷ [])
      else (minus_one, cs)

  unfoldable pub set_fps : (ℕ → Av) → ℕ → ℕ → ℤ → List DirectCall → ℤ × List DirectCall
  unfolding send_update
  set_fps enc ch sub val cs =
      if in_range bt_num (pos ch) (pos sub) && (ltb_ℤ (pos 30) val && ltb_ℤ val (pos 4))
      then (minus_one, cs)
      else send_update enc ch
          (record { stream = sub; frame_rate = val; bit_rate = dnc; ip_interval = dnc }) cs

  unfoldable pub set_ip_int : (ℕ → Av) → ℕ → ℕ → ℤ → List DirectCall → ℤ × List DirectCall
  unfolding send_update
  set_ip_int enc ch sub val cs =
      if in_range bt_num (pos ch) (pos sub) && (ltb_ℤ (pos 150) val && ltb_ℤ val (pos 25))
      then (minus_one, cs)
      else send_update enc ch
          (record { stream = sub; frame_rate = dnc; bit_rate = dnc; ip_interval = val }) cs

  unfoldable pub set_bps : (ℕ → Av) → ℕ → ℕ → ℤ → List DirectCall → ℤ × List DirectCall
  unfolding send_update
  set_bps enc ch sub val cs =
      send_update enc ch
        (record { stream = sub; frame_rate = dnc; bit_rate = val; ip_interval = dnc }) cs

  -- For numbers in range, set_fps and set_ip_int send whatever value they are given.
  pub set-always :
      (enc : ℕ → Av) (ch sub : ℕ) (val : ℤ) (cs : List DirectCall)
      → in_range bt_num (pos ch) (pos sub) ≡ true
      → let fps : EncUpdate = record {
        stream = sub;
        frame_rate = val;
        bit_rate = dnc;
        ip_interval = dnc;
      } in
        let interval : EncUpdate = record {
          stream = sub;
          frame_rate = dnc;
          bit_rate = dnc;
          ip_interval = val;
        } in
        let sent = λ (u : EncUpdate).
          cs ++ DirectCall.control (enc ch).enc_fd u ∷ DirectCall.apply ch ∷ [] in
        (set_fps enc ch sub val cs ≡ (pos 0, sent fps))
        × (set_ip_int enc ch sub val cs ≡ (pos 0, sent interval))
  unfolding set_fps set_ip_int send_update
  set-always enc ch sub val cs r =
      (rw (r, never 30 4 val refl) refl, rw (r, never 150 25 val refl) refl)
