-- ===== src/Stream/Update/Laws.antt =====
-- The bounds that a configuration keeps through staged updates.
use avserver.Base.{
  ℤ, pos, ◌≡◌, refl, arith, Bool, true, false, eqb_ℤ, leb_ℤ, ltb_ℤ, if◌then◌else◌, List, [], ◌∷◌,
  inl, inr, Bool-cases, ◌||◌, not, ◌&&◌,
}
use avserver.Stream.Types.{Switch, Avbs, Vbs, opt_none}
use avserver.Stream.Update.{
  UpdateAvbs, cfgud_init, is_multiple_of_16, cfgud_enc_type, quant_ok, cfgud_init_q, cfgud_max_q,
  cfgud_min_q, cfgud_res, Setter, set_init_q, set_max_q, set_min_q, set_enc_type, set_res, stage,
  stage_all, pick, pick_switch, merge, cfgud_chk_parm,
}

abbrev pub is_quant : ℤ → Bool
is_quant q = leb_ℤ (pos 1) q && leb_ℤ q (pos 51)

abbrev pub is_codec : ℤ → Bool
is_codec t = leb_ℤ (pos 0) t && leb_ℤ t (pos 2)

-- A staged value is absent or passes the test.
abbrev pub staged_ok : ℤ → (ℤ → Bool) → ℤ → Bool
staged_ok dnc t v = eqb_ℤ v dnc || t v

-- What the setters check of a staged update.
pub record IsStaged (dnc : ℤ) (u : UpdateAvbs) : Type 0 where
  pub codec : staged_ok dnc is_codec u.enc_type ≡ true
  pub wide : staged_ok dnc is_multiple_of_16 u.width ≡ true
  pub high : staged_ok dnc is_multiple_of_16 u.height ≡ true
  pub init_q : staged_ok dnc is_quant u.init_quant ≡ true
  pub max_q : staged_ok dnc is_quant u.max_quant ≡ true
  pub min_q : staged_ok dnc is_quant u.min_quant ≡ true

-- The same of a configuration.
pub record IsConfigured (v : Vbs) : Type 0 where
  pub codec : is_codec v.enc_type ≡ true
  pub wide : is_multiple_of_16 v.width ≡ true
  pub high : is_multiple_of_16 v.height ≡ true
  pub init_q : is_quant v.init_quant ≡ true
  pub max_q : is_quant v.max_quant ≡ true
  pub min_q : is_quant v.min_quant ≡ true

init-IsStaged : (dnc : ℤ) → IsStaged dnc (cfgud_init dnc)
unfolding cfgud_init
init-IsStaged dnc = ground arith

quant_ok-is_quant : (t q : ℤ) → quant_ok t q ≡ true → is_quant q ≡ true
unfolding quant_ok
quant_ok-is_quant t q e = ground arith

or_right : (a b : Bool) → b ≡ true → (a || b) ≡ true
or_right a b e = ground arith

module _ (dnc : ℤ) (u : UpdateAvbs) (s : IsStaged dnc u) where
  IsStaged-if :
      (c : Bool) (v : UpdateAvbs) → (c ≡ true → IsStaged dnc v) → IsStaged dnc (if c then v else u)
  IsStaged-if true v h = h refl
  IsStaged-if false v h = s

  -- A staged quantiser that passed its test.
  staged_quant : (t q : ℤ) → quant_ok t q ≡ true → staged_ok dnc is_quant q ≡ true
  staged_quant t q e = or_right (eqb_ℤ q dnc) (is_quant q) (quant_ok-is_quant t q e)

  enc_type-IsStaged : (t : ℤ) → IsStaged dnc (cfgud_enc_type t u).1
  unfolding cfgud_enc_type
  enc_type-IsStaged t = elim (Bool-cases (ltb_ℤ t (pos 0) || ltb_ℤ (pos 2) t)) [
    | inl e ↦ rw e s
    | inr e ↦ rw e (record {
      codec = or_right (eqb_ℤ t dnc) (is_codec t) (ground arith);
      wide = s.wide;
      high = s.high;
      init_q = s.init_q;
      max_q = s.max_q;
      min_q = s.min_q;
    })
  ]

  res-IsStaged : (w h : ℤ) → IsStaged dnc (cfgud_res w h u).1
  unfolding cfgud_res
  res-IsStaged w h = elim (Bool-cases (not (is_multiple_of_16 w) || not (is_multiple_of_16 h))) [
    | inl e ↦ rw e s
    | inr e ↦ rw e (record {
      codec = s.codec;
      wide = or_right (eqb_ℤ w dnc) (is_multiple_of_16 w) (ground arith);
      high = or_right (eqb_ℤ h dnc) (is_multiple_of_16 h) (ground arith);
      init_q = s.init_q;
      max_q = s.max_q;
      min_q = s.min_q;
    })
  ]

  quants-IsStaged :
      (i m n : ℤ)
      → staged_ok dnc is_quant i ≡ true
      → staged_ok dnc is_quant m ≡ true
      → staged_ok dnc is_quant n ≡ true
      → IsStaged dnc (record u { init_quant = i; max_quant = m; min_quant = n })
  quants-IsStaged i m n a b c = record {
    codec = s.codec;
    wide = s.wide;
    high = s.high;
    init_q = a;
    max_q = b;
    min_q = c;
  }

-- The setters without a test write none of these fields.
stage-IsStaged : (dnc : ℤ) (x : Setter) (u : UpdateAvbs) → IsStaged dnc u → IsStaged dnc (stage x u)
unfolding stage cfgud_init_q cfgud_max_q cfgud_min_q
stage-IsStaged dnc (set_enc_type t) u s = enc_type-IsStaged dnc u s t
stage-IsStaged dnc (set_init_q t q) u s =
    IsStaged-if dnc u s (quant_ok t q) (record u { init_quant = q })
      (λ e.
        quants-IsStaged dnc u s q u.max_quant u.min_quant (staged_quant dnc u s t q e) s.max_q
          s.min_q)
stage-IsStaged dnc (set_max_q t q) u s =
    IsStaged-if dnc u s (quant_ok t q) (record u { max_quant = q })
      (λ e.
        quants-IsStaged dnc u s u.init_quant q u.min_quant s.init_q (staged_quant dnc u s t q e)
          s.min_q)
stage-IsStaged dnc (set_min_q t q) u s =
    IsStaged-if dnc u s (quant_ok t q) (record u { min_quant = q })
      (λ e.
        quants-IsStaged dnc u s u.init_quant u.max_quant q s.init_q s.max_q
          (staged_quant dnc u s t q e))
stage-IsStaged dnc (set_res w h) u s = res-IsStaged dnc u s w h
stage-IsStaged dnc _ u s = record {
  codec = s.codec;
  wide = s.wide;
  high = s.high;
  init_q = s.init_q;
  max_q = s.max_q;
  min_q = s.min_q;
}

stage_all-IsStaged :
    (dnc : ℤ) (xs : List Setter) (u : UpdateAvbs) → IsStaged dnc u → IsStaged dnc (stage_all xs u)
unfolding stage_all
stage_all-IsStaged dnc [] u s = s
stage_all-IsStaged dnc (x ∷ xs) u s =
    stage_all-IsStaged dnc xs (stage x u) (stage-IsStaged dnc x u s)

pick_ok :
    (dnc staged old : ℤ) (t : ℤ → Bool)
    → staged_ok dnc t staged ≡ true
    → t old ≡ true
    → t (pick dnc staged old) ≡ true
unfolding pick
pick_ok dnc staged old t s o = elim (Bool-cases (eqb_ℤ staged dnc)) [
  | inl e ↦ rw e o
  | inr e ↦ rw e (ground arith)
]

-- Whatever setters are called on a fresh staged update, with whatever arguments, checking it in
-- keeps a configuration within the bounds: a known encoder type, a width and a height that are
-- multiples of 16, and quantisers from 1 to 51.
pub chk_parm-IsConfigured :
    (dnc : ℤ) (xs : List Setter) (b : Avbs)
    → IsConfigured b.video
    → IsConfigured (cfgud_chk_parm dnc (stage_all xs (cfgud_init dnc)) b).1.video
unfolding cfgud_chk_parm merge
chk_parm-IsConfigured dnc xs b c = elim (Bool-cases (eqb_ℤ b.opt_type opt_none)) [
  | inl e ↦ rw e c
  | inr e ↦ rw e (
      merged (stage_all xs (cfgud_init dnc))
        (stage_all-IsStaged dnc xs (cfgud_init dnc) (init-IsStaged dnc)))
]
  where
    merged : (u : UpdateAvbs) → IsStaged dnc u → IsConfigured (merge dnc u b).video
    merged u s = record {
      codec = pick_ok dnc u.enc_type b.video.enc_type is_codec s.codec c.codec;
      wide = pick_ok dnc u.width b.video.width is_multiple_of_16 s.wide c.wide;
      high = pick_ok dnc u.height b.video.height is_multiple_of_16 s.high c.high;
      init_q = pick_ok dnc u.init_quant b.video.init_quant is_quant s.init_q c.init_q;
      max_q = pick_ok dnc u.max_quant b.video.max_quant is_quant s.max_q c.max_q;
      min_q = pick_ok dnc u.min_quant b.video.min_quant is_quant s.min_q c.min_q;
    }

pick-init : (dnc old : ℤ) → pick dnc dnc old ≡ old
unfolding pick
pick-init dnc old = ground arith

pick-twice : (dnc u old : ℤ) → pick dnc u (pick dnc u old) ≡ pick dnc u old
unfolding pick
pick-twice dnc u old = ground arith

pick_switch-twice :
    (dnc u : ℤ) (old : Switch) → pick_switch dnc u (pick_switch dnc u old) ≡ pick_switch dnc u old
unfolding pick_switch
pick_switch-twice dnc u old = ground arith

-- Checking in a fresh staged update leaves the configuration as it was.
pub chk_parm-init : (dnc : ℤ) (b : Avbs) → (cfgud_chk_parm dnc (cfgud_init dnc) b).1 ≡ b
unfolding cfgud_chk_parm merge cfgud_init pick_switch pick
chk_parm-init dnc b = ground arith

-- Checking in a staged update a second time gives the result and the configuration of the first
-- time.
pub chk_parm-twice :
    (dnc : ℤ) (u : UpdateAvbs) (b : Avbs)
    → cfgud_chk_parm dnc u (cfgud_chk_parm dnc u b).1 ≡ cfgud_chk_parm dnc u b
unfolding cfgud_chk_parm merge
chk_parm-twice dnc u b = elim (Bool-cases (eqb_ℤ b.opt_type opt_none)) [
  | inl e ↦ rw (e, e)
  | inr e ↦ rw (e, e) (simp (pick-twice, pick_switch-twice))
]
