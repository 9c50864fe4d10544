-- ===== src/Stream/Config/Reboot.antt =====
-- The first start of the streams against the second one: `env_cfg_init`, src/rtspd.c 1290-1488.
use avserver.Base.{
  ℕ, ◌≡◌, refl, ap, ◌∙◌, arith, ltb, ℤ, pos, ◌*ℤ◌, eqb_ℤ, ltb_ℤ, leb_ℤ, ◌&&◌, true, if◌then◌else◌,
  Bool-cases, inl, inr, none, some,
}
use avserver.Stream.Types.{disable, opt_none, channel_num, Vbs, Avbs, Av, put}
use avserver.Stream.Update.{UpdateAvbs}
use avserver.Stream.Config.{
  CfgFile, CfgConsts, AvCfg, off, load_bs, known_input, save_bs, read_channel, load_channel,
  save_channel, cfg_channel,
}

-- What the second start makes of a bitstream of the first one: a bitstream in use is a live stream
-- of H.264 with the first audio type, at most 25 frames a second and an interval of at most two
-- seconds, and its rate control is CBR or EVBR.
unfoldable pub reloaded : Avbs → Avbs
reloaded b =
    let v : Vbs = b.video in
    let rate : ℤ = if ltb_ℤ (pos 25) v.fps then pos 25 else v.fps in
    if eqb_ℤ b.opt_type opt_none
    then record b { opt_type = pos 0; enabled = disable; video = record v { enabled = disable } }
    else record b {
      opt_type = pos 1;
      audio_enc_type = pos 0;
      video = record v {
        enc_type = pos 0;
        fps = rate;
        ip_interval = if ltb_ℤ (pos 2 *ℤ rate) v.ip_interval then pos 2 *ℤ rate else v.ip_interval;
        rate_ctl_type = if eqb_ℤ v.rate_ctl_type (pos 0) then pos 0 else pos 3;
      };
    }

load_bs-save_bs : (b : Avbs) (u : UpdateAvbs) → load_bs (save_bs b u) b ≡ reloaded b
unfolding load_bs save_bs reloaded off
load_bs-save_bs b u = elim (Bool-cases (eqb_ℤ b.opt_type opt_none)) [
  | inl t ↦ rw t refl
  | inr t ↦ rw t refl
]

load-save :
    (max ch j : ℕ) (e : Av) (f : AvCfg)
    → (load_channel max (save_channel max ch e f) e).bs j
      ≡ (if ltb j max then reloaded (e.bs j) else e.bs j)
unfolding load_channel save_channel
load-save max ch j e f = elim (Bool-cases (ltb j max)) [
  | inl t ↦ rw t (load_bs-save_bs (e.bs j) (f.ubs j))
  | inr t ↦ rw t refl
]

-- NTSC, PAL and CMOS are 0 to 2.
known_input_lem :
    (v : ℤ) → known_input v ≡ (if leb_ℤ (pos 0) v && leb_ℤ v (pos 2) then v else pos 2)
unfolding known_input
known_input_lem v = ground arith

put_self : {A : Type 0} (f : ℕ → A) (i : ℕ) (a : A) → put f i a i ≡ a
unfolding put
put_self f i a = ground arith

loaded_input :
    (max ch : ℕ) (a e : Av) (f : AvCfg)
    → (load_channel max (save_channel max ch e f) a).input_system ≡ known_input e.input_system
unfolding load_channel save_channel
loaded_input max ch a e f = refl

module _ (k : CfgConsts) (f : CfgFile) (bt_num ch : ℕ) (before before' : AvCfg) (enc : ℕ → Av)
    (e : Av) where
  -- For a channel below CHANNEL_NUM that has a section and whose keys read_channel finds, the
  -- first start of env_cfg_init, without a file of the channel, puts what it reads into enc and
  -- writes save_channel of it. A second start with that file keeps the file, and gives each of
  -- the first MAX_UPDATE_SUB_CHN bitstreams what the first start gave it, but for this: a
  -- bitstream without a use is off; each other one is a live stream of encoder type 0 and audio
  -- type 0 at no more than 25 frames a second, with an interval of I frames of no more than two
  -- seconds, and its rate control, unless it is 0, is 3. The input system is kept if it is from
  -- 0 to 2 and is CMOS otherwise.
  pub reboot :
      f.has_channel ch ≡ true
      → read_channel k.dnc f bt_num ch (enc ch) ≡ some e
      → ltb ch channel_num ≡ true
      → let max = k.max_update_sub_chn in
        let own = save_channel max ch e before in
        (cfg_channel k f bt_num ch none before enc ≡ some (put enc ch e, own))
        × ((enc' : ℕ → Av) × (cfg_channel k f bt_num ch (some own) before' enc ≡ some (enc', own))
            × ((j : ℕ) → (enc' ch).bs j ≡ (if ltb j max then reloaded (e.bs j) else e.bs j))
            × ((enc' ch).input_system ≡ (
                if leb_ℤ (pos 0) e.input_system && leb_ℤ e.input_system (pos 2)
                then e.input_system
                else pos 2)))
  unfolding cfg_channel save_channel
  reboot h r c =
      let max : ℕ = k.max_update_sub_chn in
      let own : AvCfg = save_channel max ch e before in
      let first : ℕ → Av = put enc ch e in
      let loaded : Av = load_channel max own (first ch) in
      (
        rw (h, r) refl,
        (
          put first ch loaded,
          rw (h, r, c) refl,
          λ j.
              ap (λ (a : Av). a.bs j) (put_self first ch loaded)
              ∙ ap (λ (a : Av). (load_channel max own a).bs j) (put_self enc ch e)
              ∙ load-save max ch j e before,
          ap (λ (a : Av). a.input_system) (put_self first ch loaded)
              ∙ loaded_input max ch (first ch) e before
              ∙ known_input_lem e.input_system,
        ),
      )
