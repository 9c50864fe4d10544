-- ===== src/Stream/Events/Stops.antt =====
-- Stops, where no client reads a frame.
use avserver.Base.{
  ℕ, zero, suc, ◌+◌, ◌<◌, ◌≤◌, ℤ, ◌≡◌, ◌≢◌, refl, sym, ◌∙◌, ap, arith, Bool, true, false, ◌&&◌,
  ◌||◌, if◌then◌else◌, ◌==◌, Bool-cases, inl, inr, ◌⊎◌,
}
use mathlib.Core.Path.{subst}
use avserver.Stream.Types.{
  Event, none, start, update, stop, event_eq, Rtspd, get_pb, channel_num, set_bs, set_av, put,
}
use avserver.Stream.Env.{Env}
use avserver.Stream.Monad.{M, pure, ◌>>◌, modify_pb, modify_bs}
use avserver.Stream.Events.{
  for_up, with_event, unhook, frames_in_use, is_live, shut, stop_down, serve_stop, serve, visit,
  serve_all, bs_check_event, bs_check_event_type, bs_new_event, next_turn,
}
use avserver.Stream.Events.Keeps.{event_at}
use avserver.Stream.Events.Fades.{Fading, Fades, stop_down-Fades, visit-Fades, Fades-for}
use avserver.Stream.Events.Rounds.{any_bs-none, bs_new_event-busy}

-- No queue has a frame in use.
abbrev pub IsQuiet : {W : Type 0} → Env W → Type 0
IsQuiet {W} env = (q : ℤ) (w : W) → env.num_used_video_frame q w ≡ 0

set_bs-none :
    {W : Type 0} (ch sub : ℕ) (s : Rtspd W)
    → event_at (modify_bs ch sub (with_event none) s).1 ch sub ≡ none
unfolding with_event set_bs set_av put
set_bs-none ch sub s = ground arith

module _ {W : Type 0} (env : Env W) where
  open env use {bt_num}

  nothing_read : (s : Rtspd W) (ch sub : ℕ) → IsQuiet env → frames_in_use env ch sub s ≡ false
  unfolding frames_in_use
  nothing_read s ch sub q = rw (q (get_pb s ch sub).video.qno s.world)

  shut-none : (ch i : ℕ) (s : Rtspd W) → event_at (shut env ch i s).1 ch i ≡ none
  unfolding shut
  shut-none ch i s = set_bs-none ch i _

  stays_none :
      (s t : Rtspd W) (ch sub : ℕ)
      → Fading s t
      → event_at s ch sub ≡ none
      → event_at t ch sub ≡ none
  unfolding Fading
  stays_none s t ch sub (_, _, f) e = ground (arith, f ch sub)

  not_stop :
      (s t : Rtspd W) (ch sub : ℕ)
      → Fading s t
      → event_at s ch sub ≢ stop
      → event_at t ch sub ≢ stop
  unfolding Fading
  not_stop s t ch sub (_, _, f) e = elim (f ch sub) [
    | inl same ↦ λ x. e (sym same ∙ x)
    | inr gone ↦ λ x. absurd (cc)
  ]

  -- One step of the loop, where nothing is in use: it goes on from a state without the request.
  stop_step :
      (n i ch : ℕ) (s : Rtspd W)
      → IsQuiet env
      → (v : Rtspd W) × (stop_down env (suc n) i ch s ≡ stop_down env n i ch v)
        × (event_at v ch (n + i) ≡ none)
  unfolding stop_down
  stop_step n i ch s q =
      choose (is_live env ch (n + i) u) (get_pb u ch (n + i)).has_close
        (frames_in_use env ch (n + i) u) idle
    where
      u : Rtspd W
      u = (modify_pb ch (n + i) unhook s).1

      idle : frames_in_use env ch (n + i) u ≡ false
      idle = nothing_read u ch (n + i) q

      choose :
          (live has_close busy : Bool)
          → busy ≡ false
          → (v : Rtspd W) × ((if live && busy
                  then pure tt
                  else if live || has_close
                  then shut env ch (n + i) >> stop_down env n i ch
                  else modify_bs ch (n + i) (with_event none) >> stop_down env n i ch)
                u
              ≡ stop_down env n i ch v)
            × (event_at v ch (n + i) ≡ none)
      choose live h true e = absurd (cc)
      choose true h false e = ((shut env ch (n + i) u).1, refl, shut-none ch (n + i) u)
      choose false true false e = ((shut env ch (n + i) u).1, refl, shut-none ch (n + i) u)
      choose false false false e =
          ((modify_bs ch (n + i) (with_event none) u).1, refl, set_bs-none ch (n + i) u)

  -- The requests of the bitstreams from `i` up to `i + n` are gone after the loop of a stop.
  stop_down-none :
      (n i ch j : ℕ) (s : Rtspd W)
      → IsQuiet env
      → i ≤ j
      → j < n + i
      → event_at (stop_down env n i ch s).1 ch j ≡ none
  unfolding Fades
  stop_down-none zero i ch j s q le lt = absurd (omega arith)
  stop_down-none (suc n) i ch j s q le lt =
      let (v, goes, here) = stop_step n i ch s q in
      let rest = stop_down-none n i ch j v q le in
      let kept =
        stays_none v (stop_down env n i ch v).1 ch (n + i) (stop_down-Fades env n i ch v) here in
      ap (λ r. event_at r.1 ch j) goes ∙ elim (Bool-cases (j == n + i)) [
        | inl e ↦ ground (arith, kept)
        | inr e ↦ rest (ground arith)
      ]

  visit-not_stop :
      (ch sub : ℕ) (s : Rtspd W)
      → IsQuiet env
      → sub < bt_num
      → event_at (visit env stop ch sub s).1 ch sub ≢ stop
  unfolding visit serve serve_stop
  visit-not_stop ch sub s q lt = elim (Bool-cases (event_eq (event_at s ch sub) stop)) [
    | inl e ↦ rw e (served (Bool-cases (sub == 0)))
    | inr e ↦ rw e (λ x. absurd (ground arith))
  ]
    where
      served :
          ((sub == 0) ≡ true) ⊎ ((sub == 0) ≡ false)
          → event_at (serve_stop env ch sub s).1 ch sub ≢ stop
      served (inl z) = rw z (λ x.
          absurd (ground (arith, stop_down-none bt_num 0 ch sub s q (omega arith) (omega arith))))
      served (inr z) = rw z (λ x.
          absurd (ground (arith, stop_down-none 1 sub ch sub s q (omega arith) (omega arith))))

  row-not_stop :
      (n i ch sub : ℕ) (s : Rtspd W)
      → IsQuiet env
      → i + n ≤ bt_num
      → i ≤ sub
      → sub < i + n
      → event_at (for_up n i (λ b. visit env stop ch b) s).1 ch sub ≢ stop
  unfolding for_up Fades
  row-not_stop zero i ch sub s q top le lt = absurd (omega arith)
  row-not_stop (suc n) i ch sub s q top le lt =
      let t : Rtspd W = (visit env stop ch i s).1 in
      let later =
        Fades-for n (suc i) (λ b. visit env stop ch b) (λ b. visit-Fades env stop ch b) t in
      let rest = row-not_stop n (suc i) ch sub t q (omega arith) in
      elim (Bool-cases (sub == i)) [
        | inl e ↦
            let i_eq : sub ≡ i = ground arith in
            not_stop t (for_up n (suc i) (λ b. visit env stop ch b) t).1 ch sub later (
              subst (λ b. event_at t ch b ≢ stop) (sym i_eq)
                (visit-not_stop ch i s q (omega arith)))
        | inr e ↦ rest (ground arith) (omega arith)
      ]

  rows-not_stop :
      (n i ch sub : ℕ) (s : Rtspd W)
      → IsQuiet env
      → i ≤ ch
      → ch < i + n
      → sub < bt_num
      → event_at (for_up n i (λ c. for_up bt_num 0 (λ b. visit env stop c b)) s).1 ch sub ≢ stop
  unfolding for_up Fades
  rows-not_stop zero i ch sub s q le lt b = absurd (omega arith)
  rows-not_stop (suc n) i ch sub s q le lt b =
      let row : ℕ → M W (Unit {0}) = λ c. for_up bt_num 0 (λ b. visit env stop c b) in
      let t : Rtspd W = (row i s).1 in
      let fades : (c : ℕ) → Fades (row c) =
        λ c. Fades-for bt_num 0 (λ b. visit env stop c b) (λ b. visit-Fades env stop c b) in
      let later = Fades-for n (suc i) row fades t in
      let rest = rows-not_stop n (suc i) ch sub t q in
      elim (Bool-cases (ch == i)) [
        | inl e ↦
            let i_eq : ch ≡ i = ground arith in
            not_stop t (for_up n (suc i) row t).1 ch sub later (
              subst (λ c. event_at t c sub ≢ stop) (sym i_eq)
                (row-not_stop bt_num 0 i sub s q (omega arith) (omega arith) (omega arith)))
        | inr e ↦ rest (ground arith) (omega arith) b
      ]

  stops_done :
      (s : Rtspd W) → IsQuiet env → bs_check_event_type env stop (serve_all env stop s).1 ≡ false
  unfolding bs_check_event_type serve_all
  stops_done s q =
      let t : Rtspd W = (serve_all env stop s).1 in
      any_bs-none bt_num t.enc (λ b. event_eq b.event stop)
        (λ ch sub c b.
          other (event_at t ch sub) (rows-not_stop channel_num 0 ch sub s q (omega arith) c b))
    where
      other : (ev : Event) → ev ≢ stop → event_eq ev stop ≡ false
      other none n = refl
      other start n = refl
      other update n = refl
      other stop n = absurd (n refl)

  -- While no queue has a frame in use, if a request waits and the turn is that of the stops, one
  -- call of bs_new_event leaves no stop waiting at any bitstream, and the turn passes to the
  -- updates.
  pub stop_round :
      (s : Rtspd W)
      → IsQuiet env
      → bs_check_event env s ≡ true
      → s.bs_event ≡ stop
      → let t = (bs_new_event env s).1 in
        (bs_check_event_type env stop t ≡ false) × (t.bs_event ≡ update)
  unfolding bs_check_event_type next_turn
  stop_round s q e turn = rw (bs_new_event-busy env stop s e turn, stops_done s q) (refl, refl)
