-- ===== src/Stream/Events.antt =====
-- The requests on the streams and the loop that serves them: src/rtspd.c 2214-2226, 2991-3160.
pub mod Keeps
pub mod Serve
pub mod Fades
pub mod Rounds
pub mod Stops
pub mod Requests
use avserver.Base.{
  ℕ, zero, suc, ◌+◌, ℤ, pos, minus_one, pos_part, Bool, true, false, ◌&&◌, ◌||◌, not, ◌==◌, eqb_ℤ,
  leb_ℤ, if◌then◌else◌,
}
use avserver.Stream.Types.{
  is_enabled, Event, none, start, update, stop, event_eq, Avbs, PrivAvbs, Av, Rtspd, channel_num,
  opt_none, get_bs, get_pb, set_bs,
}
use avserver.Stream.Env.{Env}
use avserver.Stream.Monad.{M, pure, ◌>>=◌, ◌>>◌, gets, modify, modify_bs, modify_pb}
use avserver.Stream.Control.{in_range}
use avserver.Stream.Bitstream.{open_live_streaming, close_live_streaming, open_bs, close_bs}

-- Whether one of the first `n` numbers passes the test.
unfoldable pub any_below : ℕ → (ℕ → Bool) → Bool
any_below zero t = false
any_below (suc n) t = t n || any_below n t

-- Whether a bitstream of some channel passes the test: the two loops of `bs_check_event`,
-- `bs_check_event_type` and `is_bs_all_disable`.
unfoldable pub any_bs : ℕ → (ℕ → Av) → (Avbs → Bool) → Bool
unfolding any_below
any_bs bt enc t = any_below channel_num (λ ch. any_below bt (λ sub. t ((enc ch).bs sub)))

-- The loop `for (i = from; i < from + n; i++)`.
unfoldable pub for_up : {W : Type 0} → ℕ → ℕ → (ℕ → M W (Unit {0})) → M W (Unit {0})
for_up zero i body = pure tt
for_up (suc n) i body = do body i; for_up n (suc i) body

unfoldable pub with_event : Event → Avbs → Avbs
with_event ev b = record b { event = ev }

-- What a stop clears before it looks at the readers.
unfoldable pub unhook : PrivAvbs → PrivAvbs
unhook p = record p { has_open = false; has_read = false; has_free = false; has_write = false }

unfoldable pub no_close : PrivAvbs → PrivAvbs
no_close p = record p { has_close = false }

-- The event that follows in the turn of `bs_new_event`.
unfoldable pub next_turn : Event → Event
next_turn none = none
next_turn start = stop
next_turn stop = update
next_turn update = start

module _ {W : Type 0} (env : Env W) where
  open env use {bt_num}

  unfoldable pub bs_check_event : Rtspd W → Bool
  unfolding any_bs
  bs_check_event s = any_bs bt_num s.enc (λ b. not (event_eq b.event none))

  unfoldable pub bs_check_event_type : Event → Rtspd W → Bool
  unfolding any_bs
  bs_check_event_type ev s = any_bs bt_num s.enc (λ b. event_eq b.event ev)

  unfoldable pub is_bs_all_disable : Rtspd W → Bool
  unfolding any_bs
  is_bs_all_disable s = not (any_bs bt_num s.enc (λ b. is_enabled b.enabled))

  -- The number of frames of a stream that are still read, for a queue number that is not negative.
  unfoldable pub frames_in_use : ℕ → ℕ → Rtspd W → Bool
  frames_in_use ch sub s =
      let used = env.num_used_video_frame (get_pb s ch sub).video.qno s.world in not (used == 0)

  unfoldable pub is_live : ℕ → ℕ → Rtspd W → Bool
  is_live ch sub s = leb_ℤ (pos 0) (get_pb s ch sub).video.qno

  unfoldable pub do_close : ℕ → ℕ → M W (Unit {0})
  do_close ch sub = do
    p ← gets (λ s. get_pb s ch sub)
    if p.has_close then (do close_live_streaming env ch sub; pure tt) else pure tt

  unfoldable pub do_open : ℕ → ℕ → M W (Unit {0})
  do_open ch sub = do
    p ← gets (λ s. get_pb s ch sub)
    if p.has_open then (do open_live_streaming env ch sub; pure tt) else pure tt

  unfoldable pub serve_start : ℕ → ℕ → M W (Unit {0})
  unfolding do_open with_event
  serve_start ch sub = do open_bs env ch sub; do_open ch sub; modify_bs ch sub (with_event none)

  unfoldable pub serve_update : ℕ → ℕ → M W (Unit {0})
  unfolding do_open do_close with_event frames_in_use is_live
  serve_update ch sub = do
    live ← gets (is_live ch sub)
    busy ← gets (frames_in_use ch sub)
    let reopen = do do_close ch sub; do_open ch sub; modify_bs ch sub (with_event none)
    if live && not busy then reopen else pure tt

  -- The part of a stop that closes one bitstream.
  unfoldable pub shut : ℕ → ℕ → M W (Unit {0})
  unfolding do_close no_close with_event
  shut ch i = do
    do_close ch i
    modify_pb ch i no_close
    close_bs env ch i
    modify_bs ch i (with_event none)

  -- The loop of a stop, from bitstream `i + n` down to `i`, which leaves at one that is read.
  unfoldable pub stop_down : ℕ → ℕ → ℕ → M W (Unit {0})
  unfolding shut unhook with_event frames_in_use is_live
  stop_down zero i ch = pure tt
  stop_down (suc n) i ch = do
    modify_pb ch (n + i) unhook
    p ← gets (λ s. get_pb s ch (n + i))
    live ← gets (is_live ch (n + i))
    busy ← gets (frames_in_use ch (n + i))
    let idle = modify_bs ch (n + i) (with_event none)
    let rest = stop_down n i ch
    if live && busy
        then pure tt
        else if live || p.has_close
        then shut ch (n + i) >> rest
        else idle >> rest

  unfoldable pub serve_stop : ℕ → ℕ → M W (Unit {0})
  unfolding stop_down
  serve_stop ch sub = if sub == 0 then stop_down bt_num 0 ch else stop_down 1 sub ch

  -- The switch of `bs_new_event`.
  unfoldable pub serve : Event → ℕ → ℕ → M W (Unit {0})
  unfolding serve_start serve_update serve_stop
  serve none ch sub = pure tt
  serve start ch sub = serve_start ch sub
  serve update ch sub = serve_update ch sub
  serve stop ch sub = serve_stop ch sub

  -- The body of the two loops: `bs_event` does not change within them.
  unfoldable pub visit : Event → ℕ → ℕ → M W (Unit {0})
  unfolding serve
  visit ev ch sub = do
    b ← gets (λ s. get_bs s ch sub)
    if event_eq b.event ev then serve ev ch sub else pure tt

  unfoldable pub serve_all : Event → M W (Unit {0})
  unfolding visit for_up
  serve_all ev = for_up channel_num 0 (λ ch. for_up bt_num 0 (λ sub. visit ev ch sub))

  unfoldable pub bs_new_event : M W (Unit {0})
  unfolding bs_check_event bs_check_event_type serve_all next_turn
  bs_new_event = do
    waiting ← gets bs_check_event
    ev ← gets (λ s. s.bs_event)
    let rest = modify (λ s. record s { bs_event = start; set_event = false })
    let round = do
      serve_all ev
      left ← gets (bs_check_event_type ev)
      modify (λ s. record s { bs_event = if left then ev else next_turn ev })
    if waiting then round else rest

-- The numbers of the events in inc/rtspd.h.
unfoldable pub to_event : ℤ → Event
to_event n =
    if eqb_ℤ n (pos 1)
    then start
    else if eqb_ℤ n (pos 2)
    then update
    else if eqb_ℤ n (pos 3)
    then stop
    else none

module _ {W : Type 0} (env : Env W) where
  open env use {bt_num}

  -- A refusal with its result, or the event to record.
  unfoldable pub judge : ℕ → ℕ → Event → Rtspd W → ℤ × Event
  unfolding is_bs_all_disable
  judge ch sub none s = (minus_one, none)
  judge ch sub update s = (pos 0, update)
  judge ch sub start s =
      let b : Avbs = get_bs s ch sub in
      if eqb_ℤ b.opt_type opt_none
      then (pos 0, none)
      else if is_enabled b.enabled
      then (minus_one, none)
      else (pos 0, start)
  judge ch sub stop s =
      let b : Avbs = get_bs s ch sub in
      if sub == 0
      then (if is_bs_all_disable env s then (pos 0, none) else (pos 0, stop))
      else if is_enabled b.enabled
      then (pos 0, stop)
      else (minus_one, none)

  -- The event is written, or the function leaves through `err_exit`.
  unfoldable pub submit : ℕ → ℕ → ℤ × Event → M W ℤ
  unfolding with_event
  submit ch sub (ret, ev) s =
      let marked : Rtspd W = set_bs ch sub (with_event ev (get_bs s ch sub)) s in
      if event_eq ev none then (ret, s) else (ret, record marked { set_event = true })

  unfoldable pub env_set_bs_new_event : ℤ → ℤ → ℤ → M W ℤ
  unfolding judge in_range submit to_event
  env_set_bs_new_event ch_num sub_num event s =
      let ch : ℕ = pos_part ch_num in
      let sub : ℕ = pos_part sub_num in
      if in_range bt_num ch_num sub_num
      then submit ch sub (judge ch sub (to_event event) s) s
      else (minus_one, s)
