-- ===== src/P2p/Counted.antt =====
-- The counter of the clients that watch, p2p_send_status of src/p2p.c, against the table.
use avserver.Base.{
  ℕ, zero, suc, ◌+◌, ◌≤◌, ◌<◌, ◌≡◌, refl, arith, ltb, ℤ, pos, ltb_ℤ, Bool, true, false,
  if◌then◌else◌, Bool-cases, inl, inr, Option, none, some, List, map, [], ◌∷◌,
}
use mathlib.Core.Path.{subst}
use avserver.P2p.Ptz.{PtzAct, p2p_do_ptz}
use avserver.P2p.{
  AvClient, AvEvent, Sent, P2p, Errors, Link, Ioctrl, PlayCommand, PlayRecord, modify_client,
  new_event, mark_event, start_playing, turn_pause, stop_playing, start_speaker, stop_speaker, send,
  regedit_client_to_video, unregedit_client_from_video, handle_ioctrl_cmd, refuse_session,
  end_session, search_events, send_events, send_ptz, play_control, mark_events, is_gone,
  is_watching, send_to, send_to_all,
}

bit : Bool → ℕ
bit true = 1
bit false = 0

-- How many of the first clients watch.
unfoldable pub count : ℕ → (ℕ → AvClient) → ℕ
unfolding bit
count zero c = 0
count (suc n) c = bit (c n).enable_video + count n c

count-modify_above :
    (n sid : ℕ) (f : AvClient → AvClient) (s : P2p)
    → n ≤ sid
    → count n (modify_client sid f s).clients ≡ count n s.clients
unfolding count modify_client
count-modify_above zero sid f s h = refl
count-modify_above (suc n) sid f s h = ground (arith, count-modify_above n sid f s)

count-modify :
    (n sid : ℕ) (f : AvClient → AvClient) (s : P2p)
    → sid < n
    → count n (modify_client sid f s).clients + bit (s.clients sid).enable_video
      ≡ count n s.clients + bit (f (s.clients sid)).enable_video
unfolding count modify_client
count-modify zero sid f s h = absurd (omega arith)
count-modify (suc n) sid f s h =
    ground (arith, count-modify n sid f s, count-modify_above n sid f s)

pub count_zero : (n j : ℕ) (c : ℕ → AvClient) → count n c ≡ 0 → j < n → (c j).enable_video ≡ false
unfolding count bit
count_zero zero j c e h = absurd (omega arith)
count_zero (suc n) j c e h = ground (arith, count_zero n j c)

-- The counter is right, and each client that watches has an index.
pub record IsCounted (n : ℕ) (s : P2p) : Type 0 where
  pub exact : s.send_status ≡ count n s.clients
  pub indexed :
      (j : ℕ) → (s.clients j).enable_video ≡ true → ltb_ℤ (s.clients j).av_index (pos 0) ≡ false

module _ (n sid : ℕ) (s : P2p) (k : IsCounted n s) where
  regedit-IsCounted :
      (av : ℤ)
      → sid < n
      → ltb_ℤ av (pos 0) ≡ false
      → (s.clients sid).enable_video ≡ false
      → IsCounted n (regedit_client_to_video sid av s)
  unfolding regedit_client_to_video modify_client bit
  regedit-IsCounted av h v e = record {
    exact = ground (
      arith,
      k.exact,
      count-modify n sid (λ c. record c { av_index = av; enable_video = true }) s h,
    );
    indexed = λ j t. ground (arith, k.indexed j);
  }

  unregedit-IsCounted :
      sid < n
      → (s.clients sid).enable_video ≡ true
      → IsCounted n (unregedit_client_from_video sid s)
  unfolding unregedit_client_from_video modify_client bit
  unregedit-IsCounted h e = record {
    exact =
        ground (arith, k.exact, count-modify n sid (λ c. record c { enable_video = false }) s h);
    indexed = λ j t. ground (arith, k.indexed j);
  }

  -- A change that does not touch the picture.
  same-IsCounted :
      (f : AvClient → AvClient)
      → (f (s.clients sid)).enable_video ≡ (s.clients sid).enable_video
      → (f (s.clients sid)).av_index ≡ (s.clients sid).av_index
      → IsCounted n (modify_client sid f s)
  unfolding modify_client
  same-IsCounted f e v = record {
    exact = elim (Bool-cases (ltb sid n)) [
      | inl t ↦ ground (arith, k.exact, e, t, count-modify n sid f s)
      | inr t ↦ ground (arith, k.exact, t, count-modify_above n sid f s)
    ];
    indexed = λ j t. ground (arith, e, v, k.indexed j, k.indexed sid);
  }

-- What does not change the table or the counter.
pub rest-IsCounted :
    (n : ℕ) (s t : P2p)
    → t.send_status ≡ s.send_status
    → t.clients ≡ s.clients
    → IsCounted n s
    → IsCounted n t
rest-IsCounted n s t e c k = record { exact = rw (e, c) k.exact; indexed = λ j. rw c (k.indexed j) }

-- A client starts only while it does not watch, and stops only while it does.
abbrev pub Fair : Ioctrl → AvClient → Type 0
Fair Ioctrl.ipcam_start c = c.enable_video ≡ false
Fair Ioctrl.ipcam_stop c = c.enable_video ≡ true
Fair _ c = Unit {0}

-- What holds after a step, if it does not fault.
abbrev pub Holds : (P2p → Type 0) → Option P2p → Type 0
Holds P none = Unit {0}
Holds P (some t) = P t

pub Holds-some : (P : P2p → Type 0) (o : Option P2p) (t : P2p) → o ≡ some t → Holds P o → P t
Holds-some P o t e h = subst (Holds P) e h

watching_on : (e : Errors) (c : AvClient) → is_watching e c ≡ true → c.enable_video ≡ true
unfolding is_watching
watching_on e c h = ground (arith, h)

module _ (n : ℕ) where
  send-IsCounted : (x : Sent) (s : P2p) → IsCounted n s → IsCounted n (send x s)
  unfolding send
  send-IsCounted x s = rest-IsCounted n s (send x s) refl refl

  mark_events-IsCounted :
      (m : ℕ) (s : P2p) (o : Option (List AvEvent))
      → IsCounted n s
      → Holds (IsCounted n) (mark_events m s o)
  unfolding mark_events
  mark_events-IsCounted m s none k = tt
  mark_events-IsCounted m s (some es) k =
      rest-IsCounted n s (record s { event_list = some (map (mark_event m) es) }) refl refl k

  if-IsCounted :
      (b : Bool) (s t : P2p) → IsCounted n s → IsCounted n t → IsCounted n (if b then s else t)
  if-IsCounted true s t h k = h
  if-IsCounted false s t h k = k

  play_control-IsCounted :
      (l : Link) (sid : ℕ) (av : ℤ) (p : PlayRecord) (c : PlayCommand) (s : P2p)
      → IsCounted n s
      → Holds (IsCounted n) (play_control l sid av p c s)
  unfolding play_control
  play_control-IsCounted l sid av p PlayCommand.play_start s k =
      mark_events-IsCounted p.minute _ s.event_list
        (same-IsCounted n sid s k (start_playing l p) refl refl)
  play_control-IsCounted l sid av p PlayCommand.play_pause s k =
      let x : Sent = Sent.play_resp av PlayCommand.play_pause in
      let k' = send-IsCounted x s k in
      if-IsCounted (ltb_ℤ l.send_ioctrl (pos 0)) (send x s)
        (modify_client sid turn_pause (send x s)) k'
        (same-IsCounted n sid (send x s) k' turn_pause refl refl)
  play_control-IsCounted l sid av p PlayCommand.play_stop s k =
      same-IsCounted n sid s k stop_playing refl refl
  play_control-IsCounted l sid av p PlayCommand.play_other s k = k

  send_events-IsCounted :
      (av : ℤ) (s : P2p) (o : Option (List AvEvent))
      → IsCounted n s
      → Holds (IsCounted n) (send_events av s o)
  unfolding send_events
  send_events-IsCounted av s none k = tt
  send_events-IsCounted av s (some es) k = send-IsCounted (Sent.event_list av es) s k

  search_events-IsCounted : (s : P2p) → IsCounted n s → IsCounted n (search_events s)
  unfolding search_events
  search_events-IsCounted s k =
      if-IsCounted s.search_event s
        (record s {
          event_list = some (new_event 0 ∷ new_event 1 ∷ new_event 2 ∷ []);
          search_event = true;
        })
        k
        (rest-IsCounted n s
          (record s {
            event_list = some (new_event 0 ∷ new_event 1 ∷ new_event 2 ∷ []);
            search_event = true;
          })
          refl refl k)

  send_ptz-IsCounted :
      (o : Option (PtzAct × ℕ)) (s : P2p) → IsCounted n s → IsCounted n (send_ptz o s)
  unfolding send_ptz
  send_ptz-IsCounted none s k = k
  send_ptz-IsCounted (some (a, v)) s k = send-IsCounted (Sent.ptz a v) s k

  pub handle_ioctrl_cmd-IsCounted :
      (l : Link) (sid : ℕ) (av : ℤ) (cmd : Ioctrl) (s : P2p)
      → sid < n
      → ltb_ℤ av (pos 0) ≡ false
      → Fair cmd (s.clients sid)
      → IsCounted n s
      → Holds (IsCounted n) (handle_ioctrl_cmd l sid av cmd s)
  unfolding handle_ioctrl_cmd
  handle_ioctrl_cmd-IsCounted l sid av Ioctrl.ipcam_start s h v f k =
      regedit-IsCounted n sid s k av h v f
  handle_ioctrl_cmd-IsCounted l sid av Ioctrl.ipcam_stop s h v f k =
      unregedit-IsCounted n sid s k h f
  handle_ioctrl_cmd-IsCounted l sid av Ioctrl.ipcam_audiostart s h v f k = k
  handle_ioctrl_cmd-IsCounted l sid av Ioctrl.ipcam_audiostop s h v f k = k
  handle_ioctrl_cmd-IsCounted l sid av (Ioctrl.ipcam_speakerstart ch) s h v f k =
      same-IsCounted n sid s k (start_speaker ch) refl refl
  handle_ioctrl_cmd-IsCounted l sid av Ioctrl.ipcam_speakerstop s h v f k =
      same-IsCounted n sid s k stop_speaker refl refl
  handle_ioctrl_cmd-IsCounted l sid av Ioctrl.ipcam_listevent_req s h v f k =
      send_events-IsCounted av (search_events s) (search_events s).event_list
        (search_events-IsCounted s k)
  handle_ioctrl_cmd-IsCounted l sid av (Ioctrl.ipcam_record_playcontrol p) s h v f k =
      play_control-IsCounted l sid av p p.command s k
  handle_ioctrl_cmd-IsCounted l sid av (Ioctrl.ipcam_ptz_command c speed point) s h v f k =
      send_ptz-IsCounted (p2p_do_ptz c speed point) s k
  handle_ioctrl_cmd-IsCounted l sid av Ioctrl.ioctrl_other s h v f k = k

  pub refuse_session-IsCounted :
      (sid : ℕ) (s : P2p) → IsCounted n s → IsCounted n (refuse_session sid s)
  unfolding refuse_session send
  refuse_session-IsCounted sid s k = rest-IsCounted n s (refuse_session sid s) refl refl k

  pub end_session-IsCounted :
      (sid : ℕ) (av : ℤ) (s : P2p)
      → sid < n
      → (s.clients sid).enable_video ≡ true
      → IsCounted n s
      → IsCounted n (end_session sid av s)
  unfolding end_session refuse_session send
  end_session-IsCounted sid av s h e k =
      rest-IsCounted n (unregedit_client_from_video sid s) (end_session sid av s) refl refl
        (unregedit-IsCounted n sid s k h e)

  module _ (e : Errors) (l : Link) (flag : ℕ) where
    send_to-IsCounted :
        (i : ℕ) (s : P2p) → i < n → IsCounted n s → IsCounted n (send_to e l flag i s)
    unfolding send_to
    send_to-IsCounted i s h k = elim (Bool-cases (is_watching e (s.clients i))) [
      | inl t ↦
          let x : Sent = Sent.frame (s.clients i).av_index flag s.online_num in
          let k' = send-IsCounted x s k in
          rw t (
            if-IsCounted (is_gone e (l.send_frame_data i))
              (unregedit_client_from_video i (send x s)) (send x s)
              (unregedit-IsCounted n i (send x s) k' h (watching_on e (s.clients i) t)) k')
      | inr t ↦ rw t k
    ]

    pub send_to_all-IsCounted :
        (m i : ℕ) (s : P2p) → i + m ≤ n → IsCounted n s → IsCounted n (send_to_all e l flag m i s)
    unfolding send_to_all
    send_to_all-IsCounted zero i s h k = k
    send_to_all-IsCounted (suc m) i s h k =
        send_to_all-IsCounted m (suc i) (send_to e l flag i s) (omega (arith, h))
          (send_to-IsCounted i s (omega (arith, h)) k)
