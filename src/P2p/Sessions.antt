-- ===== src/P2p/Sessions.antt =====
-- One session of the peer-to-peer link: its commands and its thread, src/p2p.c 418-703.
use avserver.Base.{
  ℕ, ◌≡◌, ◌≢◌, ◌↔◌, refl, sym, ◌∙◌, arith, ℤ, pos, ltb_ℤ, Bool, true, false, Bool-cases, if_true,
  if_false, inl, inr, Option, none, some, List, [], ◌∷◌,
}
use avserver.P2p.{
  AvClient, AvEvent, Sent, P2p, Link, Ioctrl, PlayCommand, PlayRecord, Recv, modify_client, send,
  unregedit_client_from_video, handle_ioctrl_cmd, refuse_session, end_session, search_events,
  send_events, send_ptz, play_control, mark_events, serve_session, av_server_start, turn_pause,
  start_playing, stop_playing, start_speaker, stop_speaker,
}
use avserver.P2p.Ptz.{PtzAct, p2p_do_ptz}
use avserver.P2p.Counted.{Holds, Holds-some}

module _ (sid j : ℕ) (n : j ≢ sid) where
  modify-other :
      (f : AvClient → AvClient) (s : P2p) → (modify_client sid f s).clients j ≡ s.clients j
  unfolding modify_client
  modify-other f s = ground (arith, n)

  module _ (s : P2p) where
    abbrev SameAt : P2p → Type 0
    SameAt t = t.clients j ≡ s.clients j

    mark_events-other :
        (m : ℕ) (t : P2p) (o : Option (List AvEvent)) → SameAt t → Holds SameAt (mark_events m t o)
    unfolding mark_events
    mark_events-other m t none h = tt
    mark_events-other m t (some es) h = h

    send_events-other :
        (av : ℤ) (t : P2p) (o : Option (List AvEvent))
        → SameAt t
        → Holds SameAt (send_events av t o)
    unfolding send_events send
    send_events-other av t none h = tt
    send_events-other av t (some es) h = h

    play_control-other :
        (l : Link) (av : ℤ) (p : PlayRecord) (c : PlayCommand)
        → Holds SameAt (play_control l sid av p c s)
    unfolding play_control send
    play_control-other l av p PlayCommand.play_start =
        mark_events-other p.minute (modify_client sid (start_playing l p) s) s.event_list
          (modify-other (start_playing l p) s)
    play_control-other l av p PlayCommand.play_pause =
        ground (arith, modify-other turn_pause (send (Sent.play_resp av PlayCommand.play_pause) s))
    play_control-other l av p PlayCommand.play_stop = modify-other stop_playing s
    play_control-other l av p PlayCommand.play_other = refl

    send_ptz-other : (o : Option (PtzAct × ℕ)) → SameAt (send_ptz o s)
    unfolding send_ptz send
    send_ptz-other none = refl
    send_ptz-other (some (a, v)) = refl

    search_events-other : SameAt (search_events s)
    unfolding search_events
    search_events-other = ground arith

    handle-other :
        (l : Link) (av : ℤ) (cmd : Ioctrl) → Holds SameAt (handle_ioctrl_cmd l sid av cmd s)
    unfolding handle_ioctrl_cmd
    handle-other l av Ioctrl.ipcam_start = ground (arith, n)
    handle-other l av Ioctrl.ipcam_stop = ground (arith, n)
    handle-other l av Ioctrl.ipcam_audiostart = refl
    handle-other l av Ioctrl.ipcam_audiostop = refl
    handle-other l av (Ioctrl.ipcam_speakerstart ch) = modify-other (start_speaker ch) s
    handle-other l av Ioctrl.ipcam_speakerstop = modify-other stop_speaker s
    handle-other l av Ioctrl.ipcam_listevent_req =
        send_events-other av (search_events s) (search_events s).event_list search_events-other
    handle-other l av (Ioctrl.ipcam_record_playcontrol p) = play_control-other l av p p.command
    handle-other l av (Ioctrl.ipcam_ptz_command c speed point) =
        send_ptz-other (p2p_do_ptz c speed point)
    handle-other l av Ioctrl.ioctrl_other = refl

    end_session-other : (av : ℤ) → SameAt (end_session sid av s)
    unfolding end_session refuse_session send unregedit_client_from_video
    end_session-other av = modify-other (λ c. record c { enable_video = false }) s

  Holds-trans : (s t : P2p) (o : Option P2p) → SameAt s t → Holds (SameAt t) o → Holds (SameAt s) o
  Holds-trans s t none e h = tt
  Holds-trans s t (some u) e h = h ∙ e

  -- A command and what comes after it.
  Holds-after :
      (s : P2p) (o : Option P2p) (f : P2p → Option P2p)
      → Holds (SameAt s) o
      → ((t : P2p) → Holds (SameAt t) (f t))
      → Holds (SameAt s) (elim o [ none ↦ none | some t ↦ f t ])
  Holds-after s none f h g = tt
  Holds-after s (some t) f h g = Holds-trans s t (f t) h (g t)

  serve_session-other :
      (av : ℤ) (rs : List Recv) (s : P2p) → Holds (SameAt s) (serve_session sid av rs s)
  unfolding serve_session
  serve_session-other av [] s = refl
  serve_session-other av (Recv.got l cmd ∷ rs) s =
      Holds-after s (handle_ioctrl_cmd l sid av cmd s) (serve_session sid av rs)
        (handle-other s l av cmd) (serve_session-other av rs)
  serve_session-other av (Recv.timeout ∷ rs) s = serve_session-other av rs s
  serve_session-other av (Recv.failed ∷ rs) s = end_session-other s av

  -- Whatever a session receives until it fails or waits, if nothing faults, the client of every
  -- other place of the table is as before.
  pub av_server_start-other :
      (av : ℤ) (rs : List Recv) (s t : P2p)
      → av_server_start sid av rs s ≡ some t
      → t.clients j ≡ s.clients j
  unfolding av_server_start refuse_session send
  av_server_start-other av rs s t h = elim (Bool-cases (ltb_ℤ av (pos 0))) [
    | inl b ↦
        Holds-some (SameAt s) (some (refuse_session sid s)) t
          (sym (
              if_true (ltb_ℤ av (pos 0)) (some (refuse_session sid s)) (serve_session sid av rs s)
                b)
            ∙ h)
          refl
    | inr b ↦
        Holds-some (SameAt s) (serve_session sid av rs s) t
          (sym (
              if_false (ltb_ℤ av (pos 0)) (some (refuse_session sid s)) (serve_session sid av rs s)
                b)
            ∙ h)
          (serve_session-other av rs s)
  ]

-- Whether a command reads the list of events through its pointer.
unfoldable pub needs_list : Ioctrl → Bool
needs_list (Ioctrl.ipcam_record_playcontrol p) = elim p.command [
  | PlayCommand.play_start ↦ true
  | _ ↦ false
]
needs_list _ = false

module _ (l : Link) (sid : ℕ) (av : ℤ) (s : P2p) where
  mark-none :
      (m : ℕ) (t : P2p) (o : Option (List AvEvent)) → (mark_events m t o ≡ none) ↔ (o ≡ none)
  unfolding mark_events
  mark-none m t none = ((λ _. refl), (λ _. refl))
  mark-none m t (some es) = ((λ h. cc), (λ h. cc))

  play_control-none :
      (p : PlayRecord) (c : PlayCommand)
      → (play_control l sid av p c s ≡ none)
        ↔ ((elim c [ PlayCommand.play_start ↦ true | _ ↦ false ] ≡ true) × (s.event_list ≡ none))
  unfolding play_control
  play_control-none p PlayCommand.play_start =
      let m = mark-none p.minute (modify_client sid (start_playing l p) s) s.event_list in
      ((λ h. (refl, m.0 h)), (λ h. m.1 h.1))
  play_control-none p PlayCommand.play_pause = ((λ h. cc), (λ h. cc))
  play_control-none p PlayCommand.play_stop = ((λ h. cc), (λ h. cc))
  play_control-none p PlayCommand.play_other = ((λ h. cc), (λ h. cc))

  listed : (t : P2p) (o : Option (List AvEvent)) → o ≢ none → send_events av t o ≢ none
  unfolding send_events
  listed t none n h = n refl
  listed t (some es) n h = cc

  searched : (s.search_event ≡ true → s.event_list ≢ none) → (search_events s).event_list ≢ none
  unfolding search_events
  searched k h = elim (Bool-cases s.search_event) [
    | inl b ↦ k b (ground (arith, b, h))
    | inr b ↦ ground (arith, b, h)
  ]

  -- If a search has been made only where the list of events exists, a command faults exactly if
  -- it starts a playback while there is no list of events.
  pub handle_ioctrl_cmd-none :
      (cmd : Ioctrl)
      → (s.search_event ≡ true → s.event_list ≢ none)
      → (handle_ioctrl_cmd l sid av cmd s ≡ none)
        ↔ ((needs_list cmd ≡ true) × (s.event_list ≡ none))
  unfolding handle_ioctrl_cmd needs_list
  handle_ioctrl_cmd-none Ioctrl.ipcam_listevent_req k = (
    (λ h. absurd (listed (search_events s) (search_events s).event_list (searched k) h)),
    (λ h. cc),
  )
  handle_ioctrl_cmd-none (Ioctrl.ipcam_record_playcontrol p) k = play_control-none p p.command
  handle_ioctrl_cmd-none _ k = ((λ h. cc), (λ h. cc))
