-- ===== src/P2p/Tests.antt =====
-- The peer-to-peer link of src/p2p.c at concrete inputs.
use avserver.Base.{
  ◌≡◌, ◌↔◌, refl, arith, pos, negsuc, true, none, List, [], ◌∷◌, ◌==◌, if◌then◌else◌,
}
use avserver.P2p.{
  P2p, Errors, Link, Ioctrl, PlayCommand, Recv, init_av_info, regedit_client_to_video,
  handle_ioctrl_cmd, end_session, send_frame_p2p, av_server_start,
}
use avserver.P2p.Runs.{end_session-silences}
use avserver.P2p.Sessions.{needs_list, av_server_start-other, handle_ioctrl_cmd-none}

abbrev errors : Errors
errors = record {
  exceed_max_size = negsuc 20005;
  session_close_by_remote = negsuc 20014;
  remote_timeout_disconnect = negsuc 20015;
  invalid_sid = negsuc 13;
}

-- The client at place 5 has gone.
abbrev link : Link
link = record {
  free_channel = pos 1;
  send_ioctrl = pos 0;
  send_frame_data = λ i. if i == 5 then negsuc 20014 else pos 0;
}

-- One client watches.
abbrev one_watches : P2p
one_watches = regedit_client_to_video 3 (pos 0) init_av_info

end_session-silences_example :
    let t = end_session 4 (pos 1) one_watches in
    (t.clients 3 ≡ one_watches.clients 3) × (send_frame_p2p errors link 1 t ≡ t)
unfolding regedit_client_to_video
end_session-silences_example =
    end_session-silences errors link 1 4 3 (pos 1) one_watches refl (λ h. absurd (omega arith))

-- A session that starts the picture and fails.
abbrev received : List Recv
received = Recv.got link Ioctrl.ipcam_start ∷ Recv.timeout ∷ Recv.failed ∷ []

av_server_start-other_example :
    (end_session 4 (pos 1) (regedit_client_to_video 4 (pos 1) one_watches)).clients 3
    ≡ one_watches.clients 3
unfolding av_server_start handle_ioctrl_cmd end_session
av_server_start-other_example =
    av_server_start-other 4 3 (λ h. absurd (omega arith)) (pos 1) received one_watches
      (end_session 4 (pos 1) (regedit_client_to_video 4 (pos 1) one_watches)) refl

handle_ioctrl_cmd-none_example :
    (handle_ioctrl_cmd link 3
        (pos 0)
        (Ioctrl.ipcam_record_playcontrol (record { command = PlayCommand.play_start; minute = 1 }))
        one_watches
      ≡ none)
    ↔ ((needs_list (
            Ioctrl.ipcam_record_playcontrol
              (record { command = PlayCommand.play_start; minute = 1 }))
          ≡ true)
        × (one_watches.event_list ≡ none))
unfolding regedit_client_to_video
handle_ioctrl_cmd-none_example =
    handle_ioctrl_cmd-none link 3 (pos 0) one_watches
      (Ioctrl.ipcam_record_playcontrol (record { command = PlayCommand.play_start; minute = 1 }))
      (λ h. cc)
