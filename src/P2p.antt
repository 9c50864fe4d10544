-- ===== src/P2p.antt =====
-- The peer-to-peer link, src/p2p.c: its table of clients, what the session threads and the video
-- thread do to it, and what they hand to the link library. Each command of a session, each end of
-- a session and each frame is one step. `none` is a fault.
mod Tests
pub mod Ptz
pub mod Frames
pub mod Counted
pub mod Runs
pub mod Sessions
use avserver.Base.{
  ℕ, zero, suc, ◌+◌, ◌-◌, ◌==◌, ℤ, pos, negsuc, minus_one, ◌+ℤ◌, eqb_ℤ, ltb_ℤ, Bool, true, false,
  ◌&&◌, ◌||◌, not, if◌then◌else◌, Option, none, some, List, [], ◌∷◌, ◌++◌, map,
}
use avserver.P2p.Ptz.{Control, PtzAct, p2p_do_ptz}

-- MAX_CLIENT_NUMBER
abbrev pub max_client_number : ℕ
max_client_number = 128

pub data PlayCommand : Type 0 where
  play_start play_pause play_stop play_other : PlayCommand

-- The fields of SMsgAVIoctrlPlayRecord that the code reads.
pub record PlayRecord : Type 0 where
  pub command : PlayCommand
  pub minute : ℕ

pub record AvClient : Type 0 where
  pub av_index : ℤ
  pub enable_audio : Bool
  pub enable_video : Bool
  pub enable_speaker : Bool
  pub stop_playback : Bool
  pub pause_playback : Bool
  pub speaker_ch : ℤ
  pub playback_ch : ℤ
  pub play_record : Option PlayRecord

-- `memset` and the index of a client that is not there.
abbrev pub no_client : AvClient
no_client = record {
  av_index = minus_one;
  enable_audio = false;
  enable_video = false;
  enable_speaker = false;
  stop_playback = false;
  pause_playback = false;
  speaker_ch = pos 0;
  playback_ch = pos 0;
  play_record = none;
}

pub record AvEvent : Type 0 where
  pub hour : ℕ
  pub minute : ℕ
  pub status : ℕ

-- What is handed to the link library and to the head.
pub data Sent : Type 0 where
  event_list : ℤ → List AvEvent → Sent
  play_resp : ℤ → PlayCommand → Sent
  frame : ℤ → ℕ → ℤ → Sent
  serv_stop : ℤ → Sent
  session_close : ℕ → Sent
  ptz : PtzAct → ℕ → Sent

pub record P2p : Type 0 where
  -- gClientInfo
  pub clients : ℕ → AvClient
  -- gOnlineNum
  pub online_num : ℤ
  -- gbSearchEvent
  pub search_event : Bool
  -- The events of gEventList; `none` is the null pointer.
  pub event_list : Option (List AvEvent)
  -- p2p_send_status
  pub send_status : ℕ
  pub sent : List Sent

-- The state when `InitAVInfo` is done.
abbrev pub init_av_info : P2p
init_av_info = record {
  clients = λ _. no_client;
  online_num = pos 0;
  search_event = false;
  event_list = none;
  send_status = 0;
  sent = [];
}

-- The numbers of the errors in the headers of the link library.
pub record Errors : Type 0 where
  pub exceed_max_size : ℤ
  pub session_close_by_remote : ℤ
  pub remote_timeout_disconnect : ℤ
  pub invalid_sid : ℤ

-- What the library returns.
pub record Link : Type 0 where
  -- IOTC_Session_Get_Free_Channel
  pub free_channel : ℤ
  -- avSendIOCtrl
  pub send_ioctrl : ℤ
  -- avSendFrameData, for the client of each place
  pub send_frame_data : ℕ → ℤ

-- The commands with what their buffers hold.
pub data Ioctrl : Type 0 where
  ipcam_start ipcam_stop ipcam_audiostart ipcam_audiostop : Ioctrl
  ipcam_speakerstart : ℤ → Ioctrl
  ipcam_speakerstop ipcam_listevent_req : Ioctrl
  ipcam_record_playcontrol : PlayRecord → Ioctrl
  ipcam_ptz_command : Control → ℕ → ℕ → Ioctrl
  ioctrl_other : Ioctrl

unfoldable pub modify_client : ℕ → (AvClient → AvClient) → P2p → P2p
modify_client sid f s = record s {
  clients = λ j. if j == sid then f (s.clients j) else s.clients j;
}

unfoldable pub send : Sent → P2p → P2p
send x s = record s { sent = s.sent ++ x ∷ [] }

unfoldable pub regedit_client_to_video : ℕ → ℤ → P2p → P2p
unfolding modify_client
regedit_client_to_video sid av s =
    modify_client sid (λ c. record c { av_index = av; enable_video = true })
      (record s { send_status = suc s.send_status })

-- A status of 0 stays 0.
unfoldable pub unregedit_client_from_video : ℕ → P2p → P2p
unfolding modify_client
unregedit_client_from_video sid s =
    modify_client sid (λ c. record c { enable_video = false })
      (record s { send_status = s.send_status - 1 })

abbrev pub new_event : ℕ → AvEvent
new_event i = record { hour = 11; minute = i; status = 0 }

-- The first search makes the list; each sends it.
unfoldable pub search_events : P2p → P2p
search_events s = if s.search_event then s else record s {
  event_list = some (new_event 0 ∷ new_event 1 ∷ new_event 2 ∷ []);
  search_event = true;
}

unfoldable pub send_events : ℤ → P2p → Option (List AvEvent) → Option P2p
unfolding send
send_events av s none = none
send_events av s (some es) = some (send (Sent.event_list av es) s)

unfoldable pub mark_event : ℕ → AvEvent → AvEvent
mark_event minute e = if minute == e.minute then record e { status = 1 } else e

-- The loop over the events reads their number through the pointer.
unfoldable pub mark_events : ℕ → P2p → Option (List AvEvent) → Option P2p
unfolding mark_event
mark_events minute s none = none
mark_events minute s (some es) = some (record s { event_list = some (map (mark_event minute) es) })

-- What the commands write to their client.
abbrev pub start_playing : Link → PlayRecord → AvClient → AvClient
start_playing l p c = record c {
  play_record = some p;
  pause_playback = false;
  stop_playback = false;
  playback_ch = l.free_channel;
}

abbrev pub turn_pause : AvClient → AvClient
turn_pause c = record c { pause_playback = not c.pause_playback }

abbrev pub stop_playing : AvClient → AvClient
stop_playing c = record c { stop_playback = true }

abbrev pub start_speaker : ℤ → AvClient → AvClient
start_speaker ch c = record c { speaker_ch = ch; enable_speaker = true }

abbrev pub stop_speaker : AvClient → AvClient
stop_speaker c = record c { enable_speaker = false }

unfoldable pub play_control : Link → ℕ → ℤ → PlayRecord → PlayCommand → P2p → Option P2p
unfolding modify_client mark_events send
play_control l sid av p PlayCommand.play_start s =
    let s' : P2p = modify_client sid (start_playing l p) s in mark_events p.minute s' s.event_list
play_control l sid av p PlayCommand.play_pause s =
    let s' : P2p = send (Sent.play_resp av PlayCommand.play_pause) s in
    some (if ltb_ℤ l.send_ioctrl (pos 0) then s' else modify_client sid turn_pause s')
play_control l sid av p PlayCommand.play_stop s = some (modify_client sid stop_playing s)
play_control l sid av p PlayCommand.play_other s = some s

unfoldable pub send_ptz : Option (PtzAct × ℕ) → P2p → P2p
unfolding send
send_ptz none s = s
send_ptz (some (a, speed)) s = send (Sent.ptz a speed) s

unfoldable pub handle_ioctrl_cmd : Link → ℕ → ℤ → Ioctrl → P2p → Option P2p
unfolding regedit_client_to_video unregedit_client_from_video modify_client search_events
    send_events play_control send_ptz
handle_ioctrl_cmd l sid av ipcam_start s = some (regedit_client_to_video sid av s)
handle_ioctrl_cmd l sid av ipcam_stop s = some (unregedit_client_from_video sid s)
handle_ioctrl_cmd l sid av ipcam_audiostart s = some s
handle_ioctrl_cmd l sid av ipcam_audiostop s = some s
handle_ioctrl_cmd l sid av (ipcam_speakerstart ch) s = some (modify_client sid (start_speaker ch) s)
handle_ioctrl_cmd l sid av ipcam_speakerstop s = some (modify_client sid stop_speaker s)
handle_ioctrl_cmd l sid av ipcam_listevent_req s =
    send_events av (search_events s) (search_events s).event_list
handle_ioctrl_cmd l sid av (ipcam_record_playcontrol p) s = play_control l sid av p p.command s
handle_ioctrl_cmd l sid av (ipcam_ptz_command control speed point) s =
    some (send_ptz (p2p_do_ptz control speed point) s)
handle_ioctrl_cmd l sid av ioctrl_other s = some s

-- `p2p_start` after `IOTC_Listen` has returned a session, with the result of `pthread_create`.
unfoldable pub accept_session : ℤ → P2p → P2p
accept_session ret s =
    if ltb_ℤ ret (pos 0) then s else record s { online_num = s.online_num +ℤ pos 1 }

-- The end of `thread_ForAVServerStart` where `avServStart3` has failed.
unfoldable pub refuse_session : ℕ → P2p → P2p
unfolding send
refuse_session sid s =
    let s' : P2p = send (Sent.session_close sid) s in
    record s' { online_num = s'.online_num +ℤ minus_one }

-- The end of `thread_ForAVServerStart` after its loop.
unfoldable pub end_session : ℕ → ℤ → P2p → P2p
unfolding unregedit_client_from_video refuse_session send
end_session sid av s =
    refuse_session sid (send (Sent.serv_stop av) (unregedit_client_from_video sid s))

-- What one `avRecvIOCtrl` returns.
pub data Recv : Type 0 where
  got : Link → Ioctrl → Recv
  timeout failed : Recv

-- `thread_ForAVServerStart` by itself, with its index and what it receives; it waits where the
-- receptions end without a failure.
unfoldable pub serve_session : ℕ → ℤ → List Recv → P2p → Option P2p
unfolding handle_ioctrl_cmd end_session
serve_session sid av [] s = some s
serve_session sid av (got l cmd ∷ rs) s = elim (handle_ioctrl_cmd l sid av cmd s) [
  | none ↦ none
  | some s' ↦ serve_session sid av rs s'
]
serve_session sid av (timeout ∷ rs) s = serve_session sid av rs s
serve_session sid av (failed ∷ rs) s = some (end_session sid av s)

unfoldable pub av_server_start : ℕ → ℤ → List Recv → P2p → Option P2p
unfolding serve_session refuse_session
av_server_start sid av rs s =
    if ltb_ℤ av (pos 0) then some (refuse_session sid s) else serve_session sid av rs s

module _ (e : Errors) where
  -- Whether the result of a frame means that its client is gone.
  unfoldable pub is_gone : ℤ → Bool
  is_gone ret =
      not (eqb_ℤ ret e.exceed_max_size)
      && (eqb_ℤ ret e.session_close_by_remote
          || eqb_ℤ ret e.remote_timeout_disconnect
          || eqb_ℤ ret e.invalid_sid)

  unfoldable pub is_watching : AvClient → Bool
  is_watching c = not (ltb_ℤ c.av_index (pos 0)) && c.enable_video

  -- The body of the loop over the clients.
  unfoldable pub send_to : Link → ℕ → ℕ → P2p → P2p
  unfolding is_gone is_watching send unregedit_client_from_video
  send_to l flag i s =
      let s' : P2p = send (Sent.frame (s.clients i).av_index flag s.online_num) s in
      if is_watching (s.clients i)
      then (if is_gone (l.send_frame_data i) then unregedit_client_from_video i s' else s')
      else s

  unfoldable pub send_to_all : Link → ℕ → ℕ → ℕ → P2p → P2p
  unfolding send_to
  send_to_all l flag zero i s = s
  send_to_all l flag (suc n) i s = send_to_all l flag n (suc i) (send_to l flag i s)

  unfoldable pub send_frame_p2p : Link → ℕ → P2p → P2p
  unfolding send_to_all
  send_frame_p2p l flag s =
      if s.send_status == 0 then s else send_to_all l flag max_client_number 0 s
