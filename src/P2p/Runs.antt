-- ===== src/P2p/Runs.antt =====
-- Runs of the peer-to-peer link: the threads of src/p2p.c in any order.
use avserver.Base.{ℕ, ◌<◌, ◌≡◌, ◌≢◌, arith, ℤ, pos, ltb_ℤ, true, false, some}
use avserver.P2p.{
  P2p, Errors, Link, Ioctrl, max_client_number, modify_client, send, unregedit_client_from_video,
  handle_ioctrl_cmd, accept_session, refuse_session, end_session, send_frame_p2p,
}
use avserver.P2p.Frames.{send_frame_p2p-asleep}
use avserver.P2p.Counted.{Fair}

module _ (e : Errors) where
  -- One step of any thread, where the peers are fair: each starts the picture only while it does
  -- not watch, and stops it or leaves only while it does.
  pub data Step : P2p → P2p → Type 0 where
    accepted : (ret : ℤ) (s : P2p) → Step s (accept_session ret s)
    refused : (sid : ℕ) (s : P2p) → Step s (refuse_session sid s)
    command :
        (l : Link) (sid : ℕ) (av : ℤ) (cmd : Ioctrl) (s t : P2p)
        → sid < max_client_number
        → ltb_ℤ av (pos 0) ≡ false
        → Fair cmd (s.clients sid)
        → handle_ioctrl_cmd l sid av cmd s ≡ some t
        → Step s t
    ended :
        (sid : ℕ) (av : ℤ) (s : P2p)
        → sid < max_client_number
        → (s.clients sid).enable_video ≡ true
        → Step s (end_session sid av s)
    framed : (l : Link) (flag : ℕ) (s : P2p) → Step s (send_frame_p2p e l flag s)

  -- What a run reaches.
  pub data Reach (s : P2p) : P2p → Type 0 where
    here : Reach s s
    next : {t u : P2p} → Reach s t → Step t u → Reach s u

  -- While one client is counted, the end of any session, of a peer that never watched or had
  -- stopped too, leaves every other client as it was, those that watch among them, but no frame
  -- is sent from then on: send_frame_p2p changes nothing.
  pub end_session-silences :
      (l : Link) (flag sid j : ℕ) (av : ℤ) (s : P2p)
      → s.send_status ≡ 1
      → j ≢ sid
      → let t = end_session sid av s in
        (t.clients j ≡ s.clients j) × (send_frame_p2p e l flag t ≡ t)
  unfolding end_session refuse_session send unregedit_client_from_video modify_client
  end_session-silences l flag sid j av s h n =
      (ground (arith, n), send_frame_p2p-asleep e l flag (end_session sid av s) (ground (arith, h)))
