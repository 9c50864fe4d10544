-- ===== src/P2p/Frames.antt =====
-- The loop that sends a frame to the clients: `send_frame_p2p`, src/p2p.c 752-809.
use avserver.Base.{
  ℕ, zero, suc, ◌==◌, ◌≡◌, ◌≢◌, arith, ℤ, false, ◌&&◌, if◌then◌else◌, Bool-cases, if_false, if_true,
  inl, inr, List, [], ◌∷◌,
}
use avserver.P2p.{
  AvClient, Sent, P2p, Errors, Link, max_client_number, modify_client, send,
  unregedit_client_from_video, is_gone, is_watching, send_to, send_to_all, send_frame_p2p,
}

module _ (e : Errors) where
  -- A client after a frame.
  unfoldable pub after_frame : Link → ℕ → AvClient → AvClient
  after_frame l j c =
      if is_watching e c && is_gone e (l.send_frame_data j)
      then record c { enable_video = false }
      else c

  -- The frames for the watching clients among `n` from number `i` on.
  unfoldable pub frames_for : ℕ → ℤ → (ℕ → AvClient) → ℕ → ℕ → List Sent
  frames_for flag online c zero i = []
  frames_for flag online c (suc n) i =
      let rest = frames_for flag online c n (suc i) in
      if is_watching e (c i) then Sent.frame (c i).av_index flag online ∷ rest else rest

  module _ (l : Link) (flag : ℕ) where
    pub send_to-clients :
        (i j : ℕ) (s : P2p)
        → (send_to e l flag i s).clients j
          ≡ (if j == i then after_frame l j (s.clients j) else s.clients j)
    unfolding send_to after_frame unregedit_client_from_video modify_client send
    send_to-clients i j s = ground arith

    pub send_frame_p2p-asleep : (s : P2p) → s.send_status ≡ 0 → send_frame_p2p e l flag s ≡ s
    unfolding send_frame_p2p
    send_frame_p2p-asleep s h =
        if_true (s.send_status == 0) s (send_to_all e l flag max_client_number 0 s)
          (ground (arith, h))

    pub send_frame_p2p-awake :
        (s : P2p)
        → s.send_status ≢ 0
        → send_frame_p2p e l flag s ≡ send_to_all e l flag max_client_number 0 s
    unfolding send_frame_p2p
    send_frame_p2p-awake s h = elim (Bool-cases (s.send_status == 0)) [
      | inl t ↦ absurd (h (ground (arith, t)))
      | inr t ↦ if_false (s.send_status == 0) s (send_to_all e l flag max_client_number 0 s) t
    ]
