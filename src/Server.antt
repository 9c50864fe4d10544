-- ===== src/Server.antt =====
-- The table of clients of the control server, src/av_server.c 34-181: `arrClient_fd`, less its first
-- entry, which is the server's own socket. A slot that is not positive is free.
pub mod Table
mod Tests
use avserver.Base.{
  ℕ, suc, ◌+◌, ℤ, pos, Bool, true, false, ◌&&◌, ◌||◌, not, eqb_ℤ, leb_ℤ, ltb_ℤ, ◌==◌, if◌then◌else◌,
  Option, none, some, List, [], ◌∷◌,
}

-- `MAX_LIST_FD` - 1
abbrev pub max_clients : ℕ
max_clients = 9

pub record Clients : Type 0 where
  pub slots : List ℤ
  -- The descriptors closed so far, the last first.
  pub closed : List ℤ

-- The loop that looks for a free slot; `none` where it finds none.
unfoldable pub place : ℤ → List ℤ → Option (List ℤ)
place fd [] = none
place fd (c ∷ cs) =
    let rest : Option (List ℤ) = elim (place fd cs) [ none ↦ none | some ds ↦ some (c ∷ ds) ] in
    if leb_ℤ c (pos 0) then some (fd ∷ cs) else rest

unfoldable pub place_or_close : ℤ → Clients → Option (List ℤ) → Clients × Bool
place_or_close fd t none = (record t { closed = fd ∷ t.closed }, false)
place_or_close fd t (some slots) = (record t { slots = slots }, true)

-- What one `select` and the calls after it return: the descriptors that are readable, the length
-- that `read` and `processMsg` return for each, and whether the answer fails with EBADF.
pub record Io : Type 0 where
  -- The result of `accept`, where the server's socket is readable.
  pub accepted : Option ℤ
  -- The number of descriptors that are ready.
  pub ready_count : ℕ
  pub ready : ℤ → Bool
  pub readlen : ℤ → ℤ
  pub reply_len : ℤ → ℤ
  pub bad_descriptor : ℤ → Bool

-- Whether the body of the loop closes a client.
unfoldable pub hangs_up : Io → ℤ → Bool
hangs_up io fd =
    io.ready fd
    && (leb_ℤ (io.readlen fd) (pos 3)
        || (not (eqb_ℤ (io.reply_len fd) (pos 0)) && io.bad_descriptor fd))

-- The loop over the clients.
unfoldable pub serve_clients : Io → List ℤ → List ℤ → List ℤ × List ℤ
unfolding hangs_up
serve_clients io [] closed = ([], closed)
serve_clients io (fd ∷ fds) closed =
    let gone : Bool = hangs_up io fd in
    let (fds', closed') = serve_clients io fds (if gone then fd ∷ closed else closed) in
    ((if gone then pos 0 else fd) ∷ fds', closed')

unfoldable pub serve : Io → Clients → Clients
unfolding serve_clients
serve io t =
    let (slots, closed) = serve_clients io t.slots t.closed in
    record { slots = slots; closed = closed }

-- The part of a round that a new connection takes: the table, and whether the round goes on to the
-- clients.
unfoldable pub accept_client : Io → ℤ → Clients → Clients × Bool
unfolding place place_or_close
accept_client io fd t =
    let (t', placed) = place_or_close fd t (place fd t.slots) in
    if ltb_ℤ fd (pos 0) then (t, false) else (t', placed && not (io.ready_count == 1))

unfoldable pub round_with : Io → Clients → Option ℤ → Clients
unfolding accept_client serve
round_with io t none = serve io t
round_with io t (some fd) =
    let (t', onward) = accept_client io fd t in if onward then serve io t' else t'

-- A round of `av_server` after `select` has returned a positive number.
unfoldable pub round : Io → Clients → Clients
unfolding round_with
round io t = round_with io t io.accepted
