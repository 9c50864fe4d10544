-- ===== src/Server/Tests.antt =====
-- A full table and two rounds: an example of the theorem.
use avserver.Base.{◌+◌, pos, ◌≡◌, refl, false, Option, some, [], ◌∷◌, length, eqb_ℤ}
use avserver.Server.{Clients, Io}
use avserver.Server.Table.{known, rounds, arrivals, rounds-known}

abbrev full : Clients
full = record {
  slots = pos 4 ∷ pos 5 ∷ pos 6 ∷ pos 7 ∷ pos 8 ∷ pos 9 ∷ pos 10 ∷ pos 11 ∷ pos 12 ∷ [];
  closed = [];
}

-- Connection 13 arrives; in the second case client 6 has hung up.
abbrev knocks : Io
knocks = record {
  accepted = some (pos 13);
  ready_count = 1;
  ready = λ fd. false;
  readlen = λ fd. pos 0;
  reply_len = λ fd. pos 0;
  bad_descriptor = λ fd. false;
}

abbrev hangs : Io
hangs = record knocks { accepted = Option.none; ready = λ fd. eqb_ℤ fd (pos 6) }

rounds-known_example :
    (known (pos 13) (rounds (knocks ∷ hangs ∷ []) full)
      ≡ arrivals (pos 13) (knocks ∷ hangs ∷ []) + known (pos 13) full)
    × (length (rounds (knocks ∷ hangs ∷ []) full).slots ≡ length full.slots)
rounds-known_example = rounds-known (knocks ∷ hangs ∷ []) (pos 13) full refl
