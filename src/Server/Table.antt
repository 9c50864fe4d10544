-- ===== src/Server/Table.antt =====
-- No connection is lost.
use avserver.Base.{
  ℕ, ◌+◌, ℤ, pos, ◌≡◌, refl, ◌∙◌, arith, Bool, true, false, eqb_ℤ, leb_ℤ, ltb_ℤ, if◌then◌else◌,
  Option, none, some, List, [], ◌∷◌, length, Bool-cases, inl, inr,
}
use avserver.Server.{
  Clients, place, place_or_close, Io, hangs_up, serve_clients, serve, accept_client, round_with,
  round,
}

-- How often a descriptor stands in a list.
abbrev pub occurs : ℤ → List ℤ → ℕ
occurs fd [] = 0
occurs fd (c ∷ cs) = (if eqb_ℤ c fd then 1 else 0) + occurs fd cs

-- How often it is open or closed.
abbrev pub known : ℤ → Clients → ℕ
known fd t = occurs fd t.slots + occurs fd t.closed

serve_clients-occurs :
    (io : Io) (x : ℤ) (fds closed : List ℤ)
    → ltb_ℤ (pos 0) x ≡ true
    → let (fds', closed') = serve_clients io fds closed in
      (occurs x fds' + occurs x closed' ≡ occurs x fds + occurs x closed)
      × (length fds' ≡ length fds)
unfolding serve_clients
serve_clients-occurs io x [] closed p = (refl, refl)
serve_clients-occurs io x (fd ∷ fds) closed p =
    let ih = serve_clients-occurs io x fds (if hangs_up io fd then fd ∷ closed else closed) p in
    ground (arith, ih)

-- A table after a new connection.
place-occurs :
    (fd x : ℤ) (cs ds : List ℤ)
    → ltb_ℤ (pos 0) x ≡ true
    → place fd cs ≡ some ds
    → (occurs x ds ≡ (if eqb_ℤ fd x then 1 else 0) + occurs x cs) × (length ds ≡ length cs)
unfolding place
place-occurs fd x [] ds p e = absurd (cc)
place-occurs fd x (c ∷ cs) ds p e = elim (Bool-cases (leb_ℤ c (pos 0))) [
  | inl vacant ↦ let same : ds ≡ fd ∷ cs = ground arith in ground arith
  | inr held ↦ behind held (place fd cs) refl (place-occurs fd x cs)
]
  where
    behind :
        leb_ℤ c (pos 0) ≡ false
        → (o : Option (List ℤ)) → place fd cs ≡ o
        → ((ds : List ℤ)
            → ltb_ℤ (pos 0) x ≡ true
            → place fd cs ≡ some ds
            → (occurs x ds ≡ (if eqb_ℤ fd x then 1 else 0) + occurs x cs) × (length ds ≡ length cs))
        → (occurs x ds ≡ (if eqb_ℤ fd x then 1 else 0) + occurs x (c ∷ cs))
          × (length ds ≡ length (c ∷ cs))
    behind held none o ih = absurd (ground arith)
    behind held (some es) o ih =
        let same : ds ≡ c ∷ es = ground arith in let rest = ih es p o in ground arith

-- How often a result of `accept` is the descriptor.
abbrev pub arrives : ℤ → Option ℤ → ℕ
arrives x none = 0
arrives x (some fd) = if eqb_ℤ fd x then 1 else 0

-- The two counts that a step keeps.
abbrev Conserves : ℤ → ℕ → Clients → Clients → Type 0
Conserves x n t u = (known x u ≡ n + known x t) × (length u.slots ≡ length t.slots)

serve-Conserves :
    (io : Io) (x : ℤ) (t : Clients) → ltb_ℤ (pos 0) x ≡ true → Conserves x 0 t (serve io t)
unfolding serve
serve-Conserves io x t p =
    let (a, b) = serve_clients-occurs io x t.slots t.closed p in (omega arith, b)

placed-Conserves :
    (fd x : ℤ) (t : Clients) (o : Option (List ℤ))
    → ltb_ℤ (pos 0) x ≡ true
    → place fd t.slots ≡ o
    → Conserves x (if eqb_ℤ fd x then 1 else 0) t (place_or_close fd t o).0
unfolding place_or_close
placed-Conserves fd x t none p e = (omega arith, refl)
placed-Conserves fd x t (some ds) p e =
    let (a, b) = place-occurs fd x t.slots ds p e in (omega arith, b)

accept-Conserves :
    (io : Io) (fd x : ℤ) (t : Clients)
    → ltb_ℤ (pos 0) x ≡ true
    → Conserves x (if eqb_ℤ fd x then 1 else 0) t (accept_client io fd t).0
unfolding accept_client
accept-Conserves io fd x t p = elim (Bool-cases (ltb_ℤ fd (pos 0))) [
  | inl e ↦ rw e (ground arith, refl)
  | inr e ↦ rw e (placed-Conserves fd x t (place fd t.slots) p refl)
]

round-accepted :
    (io : Io) (fd x : ℤ) (t u : Clients) (onward : Bool)
    → ltb_ℤ (pos 0) x ≡ true
    → Conserves x (if eqb_ℤ fd x then 1 else 0) t u
    → Conserves x (if eqb_ℤ fd x then 1 else 0) t (if onward then serve io u else u)
round-accepted io fd x t u false p (a, b) = (a, b)
round-accepted io fd x t u true p (a, b) =
    let (c, d) = serve-Conserves io x u p in (omega arith, d ∙ b)

-- A descriptor that is accepted is held or closed, and no other changes.
round_with-Conserves :
    (io : Io) (x : ℤ) (t : Clients) (o : Option ℤ)
    → ltb_ℤ (pos 0) x ≡ true
    → Conserves x (arrives x o) t (round_with io t o)
unfolding round_with
round_with-Conserves io x t none p = serve-Conserves io x t p
round_with-Conserves io x t (some fd) p =
    round-accepted io fd x t (accept_client io fd t).0 (accept_client io fd t).1 p
      (accept-Conserves io fd x t p)

-- Any number of rounds.
unfoldable pub rounds : List Io → Clients → Clients
rounds [] t = t
rounds (io ∷ ios) t = rounds ios (round io t)

abbrev pub arrivals : ℤ → List Io → ℕ
arrivals x [] = 0
arrivals x (io ∷ ios) = arrives x io.accepted + arrivals x ios

-- Over any rounds of av_server, with any results of select, accept, read, processMsg and write,
-- each positive descriptor stands among the client slots and the closed descriptors together as
-- often as before and once more for each time that it was accepted: no connection is lost or
-- closed twice. The number of slots stays the same.
pub rounds-known :
    (ios : List Io) (x : ℤ) (t : Clients)
    → ltb_ℤ (pos 0) x ≡ true
    → (known x (rounds ios t) ≡ arrivals x ios + known x t)
      × (length (rounds ios t).slots ≡ length t.slots)
unfolding rounds round
rounds-known [] x t p = (omega arith, refl)
rounds-known (io ∷ ios) x t p =
    let (a, b) = round_with-Conserves io x t io.accepted p in
    let (c, d) = rounds-known ios x (round io t) p in (omega arith, d ∙ b)
