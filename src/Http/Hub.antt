-- ===== src/Http/Hub.antt =====
-- http/websocket.go: the clients of the hub. A connection is a number that is never given out again;
-- the pings and deadlines of a connection are the library's, and show only as its end.
pub mod Clients
use mock_my_mta.Base.{
  ◌≡◌, refl, ap, ap₂, ◌∙◌, sym, List, [], ◌∷◌, ◌++◌, Bool, true, false, not, ◌||◌, ◌&&◌,
  if◌then◌else◌, ℕ, eqb, keep, any, all, arith, Bool-cases, inl, inr, map,
}
use mock_my_mta.Http.Server.{Event}

-- wsHub, with the connections that were closed and what each client was sent.
pub record Hub : Type 0 where
  pub clients : List ℕ
  pub closed : List ℕ
  pub received : List (ℕ × Event)

abbrev pub new_hub : Hub
new_hub = record { clients = []; closed = []; received = [] }

abbrev pub among : ℕ → List ℕ → Bool
among c = any (eqb c)

-- handleWebSocket up to its read loop.
unfoldable pub join : ℕ → Hub → Hub
join c h = record h { clients = if among c h.clients then h.clients else h.clients ++ (c ∷ []) }

-- The end of handleWebSocket, when a read has failed.
unfoldable pub leave : ℕ → Hub → Hub
leave c h = record h { clients = keep (λ d. not (eqb d c)) h.clients; closed = c ∷ h.closed }

-- The loop of BroadcastEvent over the clients; `works` says which writes succeed.
unfoldable pub send_each : (ℕ → Bool) → Event → List ℕ → Hub → Hub
send_each works event [] h = h
send_each works event (c ∷ cs) h =
    if works c
    then send_each works event cs (record h { received = h.received ++ ((c, event) ∷ []) })
    else send_each works event cs
        (record h { clients = keep (λ d. not (eqb d c)) h.clients; closed = c ∷ h.closed })

unfoldable pub broadcast : (ℕ → Bool) → Event → Hub → Hub
unfolding send_each
broadcast works event h = send_each works event h.clients h

-- The steps of the hub: the connections come and go in any order, between the broadcasts.
pub data Step (h : Hub) : Hub → Type 0 where
  joins : (c : ℕ) → among c h.clients ≡ false → among c h.closed ≡ false → Step h (join c h)
  leaves : (c : ℕ) → Step h (leave c h)
  broadcasts : (works : ℕ → Bool) (event : Event) → Step h (broadcast works event h)

pub data Reach : Hub → Type 0 where
  start : Reach new_hub
  next : {h k : Hub} → Reach h → Step h k → Reach k
