-- ===== src/Http/Hub/Clients.antt =====
-- The clients of the hub under every order of its steps, and what a broadcast does.
use mock_my_mta.Base.{
  ◌≡◌, refl, ap, ◌∙◌, sym, List, [], ◌∷◌, ◌++◌, Bool, true, false, not, ◌||◌, ◌&&◌, ℕ, eqb, eqb_iff,
  keep, all, arith, Bool-cases, inl, inr, map,
}
use mathlib.Core.List.{append_assoc, append-nil}
use mock_my_mta.Http.Server.{Event}
use mock_my_mta.Http.Hub.{
  Hub, among, join, leave, send_each, broadcast, Step, joins, leaves, broadcasts, Reach, start,
  next,
}

abbrev pub Distinct : List ℕ → Type 0
Distinct [] = Unit
Distinct (c ∷ cs) = (among c cs ≡ false) × Distinct cs

-- The clients are distinct, and no connection among them was closed.
abbrev pub IsOpen : Hub → Type 0
IsOpen h = Distinct h.clients × (all (λ c. not (among c h.closed)) h.clients ≡ true)

among-keep : (p : ℕ → Bool) (c : ℕ) (cs : List ℕ) → among c cs ≡ false → among c (keep p cs) ≡ false
among-keep p c [] h = refl
among-keep p c (d ∷ cs) h = ground (arith, among-keep p c cs)

keep-Distinct : (p : ℕ → Bool) (cs : List ℕ) → Distinct cs → Distinct (keep p cs)
keep-Distinct p [] d = tt
keep-Distinct p (c ∷ cs) (fresh, d) = elim (Bool-cases (p c)) [
  | inl kept ↦ rw kept (among-keep p c cs fresh, keep-Distinct p cs d)
  | inr dropped ↦ rw dropped (keep-Distinct p cs d)
]

-- Closing one connection and dropping it from the clients leaves the others open.
keep-open :
    (c : ℕ) (closed cs : List ℕ)
    → all (λ d. not (among d closed)) cs ≡ true
    → all (λ d. not (among d (c ∷ closed))) (keep (λ d. not (eqb d c)) cs) ≡ true
keep-open c closed [] h = refl
keep-open c closed (d ∷ cs) h = ground (arith, keep-open c closed cs)

leave-IsOpen : (c : ℕ) (h : Hub) → IsOpen h → IsOpen (leave c h)
unfolding leave
leave-IsOpen c h (distinct, working) =
    (keep-Distinct (λ d. not (eqb d c)) h.clients distinct, keep-open c h.closed h.clients working)

snoc-Distinct : (c : ℕ) (cs : List ℕ) → among c cs ≡ false → Distinct cs → Distinct (cs ++ (c ∷ []))
snoc-Distinct c [] fresh d = (refl, tt)
snoc-Distinct c (b ∷ cs) fresh (new, d) =
    (among-snoc b c cs new (ground arith), snoc-Distinct c cs (ground arith) d)
  where
    among-snoc :
        (b c : ℕ) (cs : List ℕ)
        → among b cs ≡ false
        → eqb b c ≡ false
        → among b (cs ++ (c ∷ [])) ≡ false
    among-snoc b c [] h k = ground arith
    among-snoc b c (a ∷ cs) h k = ground (arith, among-snoc b c cs)

all-snoc :
    (p : ℕ → Bool) (c : ℕ) (cs : List ℕ)
    → all p cs ≡ true
    → p c ≡ true
    → all p (cs ++ (c ∷ [])) ≡ true
all-snoc p c [] h k = ground arith
all-snoc p c (b ∷ cs) h k = ground (arith, all-snoc p c cs)

join-IsOpen :
    (c : ℕ) (h : Hub)
    → among c h.clients ≡ false
    → among c h.closed ≡ false
    → IsOpen h
    → IsOpen (join c h)
unfolding join
join-IsOpen c h new alive (distinct, working) = rw new (
  snoc-Distinct c h.clients new distinct,
  all-snoc (λ d. not (among d h.closed)) c h.clients working (ap not alive),
)

send_each-IsOpen :
    (works : ℕ → Bool) (event : Event) (cs : List ℕ) (h : Hub)
    → IsOpen h
    → IsOpen (send_each works event cs h)
unfolding send_each leave
send_each-IsOpen works event [] h o = o
send_each-IsOpen works event (c ∷ cs) h o = elim (Bool-cases (works c)) [
  | inl written ↦ rw written (send_each-IsOpen works event cs _ o)
  | inr failed ↦ rw failed (send_each-IsOpen works event cs _ (leave-IsOpen c h o))
]

Step-IsOpen : {h k : Hub} → Step h k → IsOpen h → IsOpen k
unfolding broadcast
Step-IsOpen {h = h} (joins c new alive) o = join-IsOpen c h new alive o
Step-IsOpen {h = h} (leaves c) o = leave-IsOpen c h o
Step-IsOpen {h = h} (broadcasts works event) o = send_each-IsOpen works event h.clients h o

-- Whatever connections come and go, and whatever is broadcast in between, the clients of the hub
-- are distinct and no connection that was closed is among them.
pub Reach-IsOpen : {h : Hub} → Reach h → IsOpen h
Reach-IsOpen start = (tt, refl)
Reach-IsOpen (next r s) = Step-IsOpen s (Reach-IsOpen r)

keep-keep : (p q : ℕ → Bool) (cs : List ℕ) → keep p (keep q cs) ≡ keep (λ c. q c && p c) cs
keep-keep p q [] = refl
keep-keep p q (c ∷ cs) = ground (arith, keep-keep p q cs)

keep-all : (p : ℕ → Bool) → ((c : ℕ) → p c ≡ true) → (cs : List ℕ) → keep p cs ≡ cs
keep-all p always [] = refl
keep-all p always (c ∷ cs) = ground (arith, always c, keep-all p always cs)

keep-same : (p q : ℕ → Bool) → ((c : ℕ) → p c ≡ q c) → (cs : List ℕ) → keep p cs ≡ keep q cs
keep-same p q same [] = refl
keep-same p q same (c ∷ cs) = ground (arith, same c, keep-same p q same cs)

send_each-clients :
    (works : ℕ → Bool) (event : Event) (cs : List ℕ) (h : Hub)
    → (send_each works event cs h).clients ≡ keep (λ d. works d || not (among d cs)) h.clients
unfolding send_each
send_each-clients works event [] h =
    sym (keep-all (λ d. works d || true) (λ d. ground arith) h.clients)
send_each-clients works event (c ∷ cs) h = elim (Bool-cases (works c)) [
  | inl written ↦ rw written (
      send_each-clients works event cs _
      ∙ keep-same _ _ (λ d. ground (arith, eqb_iff d c, ap works, written)) h.clients)
  | inr failed ↦ rw failed (
      send_each-clients works event cs _
      ∙ keep-keep (λ d. works d || not (among d cs)) (λ d. not (eqb d c)) h.clients
      ∙ keep-same _ _ (λ d. ground (arith, eqb_iff d c, failed)) h.clients)
]

send_each-received :
    (works : ℕ → Bool) (event : Event) (cs : List ℕ) (h : Hub)
    → (send_each works event cs h).received ≡ h.received ++ map (λ c. (c, event)) (keep works cs)
unfolding send_each
send_each-received works event [] h = sym (append-nil h.received)
send_each-received works event (c ∷ cs) h = elim (Bool-cases (works c)) [
  | inl written ↦ rw written (
      send_each-received works event cs _
      ∙ append_assoc h.received ((c, event) ∷ []) (map (λ d. (d, event)) (keep works cs)))
  | inr failed ↦ rw failed (send_each-received works event cs _)
]

among-own :
    (works : ℕ → Bool) (cs ds : List ℕ)
    → all (λ d. among d cs) ds ≡ true
    → keep (λ d. works d || not (among d cs)) ds ≡ keep works ds
among-own works cs [] h = refl
among-own works cs (d ∷ ds) h = ground (arith, among-own works cs ds)

all-among : (cs : List ℕ) → all (λ d. among d cs) cs ≡ true
all-among cs = widen cs cs (λ d h. h)
  where
    widen :
        (cs ds : List ℕ)
        → ((d : ℕ) → among d ds ≡ true → among d cs ≡ true)
        → all (λ d. among d cs) ds ≡ true
    widen cs [] inside = refl
    widen cs (d ∷ ds) inside =
        ground (arith, inside d, widen cs ds (λ e h. inside e (ground arith)), eqb_iff d d)

-- A broadcast sends the event to each client once, in their order; the clients that it cannot be
-- written to are dropped, and all others stay.
pub broadcast-clients :
    (works : ℕ → Bool) (event : Event) (h : Hub)
    → ((broadcast works event h).clients ≡ keep works h.clients)
      × ((broadcast works event h).received
          ≡ h.received ++ map (λ c. (c, event)) (keep works h.clients))
unfolding broadcast
broadcast-clients works event h = (
  send_each-clients works event h.clients h
      ∙ among-own works h.clients h.clients (all-among h.clients),
  send_each-received works event h.clients h,
)
