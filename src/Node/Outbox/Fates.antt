-- ===== src/Node/Outbox/Fates.antt =====
-- What `due` does with one message.
use oxinode.Prelude.{
  ℕ, ◌+◌, ◌-◌, ◌^◌, ◌≤◌, ◌<◌, Bool, true, false, List, [], ◌∷◌, Option, none, some, ◌≡◌, ◌⊎◌, refl,
  arith, ltb, leb, Bool-cases, inl, inr,
}
use oxinode.Node.Delivery.{
  turn, path, host, idle, Failure, no_path, no_proof, Delivery, queued, sent, delivered, failed,
}
use oxinode.Node.Peers.{Table, get}
use oxinode.Node.Outbox.{Sending, Due, ask, send, given_up, path_ask_ms, path_timeout_ms, never}
use oxinode.Node.Outbox.Scheduling.{due_in, due_turn, due_path, due_sent}

-- A message for which nothing is to be done at `now`: its time has not come, and it has not waited
-- for a path for a minute.
abbrev pub Settled : ℕ → Bool → Delivery → Sending → Type 0
Settled now known (queued turn) s = now < s.next_ms
Settled now known (queued path) s =
    (known ≡ false) × (now < s.next_ms) × (now < s.asked_since_ms + 60000)
Settled now known (sent n) s = now < s.next_ms
Settled now known _ s = Unit

-- A message that may be sent: its time has come, or it only waits for a path.
abbrev pub MaySend : ℕ → Delivery → Sending → Type 0
MaySend now (queued turn) s = s.next_ms ≤ now
MaySend now (queued path) s = Unit
MaySend now (sent n) s = (s.next_ms ≤ now) × (n < 3)
MaySend now _ s = ⊥

-- A message that a path is to be asked for.
abbrev pub MayAsk : ℕ → Delivery → Sending → Type 0
MayAsk now (queued turn) s = s.next_ms ≤ now
MayAsk now (queued path) s = (s.next_ms ≤ now) × (now < s.asked_since_ms + 60000)
MayAsk now (sent n) s = (s.next_ms ≤ now) × (n < 3)
MayAsk now _ s = ⊥

-- A message that is given up: after a minute without a path, or after three attempts.
abbrev pub MayFail : ℕ → Bool → Delivery → Sending → Failure → Type 0
MayFail now known (queued path) s no_path = (known ≡ false) × (s.asked_since_ms + 60000 ≤ now)
MayFail now known (sent n) s no_proof = (s.next_ms ≤ now) × (3 ≤ n)
MayFail now known _ s _ = ⊥

-- The state of a message that is handed out.
abbrev pub handed : Delivery → Delivery
handed (sent n) = sent n
handed _ = queued turn

-- What becomes of a message, by what is answered for it.
abbrev pub Fate : ℕ → Bool → Delivery → Sending → Sending → Option Due → Type 0
Fate now known d s s' none = (s' ≡ s) × Settled now known d s
Fate now known d s s' (some (send hash to)) =
    (hash ≡ s.message.hash)
    × (to ≡ s.message.destination)
    × (known ≡ true)
    × MaySend now d s
    × (s' ≡ record s { delivery = handed d; next_ms = 2 ^ 64 - 1 })
Fate now known d s s' (some (ask to)) =
    (to ≡ s.message.destination)
    × (known ≡ false)
    × MayAsk now d s
    × (s'.message ≡ s.message)
    × (s'.delivery ≡ queued path)
    × (s'.next_ms ≡ now + 20000)
Fate now known d s s' (some (given_up hash to why)) =
    (hash ≡ s.message.hash)
    × (to ≡ s.message.destination)
    × MayFail now known d s why
    × (s'.message ≡ s.message)
    × (s'.delivery ≡ failed why)

abbrev pub FateOf : ℕ → Bool → Delivery → Sending → Option (Sending × Due) → Type 0
FateOf now known d s none = Settled now known d s
FateOf now known d s (some (s', found)) = Fate now known d s s' (some found)

turn-Fate :
    (now : ℕ) (known : Bool) (s : Sending)
    → now + path_ask_ms < never
    → FateOf now known (queued turn) s (due_turn now known s)
unfolding due_turn
turn-Fate now true s h = elim (Bool-cases (ltb now s.next_ms)) [
  | inl early ↦ rw early (ground arith)
  | inr ready ↦ rw ready (refl, refl, refl, ground arith, refl)
]
turn-Fate now false s h = elim (Bool-cases (ltb now s.next_ms)) [
  | inl early ↦ rw early (ground arith)
  | inr ready ↦ rw ready (refl, refl, ground arith, refl, refl, omega arith)
]

path-Fate :
    (now : ℕ) (known : Bool) (s : Sending)
    → s.delivery ≡ queued path
    → now + path_ask_ms < never
    → FateOf now known (queued path) s (due_path now known s)
unfolding due_path
path-Fate now true s e h = (refl, refl, refl, tt, refl)
path-Fate now false s e h = elim (Bool-cases (leb path_timeout_ms (now - s.asked_since_ms))) [
  | inl late ↦ rw late (refl, refl, (refl, ground arith), refl, refl)
  | inr waits ↦ elim (Bool-cases (leb s.next_ms now)) [
    | inl ready ↦ rw (waits, ready) (refl, refl, (ground arith, ground arith), refl, e, omega arith)
    | inr early ↦ rw (waits, early) (refl, ground arith, ground arith)
  ]
]

sent-Fate :
    (now : ℕ) (known : Bool) (n : ℕ) (s : Sending)
    → now + path_ask_ms < never
    → FateOf now known (sent n) s (due_sent now known n s)
unfolding due_sent
sent-Fate now known n s h = elim (Bool-cases (ltb now s.next_ms)) [
  | inl early ↦ rw early (ground arith)
  | inr ready ↦ elim (Bool-cases (leb 3 n)) [
    | inl enough ↦ rw (ready, enough) (refl, refl, (ground arith, ground arith), refl, refl)
    | inr more ↦ elim known as (λ k. FateOf now k (sent n) s (due_sent now k n s)) [
      | true ↦ rw (ready, more) (refl, refl, refl, (ground arith, ground arith), refl)
      | false ↦ rw (ready, more) (refl, refl, (ground arith, ground arith), refl, refl, omega arith)
    ]
  ]
]

pub due_in-Fate :
    (d : Delivery) (now : ℕ) (known : Bool) (s : Sending)
    → s.delivery ≡ d
    → now + path_ask_ms < never
    → FateOf now known d s (due_in d now known s)
unfolding due_in
due_in-Fate (queued turn) now known s e h = turn-Fate now known s h
due_in-Fate (queued path) now known s e h = path-Fate now known s e h
due_in-Fate (sent n) now known s e h = sent-Fate now known n s h
due_in-Fate (queued host) now known s e h = tt
due_in-Fate (queued idle) now known s e h = tt
due_in-Fate delivered now known s e h = tt
due_in-Fate (failed why) now known s e h = tt

-- Whether `peers` has a key for the recipient of a message.
abbrev pub has_key : Table → Sending → Bool
has_key peers s = elim (get peers s.message.destination) [ none ↦ false | some p ↦ true ]

-- What becomes of each message of a list, and the answers given for them, in the order of the list.
unfoldable pub Fates : ℕ → Table → List Sending → List Sending → List Due → Type 0
Fates now peers [] [] answers = answers ≡ []
Fates now peers (s ∷ xs) (s' ∷ ys) answers =
    (Fate now (has_key peers s) s.delivery s s' none × Fates now peers xs ys answers)
    ⊎ ((d : Due) × (rest : List Due) × (answers ≡ d ∷ rest)
        × Fate now (has_key peers s) s.delivery s s' (some d)
        × Fates now peers xs ys rest)
Fates now peers [] (s' ∷ ys) answers = ⊥
Fates now peers (s ∷ xs) [] answers = ⊥
