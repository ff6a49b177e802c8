-- ===== src/Node/Messages/Keeping.antt =====
-- A message is kept once, and one that is unread is not let go while another could be.
use oxinode.Prelude.{
  inc_u32, ℕ, zero, suc, ◌+◌, ◌-◌, ◌≤◌, ◌<◌, Bool, true, false, List, [], ◌∷◌, ◌++◌, Option, none,
  some, Bytes, length, drop, length-append, length-drop, drop-append_le, drop-drop, keep_last,
  if◌then◌else◌, ◌==◌, ◌≡◌, ◌⊎◌, inl, inr, refl, sym, ap, ◌∙◌, subst, arith, Bool-cases,
}
use oxinode.Prelude.Finds.{same_self, find, filter, filter-append, remove_first, remove_first-some}
use oxinode.Node.Peers.{Peer, Table, get}
use oxinode.Node.Messages.{
  Messages, Message, Received, Trust, Arrival, verified, unverified, failed, arrived_new, duplicate,
  forged_one, seen_capacity, capacity, is_read, or_drop, remember, make_room, keep, contains,
  accept, receive_from, receive, prove, has_hash, trust_of, settle,
}

contains-append :
    (hash : Bytes) (xs ys : List Bytes) → contains hash xs ≡ true → contains hash (xs ++ ys) ≡ true
unfolding contains
contains-append hash [] ys h = cc
contains-append hash (x ∷ xs) ys h = ground (arith, contains-append hash xs ys)

contains-last : (hash : Bytes) (xs : List Bytes) → contains hash (xs ++ (hash ∷ [])) ≡ true
unfolding contains
contains-last hash [] = ground (arith, same_self hash)
contains-last hash (x ∷ xs) = ground (arith, contains-last hash xs)

contains-drop :
    (hash : Bytes) (n : ℕ) (xs : List Bytes)
    → contains hash (drop n xs) ≡ true
    → contains hash xs ≡ true
unfolding contains
contains-drop hash zero xs h = h
contains-drop hash (suc n) [] h = h
contains-drop hash (suc n) (x ∷ xs) h = ground (arith, contains-drop hash n xs)

-- A hash is among the last `n` of a list.
abbrev Recent : ℕ → Bytes → List Bytes → Type 0
Recent n hash seen = contains hash (keep_last n seen) ≡ true

keep_last-snoc :
    (n : ℕ) (ys : List Bytes) (y : Bytes)
    → keep_last (suc n) (ys ++ (y ∷ [])) ≡ keep_last n ys ++ (y ∷ [])
keep_last-snoc n ys y =
    ap (λ k. drop k (ys ++ (y ∷ []))) {y = length ys - n} (omega (arith, length-append ys (y ∷ [])))
    ∙ drop-append_le (length ys - n) ys (y ∷ []) (omega arith)

keep_last-drop :
    (n : ℕ) (xs : List Bytes) → n < length xs → keep_last n (drop 1 xs) ≡ keep_last n xs
keep_last-drop n xs h =
    drop-drop (length (drop 1 xs) - n) 1 xs ∙ ap (λ k. drop k xs) (omega (arith, length-drop 1 xs))

remember-Recent :
    (n : ℕ) (hash new_hash : Bytes) (seen : List Bytes)
    → n < seen_capacity
    → Recent n hash seen
    → Recent (suc n) hash (remember new_hash seen)
unfolding remember
remember-Recent n hash new_hash seen small h =
    let Goal : Bool → Type 0 = λ b.
      Recent (suc n) hash (if b then drop 1 seen ++ (new_hash ∷ []) else seen ++ (new_hash ∷ [])) in
    let long : (ys : List Bytes) → Recent n hash ys → Recent (suc n) hash (ys ++ (new_hash ∷ [])) =
      λ ys r.
        ap (contains hash) (keep_last-snoc n ys new_hash)
        ∙ contains-append hash (keep_last n ys) (new_hash ∷ []) r in
    elim (Bool-cases (length seen == seen_capacity)) [
      | inl full ↦
          subst Goal (sym full)
            (long (drop 1 seen) (ap (contains hash) (keep_last-drop n seen (ground arith)) ∙ h))
      | inr room ↦ subst Goal (sym room) (long seen h)
    ]

remember-new : (hash : Bytes) (seen : List Bytes) → Recent 1 hash (remember hash seen)
unfolding remember
remember-new hash seen =
    let Goal : Bool → Type 0 =
      λ b. Recent 1 hash (if b then drop 1 seen ++ (hash ∷ []) else seen ++ (hash ∷ [])) in
    let last : (ys : List Bytes) → Recent 1 hash (ys ++ (hash ∷ [])) =
      λ ys. ap (contains hash) (keep_last-snoc 0 ys hash) ∙ contains-last hash (keep_last 0 ys) in
    elim (Bool-cases (length seen == seen_capacity)) [
      | inl full ↦ subst Goal (sym full) (last (drop 1 seen))
      | inr room ↦ subst Goal (sym room) (last seen)
    ]

accept-seen :
    (m : Message) (trust : Trust) (peers : Table) (at_ms : ℕ) (ms : Messages)
    → (accept m trust peers at_ms ms).0.seen ≡ remember m.hash ms.seen
unfolding accept keep settle
accept-seen m verified peers at_ms ms = refl
accept-seen m unverified peers at_ms ms = refl
accept-seen m failed peers at_ms ms = refl

module _ (verify : Message → Bytes → Bool) where
  -- The list of hashes behind a message.
  abbrev SeenAfter : Message → Messages → Messages × Table × Arrival → Type 0
  SeenAfter m ms (after, peers, arrival) =
      ((after.seen ≡ ms.seen) ⊎ (after.seen ≡ remember m.hash ms.seen))
      × ((t : Trust) → arrival ≡ arrived_new t → after.seen ≡ remember m.hash ms.seen)

  accept-SeenAfter :
      (m : Message) (trust : Trust) (peers : Table) (at_ms : ℕ) (ms : Messages)
      → SeenAfter m ms (accept m trust peers at_ms ms)
  accept-SeenAfter m trust peers at_ms ms =
      let e = accept-seen m trust peers at_ms ms in (inr e, λ t h. e)

  receive_from-SeenAfter :
      (p : Option Peer) (m : Message) (peers : Table) (at_ms : ℕ) (ms : Messages)
      → SeenAfter m ms (receive_from verify p m peers at_ms ms)
  unfolding receive_from
  receive_from-SeenAfter none m peers at_ms ms = accept-SeenAfter m unverified peers at_ms ms
  receive_from-SeenAfter (some p) m peers at_ms ms =
      let Goal : Bool → Type 0 = λ b. SeenAfter m ms (
        if b
        then accept m verified peers at_ms ms
        else (record ms { forged = inc_u32 ms.forged }, peers, forged_one)) in
      elim (Bool-cases (verify m p.public_key)) [
        | inl ok ↦ subst Goal (sym ok) (accept-SeenAfter m verified peers at_ms ms)
        | inr bad ↦ subst Goal (sym bad) (inl refl, λ t h. cc)
      ]

  receive-SeenAfter :
      (m : Message) (peers : Table) (at_ms : ℕ) (ms : Messages)
      → SeenAfter m ms (receive verify m peers at_ms ms)
  unfolding receive
  receive-SeenAfter m peers at_ms ms =
      let known : Arrival = duplicate (trust_of (find (has_hash m.hash) ms.kept)) in
      let Goal : Bool → Type 0 = λ b. SeenAfter m ms (
        if b
        then (ms, peers, known)
        else receive_from verify (get peers m.source) m peers at_ms ms) in
      elim (Bool-cases (contains m.hash ms.seen)) [
        | inl hit ↦ subst Goal (sym hit) (inl refl, λ t h. cc)
        | inr miss ↦
            subst Goal (sym miss) (receive_from-SeenAfter (get peers m.source) m peers at_ms ms)
      ]

  receive-known :
      (m : Message) (peers : Table) (at_ms : ℕ) (ms : Messages)
      → contains m.hash ms.seen ≡ true
      → receive verify m peers at_ms ms
        ≡ (ms, peers, duplicate (trust_of (find (has_hash m.hash) ms.kept)))
  unfolding receive
  receive-known m peers at_ms ms h =
      ap
        (λ b.
          if b
          then (ms, peers, duplicate (trust_of (find (has_hash m.hash) ms.kept)))
          else receive_from verify (get peers m.source) m peers at_ms ms)
        h

  -- Messages that come one after the other, each with the peers known then and the time.
  unfoldable pub receive_all : List (Message × Table × ℕ) → Messages → Messages
  unfolding receive
  receive_all [] ms = ms
  receive_all ((m, peers, at_ms) ∷ rest) ms = receive_all rest (receive verify m peers at_ms ms).0

  still-Recent :
      (rest : List (Message × Table × ℕ)) (ms : Messages) (hash : Bytes) (n : ℕ)
      → n + length rest ≤ seen_capacity
      → Recent n hash ms.seen
      → contains hash (receive_all rest ms).seen ≡ true
  unfolding receive_all
  still-Recent [] ms hash n room r = contains-drop hash (length ms.seen - n) ms.seen r
  still-Recent ((m, peers, at_ms) ∷ rest) ms hash n room r =
      let after = (receive verify m peers at_ms ms).0 in
      elim (receive-SeenAfter m peers at_ms ms).0 [
        | inl same_seen ↦
            still-Recent rest after hash n (omega arith) (subst (Recent n hash) (sym same_seen) r)
        | inr added ↦ still-Recent rest after hash (suc n) (omega arith) (
            subst (Recent (suc n) hash) (sym added)
              (remember-Recent n hash m.hash ms.seen (omega arith) r))
      ]

  -- A message that was new is a duplicate if it comes again, after at most 63 others, whatever peers
  -- are known by then: nothing changes, and it is proved again.
  pub receive-duplicate :
      (m again : Message) (peers later : Table) (at_ms now : ℕ) (ms : Messages) (t : Trust)
      (rest : List (Message × Table × ℕ))
      → (receive verify m peers at_ms ms).2 ≡ arrived_new t
      → again.hash ≡ m.hash
      → length rest ≤ 63
      → let then_ : Messages = receive_all rest (receive verify m peers at_ms ms).0 in
        (receive verify again later now then_
          ≡ (then_, later, duplicate (trust_of (find (has_hash again.hash) then_.kept))))
        × (prove (receive verify again later now then_).2 ≡ true)
  unfolding prove
  receive-duplicate m again peers later at_ms now ms t rest new_one same_hash few =
      let first : Messages = (receive verify m peers at_ms ms).0 in
      let recent : Recent 1 m.hash first.seen =
        subst (Recent 1 m.hash) (sym ((receive-SeenAfter m peers at_ms ms).1 t new_one))
          (remember-new m.hash ms.seen) in
      let held = still-Recent rest first m.hash 1 (omega arith) recent in
      let known =
        receive-known again later now (receive_all rest first)
          (ap (λ h. contains h (receive_all rest first).seen) same_hash ∙ held) in
      (known, ap (λ (r : Messages × Table × Arrival). prove r.2) known)

-- The unread messages, in their order.
abbrev pub unread_of : List Received → List Received
unread_of rs = filter (λ r. r.unread) rs

make_room-unread :
    (kept rest : List Received)
    → remove_first is_read kept ≡ some rest
    → unread_of (make_room kept) ≡ unread_of kept
unfolding make_room
make_room-unread kept rest e =
    ap (λ o. unread_of (or_drop kept o)) e
    ∙ sym (remove_first-some is_read (λ r. r.unread) kept rest (λ x h. ground arith) e).1

front-unread :
    (kept : List Received)
    → (length kept < capacity) ⊎ ((rest : List Received) × (remove_first is_read kept ≡ some rest))
    → unread_of (if length kept == capacity then make_room kept else kept) ≡ unread_of kept
front-unread kept (inl short) =
    let other : (length kept == capacity) ≡ false = ground arith in
    ap (λ b. unread_of (if b then make_room kept else kept)) other
front-unread kept (inr (rest, e)) =
    let Goal : Bool → Type 0 =
      λ b. unread_of (if b then make_room kept else kept) ≡ unread_of kept in
    elim (Bool-cases (length kept == capacity)) [
      | inl full ↦ subst Goal (sym full) (make_room-unread kept rest e)
      | inr room ↦ subst Goal (sym room) refl
    ]

-- Keeping a message lets no unread one go, as long as there is room or one that has been read.
pub keep-unread :
    (m : Message) (trust : Trust) (at_ms : ℕ) (ms : Messages)
    → (length ms.kept < capacity)
      ⊎ ((rest : List Received) × (remove_first is_read ms.kept ≡ some rest))
    → let fresh : Received = record { message = m; at_ms = at_ms; trust = trust; unread = true } in
      unread_of (keep m trust at_ms ms).kept ≡ unread_of ms.kept ++ (fresh ∷ [])
unfolding keep filter
keep-unread m trust at_ms ms room =
    let fresh : Received = record { message = m; at_ms = at_ms; trust = trust; unread = true } in
    let front : List Received = if length ms.kept == capacity then make_room ms.kept else ms.kept in
    let kept_unread : unread_of front ≡ unread_of ms.kept = front-unread ms.kept room in
    filter-append (λ r. r.unread) front (fresh ∷ []) ∙ ap (λ rs. rs ++ (fresh ∷ [])) kept_unread
