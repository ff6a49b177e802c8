-- ===== src/Node/Messages/Bounds.antt =====
-- Neither list outgrows its bound.
use oxinode.Prelude.{
  ℕ, zero, suc, ◌+◌, ◌≤◌, Bool, true, false, List, [], ◌∷◌, ◌++◌, Option, none, some, Bytes, length,
  drop, length-append, length-drop, if◌then◌else◌, ◌==◌, ◌≡◌, refl, sym, ap, subst, arith,
  Bool-cases, inl, inr,
}
use oxinode.Prelude.Finds.{Option-cases, remove_first, remove_first-some}
use oxinode.Node.Peers.{Peer, Table, Heard, get}
use oxinode.Node.Messages.{
  Messages, Message, Received, Trust, verified, unverified, failed, capacity, seen_capacity,
  is_read, or_drop, remember, make_room, keep, contains, accept, receive_from, receive, check_all,
  heard, read_first, read,
}

abbrev pub IsBounded : Messages → Type 0
IsBounded ms = (length ms.kept ≤ capacity) × (length ms.seen ≤ seen_capacity)

length-remember :
    (hash : Bytes) (seen : List Bytes)
    → length seen ≤ seen_capacity
    → length (remember hash seen) ≤ seen_capacity
unfolding remember
length-remember hash seen h =
    let short = length-append seen (hash ∷ []) in
    let long = length-append (drop 1 seen) (hash ∷ []) in
    let dropped = length-drop 1 seen in ground arith

pub length-make_room :
    (kept : List Received) → 1 ≤ length kept → length (make_room kept) + 1 ≡ length kept
unfolding make_room
length-make_room kept h =
    let Goal : Option (List Received) → Type 0 = λ o. length (or_drop kept o) + 1 ≡ length kept in
    elim (Option-cases (remove_first is_read kept)) [
      | inl e ↦ subst Goal (sym e) (omega (arith, length-drop 1 kept))
      | inr (rest, e) ↦
          subst Goal (sym e)
            (sym (remove_first-some is_read (λ r. false) kept rest (λ x k. refl) e).0)
    ]

keep-IsBounded :
    (m : Message) (trust : Trust) (at_ms : ℕ) (ms : Messages)
    → IsBounded ms
    → IsBounded (keep m trust at_ms ms)
unfolding keep
keep-IsBounded m trust at_ms ms (k, s) =
    let fresh : Received = record { message = m; at_ms = at_ms; trust = trust; unread = true } in
    let Goal : Bool → Type 0 =
      λ b. length ((if b then make_room ms.kept else ms.kept) ++ (fresh ∷ [])) ≤ capacity in
    (
      elim (Bool-cases (length ms.kept == capacity)) [
        | inl full ↦ subst Goal (sym full) (
            ground
              (arith, length-make_room ms.kept, length-append (make_room ms.kept) (fresh ∷ [])))
        | inr room ↦ subst Goal (sym room) (ground (arith, length-append ms.kept (fresh ∷ [])))
      ],
      length-remember m.hash ms.seen s,
    )

accept-IsBounded :
    (m : Message) (trust : Trust) (peers : Table) (at_ms : ℕ) (ms : Messages)
    → IsBounded ms
    → IsBounded (accept m trust peers at_ms ms).0
unfolding accept
accept-IsBounded m verified peers at_ms ms h = keep-IsBounded _ verified at_ms ms h
accept-IsBounded m unverified peers at_ms ms h = keep-IsBounded m unverified at_ms ms h
accept-IsBounded m failed peers at_ms ms h = keep-IsBounded m failed at_ms ms h

length-read_first :
    (peer : Bytes) (through : ℕ) (rs : List Received)
    → length (read_first peer through rs).0 ≡ length rs
unfolding read_first
length-read_first peer through [] = refl
length-read_first peer zero (r ∷ rs) = refl
length-read_first peer (suc n) (r ∷ rs) =
    ground (arith, length-read_first peer n rs, length-read_first peer (suc n) rs)

module _ (verify : Message → Bytes → Bool) where
  receive_from-IsBounded :
      (p : Option Peer) (m : Message) (peers : Table) (at_ms : ℕ) (ms : Messages)
      → IsBounded ms
      → IsBounded (receive_from verify p m peers at_ms ms).0
  unfolding receive_from
  receive_from-IsBounded none m peers at_ms ms h = accept-IsBounded m unverified peers at_ms ms h
  receive_from-IsBounded (some p) m peers at_ms ms h = elim (Bool-cases (verify m p.public_key)) [
    | inl ok ↦ rw ok (accept-IsBounded m verified peers at_ms ms h)
    | inr bad ↦ rw bad h
  ]

  receive-IsBounded :
      (m : Message) (peers : Table) (at_ms : ℕ) (ms : Messages)
      → IsBounded ms
      → IsBounded (receive verify m peers at_ms ms).0
  unfolding receive
  receive-IsBounded m peers at_ms ms h = elim (Bool-cases (contains m.hash ms.seen)) [
    | inl known ↦ rw known h
    | inr fresh ↦ rw fresh (receive_from-IsBounded (get peers m.source) m peers at_ms ms h)
  ]

  length-check_all : (h : Heard) (rs : List Received) → length (check_all verify h rs).0 ≡ length rs
  unfolding check_all
  length-check_all h [] = refl
  length-check_all h (r ∷ rs) = ap suc (length-check_all h rs)

  -- Whatever comes, at most 16 messages are kept and at most 64 hashes are remembered.
  pub messages-IsBounded :
      (ms : Messages)
      → IsBounded ms
      → ((m : Message) (peers : Table) (at_ms : ℕ) → IsBounded (receive verify m peers at_ms ms).0)
        × ((h : Heard) (peers : Table) → IsBounded (heard verify h peers ms).0)
        × ((peer : Bytes) (through : ℕ) → IsBounded (read peer through ms).0)
  unfolding heard read
  messages-IsBounded ms (k, s) = (
    λ m peers at_ms. receive-IsBounded m peers at_ms ms (k, s),
    λ h peers. (omega (arith, length-check_all h ms.kept), s),
    λ peer through. (omega (arith, length-read_first peer through ms.kept), s),
  )
