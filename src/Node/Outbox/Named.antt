-- ===== src/Node/Outbox/Named.antt =====
-- Which message a proof names, and what changes in the list of messages.
use oxinode.Prelude.{
  ◌-◌, ◌^◌, Bool, true, false, List, [], ◌∷◌, ◌++◌, Option, none, some, take, Bytes, ◌≡◌, ◌≢◌, ◌⊎◌,
  refl, ap, sym, subst, if◌then◌else◌, ◌∙◌, arith, inl, inr, Bool-cases,
}
use oxinode.Prelude.Finds.{
  All, find, same, same_self, same-eq, find-Any, Any, change_first, Option-cases,
}
use oxinode.Node.Delivery.{Delivery, queued, sent, delivered, failed, is_delivered}
use oxinode.Node.Outbox.{Sending}
use oxinode.Node.Outbox.Attempts.{
  Proof, proof_for, find_proved, or_next, is_some, names_packet, prove,
}

abbrev is_done : Sending → Bool
is_done s = is_delivered s.delivery

-- A message with its proof: delivered, and with nothing more to wait for.
abbrev pub done : Sending → Sending
done s = record s { delivery = delivered; next_ms = 2 ^ 64 - 1 }

-- The second list is the first with one message changed, the first one that is chosen.
abbrev pub DoneAt : Sending → List Sending → List Sending → Type 0
DoneAt s kept kept' =
    (before : List Sending) × (after : List Sending) × (kept ≡ before ++ (s ∷ after))
    × (kept' ≡ before ++ (done s ∷ after))

-- A message that is not delivered, and a packet it went in which a proof names.
abbrev pub Named : Proof → Sending → Bytes → Type 0
Named proof s packet =
    (s.delivery ≢ delivered) × (take 16 packet ≡ proof.packet) × Any (λ p. p ≡ packet) s.packets

not_done : (d : Delivery) → is_delivered d ≡ false → d ≢ delivered
unfolding is_delivered
not_done d h e = let bad : true ≡ false = sym (ap is_delivered e) ∙ h in cc

pub proof_for-Named :
    (proof : Proof) (s : Sending) (packet : Bytes)
    → proof_for proof s ≡ some packet
    → Named proof s packet
unfolding proof_for
proof_for-Named proof s packet h = elim (Bool-cases (is_done s)) [
  | inl over ↦ absurd (ground arith)
  | inr still ↦
      let (hit, at) =
        find-Any (λ p. same (take 16 p) proof.packet) s.packets packet (ground arith) in
      (not_done s.delivery still, same-eq (take 16 packet) proof.packet hit, at)
]

-- A message that is delivered, or of which a proof names no packet.
abbrev pub Unnamed : Proof → Sending → Type 0
Unnamed proof s = (s.delivery ≡ delivered) ⊎ All (λ p. take 16 p ≢ proof.packet) s.packets

is_done-delivered : (d : Delivery) → is_delivered d ≡ true → d ≡ delivered
unfolding is_delivered
is_done-delivered delivered h = refl
is_done-delivered (queued w) h = cc
is_done-delivered (sent n) h = cc
is_done-delivered (failed why) h = cc

find-Unnamed :
    (proof : Proof) (packets : List Bytes)
    → find (λ p. same (take 16 p) proof.packet) packets ≡ none
    → All (λ p. take 16 p ≢ proof.packet) packets
unfolding find
find-Unnamed proof [] h = tt
find-Unnamed proof (p ∷ packets) h = elim (Bool-cases (same (take 16 p) proof.packet)) [
  | inl hit ↦ absurd (ground arith)
  | inr miss ↦ (
    (λ e.
        let bad : true ≡ false =
          sym (ap (λ q. same q proof.packet) e ∙ same_self proof.packet) ∙ miss in
        cc),
    find-Unnamed proof packets (ground arith),
  )
]

proof_for-Unnamed : (proof : Proof) (s : Sending) → proof_for proof s ≡ none → Unnamed proof s
unfolding proof_for
proof_for-Unnamed proof s h = elim (Bool-cases (is_done s)) [
  | inl over ↦ inl (is_done-delivered s.delivery over)
  | inr still ↦ inr (find-Unnamed proof s.packets (ground arith))
]

pub find_proved-Unnamed :
    (proof : Proof) (kept : List Sending) → find_proved proof kept ≡ none → All (Unnamed proof) kept
unfolding find_proved
find_proved-Unnamed proof [] h = tt
find_proved-Unnamed proof (t ∷ rest) h = elim (Option-cases (proof_for proof t)) [
  | inl e ↦ (
    proof_for-Unnamed proof t e,
    find_proved-Unnamed proof rest (ap (or_next t (find_proved proof rest)) (sym e) ∙ h),
  )
  | inr (p, e) ↦
      let hit : Option (Sending × Bytes) = some (t, p) in
      let bad : hit ≡ none = ap (or_next t (find_proved proof rest)) (sym e) ∙ h in cc
]

cons-DoneAt :
    (t s : Sending) (kept kept' : List Sending)
    → DoneAt s kept kept'
    → DoneAt s (t ∷ kept) (t ∷ kept')
cons-DoneAt t s kept kept' (before, after, e, e') =
    (t ∷ before, after, ap (λ r. t ∷ r) e, ap (λ r. t ∷ r) e')

Any-middle : (before after : List Sending) (s : Sending) → Any (λ t. t ≡ s) (before ++ (s ∷ after))
Any-middle [] after s = inl refl
Any-middle (t ∷ before) after s = inr (Any-middle before after s)

pub DoneAt-Any :
    (s : Sending) (kept kept' : List Sending) → DoneAt s kept kept' → Any (λ t. t ≡ s) kept
DoneAt-Any s kept kept' (before, after, e, e') =
    subst (Any (λ t. t ≡ s)) (sym e) (Any-middle before after s)

-- The message that `find_proved` finds is the one that is changed, and the proof is for the packet
-- found.
pub find_proved-DoneAt :
    (proof : Proof) (kept : List Sending) (s : Sending) (packet : Bytes)
    → find_proved proof kept ≡ some (s, packet)
    → (proof_for proof s ≡ some packet)
      × DoneAt s kept (change_first (names_packet proof) prove kept)
unfolding find_proved names_packet change_first
find_proved-DoneAt proof [] s packet h = cc
find_proved-DoneAt proof (t ∷ rest) s packet h =
    let changed : Bool → List Sending =
      λ b. if b then prove t ∷ rest else t ∷ change_first (names_packet proof) prove rest in
    elim (Option-cases (proof_for proof t)) [
      | inl e ↦
          let (holds, at) =
            find_proved-DoneAt proof rest s packet
              (ap (or_next t (find_proved proof rest)) (sym e) ∙ h) in
          (
            holds,
            subst (λ b. DoneAt s (t ∷ rest) (changed b)) (sym (ap is_some e))
                (cons-DoneAt t s rest (change_first (names_packet proof) prove rest) at),
          )
      | inr (p, e) ↦
          let mine : Sending × Bytes = (t, p) in
          let theirs : Sending × Bytes = (s, packet) in
          let found : some mine ≡ some theirs =
            ap (or_next t (find_proved proof rest)) (sym e) ∙ h in
          let q : mine ≡ theirs = cc in
          (
            ap (λ r. proof_for proof r.0) (sym q) ∙ e ∙ ap (λ r. some r.1) q,
            subst (λ b. DoneAt s (t ∷ rest) (changed b)) (sym (ap is_some e))
                (subst (λ (r : Sending × Bytes). DoneAt r.0 (t ∷ rest) (prove t ∷ rest)) q
                  ([], rest, refl, refl)),
          )
    ]
