-- ===== src/Node/Outbox/Proofs.antt =====
-- What makes a message delivered.
use oxinode.Prelude.{
  ◌+◌, ◌%◌, ◌^◌, Bool, true, false, Option, none, some, Bytes, ◌≡◌, ◌⊎◌, refl, ap, sym, subst, ◌∙◌,
  arith, inl, inr, Bool-cases,
}
use oxinode.Prelude.Finds.{All, Any, change_first, Option-cases}
use oxinode.Node.Peers.{Peer, Table, get}
use oxinode.Node.Outbox.{Sending, Outbox}
use oxinode.Node.Outbox.Attempts.{
  Proof, find_proved, names_packet, prove, signed_by, mark, proved_by, proved,
}
use oxinode.Node.Outbox.Named.{
  Named, Unnamed, DoneAt, proof_for-Named, find_proved-Unnamed, find_proved-DoneAt, DoneAt-Any,
}

module _ {Identity : Type 0} (from_public_key : Bytes → Option Identity)
    (validate_proof : Bytes → Bytes → Identity → Bool) where
  -- The known key of a message's recipient has signed a proof of a packet.
  abbrev pub Signed : Proof → Table → Sending → Bytes → Type 0
  Signed proof peers s packet =
      (p : Peer) × (identity : Identity) × (get peers s.message.destination ≡ some p)
      × (from_public_key p.public_key ≡ some identity)
      × (validate_proof proof.data_bytes packet identity ≡ true)

  abbrev signs : Proof → Bytes → Option Identity → Bool
  signs proof packet r = elim r [
    | none ↦ false
    | some identity ↦ validate_proof proof.data_bytes packet identity
  ]

  signed_by-Signed :
      (proof : Proof) (peers : Table) (s : Sending) (packet : Bytes)
      → signed_by from_public_key validate_proof (get peers s.message.destination) proof packet
        ≡ true
      → Signed proof peers s packet
  unfolding signed_by
  signed_by-Signed proof peers s packet h = elim (Option-cases (get peers s.message.destination)) [
    | inl e ↦
        let bad : false ≡ true =
          ap (λ r. signed_by from_public_key validate_proof r proof packet) (sym e) ∙ h in
        cc
    | inr (p, e) ↦
        let known = ap (λ r. signed_by from_public_key validate_proof r proof packet) (sym e) ∙ h in
        elim (Option-cases (from_public_key p.public_key)) [
          | inl none_left ↦
              let bad : false ≡ true = ap (signs proof packet) (sym none_left) ∙ known in cc
          | inr (identity, key) ↦ (p, identity, e, key, ap (signs proof packet) (sym key) ∙ known)
        ]
  ]

  Signed-signed_by :
      (proof : Proof) (peers : Table) (s : Sending) (packet : Bytes)
      → Signed proof peers s packet
      → signed_by from_public_key validate_proof (get peers s.message.destination) proof packet
        ≡ true
  unfolding signed_by
  Signed-signed_by proof peers s packet (p, identity, e, key, valid) =
      ap (λ r. signed_by from_public_key validate_proof r proof packet) e
      ∙ ap (signs proof packet) key
      ∙ valid

  -- Nothing changes, as no message is named or the one that is was not signed for; or one message
  -- becomes delivered.
  abbrev pub Answers : Outbox → Proof → Table → Outbox × Option (Bytes × Bytes) → Type 0
  Answers o proof peers (o', none) =
      (o' ≡ o)
      × (All (Unnamed proof) o.kept
          ⊎ ((s : Sending) × (packet : Bytes) × Named proof s packet
              × Any (λ t. t ≡ s) o.kept
              × ¬ Signed proof peers s packet))
  Answers o proof peers (o', some (hash, to)) =
      (s : Sending) × (packet : Bytes) × Named proof s packet
      × Signed proof peers s packet
      × (hash ≡ s.message.hash)
      × (to ≡ s.message.destination)
      × DoneAt s o.kept o'.kept
      × (o'.delivered_count ≡ (o.delivered_count + 1) % 2 ^ 32)
      × (o'.failed_count ≡ o.failed_count)

  -- A proof makes a message delivered only if the message is one of the outbox that is not delivered,
  -- the proof names a packet that it went in, and the key which `peers` has for its recipient validates
  -- the proof of that packet; this message then is delivered, all others stay as they were, its hash and
  -- destination are the answer, and the count of the delivered ones grows by one. If nothing is answered
  -- nothing changes, and the proof names no packet of a message that is not delivered, or one that the
  -- key does not validate it for.
  pub proved-Answers :
      (o : Outbox) (proof : Proof) (peers : Table)
      → Answers o proof peers (proved from_public_key validate_proof o proof peers)
  unfolding proved
  proved-Answers o proof peers = elim (Option-cases (find_proved proof o.kept)) [
    | inl e ↦
        subst
          (λ r. Answers o proof peers (proved_by from_public_key validate_proof r o proof peers))
          (sym e) (refl, inl (find_proved-Unnamed proof o.kept e))
    | inr (f, e) ↦
        let (named, at) = find_proved-DoneAt proof o.kept f.0 f.1 e in
        let signed : Bool =
          signed_by from_public_key validate_proof (get peers f.0.message.destination) proof f.1 in
        let Goal : Bool → Type 0 =
          λ b. Answers o proof peers (mark from_public_key validate_proof b o proof f.0) in
        subst
          (λ r. Answers o proof peers (proved_by from_public_key validate_proof r o proof peers))
          (sym e)
          (elim (Bool-cases signed) [
            | inl good ↦ subst Goal (sym good) (
              f.0,
              f.1,
              proof_for-Named proof f.0 f.1 named,
              signed_by-Signed proof peers f.0 f.1 good,
              refl,
              refl,
              at,
              ground arith,
              refl,
            )
            | inr bad ↦
                let unsigned : ¬ Signed proof peers f.0 f.1 = λ sig.
                  let no : true ≡ false = sym (Signed-signed_by proof peers f.0 f.1 sig) ∙ bad in
                  cc in
                subst Goal (sym bad) (
                  refl,
                  inr (
                    f.0,
                    f.1,
                    proof_for-Named proof f.0 f.1 named,
                    DoneAt-Any f.0 o.kept (change_first (names_packet proof) prove o.kept) at,
                    unsigned,
                  ),
                )
          ])
  ]
