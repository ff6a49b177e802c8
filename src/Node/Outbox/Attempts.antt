-- ===== src/Node/Outbox/Attempts.antt =====
-- What becomes of an attempt in core/src/node/outbox.rs: `went`, `unbuildable` and `proved`.
use oxinode.Prelude.{
  ℕ, ◌+◌, min, Bool, true, false, List, [], ◌∷◌, ◌++◌, Option, none, some, if◌then◌else◌, Bytes,
  take, inc_u32,
}
use oxinode.Prelude.Finds.{same, find, change_first}
use oxinode.Node.Delivery.{no_path, sent, delivered, failed, is_delivered, with_radio}
use oxinode.Node.Peers.{Table, Peer, get}
use oxinode.Node.Outbox.{again_ms, never, add64, wait_ms, Sending, Outbox}

abbrev pub has_hash : Bytes → Sending → Bool
has_hash hash s = same s.message.hash hash

-- What became of an attempt, at the message that it was made from.
unfoldable pub went_by : Option ℕ → Bytes → ℕ → Sending → Sending
unfolding wait_ms
went_by none packet now s =
    if with_radio s.delivery then record s { next_ms = add64 now again_ms } else s
went_by (some airtime) packet now s =
    let attempts : ℕ = min (s.attempts + 1) 255 in
    if with_radio s.delivery
    then record s {
      attempts = attempts;
      packets = s.packets ++ packet ∷ [];
      delivery = sent attempts;
      next_ms = add64 now (wait_ms attempts airtime);
    }
    else record s { packets = s.packets ++ packet ∷ [] }

unfoldable pub went : Outbox → Bytes → Bytes → Option ℕ → ℕ → Outbox
unfolding went_by
went o hash packet airtime now = record o {
  kept = change_first (has_hash hash) (went_by airtime packet now) o.kept;
}

unfoldable pub unbuildable : Outbox → Bytes → Outbox
unbuildable o hash = elim (find (has_hash hash) o.kept) [
  | none ↦ o
  | some s ↦ record o {
    kept =
        change_first (has_hash hash) (λ s. record s { delivery = failed no_path; next_ms = never })
          o.kept;
    failed_count = inc_u32 o.failed_count;
  }
]

-- `Proof` of core/src/node.rs.
pub record Proof : Type 0 where
  pub packet : Bytes
  pub data_bytes : Bytes

-- The packet of a message that a proof names, if the message is not delivered yet.
unfoldable pub proof_for : Proof → Sending → Option Bytes
proof_for proof s =
    if is_delivered s.delivery then none else find (λ p. same (take 16 p) proof.packet) s.packets

-- The first message for which there is one.
abbrev pub or_next : Sending → Option (Sending × Bytes) → Option Bytes → Option (Sending × Bytes)
or_next s later none = later
or_next s later (some packet) = some (s, packet)

unfoldable pub find_proved : Proof → List Sending → Option (Sending × Bytes)
unfolding proof_for
find_proved proof [] = none
find_proved proof (s ∷ rest) = or_next s (find_proved proof rest) (proof_for proof s)

abbrev pub is_some {ℓ} : {A : Type ℓ} → Option A → Bool
is_some none = false
is_some (some a) = true

unfoldable pub names_packet : Proof → Sending → Bool
unfolding proof_for
names_packet proof s = is_some (proof_for proof s)

abbrev pub prove : Sending → Sending
prove s = record s { delivery = delivered; next_ms = never }

-- `Identity` and its checks are those of Reticulum's crates.
module _ {Identity : Type 0} (from_public_key : Bytes → Option Identity)
    (validate_proof : Bytes → Bytes → Identity → Bool) where
  unfoldable pub signed_by : Option Peer → Proof → Bytes → Bool
  signed_by none proof packet = false
  signed_by (some p) proof packet = elim (from_public_key p.public_key) [
    | none ↦ false
    | some identity ↦ validate_proof proof.data_bytes packet identity
  ]

  -- Behind the check of the signature.
  abbrev pub mark : Bool → Outbox → Proof → Sending → Outbox × Option (Bytes × Bytes)
  mark false o proof s = (o, none)
  mark true o proof s = (
    record o {
      kept = change_first (names_packet proof) prove o.kept;
      delivered_count = inc_u32 o.delivered_count;
    },
    some (s.message.hash, s.message.destination),
  )

  abbrev pub proved_by :
      Option (Sending × Bytes) → Outbox → Proof → Table → Outbox × Option (Bytes × Bytes)
  proved_by none o proof peers = (o, none)
  proved_by (some (s, packet)) o proof peers =
      mark (signed_by (get peers s.message.destination) proof packet) o proof s

  unfoldable pub proved : Outbox → Proof → Table → Outbox × Option (Bytes × Bytes)
  unfolding find_proved signed_by names_packet
  proved o proof peers = proved_by (find_proved proof o.kept) o proof peers
