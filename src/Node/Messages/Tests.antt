-- ===== src/Node/Messages/Tests.antt =====
-- Messages from a stranger and from a known sender. The key verifies what it signed.
use oxinode.Prelude.{
  ℕ, ◌<◌, Bool, true, false, [], ◌∷◌, ◌++◌, none, Bytes, length, inl, ◌≡◌, refl, arith,
}
use oxinode.Prelude.Finds.{same, find}
use oxinode.Node.Peers.{Table, Heard}
use oxinode.Node.Messages.{
  prove, Messages, Message, Received, unverified, verified, arrived_new, duplicate, forged_one, new,
  receive, heard, read, keep, has_hash, trust_of,
}
use oxinode.Node.Messages.Bounds.{IsBounded, messages-IsBounded}
use oxinode.Node.Messages.Keeping.{receive_all, receive-duplicate, unread_of, keep-unread}

abbrev signs : Message → Bytes → Bool
signs m key = same m.signature key

abbrev nobody : Table
nobody = record { peers = []; lxmf = []; refused_count = 0 }

abbrev hello : Message
hello = record {
  hash = 1 ∷ 2 ∷ [];
  source = 7 ∷ [];
  sent_s = none;
  title = [];
  content = 0x68 ∷ [];
  attachment = false;
  stamped = false;
  signature = 9 ∷ [];
  signed = 3 ∷ [];
}

abbrev other : Message
other = record hello { hash = 5 ∷ [] }

first_arrival : (receive signs hello nobody 10 new).2 ≡ arrived_new unverified
unfolding receive new same
first_arrival = refl

abbrev known : Table
known = record nobody {
  peers =
      record {
        destination = 7 ∷ [];
        public_key = 8 ∷ [];
        name = none;
        last_heard_ms = 1;
        hops = none;
        signal = none;
        conversation = false;
      }
      ∷ [];
}

forgery : (receive signs hello known 10 new).2 ≡ forged_one
unfolding receive new same find
forgery = refl

receive-duplicate_example :
    let later : Messages =
      receive_all signs ((other, known, 20) ∷ []) (receive signs hello nobody 10 new).0 in
    (receive signs hello nobody 30 later
      ≡ (later, nobody, duplicate (trust_of (find (has_hash hello.hash) later.kept))))
    × (prove (receive signs hello nobody 30 later).2 ≡ true)
receive-duplicate_example =
    receive-duplicate signs hello hello nobody nobody 10 30 new unverified ((other, known, 20) ∷ [])
      first_arrival refl (omega arith)

new-IsBounded : IsBounded new
unfolding new
new-IsBounded = (omega arith, omega arith)

messages-IsBounded_example :
    ((m : Message) (peers : Table) (at_ms : ℕ) → IsBounded (receive signs m peers at_ms new).0)
    × ((h : Heard) (peers : Table) → IsBounded (heard signs h peers new).0)
    × ((peer : Bytes) (through : ℕ) → IsBounded (read peer through new).0)
messages-IsBounded_example = messages-IsBounded signs new new-IsBounded

new_has_room : length new.kept < 16
unfolding new
new_has_room = omega arith

keep-unread_example :
    let fresh : Received = record { message = hello; at_ms = 5; trust = verified; unread = true } in
    unread_of (keep hello verified 5 new).kept ≡ unread_of new.kept ++ (fresh ∷ [])
keep-unread_example = keep-unread hello verified 5 new (inl new_has_room)
