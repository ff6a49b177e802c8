-- ===== src/Node/Messages.antt =====
-- core/src/node/messages.rs: the messages that came for the board.
pub mod Keeping
pub mod Bounds
mod Tests
use oxinode.Prelude.{
  ℕ, zero, suc, ◌+◌, ◌-◌, ◌/◌, Bool, true, false, not, ◌&&◌, List, [], ◌∷◌, ◌++◌, Option, none,
  some, Bytes, length, drop, min, if◌then◌else◌, ltb, ◌==◌, inc_u32,
}
use oxinode.Prelude.Finds.{same, find, remove_first, count}
use oxinode.Node.Peers.{Peer, Table, Heard, get, set_conversation}

-- The types of screens.rs and lxmf.rs; text is its bytes.
pub data Trust : Type 0 where
  verified unverified failed : Trust

pub record Message : Type 0 where
  pub hash : Bytes
  pub source : Bytes
  pub sent_s : Option ℕ
  pub title : Bytes
  pub content : Bytes
  pub attachment : Bool
  pub stamped : Bool
  pub signature : Bytes
  pub signed : Bytes

pub data Arrival : Type 0 where
  arrived_new : Trust → Arrival
  duplicate : Option Trust → Arrival
  forged_one : Arrival

pub record Received : Type 0 where
  pub message : Message
  pub at_ms : ℕ
  pub trust : Trust
  pub unread : Bool

pub record Settled : Type 0 where
  pub verified_count : ℕ
  pub failed_count : ℕ

pub record Messages : Type 0 where
  pub kept : List Received
  pub seen : List Bytes
  pub arrived : ℕ
  pub dropped : ℕ
  pub forged : ℕ

abbrev pub capacity : ℕ
capacity = 16

abbrev pub seen_capacity : ℕ
seen_capacity = 64

unfoldable pub new : Messages
new = record { kept = []; seen = []; arrived = 0; dropped = 0; forged = 0 }

unfoldable pub prove : Arrival → Bool
prove forged_one = false
prove _ = true

unfoldable pub ask_for_key : Arrival → Bool
ask_for_key (arrived_new unverified) = true
ask_for_key (duplicate (some unverified)) = true
ask_for_key _ = false

-- `Message::settle`.
unfoldable pub settle : Message → Message
settle m = record m { signed = [] }

abbrev pub has_hash : Bytes → Received → Bool
has_hash hash r = same r.message.hash hash

abbrev pub trust_of : Option Received → Option Trust
trust_of none = none
trust_of (some r) = some r.trust

-- `seen` with the hash behind it, the oldest let go if it is full.
unfoldable pub remember : Bytes → List Bytes → List Bytes
remember hash seen =
    if length seen == seen_capacity then drop 1 seen ++ (hash ∷ []) else seen ++ (hash ∷ [])

abbrev is_read : Received → Bool
is_read r = not r.unread

-- `unwrap_or(0)`, as what is left.
abbrev pub or_drop : List Received → Option (List Received) → List Received
or_drop kept none = drop 1 kept
or_drop kept (some rest) = rest

-- `position(|r| !r.unread).unwrap_or(0)` and `remove` of the place.
unfoldable pub make_room : List Received → List Received
unfolding remove_first
make_room kept = or_drop kept (remove_first is_read kept)

-- The end of `receive`: the message is kept.
unfoldable pub keep : Message → Trust → ℕ → Messages → Messages
unfolding remember make_room
keep m trust at_ms ms =
    let fresh : Received = record { message = m; at_ms = at_ms; trust = trust; unread = true } in
    let full = length ms.kept == capacity in
    let room = if full then make_room ms.kept else ms.kept in
    record ms {
      kept = room ++ (fresh ∷ []);
      seen = remember m.hash ms.seen;
      arrived = inc_u32 ms.arrived;
      dropped = if full then inc_u32 ms.dropped else ms.dropped;
    }

-- Whether a hash is among those seen: `contains`.
unfoldable pub contains : Bytes → List Bytes → Bool
contains hash [] = false
contains hash (h ∷ hs) = if same h hash then true else contains hash hs

-- A message that is not a forgery: what it is believed of, and the sender's conversation.
unfoldable pub accept : Message → Trust → Table → ℕ → Messages → Messages × Table × Arrival
unfolding settle keep set_conversation
accept m verified peers at_ms ms = (
  keep (settle m) verified at_ms ms,
  (set_conversation peers m.source true).0,
  arrived_new verified,
)
accept m trust peers at_ms ms =
    (keep m trust at_ms ms, (set_conversation peers m.source true).0, arrived_new trust)

-- Whether a key verifies a message lies in the Reticulum crates.
module _ (verify : Message → Bytes → Bool) where
  -- The arms on the peer that sent a message, if it is known.
  unfoldable pub receive_from :
      Option Peer → Message → Table → ℕ → Messages → Messages × Table × Arrival
  unfolding accept
  receive_from none m peers at_ms ms = accept m unverified peers at_ms ms
  receive_from (some peer) m peers at_ms ms =
      if verify m peer.public_key
      then accept m verified peers at_ms ms
      else (record ms { forged = inc_u32 ms.forged }, peers, forged_one)

  unfoldable pub receive : Message → Table → ℕ → Messages → Messages × Table × Arrival
  unfolding contains find get receive_from
  receive m peers at_ms ms =
      if contains m.hash ms.seen
      then (ms, peers, duplicate (trust_of (find (has_hash m.hash) ms.kept)))
      else receive_from (get peers m.source) m peers at_ms ms

  abbrev is_unverified : Trust → Bool
  is_unverified unverified = true
  is_unverified _ = false

  -- The turn of the loop of `heard`, and what it counts.
  unfoldable pub check : Heard → Received → Received × Settled
  unfolding settle
  check h r =
      if not (is_unverified r.trust && same r.message.source h.destination)
      then (r, record { verified_count = 0; failed_count = 0 })
      else if verify r.message h.public_key
      then (
        record r { message = settle r.message; trust = verified },
        record { verified_count = 1; failed_count = 0 },
      )
      else (
        record r { message = settle r.message; trust = failed },
        record { verified_count = 0; failed_count = 1 },
      )

  unfoldable pub check_all : Heard → List Received → List Received × Settled
  unfolding check
  check_all h [] = ([], record { verified_count = 0; failed_count = 0 })
  check_all h (r ∷ rs) =
      let (done, one) = check h r in
      let (rest, others) = check_all h rs in
      (
        done ∷ rest,
        record {
          verified_count = one.verified_count + others.verified_count;
          failed_count = one.failed_count + others.failed_count;
        },
      )

  unfoldable pub heard : Heard → Table → Messages → Messages × Table × Settled
  unfolding check_all set_conversation
  heard h peers ms =
      let (kept, settled) = check_all h ms.kept in
      let nothing = settled.verified_count == 0 && settled.failed_count == 0 in
      (
        record ms { kept = kept },
        if nothing then peers else (set_conversation peers h.destination true).0,
        settled,
      )

unfoldable pub unread_count : Messages → ℕ
unfolding count
unread_count ms = count (λ r. r.unread) ms.kept

-- The first `through` messages of a peer are read, and how many that made read.
unfoldable pub read_first : (peer : Bytes) (through : ℕ) → List Received → List Received × ℕ
read_first peer through [] = ([], 0)
read_first peer zero (r ∷ rs) = (r ∷ rs, 0)
read_first peer (suc n) (r ∷ rs) =
    let (read_behind, marked) = read_first peer n rs in
    let (all_behind, more) = read_first peer (suc n) rs in
    if same r.message.source peer
    then (record r { unread = false } ∷ read_behind, if r.unread then marked + 1 else marked)
    else (r ∷ all_behind, more)

unfoldable pub read : (peer : Bytes) (through : ℕ) → Messages → Messages × ℕ
unfolding read_first
read peer through ms =
    let (kept, marked) = read_first peer through ms.kept in (record ms { kept = kept }, marked)

-- `age_s`: nothing for a time that is ahead.
unfoldable pub age_s : (at_ms now_ms : ℕ) → Option ℕ
age_s at_ms now_ms =
    if ltb now_ms at_ms then none else some (min ((now_ms - at_ms) / 1000) 0xFFFFFFFF)
