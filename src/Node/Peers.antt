-- ===== src/Node/Peers.antt =====
-- core/src/node/peers.rs: the peers that announced themselves.
pub mod Keeping
pub mod Eviction
mod Tests
use oxinode.Prelude.{
  ℕ, ◌+◌, Bool, true, false, not, ◌&&◌, List, [], ◌∷◌, ◌++◌, Option, none, some, if◌then◌else◌, ltb,
  Bytes, length, inc_u32, suc, set,
}
use oxinode.Prelude.Finds.{same, find, change_first}
use oxinode.Rnode.Air.{Signal}

-- A name is the bytes of its text.
pub record Peer : Type 0 where
  pub destination : Bytes
  pub public_key : Bytes
  pub name : Option Bytes
  pub last_heard_ms : ℕ
  pub hops : Option ℕ
  pub signal : Option Signal
  pub conversation : Bool

pub data Learned : Type 0 where
  not_lxmf fresh updated : Learned
  evicted : Bytes → Learned
  refused : Learned

-- `Heard` of core/src/node.rs.
pub record Heard : Type 0 where
  pub destination : Bytes
  pub public_key : Bytes
  pub name_hash : Bytes
  pub app_data : Option Bytes
  pub hops : ℕ
  pub signal : Option Signal

pub record Table : Type 0 where
  pub peers : List Peer
  pub lxmf : Bytes
  pub refused_count : ℕ

abbrev pub capacity : ℕ
capacity = 16

abbrev pub is_at : Bytes → Peer → Bool
is_at destination p = same p.destination destination

unfoldable pub get : Table → Bytes → Option Peer
get t destination = find (is_at destination) t.peers

unfoldable pub bring_up_to_date : Heard → Option Bytes → ℕ → Peer → Peer
bring_up_to_date h name at_ms p = record p {
  public_key = h.public_key;
  name = name;
  last_heard_ms = at_ms;
  hops = some h.hops;
  signal = h.signal;
}

abbrev pub stranger : Heard → Option Bytes → ℕ → Peer
stranger h name at_ms = record {
  destination = h.destination;
  public_key = h.public_key;
  name = name;
  last_heard_ms = at_ms;
  hops = some h.hops;
  signal = h.signal;
  conversation = false;
}

-- The earlier of a peer and the earliest behind it, with its place: the first of equals.
unfoldable pub earlier : Peer → Option (ℕ × Peer) → ℕ × Peer
earlier p none = (0, p)
earlier p (some (i, q)) = if ltb q.last_heard_ms p.last_heard_ms then (suc i, q) else (0, p)

abbrev pub behind_one : Option (ℕ × Peer) → Option (ℕ × Peer)
behind_one none = none
behind_one (some (i, q)) = some (suc i, q)

-- The peer without a conversation that was heard longest ago, and its place.
unfoldable pub oldest : List Peer → Option (ℕ × Peer)
unfolding earlier
oldest [] = none
oldest (p ∷ ps) =
    let rest = oldest ps in if p.conversation then behind_one rest else some (earlier p rest)

-- `core::mem::replace` of that place.
unfoldable pub replace_oldest : Option (ℕ × Peer) → Peer → Table → Table × Learned
replace_oldest none new_peer t = (record t { refused_count = inc_u32 t.refused_count }, refused)
replace_oldest (some (i, p)) new_peer t =
    (record t { peers = set t.peers i new_peer }, evicted p.destination)

unfoldable pub keep_stranger : Peer → Table → Table × Learned
unfolding replace_oldest oldest
keep_stranger p t =
    if ltb (length t.peers) capacity
    then (record t { peers = t.peers ++ p ∷ [] }, fresh)
    else replace_oldest (oldest t.peers) p t

-- An announce of a peer that the table has, or of a stranger.
unfoldable pub learn : Option Peer → Heard → Option Bytes → ℕ → Table → Table × Learned
unfolding bring_up_to_date keep_stranger
learn none h name at_ms t = keep_stranger (stranger h name at_ms) t
learn (some p) h name at_ms t = (
  record t { peers = change_first (is_at h.destination) (bring_up_to_date h name at_ms) t.peers },
  updated,
)

-- `heard`, with the name that `display_name` reads off the announce.
unfoldable pub heard :
    (display_name : Option Bytes → Option Bytes) → Table → Heard → ℕ → Table × Learned
unfolding get learn
heard display_name t h at_ms =
    if not (same h.name_hash t.lxmf)
    then (t, not_lxmf)
    else learn (get t h.destination) h (display_name h.app_data) at_ms t

unfoldable pub set_conversation : Table → Bytes → Bool → Table × Bool
unfolding get
set_conversation t destination on = elim (get t destination) [
  | some p ↦ (
    record t {
      peers = change_first (is_at destination) (λ q. record q { conversation = on }) t.peers;
    },
    true,
  )
  | none ↦ (t, false)
]
