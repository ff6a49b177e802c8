-- ===== src/Node/Peers/Tests.antt =====
-- The table of peers at concrete inputs.
use oxinode.Prelude.{ℕ, true, false, [], ◌∷◌, none, some, Bytes, ◌≡◌, refl, inl, inr, Option}
use oxinode.Prelude.Finds.{Any}
use oxinode.Node.Peers.{Peer, Table, Heard, heard, oldest}
use oxinode.Node.Peers.Keeping.{Known, heard-Known}

abbrev peer : ℕ → ℕ → Peer
peer d t = record {
  destination = d ∷ [];
  public_key = [];
  name = none;
  last_heard_ms = t;
  hops = none;
  signal = none;
  conversation = false;
}

abbrev friend : Peer
friend = record (peer 1 10) { conversation = true }

abbrev table : Table
table = record { peers = peer 2 30 ∷ friend ∷ peer 3 20 ∷ []; lxmf = 7 ∷ []; refused_count = 0 }

abbrev announce : Heard
announce = record {
  destination = 1 ∷ [];
  public_key = 9 ∷ [];
  name_hash = 7 ∷ [];
  app_data = none;
  hops = 1;
  signal = none;
}

abbrev no_name : Option Bytes → Option Bytes
no_name _ = none

heard-Known_example : Any (Known friend) (heard no_name table announce 50).0.peers
heard-Known_example = heard-Known no_name table announce 50 friend refl (inr (inl refl))

oldest-run : oldest table.peers ≡ some (2, peer 3 20)
unfolding oldest
oldest-run = refl
