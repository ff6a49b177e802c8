-- ===== src/Node/Peers/Eviction.antt =====
-- Which peer goes for a stranger.
use oxinode.Prelude.{
  ℕ, suc, ◌≤◌, Bool, true, false, ◌||◌, List, [], ◌∷◌, Option, none, some, get_elem?, ◌≡◌, refl,
  sym, subst, arith, if◌then◌else◌, ltb, leb, inl, inr, Bool-cases,
}
use oxinode.Prelude.Finds.{All}
use oxinode.Node.Peers.{Peer, earlier, behind_one, oldest}

-- A peer that is spared: it has a conversation, or was heard no earlier than `t`.
abbrev pub Spared : ℕ → Peer → Type 0
Spared t p = (p.conversation || leb t p.last_heard_ms) ≡ true

-- A place whose peer has no conversation, and all others are spared for it.
abbrev pub IsOldest : List Peer → Option (ℕ × Peer) → Type 0
IsOldest ps none = All (λ p. p.conversation ≡ true) ps
IsOldest ps (some (i, q)) =
    (get_elem? ps i ≡ some q) × (q.conversation ≡ false) × All (Spared q.last_heard_ms) ps

Spared-le : (s t : ℕ) (ps : List Peer) → s ≤ t → All (Spared t) ps → All (Spared s) ps
Spared-le s t [] h a = tt
Spared-le s t (p ∷ ps) h (a, as_) = (ground arith, Spared-le s t ps h as_)

All-Spared : (t : ℕ) (ps : List Peer) → All (λ p. p.conversation ≡ true) ps → All (Spared t) ps
All-Spared t [] a = tt
All-Spared t (p ∷ ps) (a, as_) = (ground arith, All-Spared t ps as_)

behind_one-IsOldest :
    (p : Peer) (ps : List Peer) (r : Option (ℕ × Peer))
    → p.conversation ≡ true
    → IsOldest ps r
    → IsOldest (p ∷ ps) (behind_one r)
behind_one-IsOldest p ps none c a = (c, a)
behind_one-IsOldest p ps (some (i, q)) c (at, out, all) = (at, out, (ground arith, all))

earlier-IsOldest :
    (p : Peer) (ps : List Peer) (r : Option (ℕ × Peer))
    → p.conversation ≡ false
    → IsOldest ps r
    → IsOldest (p ∷ ps) (some (earlier p r))
unfolding earlier
earlier-IsOldest p ps none c a = (refl, c, (ground arith, All-Spared p.last_heard_ms ps a))
earlier-IsOldest p ps (some (i, q)) c (at, out, all) =
    let Goal : Bool → Type 0 = λ b. IsOldest (p ∷ ps) (some (if b then (suc i, q) else (0, p))) in
    elim (Bool-cases (ltb q.last_heard_ms p.last_heard_ms)) [
      | inl less ↦ subst Goal (sym less) (at, out, (ground arith, all))
      | inr more ↦
          subst Goal (sym more) (
            refl,
            c,
            (ground arith, Spared-le p.last_heard_ms q.last_heard_ms ps (ground arith) all),
          )
    ]

-- The peer that goes is one without a conversation, and no other such peer was heard earlier; there
-- is none if and only if all peers have one.
pub oldest-IsOldest : (ps : List Peer) → IsOldest ps (oldest ps)
unfolding oldest
oldest-IsOldest [] = tt
oldest-IsOldest (p ∷ ps) =
    let rest : Option (ℕ × Peer) = oldest ps in
    let Goal : Bool → Type 0 =
      λ b. IsOldest (p ∷ ps) (if b then behind_one rest else some (earlier p rest)) in
    elim (Bool-cases p.conversation) [
      | inl c ↦ subst Goal (sym c) (behind_one-IsOldest p ps rest c (oldest-IsOldest ps))
      | inr c ↦ subst Goal (sym c) (earlier-IsOldest p ps rest c (oldest-IsOldest ps))
    ]
