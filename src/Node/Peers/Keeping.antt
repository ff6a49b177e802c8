-- ===== src/Node/Peers/Keeping.antt =====
-- What an announce does to the peers that the table had.
use oxinode.Prelude.{
  ℕ, zero, suc, ◌≤◌, Bool, true, false, not, List, [], ◌∷◌, ◌++◌, Option, none, some, get_elem?,
  set, length, length-append, length-set, ◌≡◌, refl, ap, sym, subst, ◌∙◌, arith, if◌then◌else◌, ltb,
  inl, inr, Bool-cases, Bytes,
}
use oxinode.Prelude.Finds.{length-change_first, same, Any, change_first}
use oxinode.Node.Peers.{
  Peer, Table, Heard, heard, get, keep_stranger, replace_oldest, oldest, stranger, bring_up_to_date,
  is_at, capacity, fresh, not_lxmf, learn,
}
use oxinode.Node.Peers.Eviction.{IsOldest, oldest-IsOldest}

-- A peer at the same address, with a conversation.
abbrev pub Known : Peer → Peer → Type 0
Known p q = (q.destination ≡ p.destination) × (q.conversation ≡ true)

self_Known :
    (p : Peer) (ps : List Peer) → p.conversation ≡ true → Any (λ q. q ≡ p) ps → Any (Known p) ps
self_Known p [] c h = h
self_Known p (q ∷ ps) c (inl e) = inl (ap (λ r. r.destination) e, ap (λ r. r.conversation) e ∙ c)
self_Known p (q ∷ ps) c (inr h) = inr (self_Known p ps c h)

Any-if :
    (p : Peer) (b : Bool) (xs ys : List Peer)
    → Any (Known p) xs
    → Any (Known p) ys
    → Any (Known p) (if b then xs else ys)
Any-if p true xs ys h k = h
Any-if p false xs ys h k = k

change-Known :
    (test : Peer → Bool) (f : Peer → Peer) (p : Peer) (ps : List Peer)
    → ((q : Peer) → ((f q).destination ≡ q.destination) × ((f q).conversation ≡ q.conversation))
    → Any (Known p) ps
    → Any (Known p) (change_first test f ps)
unfolding change_first
change-Known test f p [] keeps h = h
change-Known test f p (q ∷ ps) keeps (inl (d, c)) =
    Any-if p (test q) (f q ∷ ps) (q ∷ change_first test f ps)
      (inl ((keeps q).0 ∙ d, (keeps q).1 ∙ c)) (inl (d, c))
change-Known test f p (q ∷ ps) keeps (inr h) =
    Any-if p (test q) (f q ∷ ps) (q ∷ change_first test f ps) (inr h)
      (inr (change-Known test f p ps keeps h))

append-Known : (p x : Peer) (ps : List Peer) → Any (Known p) ps → Any (Known p) (ps ++ x ∷ [])
append-Known p x [] h = elim h [ ]
append-Known p x (q ∷ ps) (inl k) = inl k
append-Known p x (q ∷ ps) (inr h) = inr (append-Known p x ps h)

set-Known :
    (p x q : Peer) (ps : List Peer) (i : ℕ)
    → get_elem? ps i ≡ some q
    → q.conversation ≡ false
    → Any (Known p) ps
    → Any (Known p) (set ps i x)
set-Known p x q [] i at out h = h
set-Known p x q (r ∷ ps) zero at out (inl (d, c)) =
    let same_peer : r ≡ q = cc in
    let conflict : true ≡ false = sym c ∙ ap (λ r. r.conversation) same_peer ∙ out in cc
set-Known p x q (r ∷ ps) zero at out (inr h) = inr h
set-Known p x q (r ∷ ps) (suc i) at out (inl k) = inl k
set-Known p x q (r ∷ ps) (suc i) at out (inr h) = inr (set-Known p x q ps i at out h)

-- The table behind an announce for a stranger.
stranger-Known :
    (p x : Peer) (t : Table) (r : Option (ℕ × Peer))
    → IsOldest t.peers r
    → Any (Known p) t.peers
    → Any (Known p) (replace_oldest r x t).0.peers
unfolding replace_oldest
stranger-Known p x t none all h = h
stranger-Known p x t (some (i, q)) (at, out, all) h = set-Known p x q t.peers i at out h

keep-Known :
    (p x : Peer) (t : Table) → Any (Known p) t.peers → Any (Known p) (keep_stranger x t).0.peers
unfolding keep_stranger
keep-Known p x t h =
    let Goal : Bool → Type 0 = λ b.
      Any (Known p)
        (if b
          then (record t { peers = t.peers ++ x ∷ [] }, fresh)
          else replace_oldest (oldest t.peers) x t).0.peers in
    elim (Bool-cases (ltb (length t.peers) capacity)) [
      | inl room ↦ subst Goal (sym room) (append-Known p x t.peers h)
      | inr full ↦
          subst Goal (sym full) (stranger-Known p x t (oldest t.peers) (oldest-IsOldest t.peers) h)
    ]

learn-Known :
    (found : Option Peer) (h : Heard) (name : Option Bytes) (at_ms : ℕ) (t : Table) (p : Peer)
    → Any (Known p) t.peers
    → Any (Known p) (learn found h name at_ms t).0.peers
unfolding learn bring_up_to_date
learn-Known none h name at_ms t p k = keep-Known p (stranger h name at_ms) t k
learn-Known (some q) h name at_ms t p k =
    change-Known (is_at h.destination) (bring_up_to_date h name at_ms) p t.peers (λ r. (refl, refl))
      k

-- No announce, whoever it is from and however full the table is, pushes out a peer with a
-- conversation, or takes the conversation from it.
pub heard-Known :
    (display_name : Option Bytes → Option Bytes) (t : Table) (h : Heard) (at_ms : ℕ) (p : Peer)
    → p.conversation ≡ true
    → Any (λ q. q ≡ p) t.peers
    → Any (Known p) (heard display_name t h at_ms).0.peers
unfolding heard
heard-Known display_name t h at_ms p c k =
    let known = self_Known p t.peers c k in
    let learned = learn (get t h.destination) h (display_name h.app_data) at_ms t in
    let Goal : Bool → Type 0 = λ b. Any (Known p) (if b then (t, not_lxmf) else learned).0.peers in
    elim (Bool-cases (not (same h.name_hash t.lxmf))) [
      | inl other ↦ subst Goal (sym other) known
      | inr lxmf ↦
          subst Goal (sym lxmf)
            (learn-Known (get t h.destination) h (display_name h.app_data) at_ms t p known)
    ]

replace-length :
    (t : Table) (x : Peer) (r : Option (ℕ × Peer))
    → length (replace_oldest r x t).0.peers ≡ length t.peers
unfolding replace_oldest
replace-length t x none = refl
replace-length t x (some (i, q)) = length-set t.peers i x

learn-length :
    (found : Option Peer) (h : Heard) (name : Option Bytes) (at_ms : ℕ) (t : Table)
    → length t.peers ≤ capacity
    → length (learn found h name at_ms t).0.peers ≤ capacity
unfolding learn keep_stranger
learn-length none h name at_ms t small =
    let x = stranger h name at_ms in
    ground (arith, replace-length t x (oldest t.peers), length-append t.peers (x ∷ []))
learn-length (some q) h name at_ms t small =
    omega (arith, length-change_first (is_at h.destination) (bring_up_to_date h name at_ms) t.peers)

-- The table never holds more peers than its capacity.
pub heard-length :
    (display_name : Option Bytes → Option Bytes) (t : Table) (h : Heard) (at_ms : ℕ)
    → length t.peers ≤ capacity
    → length (heard display_name t h at_ms).0.peers ≤ capacity
unfolding heard
heard-length display_name t h at_ms small =
    ground (arith, learn-length (get t h.destination) h (display_name h.app_data) at_ms t small)
