-- ===== src/Rnode/Store/Bonds.antt =====
-- What `add_bond` remembers, and what it forgets.
use oxinode.Prelude.{
  Bool, true, Bool-cases, [], ◌∷◌, Option, none, some, length, get_elem?, ◌≡◌, ◌≢◌, refl, sym,
  subst, ◌∙◌, arith, ◌⊎◌, inl, inr,
}
use oxinode.Prelude.Finds.{
  All, same-eq, find, change_first, Any, Option-cases, find-change_first, Any-change_first,
  length-change_first,
}
use oxinode.Rnode.Store.{Bond, Slots, max_bonds, is_for, is_free, shift_in, add_new, add_bond}

abbrev pub Holds : Bond → Slots → Type 0
Holds b slots = Any (λ s. s ≡ some b) slots

-- A slot holds a bond for the address of `bond`.
abbrev pub HasAddress : Bond → Option Bond → Type 0
HasAddress bond none = ⊥
HasAddress bond (some b) = (b.addr ≡ bond.addr) × (b.addr_kind ≡ bond.addr_kind)

is_for-HasAddress : (bond : Bond) (s : Option Bond) → is_for bond s ≡ true → HasAddress bond s
unfolding is_for
is_for-HasAddress bond none h = cc
is_for-HasAddress bond (some b) h = (same-eq b.addr bond.addr (ground arith), ground arith)

abbrev pub IsFull : Slots → Type 0
IsFull slots = All (λ t. t ≢ none) slots

find-IsFull : (slots : Slots) → find is_free slots ≡ none → IsFull slots
unfolding find is_free
find-IsFull [] h = tt
find-IsFull (none ∷ slots) h = cc
find-IsFull (some b ∷ slots) h = ((λ e. cc), find-IsFull slots h)

-- What becomes of a slot: it was free or held a bond for the address of `bond`, it is held still, or it was the
-- first slot when no slot was free.
abbrev pub Stays : Bond → Slots → Slots → Option Bond → Type 0
Stays bond slots slots' s =
    ((s ≡ none) ⊎ HasAddress bond s)
    ⊎ (Any (λ t. t ≡ s) slots' ⊎ ((get_elem? slots 0 ≡ some s) × IsFull slots))

-- A board with `max_bonds` slots that remembers `bond`, and what it held.
abbrev pub Remembers : Bond → Slots → Slots → Type 0
Remembers bond slots slots' =
    (length slots' ≡ max_bonds) × Holds bond slots' × All (Stays bond slots slots') slots

shift_in-Remembers :
    (bond : Bond) (slots : Slots)
    → length slots ≡ max_bonds
    → find is_free slots ≡ none
    → Remembers bond slots (shift_in bond slots)
unfolding shift_in
shift_in-Remembers bond [] size full = absurd (omega arith)
shift_in-Remembers bond (s ∷ []) size full = absurd (omega arith)
shift_in-Remembers bond (s ∷ t ∷ []) size full = absurd (omega arith)
shift_in-Remembers bond (s ∷ t ∷ u ∷ []) size full = absurd (omega arith)
shift_in-Remembers bond (s ∷ t ∷ u ∷ v ∷ w ∷ rest) size full = absurd (omega arith)
shift_in-Remembers bond (s ∷ t ∷ u ∷ v ∷ []) size full = (
  refl,
  inr (inr (inr (inl refl))),
  (
    inr (inr (refl, find-IsFull (s ∷ t ∷ u ∷ v ∷ []) full)),
    (inr (inl (inl refl)), (inr (inl (inr (inl refl))), (inr (inl (inr (inr (inl refl)))), tt))),
  ),
)

-- A place that meets no test of the change is held behind it.
All-change_first :
    (test : Option Bond → Bool) (bond : Bond) (xs slots : Slots)
    → ((s : Option Bond) → test s ≡ true → (s ≡ none) ⊎ HasAddress bond s)
    → ((s : Option Bond) → Any (λ t. t ≡ s) xs → Any (λ t. t ≡ s) slots)
    → All (Stays bond slots (change_first test (λ s. some bond) slots)) xs
All-change_first test bond [] slots hit sub = tt
All-change_first test bond (s ∷ xs) slots hit sub = (
  elim (Bool-cases (test s)) [
    | inl meets ↦ inl (hit s meets)
    | inr out ↦ inr (inl (Any-change_first test (λ s. some bond) s slots out (sub s (inl refl))))
  ],
  All-change_first test bond xs slots hit (λ t at. sub t (inr at)),
)

replaced :
    (test : Option Bond → Bool) (bond : Bond) (slots : Slots) (s : Option Bond)
    → length slots ≡ max_bonds
    → find test slots ≡ some s
    → ((s : Option Bond) → test s ≡ true → (s ≡ none) ⊎ HasAddress bond s)
    → Remembers bond slots (change_first test (λ s. some bond) slots)
replaced test bond slots s size found hit = (
  length-change_first test (λ s. some bond) slots ∙ size,
  find-change_first test (some bond) s slots found,
  All-change_first test bond slots slots hit (λ t at. at),
)

free-none : (s : Option Bond) → is_free s ≡ true → s ≡ none
unfolding is_free
free-none none h = refl
free-none (some b) h = cc

add_new-Remembers :
    (bond : Bond) (slots : Slots)
    → length slots ≡ max_bonds
    → Remembers bond slots (add_new bond slots)
unfolding add_new
add_new-Remembers bond slots size =
    let Goal : Option (Option Bond) → Type 0 = λ r. Remembers bond slots (elim r [
      | some slot ↦ change_first is_free (λ slot. some bond) slots
      | none ↦ shift_in bond slots
    ]) in
    elim (Option-cases (find is_free slots)) [
      | inl full ↦ subst Goal (sym full) (shift_in-Remembers bond slots size full)
      | inr (s, found) ↦
          subst Goal (sym found)
            (replaced is_free bond slots s size found (λ t h. inl (free-none t h)))
    ]

-- Behind `add_bond` the bond is remembered, in as many slots, whatever was held before. So is every bond
-- for another address that was held, except the one in the first slot when no slot is free.
pub add_bond-Remembers :
    (bond : Bond) (slots : Slots)
    → length slots ≡ max_bonds
    → Remembers bond slots (add_bond bond slots)
unfolding add_bond
add_bond-Remembers bond slots size =
    let Goal : Option (Option Bond) → Type 0 = λ r. Remembers bond slots (elim r [
      | some slot ↦ change_first (is_for bond) (λ slot. some bond) slots
      | none ↦ add_new bond slots
    ]) in
    elim (Option-cases (find (is_for bond) slots)) [
      | inl e ↦ subst Goal (sym e) (add_new-Remembers bond slots size)
      | inr (s, e) ↦
          subst Goal (sym e)
            (replaced (is_for bond) bond slots s size e (λ t h. inr (is_for-HasAddress bond t h)))
    ]
