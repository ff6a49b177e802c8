-- ===== src/Rnode/Store/BondTable.antt =====
-- The bonds of a record: what is written from the front is what is read.
use oxinode.Prelude.{
  ℕ, zero, suc, ◌+◌, ◌*◌, ◌≤◌, List, [], ◌∷◌, Bytes, length, drop, length-take, length-drop,
  write_at, length-write_at, ◌≡◌, refl, ap, ap₂, ◌∙◌, arith,
}
use oxinode.Prelude.Fields.{slice, slice-write_at_before, slice-write_at_self}
use oxinode.Rnode.Store.{Bond}
use oxinode.Rnode.Store.Codec.{bond_len, encode_bond, decode_bond}
use oxinode.Rnode.Store.RoundTrip.{IsKey, decode_bond-encode_bond, length-encode_bond}
use oxinode.Rnode.Store.Record.{off_bonds, record_len, write_bonds, read_bonds}

-- A bond whose arrays have the lengths that their types say.
abbrev pub IsBond : Bond → Type 0
IsBond b = (length b.addr ≡ 6) × IsKey b.irk × (length b.ltk ≡ 16)

unfoldable pub AreBonds : List Bond → Type 0
AreBonds [] = Unit
AreBonds (b ∷ bonds) = IsBond b × AreBonds bonds

abbrev slot : ℕ → ℕ
slot n = off_bonds + 1 + n * bond_len

length-slice : (i n : ℕ) (xs : Bytes) → i + n ≤ length xs → length (slice i n xs) ≡ n
length-slice i n xs h = omega (arith, length-take n (drop i xs), length-drop i xs)

module _ (n : ℕ) (b : Bond) (out : Bytes) (size : length out ≡ record_len) (room : n + 1 ≤ 4)
    (ok : IsBond b) where
  abbrev encoded : Bytes
  encoded = encode_bond b (slice (slot n) bond_len out)

  length-slot : length (slice (slot n) bond_len out) ≡ bond_len
  length-slot = length-slice (slot n) bond_len out (omega arith)

  length-encoded : length encoded ≡ bond_len
  length-encoded = length-encode_bond b (slice (slot n) bond_len out) length-slot ok.0 ok.1 ok.2

  length-next : length (write_at (slot n) encoded out) ≡ record_len
  length-next = length-write_at (slot n) encoded out (omega (arith, length-encoded)) ∙ size

  slice-next :
      (i m : ℕ) → i + m ≤ slot n → slice i m (write_at (slot n) encoded out) ≡ slice i m out
  slice-next i m h = slice-write_at_before i m (slot n) encoded out h (omega arith)

  decode-next : decode_bond (slice (slot n) bond_len (write_at (slot n) encoded out)) ≡ b
  decode-next =
      ap decode_bond
        (slice-write_at_self (slot n) bond_len encoded out length-encoded (omega arith))
      ∙ decode_bond-encode_bond b (slice (slot n) bond_len out) length-slot ok.0 ok.1 ok.2

pub length-write_bonds :
    (n : ℕ) (bonds : List Bond) (out : Bytes)
    → length out ≡ record_len
    → n + length bonds ≤ 4
    → AreBonds bonds
    → length (write_bonds n bonds out) ≡ record_len
unfolding write_bonds AreBonds
length-write_bonds n [] out size room ok = size
length-write_bonds n (b ∷ bonds) out size room (ok, oks) =
    length-write_bonds (n + 1) bonds _ (length-next n b out size (omega arith) ok) (omega arith) oks

pub slice-write_bonds :
    (n : ℕ) (bonds : List Bond) (out : Bytes) (i m : ℕ)
    → length out ≡ record_len
    → n + length bonds ≤ 4
    → AreBonds bonds
    → i + m ≤ slot n
    → slice i m (write_bonds n bonds out) ≡ slice i m out
unfolding write_bonds AreBonds
slice-write_bonds n [] out i m size room ok h = refl
slice-write_bonds n (b ∷ bonds) out i m size room (ok, oks) h =
    slice-write_bonds (n + 1) bonds _ i m (length-next n b out size (omega arith) ok) (omega arith)
      oks (omega arith)
    ∙ slice-next n b out size (omega arith) ok i m h

-- The bonds that are written are read back.
pub read_bonds-write_bonds :
    (n : ℕ) (bonds : List Bond) (out : Bytes)
    → length out ≡ record_len
    → n + length bonds ≤ 4
    → AreBonds bonds
    → read_bonds (length bonds) n (write_bonds n bonds out) ≡ bonds
unfolding write_bonds read_bonds AreBonds
read_bonds-write_bonds n [] out size room ok = refl
read_bonds-write_bonds n (b ∷ bonds) out size room (ok, oks) =
    let next = length-next n b out size (omega arith) ok in
    ap₂ (λ c cs. c ∷ cs)
      (ap decode_bond
          (slice-write_bonds (n + 1) bonds _ (slot n) bond_len next (omega arith) oks (omega arith))
        ∙ decode-next n b out size (omega arith) ok)
      (read_bonds-write_bonds (n + 1) bonds _ next (omega arith) oks)

-- Only the slots are read.
pub read_bonds-slices :
    (count n : ℕ) (xs ys : Bytes)
    → ((k : ℕ) → slice (slot k) bond_len xs ≡ slice (slot k) bond_len ys)
    → read_bonds count n xs ≡ read_bonds count n ys
unfolding read_bonds
read_bonds-slices zero n xs ys h = refl
read_bonds-slices (suc count) n xs ys h =
    ap₂ (λ c cs. c ∷ cs) (ap decode_bond (h n)) (read_bonds-slices count (n + 1) xs ys h)
