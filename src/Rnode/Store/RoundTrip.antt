-- ===== src/Rnode/Store/RoundTrip.antt =====
-- A bond that is written is read back.
use oxinode.Prelude.{
  subst, ℕ, ◌+◌, ◌≤◌, Bool, true, false, [], ◌∷◌, Option, none, some, Bytes, length, get_or, ◌≡◌,
  refl, ap, sym, ◌∙◌, arith, write_at, length-write_at,
}
use oxinode.Prelude.Fields.{
  slice, slice-write_at_before, slice-write_at_after, slice-write_at_self, get_or-slice,
}
use oxinode.Rnode.Store.{Bond}
use oxinode.Rnode.Store.Codec.{bond_len, flags_of, write_irk, bond_of, encode_bond, decode_bond}

-- An Identity Resolving Key, if there is one, is 16 bytes long.
abbrev pub IsKey : Option Bytes → Type 0
IsKey none = Unit
IsKey (some irk) = length irk ≡ 16

-- The slice that a key is read from, if there is one.
abbrev Reads : Option Bytes → Bytes → Type 0
Reads none s = Unit
Reads (some irk) s = s ≡ irk

bond_of-flags_of :
    (kind : ℕ) (addr : Bytes) (irk : Option Bytes) (ltk s : Bytes) (authenticated : Bool)
    → Reads irk s
    → let b : Bond = record {
      addr_kind = kind;
      addr = addr;
      irk = irk;
      ltk = ltk;
      authenticated = authenticated;
    } in
      bond_of kind addr (flags_of b) s ltk ≡ b
unfolding flags_of
bond_of-flags_of kind addr none ltk s true r = refl
bond_of-flags_of kind addr none ltk s false r = refl
bond_of-flags_of kind addr (some irk) ltk s true r = rw r refl
bond_of-flags_of kind addr (some irk) ltk s false r = rw r refl

module _ (b : Bond) (out : Bytes) (size : length out ≡ bond_len) (addr_size : length b.addr ≡ 6)
    (irk_size : IsKey b.irk) (ltk_size : length b.ltk ≡ 16) where
  abbrev kind : Bytes
  kind = b.addr_kind ∷ []

  abbrev flags : Bytes
  flags = flags_of b ∷ []

  abbrev first_part : Bytes
  first_part = write_at 0 kind out

  abbrev named : Bytes
  named = write_at 1 b.addr first_part

  length-first : length first_part ≡ 40
  length-first = omega (arith, length-write_at 0 kind out (omega arith))

  length-named : length named ≡ 40
  length-named =
      omega (arith, length-first, length-write_at 1 b.addr first_part (omega (arith, length-first)))

  named-lem : (length named ≡ 40) × (slice 0 1 named ≡ kind) × (slice 1 6 named ≡ b.addr)
  named-lem = (
    length-named,
    refl,
    slice-write_at_self 1 6 b.addr first_part addr_size (omega (arith, length-first)),
  )

  irk-lem :
      (irk : Option Bytes)
      → IsKey irk
      → (length (write_irk irk named) ≡ 40)
        × (slice 0 1 (write_irk irk named) ≡ kind)
        × (slice 1 6 (write_irk irk named) ≡ b.addr)
  irk-lem none h = named-lem
  irk-lem (some irk) h =
      let (long, at_kind, at_addr) = named-lem in
      (
        omega (arith, long, length-write_at 8 irk named (omega arith)),
        slice-write_at_before 0 1 8 irk named (omega arith) (omega arith) ∙ at_kind,
        slice-write_at_before 1 6 8 irk named (omega arith) (omega arith) ∙ at_addr,
      )

  abbrev keyed : Bytes
  keyed = write_irk b.irk named

  abbrev flagged : Bytes
  flagged = write_at 7 flags keyed

  abbrev whole : Bytes
  whole = write_at 24 b.ltk flagged

  length-keyed : length keyed ≡ 40
  length-keyed = (irk-lem b.irk irk_size).0

  length-flagged : length flagged ≡ 40
  length-flagged =
      omega (arith, length-keyed, length-write_at 7 flags keyed (omega (arith, length-keyed)))

  length-whole : length whole ≡ 40
  length-whole =
      omega
        (arith, length-flagged, length-write_at 24 b.ltk flagged (omega (arith, length-flagged)))

  -- What stands before the flags is not written again.
  whole-front : (i n : ℕ) → i + n ≤ 7 → slice i n whole ≡ slice i n keyed
  whole-front i n h =
      slice-write_at_before i n 24 b.ltk flagged (omega arith) (omega (arith, length-flagged))
      ∙ slice-write_at_before i n 7 flags keyed h (omega (arith, length-keyed))

  whole-flags : slice 7 1 whole ≡ flags
  whole-flags =
      slice-write_at_before 7 1 24 b.ltk flagged (omega arith) (omega (arith, length-flagged))
      ∙ slice-write_at_self 7 1 flags keyed refl (omega (arith, length-keyed))

  whole-ltk : slice 24 16 whole ≡ b.ltk
  whole-ltk = slice-write_at_self 24 16 b.ltk flagged ltk_size (omega (arith, length-flagged))

  whole-key : slice 8 16 whole ≡ slice 8 16 keyed
  whole-key =
      slice-write_at_before 8 16 24 b.ltk flagged (omega arith) (omega (arith, length-flagged))
      ∙ slice-write_at_after 8 16 7 flags keyed (omega arith) (omega (arith, length-keyed))

  key-Reads : (irk : Option Bytes) → IsKey irk → Reads irk (slice 8 16 (write_irk irk named))
  key-Reads none h = tt
  key-Reads (some irk) h = slice-write_at_self 8 16 irk named h (omega (arith, length-named))

  byte-slice : (i : ℕ) (v : ℕ) → slice i 1 whole ≡ v ∷ [] → get_or whole i 0 ≡ v
  byte-slice i v e = get_or-slice whole i 0 ∙ ap (λ s. get_or s 0 0) e

  whole-bond : decode_bond whole ≡ b
  unfolding decode_bond
  whole-bond =
      let (long, at_kind, at_addr) = irk-lem b.irk irk_size in
      let kind_back = byte-slice 0 b.addr_kind (whole-front 0 1 (omega arith) ∙ at_kind) in
      let addr_back = whole-front 1 6 (omega arith) ∙ at_addr in
      let flags_back = byte-slice 7 (flags_of b) whole-flags in
      let key : Bytes = slice 8 16 whole in
      ap (λ k. bond_of k (slice 1 6 whole) (get_or whole 7 0) key (slice 24 16 whole)) kind_back
      ∙ ap (λ a. bond_of b.addr_kind a (get_or whole 7 0) key (slice 24 16 whole)) addr_back
      ∙ ap (λ f. bond_of b.addr_kind b.addr f key (slice 24 16 whole)) flags_back
      ∙ ap (λ l. bond_of b.addr_kind b.addr (flags_of b) key l) whole-ltk
      ∙ bond_of-flags_of b.addr_kind b.addr b.irk b.ltk key b.authenticated
          (subst (Reads b.irk) (sym whole-key) (key-Reads b.irk irk_size))

-- A bond whose address and keys have their lengths is read back from the slot it was written to,
-- whatever stood there before.
pub decode_bond-encode_bond :
    (b : Bond) (out : Bytes)
    → length out ≡ bond_len
    → length b.addr ≡ 6
    → IsKey b.irk
    → length b.ltk ≡ 16
    → decode_bond (encode_bond b out) ≡ b
unfolding encode_bond
decode_bond-encode_bond b out size addr irk ltk = whole-bond b out size addr irk ltk

-- A bond fills its slot, and no more.
pub length-encode_bond :
    (b : Bond) (out : Bytes)
    → length out ≡ bond_len
    → length b.addr ≡ 6
    → IsKey b.irk
    → length b.ltk ≡ 16
    → length (encode_bond b out) ≡ bond_len
unfolding encode_bond
length-encode_bond b out size addr irk ltk = length-whole b out size addr irk ltk
