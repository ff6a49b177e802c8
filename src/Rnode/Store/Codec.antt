-- ===== src/Rnode/Store/Codec.antt =====
-- `Bond::encode` and `Bond::decode` of core/src/rnode/store.rs: a bond in its slot of a record.
use oxinode.Prelude.{
  ℕ, not, [], ◌∷◌, Option, none, some, Bytes, get_or, if◌then◌else◌, ◌==◌, bit_and, bit_or,
  write_at,
}
use oxinode.Prelude.Fields.{slice}
use oxinode.Rnode.Store.{Bond}

abbrev pub bond_len : ℕ
bond_len = 40

abbrev pub flag_irk : ℕ
flag_irk = 1

abbrev pub flag_authenticated : ℕ
flag_authenticated = 2

unfoldable pub flags_of : Bond → ℕ
flags_of b =
    let flags = if b.authenticated then bit_or 0 flag_authenticated else 0 in
    elim b.irk [ none ↦ flags | some irk ↦ bit_or flags flag_irk ]

abbrev pub write_irk : Option Bytes → Bytes → Bytes
write_irk none out = out
write_irk (some irk) out = write_at 8 irk out

-- A write of one byte is a write of a list of one.
unfoldable pub encode_bond : Bond → Bytes → Bytes
unfolding flags_of
encode_bond b out =
    let named = write_at 1 b.addr (write_at 0 (b.addr_kind ∷ []) out) in
    write_at 24 b.ltk (write_at 7 (flags_of b ∷ []) (write_irk b.irk named))

-- A bond of what stands in its slot.
abbrev pub bond_of : ℕ → Bytes → ℕ → Bytes → Bytes → Bond
bond_of kind addr flags irk ltk = record {
  addr_kind = kind;
  addr = addr;
  irk = if not (bit_and flags flag_irk == 0) then some irk else none;
  ltk = ltk;
  authenticated = not (bit_and flags flag_authenticated == 0);
}

unfoldable pub decode_bond : Bytes → Bond
decode_bond bytes =
    bond_of (get_or bytes 0 0) (slice 1 6 bytes) (get_or bytes 7 0) (slice 8 16 bytes)
      (slice 24 16 bytes)
