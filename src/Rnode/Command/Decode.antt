-- ===== src/Rnode/Command/Decode.antt =====
-- What `decode` makes of a frame.
use oxinode.Prelude.{
  ℕ, ◌/◌, ◌%◌, ◌<◌, ◌^◌, ◌↔◌, ap, [], ◌∷◌, ◌≡◌, some, Bytes, arith, Bool, true, false,
}
use oxinode.Rnode.Command.{
  Command, wipe_rom, reset, decode, decode_rom, decode_identity, decode_display, decode_other,
  confirm_byte, first, be32, be16,
}
use oxinode.Rnode.Command.Cmd

-- The two commands that cannot be undone.
pub destroys : Command → Bool
destroys wipe_rom = true
destroys reset = true
destroys _ = false

other-harmless : (c : ℕ) → destroys (decode_other c) ≡ false
unfolding decode_other destroys
other-harmless c = ground arith

display-harmless : (c : ℕ) (payload : Bytes) → destroys (decode_display c payload) ≡ false
unfolding decode_display destroys
display-harmless c [] = ground (arith, other-harmless c)
display-harmless c (b ∷ bs) = ground (arith, other-harmless c)

identity-harmless : (c : ℕ) (payload : Bytes) → destroys (decode_identity c payload) ≡ false
unfolding decode_identity destroys
identity-harmless c [] = ground (arith, display-harmless c [])
identity-harmless c (b ∷ bs) = ground (arith, display-harmless c (b ∷ bs))

-- A command byte with its confirmation byte behind it.
abbrev pub Asked : ℕ → ℕ → Bytes → Type 0
Asked wanted c payload = (c ≡ wanted) × (first payload ≡ some confirm_byte)

module _ (made : Command) (wanted : ℕ) where
  abbrev OnlyAsked : Command → ℕ → Bytes → Type 0
  OnlyAsked got c payload = got ≡ made → Asked wanted c payload

rom-wipe :
    (c : ℕ) (payload : Bytes) → OnlyAsked wipe_rom Cmd.rom_wipe (decode_rom c payload) c payload
unfolding decode_rom destroys first
rom-wipe c [] h = ground (arith, identity-harmless c [])
rom-wipe c (b ∷ []) h = ground (arith, identity-harmless c (b ∷ []))
rom-wipe c (b ∷ d ∷ bs) h = ground (arith, identity-harmless c (b ∷ d ∷ bs))

rom-reset : (c : ℕ) (payload : Bytes) → OnlyAsked reset Cmd.reset (decode_rom c payload) c payload
unfolding decode_rom destroys first
rom-reset c [] h = ground (arith, identity-harmless c [])
rom-reset c (b ∷ []) h = ground (arith, identity-harmless c (b ∷ []))
rom-reset c (b ∷ d ∷ bs) h = ground (arith, identity-harmless c (b ∷ d ∷ bs))

only_wipe : (c : ℕ) (payload : Bytes) → OnlyAsked wipe_rom Cmd.rom_wipe (decode c payload) c payload
unfolding decode first
only_wipe c [] h = ground (arith, rom-wipe c [])
only_wipe c (b ∷ bs) h = ground (arith, rom-wipe c (b ∷ bs))

only_reset : (c : ℕ) (payload : Bytes) → OnlyAsked reset Cmd.reset (decode c payload) c payload
unfolding decode first
only_reset c [] h = ground (arith, rom-reset c [])
only_reset c (b ∷ bs) h = ground (arith, rom-reset c (b ∷ bs))

decode-wipe : (c : ℕ) (payload : Bytes) → Asked Cmd.rom_wipe c payload → decode c payload ≡ wipe_rom
unfolding decode first
decode-wipe c [] h = cc (h.1)
decode-wipe c (b ∷ bs) h = ground arith

decode-reset : (c : ℕ) (payload : Bytes) → Asked Cmd.reset c payload → decode c payload ≡ reset
unfolding decode first
decode-reset c [] h = cc (h.1)
decode-reset c (b ∷ bs) h = ground arith

-- The two commands that cannot be undone are what a frame is decoded as exactly when its command
-- byte is theirs and its first payload byte is the confirmation byte.
pub decode-confirmed :
    (c : ℕ) (payload : Bytes)
    → ((decode c payload ≡ wipe_rom) ↔ Asked Cmd.rom_wipe c payload)
      × ((decode c payload ≡ reset) ↔ Asked Cmd.reset c payload)
decode-confirmed c payload =
    ((only_wipe c payload, decode-wipe c payload), (only_reset c payload, decode-reset c payload))

-- A number below 2 ^ 32 sent as four bytes, high byte first, is read back, and the low 16 bits of
-- it sent as two, whatever follows.
pub be_lem :
    (n : ℕ) (rest : Bytes)
    → n < 2 ^ 32
    → (be32 (n / 0x1000000 ∷ n / 0x10000 % 256 ∷ n / 0x100 % 256 ∷ n % 256 ∷ rest) ≡ some n)
      × (be16 (n % 0x10000 / 256 ∷ n % 256 ∷ rest) ≡ some (n % 0x10000))
unfolding be32 be16
be_lem n rest h = (ap some (omega arith), ap some (omega arith))
