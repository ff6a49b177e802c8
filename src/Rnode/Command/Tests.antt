-- ===== src/Rnode/Command/Tests.antt =====
-- `decode` at concrete frames.
use oxinode.Prelude.{◌≡◌, ◌↔◌, refl, [], ◌∷◌}
use oxinode.Rnode.Command.{wipe_rom, reset, malformed, set_frequency, be32, decode}
use oxinode.Rnode.Command.Cmd
use oxinode.Rnode.Command.Decode.{Asked, decode-confirmed}

decode-frequency : decode 0x01 (0x33 ∷ 0xBC ∷ 0xA1 ∷ 0x00 ∷ []) ≡ set_frequency 868000000
unfolding decode be32
decode-frequency = refl

decode-unconfirmed : decode 0x59 (0 ∷ []) ≡ malformed 0x59
unfolding decode
decode-unconfirmed = refl

decode-confirmed_example :
    ((decode 0x59 (0xF8 ∷ []) ≡ wipe_rom) ↔ Asked Cmd.rom_wipe 0x59 (0xF8 ∷ []))
    × ((decode 0x59 (0xF8 ∷ []) ≡ reset) ↔ Asked Cmd.reset 0x59 (0xF8 ∷ []))
decode-confirmed_example = decode-confirmed 0x59 (0xF8 ∷ [])
