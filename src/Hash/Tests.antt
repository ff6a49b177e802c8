-- ===== src/Hash/Tests.antt =====
-- The published vectors, run.
use oxinode.Prelude.{[], ◌∷◌, Bytes, replicate, take, ◌≡◌, refl}
use oxinode.Hash.Md5
use oxinode.Hash.Sha256

abbrev abc : Bytes
abc = 0x61 ∷ 0x62 ∷ 0x63 ∷ []

md5-abc :
    Md5.digest abc
    ≡ 0x90 ∷ 0x01 ∷ 0x50 ∷ 0x98 ∷ 0x3c ∷ 0xd2 ∷ 0x4f ∷ 0xb0 ∷ 0xd6 ∷ 0x96 ∷ 0x3f ∷ 0x7d ∷ 0x28
      ∷ 0xe1 ∷ 0x7f ∷ 0x72 ∷ []
unfolding Md5.digest
md5-abc = refl

md5-two_blocks : take 4 (Md5.digest (replicate 56 0x61)) ≡ 0x3b ∷ 0x0c ∷ 0x8a ∷ 0xc7 ∷ []
unfolding Md5.digest replicate
md5-two_blocks = refl

md5-whole_block : take 4 (Md5.digest (replicate 64 0x61)) ≡ 0x01 ∷ 0x48 ∷ 0x42 ∷ 0xd4 ∷ []
unfolding Md5.digest replicate
md5-whole_block = refl

sha256-abc : take 4 (Sha256.digest abc) ≡ 0xba ∷ 0x78 ∷ 0x16 ∷ 0xbf ∷ []
unfolding Sha256.digest
sha256-abc = refl

sha256-whole_block : take 4 (Sha256.digest (replicate 64 0x61)) ≡ 0xff ∷ 0xe0 ∷ 0x54 ∷ 0xfe ∷ []
unfolding Sha256.digest replicate
sha256-whole_block = refl
