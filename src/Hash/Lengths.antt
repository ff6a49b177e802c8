-- ===== src/Hash/Lengths.antt =====
-- The lengths of the digests, for every message.
use oxinode.Prelude.{
  ℕ, zero, suc, ◌/◌, ◌%◌, [], ◌∷◌, Bytes, length, length-append, ◌≡◌, refl, ap, arith,
}
use oxinode.Hash.{le_bytes, be_bytes}
use oxinode.Hash.Md5
use oxinode.Hash.Sha256

pub length-le_bytes : (n x : ℕ) → length (le_bytes n x) ≡ n
unfolding le_bytes
length-le_bytes zero x = refl
length-le_bytes (suc n) x = ap suc (length-le_bytes n (x / 256))

pub length-be_bytes : (n x : ℕ) → length (be_bytes n x) ≡ n
unfolding be_bytes
length-be_bytes zero x = refl
length-be_bytes (suc n) x =
    omega (arith, length-append (be_bytes n (x / 256)) (x % 256 ∷ []), length-be_bytes n (x / 256))

-- The digest of the identity block has the 16 bytes that the image has room for.
pub length-md5 : (message : Bytes) → length (Md5.digest message) ≡ 16
unfolding Md5.digest le_bytes
length-md5 message = refl

pub length-sha256 : (message : Bytes) → length (Sha256.digest message) ≡ 32
unfolding Sha256.digest be_bytes
length-sha256 message = refl
