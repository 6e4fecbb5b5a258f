-- ===== src/Crypto.antt =====
-- The cryptographic primitives that the daemon calls in src/asyd/core/monocypher.c, a third-party
-- library, as a parameter; and src/asyd/core/crypto_utils.c over them.
--
-- A key, a hash or a message is the list of its bytes. The incremental hash (`init`, `update` for
-- each part, `final`) is the hash of the parts joined, and every call in the daemon asks for the
-- 64-byte output.
use asys.Base.{
  ℕ, Bool, true, ◌↔◌, take, ◌-◌, ◌≡◌, Option, some, List, ◌++◌, map, ltb, if◌then◌else◌, length,
  replicate, bit_xor,
}

pub record Crypto : Type 0 where
  pub blake2b : List ℕ → List ℕ
  pub x25519 : List ℕ → List ℕ → List ℕ
  pub x25519_public_key : List ℕ → List ℕ
  -- `crypto_aead_init_ietf` on key and nonce, then `crypto_aead_write` of the additional data and
  -- the plain text: the cipher text and the MAC.
  pub aead_write : List ℕ → List ℕ → List ℕ → List ℕ → List ℕ × List ℕ
  -- The same for `crypto_aead_read` of the cipher text and the MAC; `none` if the MAC is wrong.
  pub aead_read : List ℕ → List ℕ → List ℕ → List ℕ → List ℕ → Option (List ℕ)
  -- `crypto_verify16(a, b) == 0` and `crypto_verify32(a, b) == 0`.
  pub verify16 : List ℕ → List ℕ → Bool
  pub verify32 : List ℕ → List ℕ → Bool

-- What monocypher documents of them.
pub record Laws (c : Crypto) : Type 0 where
  -- Both sides of a key exchange get the same shared secret.
  pub exchange :
      (a b : List ℕ) → c.x25519 a (c.x25519_public_key b) ≡ c.x25519 b (c.x25519_public_key a)
  pub key_size : (a : List ℕ) → length (c.x25519_public_key a) ≡ 32
  -- What was written reads back under the same key, nonce and additional data.
  pub read-write :
      (k n ad m : List ℕ)
      → c.aead_read k n ad (c.aead_write k n ad m).0 (c.aead_write k n ad m).1 ≡ some m
  pub cipher_size : (k n ad m : List ℕ) → length (c.aead_write k n ad m).0 ≡ length m
  pub mac_size : (k n ad m : List ℕ) → length (c.aead_write k n ad m).1 ≡ 16
  -- The plain text is as long as the cipher text.
  pub plain_size :
      (k n ad text mac m : List ℕ) → c.aead_read k n ad text mac ≡ some m → length m ≡ length text
  pub mac_verified : (a b : List ℕ) → (c.verify16 a b ≡ true) ↔ (take 16 a ≡ take 16 b)
  pub key_verified : (a b : List ℕ) → (c.verify32 a b ≡ true) ↔ (take 32 a ≡ take 32 b)

abbrev blake2b_block : ℕ
blake2b_block = 128

module _ (c : Crypto) where
  -- The key, hashed if it is longer than a block, filled up with zeros.
  unfoldable pub padded_key : List ℕ → List ℕ
  padded_key key =
      let k = (if ltb blake2b_block (length key) then c.blake2b key else key) in
      k ++ replicate (blake2b_block - length k) 0

  unfoldable pub hmac_blake2b : List ℕ → List ℕ → List ℕ
  unfolding padded_key
  hmac_blake2b key bytes =
      let k_ipad = map (λ b. bit_xor b 0x36) (padded_key key) in
      let k_opad = map (λ b. bit_xor b 0x5C) (padded_key key) in
      c.blake2b (k_opad ++ c.blake2b (k_ipad ++ bytes))
