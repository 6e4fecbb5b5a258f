-- ===== src/Noise/Symmetric.antt =====
-- EncryptAndHash against DecryptAndHash, and the keys that are generated.
use asys.Base.{
  ℕ, ◌+◌, ◌-◌, ◌≡◌, refl, ap, false, Option, some, List, ◌++◌, ltb, take, drop, length,
  length-append, take-append_eq, drop-append_eq, arith,
}
use asys.Crypto.{Crypto, Laws}
use asys.Noise.{mix_hash, encrypt_and_hash, decrypt_and_hash, generate_keypair, nonce12}

-- What an AEAD call wrote, text and MAC joined, is split into these again.
pub split_sealed :
    (text mac : List ℕ)
    → length mac ≡ 16
    → (take (length (text ++ mac) - 16) (text ++ mac) ≡ text)
      × (drop (length (text ++ mac) - 16) (text ++ mac) ≡ mac)
      × (ltb (length (text ++ mac)) 16 ≡ false)
split_sealed text mac h =
    let n : length text ≡ length (text ++ mac) - 16 = omega (arith, length-append text mac) in
    (
      take-append_eq _ text mac n,
      drop-append_eq _ text mac n,
      ground (arith, length-append text mac),
    )

module _ (c : Crypto) (laws : Laws c) where
  -- The receiver of an encrypted payload gets the payload, and both sides hold the same hash.
  pub decrypt-encrypt :
      (h k m : List ℕ)
      → decrypt_and_hash c h k (encrypt_and_hash c h k m).1 ≡ ((encrypt_and_hash c h k m).0, some m)
  unfolding decrypt_and_hash encrypt_and_hash
  decrypt-encrypt h k m =
      let sealed = c.aead_write k (nonce12 0) h m in
      let (text, mac, long) = split_sealed sealed.0 sealed.1 (laws.mac_size k (nonce12 0) h m) in
      rw (long, text, mac)
        (ap (λ r. (mix_hash c h (sealed.0 ++ sealed.1), r)) (laws.read-write k (nonce12 0) h m))

  pub length-encrypt : (h k m : List ℕ) → length (encrypt_and_hash c h k m).1 ≡ length m + 16
  unfolding encrypt_and_hash
  length-encrypt h k m =
      let sealed = c.aead_write k (nonce12 0) h m in
      omega (
        arith,
        length-append sealed.0 sealed.1,
        laws.mac_size k (nonce12 0) h m,
        laws.cipher_size k (nonce12 0) h m,
      )

-- The public key belongs to the private key, whatever the random source gave.
pub keypair_public :
    (c : Crypto) (old : List ℕ) (urandom : Option (List ℕ))
    → (generate_keypair c old urandom).1 ≡ c.x25519_public_key (generate_keypair c old urandom).0
unfolding generate_keypair
keypair_public c old urandom = refl
