-- ===== src/Noise.antt =====
-- The Noise IK handshake and transport: src/asyd/core/noise_ik.c and noise_ik.h.
--
-- Each function takes the state and returns its status, the new state and its output buffer. The
-- callers pass no NULL, so NOISE_ERR_PARAM does not occur. Wiping local buffers has no
-- counterpart; wiping the state has.
pub mod Server
pub mod Client
pub mod Symmetric
pub mod Stream
pub mod Agreement
pub mod Transport
use asys.Base.{
  ℕ, ◌+◌, ◌-◌, ◌/◌, ◌%◌, ◌^◌, Bool, true, false, not, Option, none, some, List, [], ◌∷◌, ◌++◌, leb,
  ltb, if◌then◌else◌, get_or, set, take, drop, slice, write_at, length, replicate, byte_at, bit_and,
  bit_or,
}
use asys.Crypto.{Crypto, hmac_blake2b}

abbrev pub key_size : ℕ
key_size = 32

abbrev hash_size : ℕ
hash_size = 64

abbrev pub mac_size : ℕ
mac_size = 16

abbrev pub msg1_size : ℕ
msg1_size = 96

abbrev pub msg2_size : ℕ
msg2_size = 48

pub data Status : Type 0 where
  ok err_auth err_state : Status

pub record NoiseIkState : Type 0 where
  pub s_priv : List ℕ
  pub s_pub : List ℕ
  pub rs_pub : List ℕ
  pub e_priv : List ℕ
  pub e_pub : List ℕ
  pub re_pub : List ℕ
  pub h : List ℕ
  pub ck : List ℕ
  pub send_key : List ℕ
  pub recv_key : List ℕ
  pub send_nonce : ℕ
  pub recv_nonce : ℕ
  pub is_server : Bool
  pub handshake_done : Bool

abbrev zero_key : List ℕ
zero_key = replicate key_size 0

-- A state whose bytes are all zero.
unfoldable pub zero_state : NoiseIkState
zero_state = record {
  s_priv = zero_key;
  s_pub = zero_key;
  rs_pub = zero_key;
  e_priv = zero_key;
  e_pub = zero_key;
  re_pub = zero_key;
  h = replicate hash_size 0;
  ck = replicate hash_size 0;
  send_key = zero_key;
  recv_key = zero_key;
  send_nonce = 0;
  recv_nonce = 0;
  is_server = false;
  handshake_done = false;
}

-- "Noise_IK_25519_ChaChaPoly_BLAKE2b"
abbrev protocol_name : List ℕ
protocol_name =
    b'N' ∷ b'o' ∷ b'i' ∷ b's' ∷ b'e' ∷ b'_' ∷ b'I' ∷ b'K' ∷ b'_' ∷ b'2' ∷ b'5' ∷ b'5' ∷ b'1' ∷ b'9'
    ∷ b'_' ∷ b'C' ∷ b'h' ∷ b'a' ∷ b'C' ∷ b'h' ∷ b'a' ∷ b'P' ∷ b'o' ∷ b'l' ∷ b'y' ∷ b'_' ∷ b'B'
    ∷ b'L' ∷ b'A' ∷ b'K' ∷ b'E' ∷ b'2' ∷ b'b' ∷ []

-- 4 zero bytes and the 64-bit counter, low byte first.
unfoldable pub nonce12 : ℕ → List ℕ
nonce12 n =
    0
    ∷ 0
    ∷ 0
    ∷ 0
    ∷ byte_at n 0
    ∷ byte_at n 8
    ∷ byte_at n 16
    ∷ byte_at n 24
    ∷ byte_at n 32
    ∷ byte_at n 40
    ∷ byte_at n 48
    ∷ byte_at n 56
    ∷ []

-- `priv[0] &= 248; priv[31] &= 127; priv[31] |= 64;`
unfoldable pub clamp : List ℕ → List ℕ
clamp k = set (set k 0 (bit_and (get_or k 0 0) 248)) 31 (bit_or (bit_and (get_or k 31 0) 127) 64)

module _ (c : Crypto) where
  unfoldable pub mix_hash : List ℕ → List ℕ → List ℕ
  mix_hash h bytes = c.blake2b (h ++ bytes)

  -- The new chaining key and the key.
  unfoldable pub mix_key : List ℕ → List ℕ → List ℕ × List ℕ
  mix_key ck dh_output =
      let temp = hmac_blake2b c ck dh_output in
      let ck' = hmac_blake2b c temp (0x01 ∷ []) in
      (ck', take key_size (hmac_blake2b c temp (ck' ++ (0x02 ∷ []))))

  -- The new hash, and the cipher text with its MAC.
  unfoldable pub encrypt_and_hash : List ℕ → List ℕ → List ℕ → List ℕ × List ℕ
  encrypt_and_hash h k plaintext =
      let (text, mac) = c.aead_write k (nonce12 0) h plaintext in
      (mix_hash h (text ++ mac), text ++ mac)

  -- The new hash, and the plain text if the MAC is right.
  unfoldable pub decrypt_and_hash : List ℕ → List ℕ → List ℕ → List ℕ × Option (List ℕ)
  decrypt_and_hash h k ciphertext =
      let pt_len = length ciphertext - mac_size in
      if ltb (length ciphertext) mac_size then (h, none) else (
        mix_hash h ciphertext,
        c.aead_read k (nonce12 0) h (take pt_len ciphertext) (drop pt_len ciphertext),
      )

  unfoldable pub split : List ℕ → List ℕ × List ℕ
  split ck =
      let temp = hmac_blake2b c ck [] in
      let k1_full = hmac_blake2b c temp (0x01 ∷ []) in
      (take key_size k1_full, take key_size (hmac_blake2b c temp (k1_full ++ (0x02 ∷ []))))

  -- The hash; the chaining key starts equal to it.
  unfoldable pub init_symmetric : List ℕ
  init_symmetric =
      if leb (length protocol_name) hash_size
      then protocol_name ++ replicate (hash_size - length protocol_name) 0
      else c.blake2b protocol_name

  -- The private and the public key. `old` is what the private key's buffer holds, and `urandom` is
  -- what `fread` gets from /dev/urandom, or `none` if it cannot be opened.
  unfoldable pub generate_keypair : List ℕ → Option (List ℕ) → List ℕ × List ℕ
  generate_keypair old urandom =
      let filled : List ℕ = elim urandom [ none ↦ old | some bytes ↦ write_at old 0 bytes ] in
      (clamp filled, c.x25519_public_key (clamp filled))
