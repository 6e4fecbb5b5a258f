-- ===== src/Auth/Received.antt =====
-- Which signed messages src/asyd/core/auth_verify.c accepts, by the bytes that the agent sends.
use asys.Base.{
  ℕ, ◌+◌, ◌-◌, ◌%◌, ◌≤◌, ◌≡◌, ◌≢◌, ◌↔◌, refl, sym, ap, ◌∙◌, true, false, List, ◌∷◌, ◌++◌, ltb, map,
  replicate, take, take_all, drop, slice, take-append-drop, length, length-drop, arith, bit_xor,
}
use asys.Crypto.{Crypto, Laws, hmac_blake2b, padded_key}
use asys.Apdu.{data_bytes, tag_bytes}
use asys.Apdu.Data.{data_bytes-part}
use asys.Apdu.Codec.{Message, IsMessage, encode, frame_of, cla_of, encode_body, encode_tag}
use asys.Handlers.{Request}
use asys.Auth.{auth_message, no_tag, verify_auth_tag, verify_iff}

-- The input of the HMAC as the specification lists it: the header of five bytes, the epoch, and the
-- data, which is the sequence number and the payload.
unfoldable pub signed_bytes : Message → List ℕ → List ℕ
signed_bytes m epoch_id =
    cla_of m ∷ m.ins ∷ m.p1 ∷ m.p2 ∷ (length m.body % 256) ∷ (epoch_id ++ m.body)

-- HMAC for a key of 32 bytes: the inner hash under the key with 0x36, the outer with 0x5C, on
-- blocks of 128 bytes.
unfoldable pub hmac_32 : (List ℕ → List ℕ) → List ℕ → List ℕ → List ℕ
hmac_32 hash key bytes =
    let block = key ++ replicate 96 0 in
    hash (map (λ b. bit_xor b 0x5C) block ++ hash (map (λ b. bit_xor b 0x36) block ++ bytes))

module _ (c : Crypto) (m : Message) (rest : List ℕ) (v : IsMessage m) where
  abbrev received : Request
  received = record { buf = encode m ++ rest; frame = frame_of m }

  part :
      (i k : ℕ)
      → i + k ≤ length m.body
      → data_bytes received.buf received.frame i k ≡ slice i k m.body
  part i k h =
      data_bytes-part received.frame received.buf (length m.body) i k h
      ∙ ap (slice i k) (encode_body m rest)

  -- The input of the code's HMAC is that of the specification.
  message_is :
      (epoch_id : List ℕ)
      → length epoch_id ≡ 4
      → 4 ≤ length m.body
      → auth_message received epoch_id ≡ signed_bytes m epoch_id
  unfolding auth_message signed_bytes
  message_is epoch_id size long =
      let seq = part 0 4 (omega (arith, long)) in
      let payload =
        part 4 (length m.body - 4) (omega (arith, long))
        ∙ take_all (length m.body - 4) (drop 4 m.body) (omega (arith, length-drop 4 m.body)) in
      rw (take_all 4 epoch_id (omega (arith, size)), seq, payload, take-append-drop 4 m.body) refl

  hmac_is :
      (key bytes : List ℕ)
      → length key ≡ 32
      → hmac_blake2b c key bytes ≡ hmac_32 c.blake2b key bytes
  unfolding hmac_blake2b padded_key hmac_32
  hmac_is key bytes size =
      let short : ltb 128 (length key) ≡ false = ground (arith, size) in
      rw (hmac_blake2b, padded_key, short, size) refl

  module _ (laws : Laws c) (key epoch_id : List ℕ) (key_size : length key ≡ 32)
      (epoch_size : length epoch_id ≡ 4) (secure : m.sec ≢ 0) where
    has_tag : no_tag (frame_of m).auth_tag ≡ false
    has_tag = ground (arith, secure)

    tag_is : take 16 (tag_bytes received.buf received.frame) ≡ m.tag
    tag_is =
        ap (take 16) (encode_tag m rest v) ∙ take_all 16 m.tag (ground (arith, v.tag_size, secure))

    same_hmac :
        4 ≤ length m.body
        → hmac_blake2b c key (auth_message received epoch_id)
          ≡ hmac_32 c.blake2b key (signed_bytes m epoch_id)
    same_hmac long =
        ap (hmac_blake2b c key) (message_is epoch_id epoch_size long)
        ∙ hmac_is key (signed_bytes m epoch_id) key_size

    -- For a key of 32 bytes, an epoch of 4 and a well-formed message that is not plain, received
    -- with any bytes behind it: its tag is accepted exactly if it carries a sequence number and at
    -- most 255 bytes more, and the tag is the first 16 bytes of HMAC-BLAKE2b under the key of CLA,
    -- INS, P1, P2, the low byte of the length, the epoch, the sequence number and the payload.
    pub verify_auth_tag_iff : (verify_auth_tag c key received epoch_id ≡ true) ↔ (
        (4 ≤ length m.body)
        × (length m.body ≤ 259)
        × (take 16 (hmac_32 c.blake2b key (signed_bytes m epoch_id)) ≡ m.tag))
    verify_auth_tag_iff =
        let (to, from) = verify_iff c key received epoch_id laws in
        (
          (λ right.
              let (long, short, has, same) = to right in
              (long, short, sym (ap (take 16) (same_hmac long)) ∙ (same ∙ tag_is))),
          (λ h. from (h.0, h.1, has_tag, ap (take 16) (same_hmac h.0) ∙ (h.2 ∙ sym tag_is))),
        )
