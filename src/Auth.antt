-- ===== src/Auth.antt =====
-- The authentication tag of signed frames: src/asyd/core/auth_verify.c, and the epoch of a session
-- as handle_client in src/asyd/asyd.c derives it.
pub mod Locality
pub mod Received
use asys.Base.{
  ℕ, ◌-◌, ◌%◌, ◌≤◌, ◌≡◌, ◌↔◌, sym, ap, ◌∙◌, Bool, true, false, Option, some, none, List, [], ◌∷◌,
  ◌++◌, ltb, if◌then◌else◌, take, drop, length, append-injective, take_all, get_or, arith, ◌||◌,
}
use asys.Crypto.{Crypto, Laws, hmac_blake2b}
use asys.Apdu.{data_bytes, tag_bytes}
use asys.Handlers.{Request}

-- "asys-epoch-v1"
abbrev epoch_label : List ℕ
epoch_label =
    b'a' ∷ b's' ∷ b'y' ∷ b's' ∷ b'-' ∷ b'e' ∷ b'p' ∷ b'o' ∷ b'c' ∷ b'h' ∷ b'-' ∷ b'v' ∷ b'1' ∷ []

abbrev pub no_tag : Option ℕ → Bool
no_tag none = true
no_tag (some _) = false

-- Header, epoch, and the data with its sequence number first: the input of the HMAC. The fifth byte
-- is `(uint8_t)data_len`.
unfoldable pub auth_message : Request → List ℕ → List ℕ
auth_message req epoch_id =
    let f = req.frame in
    (f.cla ∷ f.ins ∷ f.p1 ∷ f.p2 ∷ (f.data_len % 256) ∷ [])
    ++ (take 4 epoch_id ++ (data_bytes req.buf f 0 4 ++ data_bytes req.buf f 4 (f.data_len - 4)))

module _ (c : Crypto) where
  unfoldable pub epoch_of : List ℕ → List ℕ
  epoch_of recv_key = take 4 (hmac_blake2b c recv_key epoch_label)

  unfoldable pub verify_auth_tag : List ℕ → Request → List ℕ → Bool
  verify_auth_tag recv_key req epoch_id =
      let f = req.frame in
      if ltb f.data_len 4 || no_tag f.auth_tag
      then false
      else if ltb 255 (f.data_len - 4)
      then false
      else c.verify16 (hmac_blake2b c recv_key (auth_message req epoch_id)) (tag_bytes req.buf f)

  pub verify_iff :
      (recv_key : List ℕ) (req : Request) (epoch_id : List ℕ)
      → Laws c
      → (verify_auth_tag recv_key req epoch_id ≡ true) ↔ (
          (4 ≤ req.frame.data_len)
          × (req.frame.data_len ≤ 259)
          × (no_tag req.frame.auth_tag ≡ false)
          × (take 16 (hmac_blake2b c recv_key (auth_message req epoch_id))
              ≡ take 16 (tag_bytes req.buf req.frame)))
  unfolding verify_auth_tag
  verify_iff recv_key req epoch_id laws =
      let same =
        laws.mac_verified (hmac_blake2b c recv_key (auth_message req epoch_id))
          (tag_bytes req.buf req.frame) in
      ((λ h. ground (arith, same.0)), (λ h. ground (arith, same.1 h.3)))

-- The HMAC's input determines what it covers: two frames with 4-byte epochs and 4 bytes of sequence
-- number that have the same input have the same CLA, INS, P1, P2 and low byte of the length, and
-- the same epoch, sequence number and payload.
pub auth_message-injective :
    (req req' : Request) (epoch epoch' : List ℕ)
    → length epoch ≡ 4
    → length epoch' ≡ 4
    → length (data_bytes req.buf req.frame 0 4) ≡ 4
    → length (data_bytes req'.buf req'.frame 0 4) ≡ 4
    → auth_message req epoch ≡ auth_message req' epoch'
    → (req.frame.cla ≡ req'.frame.cla)
      × (req.frame.ins ≡ req'.frame.ins)
      × (req.frame.p1 ≡ req'.frame.p1)
      × (req.frame.p2 ≡ req'.frame.p2)
      × (req.frame.data_len % 256 ≡ req'.frame.data_len % 256)
      × (epoch ≡ epoch')
      × (data_bytes req.buf req.frame 0 4 ≡ data_bytes req'.buf req'.frame 0 4)
      × (data_bytes req.buf req.frame 4 (req.frame.data_len - 4)
          ≡ data_bytes req'.buf req'.frame 4 (req'.frame.data_len - 4))
unfolding auth_message
auth_message-injective req req' epoch epoch' he he' hs hs' e =
    let four = take_all 4 epoch (omega (arith, he)) in
    let four' = take_all 4 epoch' (omega (arith, he')) in
    let (same_epoch, signed) =
      append-injective 4 (take 4 epoch) (take 4 epoch') _ _ (ap length four ∙ he)
        (ap length four' ∙ he') (ap (drop 5) e) in
    let (seq, payload) = append-injective 4 _ _ _ _ hs hs' signed in
    (
      ap (λ l. get_or l 0 0) e,
      ap (λ l. get_or l 1 0) e,
      ap (λ l. get_or l 2 0) e,
      ap (λ l. get_or l 3 0) e,
      ap (λ l. get_or l 4 0) e,
      sym four ∙ (same_epoch ∙ four'),
      seq,
      payload,
    )
