-- ===== src/Noise/Stream.antt =====
-- A session's messages in one direction: what one side encrypts in order, the other decrypts.
use asys.Base.{ℕ, ◌^◌, ◌<◌, ◌≡◌, refl, true, List, [], ◌∷◌, arith}
use asys.Crypto.{Crypto, Laws}
use asys.Noise.{NoiseIkState, ok, nonce12}
use asys.Noise.Transport.{encrypt, decrypt}
use asys.Noise.Symmetric.{split_sealed}

module _ (c : Crypto) where
  -- The packets of a list of messages, encrypted one after another.
  unfoldable pub seal_all : NoiseIkState → List (List ℕ) → List (List ℕ)
  seal_all st [] = []
  seal_all st (m ∷ ms) = let (status, st', packet) = encrypt c st m in packet ∷ seal_all st' ms

  -- The messages of a list of packets, up to the first that is refused.
  unfoldable pub open_all : NoiseIkState → List (List ℕ) → List (List ℕ)
  open_all st [] = []
  open_all st (p ∷ ps) =
      let (status, st', m) = decrypt c st p in
      let rest = open_all st' ps in elim status [ ok ↦ m ∷ rest | _ ↦ [] ]

  -- The receiver can open what the sender seals next.
  pub record Paired (sender receiver : NoiseIkState) : Type 0 where
    pub key : sender.send_key ≡ receiver.recv_key
    pub nonce : sender.send_nonce ≡ receiver.recv_nonce
    pub sender_done : sender.handshake_done ≡ true
    pub receiver_done : receiver.handshake_done ≡ true

  -- Receiving leaves the sending half as it is, and sending the receiving half.
  pub Paired-decrypt :
      (st peer : NoiseIkState) (packet : List ℕ)
      → Paired st peer
      → Paired (decrypt c st packet).1 peer
  unfolding decrypt
  Paired-decrypt st peer packet p = ground arith

  pub Paired-encrypt :
      (st peer : NoiseIkState) (m : List ℕ) → Paired peer st → Paired peer (encrypt c st m).1
  unfolding encrypt
  Paired-encrypt st peer m p = ground arith

  pub recv_key-decrypt :
      (st : NoiseIkState) (packet : List ℕ) → (decrypt c st packet).1.recv_key ≡ st.recv_key
  unfolding decrypt
  recv_key-decrypt st packet = ground arith

  pub recv_key-encrypt :
      (st : NoiseIkState) (m : List ℕ) → (encrypt c st m).1.recv_key ≡ st.recv_key
  unfolding encrypt
  recv_key-encrypt st m = ground arith

  module _ (laws : Laws c) where
    -- One message: it arrives, and both sides are again ready for the next.
    pub decrypt_sealed :
        (sender receiver : NoiseIkState) (m : List ℕ)
        → Paired sender receiver
        → let (status, sender', packet) = encrypt c sender m in
          let (status', receiver', m') = decrypt c receiver packet in
          (status' ≡ ok) × (m' ≡ m) × Paired sender' receiver'
    unfolding encrypt decrypt
    decrypt_sealed sender receiver m paired =
        let sealed = c.aead_write sender.send_key (nonce12 sender.send_nonce) [] m in
        ground (
          arith,
          split_sealed sealed.0 sealed.1
              (laws.mac_size sender.send_key (nonce12 sender.send_nonce) [] m),
          laws.read-write sender.send_key (nonce12 sender.send_nonce) [] m,
        )

    -- Whatever messages one side encrypts, the other side decrypts them, each once and in order.
    pub open-seal :
        (sender receiver : NoiseIkState) (ms : List (List ℕ))
        → Paired sender receiver
        → open_all receiver (seal_all sender ms) ≡ ms
    unfolding open_all seal_all
    open-seal sender receiver [] paired = refl
    open-seal sender receiver (m ∷ ms) paired =
        let next = decrypt_sealed sender receiver m paired in
        let (status, sender', packet) = encrypt c sender m in
        let (status', receiver', m') = decrypt c receiver packet in
        ground (arith, next, open-seal sender' receiver' ms next.2)

-- A nonce is used for one message only, up to 2^64 messages.
pub nonce12-injective : (n m : ℕ) → n < 2 ^ 64 → m < 2 ^ 64 → nonce12 n ≡ nonce12 m → n ≡ m
unfolding nonce12
nonce12-injective n m hn hm e = ground arith
