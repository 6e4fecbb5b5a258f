-- ===== src/Session/Admissible.antt =====
-- Which messages the packet loop of src/asyd/asyd.c answers, by what they say themselves.
use asys.Base.{
  ℕ, ◌≤◌, ◌<◌, ◌≡◌, ◌≢◌, ◌⊎◌, inl, inr, refl, sym, ap, ◌∙◌, true, false, List, [], ◌++◌, append-nil,
  length, take, drop, take-append-drop, ◌==◌, arith,
}
use asys.Crypto.{Crypto}
use asys.Apdu.{pending, tag_bytes, data_bytes, sec_plain}
use asys.Apdu.Codec.{Message, IsMessage, encode, frame_of, encode_body, encode_tag}
use asys.Apdu.Data.{SameData, data_byte-SameData}
use asys.Auth.{verify_auth_tag}
use asys.Auth.Locality.{verify_auth_tag-SameData, verified_size}
use asys.Dispatcher.Locality.{request}
use asys.Session.{Conn}
use asys.Session.Step.{MayRun, last_seq}
use asys.Session.Packet.{seq_of}

-- A buffer that starts with a message holds its data and its tag.
module _ (m : Message) (im : IsMessage m) (buf : List ℕ) (n : ℕ) (e : take n buf ≡ encode m) where
  starts_with : buf ≡ encode m ++ drop n buf
  starts_with = sym (take-append-drop n buf) ∙ ap (λ l. l ++ drop n buf) e

  alone : encode m ≡ encode m ++ []
  alone = sym (append-nil (encode m))

  pub encode-SameData : SameData (frame_of m) buf (encode m)
  encode-SameData =
      let body : List ℕ → List ℕ = λ b. data_bytes b (frame_of m) 0 (length m.body) in
      ap body starts_with ∙ (encode_body m (drop n buf) ∙ sym (ap body alone ∙ encode_body m []))

  encode-tag_bytes : tag_bytes buf (frame_of m) ≡ tag_bytes (encode m) (frame_of m)
  encode-tag_bytes =
      let tag : List ℕ → List ℕ = λ b. tag_bytes b (frame_of m) in
      ap tag starts_with ∙ (encode_tag m (drop n buf) im ∙ sym (ap tag alone ∙ encode_tag m [] im))

  encode-seq_of : 4 ≤ length m.body → seq_of buf (frame_of m) ≡ seq_of (encode m) (frame_of m)
  encode-seq_of h =
      let at = data_byte-SameData (frame_of m) buf (encode m) encode-SameData in
      omega (arith, at 0 (omega arith), at 1 (omega arith), at 2 (omega arith), at 3 (omega arith))

module _ (c : Crypto) (key epoch : List ℕ) where
  -- The message is plain, or its tag is right and its number above the last one.
  abbrev pub Admissible : ℕ → Message → Type 0
  Admissible last m =
      (m.sec ≡ sec_plain)
      ⊎ ((m.sec ≢ sec_plain)
          × (verify_auth_tag c key (request (encode m) (frame_of m)) epoch ≡ true)
          × (last < seq_of (encode m) (frame_of m)))

  pub Admissible-MayRun :
      (conn : Conn) (m : Message)
      → IsMessage m
      → pending conn.parser ≡ encode m
      → conn.ctx.noise.recv_key ≡ key
      → conn.ctx.epoch_id ≡ epoch
      → Admissible conn.ctx.last_seen_seq m
      → MayRun c conn (frame_of m)
        × (last_seq conn.ctx.last_seen_seq conn.parser.buf (frame_of m)
            ≡ last_seq conn.ctx.last_seen_seq (encode m) (frame_of m))
  Admissible-MayRun conn m im e ek ee (inl plain) =
      let yes : (m.sec == sec_plain) ≡ true = ground arith in (inl plain, rw yes refl)
  Admissible-MayRun conn m im e ek ee (inr (not_plain, right, new)) =
      let buf = conn.parser.buf in
      let f = frame_of m in
      let no : (m.sec == sec_plain) ≡ false = ground arith in
      let same = encode-SameData m im buf conn.parser.filled e in
      let tag = encode-tag_bytes m im buf conn.parser.filled e in
      let right' : verify_auth_tag c key (request buf f) epoch ≡ true =
        verify_auth_tag-SameData c f buf (encode m) same key epoch tag ∙ right in
      let seq =
        encode-seq_of m im buf conn.parser.filled e
          (verified_size c f (encode m) (encode m) refl key epoch right) in
      (inr (not_plain, rw (ek, ee) right', omega (arith, seq, new)), rw no seq)
