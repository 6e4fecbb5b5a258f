-- ===== src/Noise/Agreement.antt =====
-- The handshake, run by both sides: they agree on the transport keys, crosswise.
use asys.Base.{
  ℕ, ◌+◌, ◌≡◌, refl, sym, subst, ap, ◌∙◌, true, false, Option, some, List, [], ◌++◌, slice, length,
  slice_behind, take-append_eq, append-nil, append_assoc, arith, length-append,
}
use asys.Crypto.{Crypto, Laws}
use asys.Noise.{
  NoiseIkState, Status, ok, mix_hash, mix_key, encrypt_and_hash, decrypt_and_hash, generate_keypair,
  split,
}
use asys.Noise.Server.{init_server, read_payload, read_msg1, write_msg2}
use asys.Noise.Client.{init_client, write_msg1, read_msg2}
use asys.Noise.Symmetric.{decrypt-encrypt, length-encrypt, keypair_public}

-- The three parts of message 1, and the two of message 2.
msg1_parts :
    (e s p : List ℕ)
    → length e ≡ 32
    → length s ≡ 48
    → length p ≡ 16
    → (slice 0 32 (e ++ (s ++ p)) ≡ e)
      × (slice 32 48 (e ++ (s ++ p)) ≡ s)
      × (slice 80 16 (e ++ (s ++ p)) ≡ p)
msg1_parts e s p he hs hp = (
  take-append_eq 32 e (s ++ p) he,
  slice_behind e s p 32 48 he hs,
  ap (slice 80 16) (sym (append_assoc e s p) ∙ ap (λ x. (e ++ s) ++ x) (sym (append-nil p)))
      ∙ slice_behind (e ++ s) p [] 80 16 (omega (arith, length-append e s)) hp,
)

msg2_parts :
    (e p : List ℕ)
    → length e ≡ 32
    → length p ≡ 16
    → (slice 0 32 (e ++ p) ≡ e) × (slice 32 16 (e ++ p) ≡ p)
msg2_parts e p he hp = (
  take-append_eq 32 e p he,
  ap (λ x. slice 32 16 (e ++ x)) (sym (append-nil p)) ∙ slice_behind e p [] 32 16 he hp,
)

module _ (c : Crypto) (st : NoiseIkState) where
  -- `read_msg1` step by step, when each decryption succeeds.
  read_msg1_steps :
      (msg re enc_s enc_p ck1 k1 h1 s ck2 k2 h2 m : List ℕ)
      → st.is_server ≡ true
      → slice 0 32 msg ≡ re
      → slice 32 48 msg ≡ enc_s
      → slice 80 16 msg ≡ enc_p
      → mix_key c st.ck (c.x25519 st.s_priv re) ≡ (ck1, k1)
      → decrypt_and_hash c (mix_hash c st.h re) k1 enc_s ≡ (h1, some s)
      → mix_key c ck1 (c.x25519 st.s_priv s) ≡ (ck2, k2)
      → decrypt_and_hash c h1 k2 enc_p ≡ (h2, some m)
      → read_msg1 c st msg ≡ (ok, record st { re_pub = re; rs_pub = s; h = h2; ck = ck2 }, some s)
  unfolding read_msg1 read_payload
  read_msg1_steps msg re enc_s enc_p ck1 k1 h1 s ck2 k2 h2 m e0 e1 e2 e3 e4 e5 e6 e7 = ground arith

  -- `read_msg2` step by step, likewise.
  read_msg2_steps :
      (msg re enc_p ck1 k1 ck2 k2 h1 m : List ℕ)
      → st.is_server ≡ false
      → slice 0 32 msg ≡ re
      → slice 32 16 msg ≡ enc_p
      → mix_key c st.ck (c.x25519 st.e_priv re) ≡ (ck1, k1)
      → mix_key c ck1 (c.x25519 st.s_priv re) ≡ (ck2, k2)
      → decrypt_and_hash c (mix_hash c st.h re) k2 enc_p ≡ (h1, some m)
      → read_msg2 c st msg ≡ (
        ok,
        record st {
          re_pub = re;
          h = h1;
          ck = ck2;
          send_key = (split c ck2).0;
          recv_key = (split c ck2).1;
          send_nonce = 0;
          recv_nonce = 0;
          handshake_done = true;
        },
      )
  unfolding read_msg2
  read_msg2_steps msg re enc_p ck1 k1 ck2 k2 h1 m e0 e1 e2 e3 e4 e5 = ground arith

module _ (c : Crypto) (laws : Laws c) (client_priv server_priv : List ℕ)
    (client_random server_random : Option (List ℕ)) where
  abbrev client_start : NoiseIkState
  client_start =
      init_client c client_priv (c.x25519_public_key client_priv) (c.x25519_public_key server_priv)

  abbrev pub server_start : NoiseIkState
  server_start = init_server c server_priv (c.x25519_public_key server_priv)

  abbrev pub sent1 : Status × NoiseIkState × List ℕ
  sent1 = write_msg1 c client_start client_random

  pub length-sent1 : length sent1.2 ≡ 96
  unfolding write_msg1 init_client
  length-sent1 =
      let gen = generate_keypair c client_start.e_priv client_random in
      let server_pub = c.x25519_public_key server_priv in
      let client_pub = c.x25519_public_key client_priv in
      let mk1 = mix_key c client_start.ck (c.x25519 gen.0 server_pub) in
      let h1 = mix_hash c client_start.h gen.1 in
      let enc1 = encrypt_and_hash c h1 mk1.1 client_pub in
      let mk2 = mix_key c mk1.0 (c.x25519 client_priv server_pub) in
      let enc2 = encrypt_and_hash c enc1.0 mk2.1 [] in
      omega (
        arith,
        ap length (keypair_public c client_start.e_priv client_random) ∙ laws.key_size gen.0,
        length-encrypt c laws h1 mk1.1 client_pub,
        laws.key_size client_priv,
        length-encrypt c laws enc1.0 mk2.1 [],
        length-append gen.1 (enc1.1 ++ enc2.1),
        length-append enc1.1 enc2.1,
      )

  -- The server takes message 1 for what the client meant: it learns the client's static key and
  -- holds the client's hash and chaining key.
  received1 : read_msg1 c server_start sent1.2 ≡ (
    ok,
    record server_start {
      re_pub = sent1.1.e_pub;
      rs_pub = c.x25519_public_key client_priv;
      h = sent1.1.h;
      ck = sent1.1.ck;
    },
    some (c.x25519_public_key client_priv),
  )
  unfolding read_msg1 read_payload write_msg1 init_client init_server
  received1 =
      let gen = generate_keypair c client_start.e_priv client_random in
      let server_pub = c.x25519_public_key server_priv in
      let client_pub = c.x25519_public_key client_priv in
      let mk1 = mix_key c client_start.ck (c.x25519 gen.0 server_pub) in
      let h1 = mix_hash c client_start.h gen.1 in
      let enc1 = encrypt_and_hash c h1 mk1.1 client_pub in
      let mk2 = mix_key c mk1.0 (c.x25519 client_priv server_pub) in
      let enc2 = encrypt_and_hash c enc1.0 mk2.1 [] in
      let size : length gen.1 ≡ 32 =
        ap length (keypair_public c _ client_random) ∙ laws.key_size gen.0 in
      let (re, s, p) =
        msg1_parts gen.1 enc1.1 enc2.1 size
          (length-encrypt c laws h1 mk1.1 client_pub ∙ ap (λ n. n + 16) (laws.key_size client_priv))
          (length-encrypt c laws enc1.0 mk2.1 []) in
      let dh1 : c.x25519 server_priv gen.1 ≡ c.x25519 gen.0 server_pub =
        ap (c.x25519 server_priv) (keypair_public c _ client_random)
        ∙ laws.exchange server_priv gen.0 in
      read_msg1_steps c server_start sent1.2 gen.1 enc1.1 enc2.1 mk1.0 mk1.1 enc1.0 client_pub mk2.0
        mk2.1 enc2.0 [] refl re s p (ap (mix_key c client_start.ck) dh1)
        (decrypt-encrypt c laws h1 mk1.1 client_pub)
        (ap (mix_key c mk1.0) (laws.exchange server_priv client_priv))
        (decrypt-encrypt c laws enc1.0 mk2.1 [])

  -- The server once it has read message 1.
  abbrev server_known : NoiseIkState
  server_known = record server_start {
    re_pub = sent1.1.e_pub;
    rs_pub = c.x25519_public_key client_priv;
    h = sent1.1.h;
    ck = sent1.1.ck;
  }

  abbrev pub replied : NoiseIkState → Status × NoiseIkState × List ℕ
  replied st = write_msg2 c st server_random

  received2 :
      let (status, server, msg2) = replied server_known in
      (status ≡ ok)
      × (read_msg2 c sent1.1 msg2 ≡ (
        ok,
        record sent1.1 {
          re_pub = server.e_pub;
          h = server.h;
          ck = server.ck;
          send_key = server.recv_key;
          recv_key = server.send_key;
          send_nonce = 0;
          recv_nonce = 0;
          handshake_done = true;
        },
      ))
  unfolding write_msg2 write_msg1 init_client init_server
  received2 =
      let gen1 = generate_keypair c client_start.e_priv client_random in
      let gen2 = generate_keypair c server_start.e_priv server_random in
      let client_pub = c.x25519_public_key client_priv in
      let mk1 = mix_key c sent1.1.ck (c.x25519 gen2.0 gen1.1) in
      let mk2 = mix_key c mk1.0 (c.x25519 gen2.0 client_pub) in
      let h = mix_hash c sent1.1.h gen2.1 in
      let enc = encrypt_and_hash c h mk2.1 [] in
      let public2 = keypair_public c server_start.e_priv server_random in
      let (re, p) =
        msg2_parts gen2.1 enc.1 (ap length public2 ∙ laws.key_size gen2.0)
          (length-encrypt c laws h mk2.1 []) in
      let dh1 : c.x25519 gen1.0 gen2.1 ≡ c.x25519 gen2.0 gen1.1 =
        ap (c.x25519 gen1.0) public2
        ∙ laws.exchange gen1.0 gen2.0
        ∙ ap (c.x25519 gen2.0) (sym (keypair_public c client_start.e_priv client_random)) in
      let dh2 : c.x25519 client_priv gen2.1 ≡ c.x25519 gen2.0 client_pub =
        ap (c.x25519 client_priv) public2 ∙ laws.exchange client_priv gen2.0 in
      (
        refl,
        read_msg2_steps c sent1.1 (gen2.1 ++ enc.1) gen2.1 enc.1 mk1.0 mk1.1 mk2.0 mk2.1 enc.0 []
            refl re p (ap (mix_key c sent1.1.ck) dh1) (ap (mix_key c mk1.0) dh2)
            (decrypt-encrypt c laws h mk2.1 []),
      )

  -- What both sides are to agree on, given the outcomes of the two reads.
  abbrev Agreed : Status × NoiseIkState × Option (List ℕ) → Status × NoiseIkState → Type 0
  Agreed (status2, server, agent) (status4, client') =
      let (status3, server', msg2) = replied server in
      (sent1.0 ≡ ok)
      × (status2 ≡ ok)
      × (agent ≡ some (c.x25519_public_key client_priv))
      × (status3 ≡ ok)
      × (status4 ≡ ok)
      × (client'.send_key ≡ server'.recv_key)
      × (client'.recv_key ≡ server'.send_key)
      × (client'.h ≡ server'.h)
      × (client'.send_nonce ≡ 0)
      × (server'.recv_nonce ≡ 0)
      × (client'.recv_nonce ≡ 0)
      × (server'.send_nonce ≡ 0)
      × (client'.handshake_done ≡ true)
      × (server'.handshake_done ≡ true)

  agreed :
      let (status3, server', msg2) = replied server_known in
      Agreed (ok, server_known, some (c.x25519_public_key client_priv)) (read_msg2 c sent1.1 msg2)
  unfolding write_msg2 write_msg1 init_client init_server
  agreed =
      subst (Agreed (ok, server_known, some (c.x25519_public_key client_priv))) (sym received2.1)
        (refl, refl, refl, refl, refl, refl, refl, refl, refl, refl, refl, refl, refl, refl)

  -- The handshake between a client that knows the server's public key and the server succeeds on
  -- both sides, whatever their random sources give. The server learns the client's static public
  -- key; each side receives with the key with which the other sends; all four nonces are 0; and
  -- both hold the same handshake hash.
  pub handshake_agreement :
      let (status1, client, msg1) = sent1 in
      let (status2, server, agent) = read_msg1 c server_start msg1 in
      let (status3, server', msg2) = replied server in
      let (status4, client') = read_msg2 c client msg2 in
      (status1 ≡ ok)
      × (status2 ≡ ok)
      × (agent ≡ some (c.x25519_public_key client_priv))
      × (status3 ≡ ok)
      × (status4 ≡ ok)
      × (client'.send_key ≡ server'.recv_key)
      × (client'.recv_key ≡ server'.send_key)
      × (client'.h ≡ server'.h)
      × (client'.send_nonce ≡ 0)
      × (server'.recv_nonce ≡ 0)
      × (client'.recv_nonce ≡ 0)
      × (server'.send_nonce ≡ 0)
      × (client'.handshake_done ≡ true)
      × (server'.handshake_done ≡ true)
  handshake_agreement =
      subst (λ r. Agreed r (read_msg2 c sent1.1 (replied r.1).2)) (sym received1) agreed
