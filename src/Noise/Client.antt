-- ===== src/Noise/Client.antt =====
-- The agent's side of the handshake: noise_ik_init_client, write_msg1 and read_msg2.
use asys.Base.{ℕ, true, false, Option, none, some, List, [], ◌++◌, if◌then◌else◌, slice}
use asys.Crypto.{Crypto}
use asys.Noise.{
  NoiseIkState, Status, ok, err_auth, err_state, zero_state, mix_hash, mix_key, encrypt_and_hash,
  decrypt_and_hash, split, init_symmetric, generate_keypair,
}

module _ (c : Crypto) where
  unfoldable pub init_client : List ℕ → List ℕ → List ℕ → NoiseIkState
  init_client s_priv s_pub rs_pub = record zero_state {
    s_priv = s_priv;
    s_pub = s_pub;
    rs_pub = rs_pub;
    is_server = false;
    h = mix_hash c (mix_hash c (init_symmetric c) []) rs_pub;
    ck = init_symmetric c;
  }

  -- The status, the state and the message.
  unfoldable pub write_msg1 : NoiseIkState → Option (List ℕ) → Status × NoiseIkState × List ℕ
  write_msg1 st urandom =
      let (e_priv, e_pub) = generate_keypair c st.e_priv urandom in
      let (ck1, k1) = mix_key c st.ck (c.x25519 e_priv st.rs_pub) in
      let (h1, enc_s) = encrypt_and_hash c (mix_hash c st.h e_pub) k1 st.s_pub in
      let (ck2, k2) = mix_key c ck1 (c.x25519 st.s_priv st.rs_pub) in
      let (h2, enc_p) = encrypt_and_hash c h1 k2 [] in
      if st.is_server then (err_state, st, []) else (
        ok,
        record st { e_priv = e_priv; e_pub = e_pub; h = h2; ck = ck2 },
        e_pub ++ (enc_s ++ enc_p),
      )

  unfoldable pub read_msg2 : NoiseIkState → List ℕ → Status × NoiseIkState
  read_msg2 st msg2 =
      let re = slice 0 32 msg2 in
      let (ck1, _) = mix_key c st.ck (c.x25519 st.e_priv re) in
      let (ck2, k) = mix_key c ck1 (c.x25519 st.s_priv re) in
      let (h, payload) = decrypt_and_hash c (mix_hash c st.h re) k (slice 32 16 msg2) in
      let (send_key, recv_key) = split c ck2 in
      let st1 = record st { re_pub = re; h = h; ck = ck2 } in
      if st.is_server then (err_state, st) else elim payload [
        | none ↦ (err_auth, st1)
        | some _ ↦ (
          ok,
          record st1 {
            send_key = send_key;
            recv_key = recv_key;
            send_nonce = 0;
            recv_nonce = 0;
            handshake_done = true;
          },
        )
      ]
