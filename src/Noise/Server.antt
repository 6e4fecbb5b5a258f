-- ===== src/Noise/Server.antt =====
-- The daemon's side of the handshake: noise_ik_init_server, read_msg1 and write_msg2.
use asys.Base.{ℕ, true, not, Option, none, some, List, [], ◌++◌, if◌then◌else◌, slice}
use asys.Crypto.{Crypto}
use asys.Noise.{
  NoiseIkState, Status, ok, err_auth, err_state, zero_state, mix_hash, mix_key, encrypt_and_hash,
  decrypt_and_hash, split, init_symmetric, generate_keypair,
}

module _ (c : Crypto) where
  unfoldable pub init_server : List ℕ → List ℕ → NoiseIkState
  init_server s_priv s_pub = record zero_state {
    s_priv = s_priv;
    s_pub = s_pub;
    is_server = true;
    h = mix_hash c (mix_hash c (init_symmetric c) []) s_pub;
    ck = init_symmetric c;
  }

  -- Steps 4 and 5 of `noise_ik_read_msg1`, once the agent's static key is known.
  unfoldable pub read_payload : NoiseIkState → List ℕ → Status × NoiseIkState
  read_payload st enc_p =
      let (ck, k) = mix_key c st.ck (c.x25519 st.s_priv st.rs_pub) in
      let (h, payload) = decrypt_and_hash c st.h k enc_p in
      (elim payload [ none ↦ err_auth | some _ ↦ ok ], record st { ck = ck; h = h })

  -- The status, the state, and the agent's static public key if it was written out.
  unfoldable pub read_msg1 : NoiseIkState → List ℕ → Status × NoiseIkState × Option (List ℕ)
  read_msg1 st msg1 =
      let re = slice 0 32 msg1 in
      let (ck, k) = mix_key c st.ck (c.x25519 st.s_priv re) in
      let (h, agent_s) = decrypt_and_hash c (mix_hash c st.h re) k (slice 32 48 msg1) in
      let st1 = record st { re_pub = re; h = h; ck = ck } in
      if not st.is_server then (err_state, st, none) else elim agent_s [
        | none ↦ (err_auth, st1, none)
        | some s ↦
            let (status, st2) = read_payload (record st1 { rs_pub = s }) (slice 80 16 msg1) in
            (status, st2, some s)
      ]

  -- The status, the state and the message.
  unfoldable pub write_msg2 : NoiseIkState → Option (List ℕ) → Status × NoiseIkState × List ℕ
  write_msg2 st urandom =
      let (e_priv, e_pub) = generate_keypair c st.e_priv urandom in
      let (ck1, _) = mix_key c st.ck (c.x25519 e_priv st.re_pub) in
      let (ck2, k) = mix_key c ck1 (c.x25519 e_priv st.rs_pub) in
      let (h, enc_p) = encrypt_and_hash c (mix_hash c st.h e_pub) k [] in
      let (recv_key, send_key) = split c ck2 in
      if not st.is_server then (err_state, st, []) else (
        ok,
        record st {
          e_priv = e_priv;
          e_pub = e_pub;
          h = h;
          ck = ck2;
          recv_key = recv_key;
          send_key = send_key;
          send_nonce = 0;
          recv_nonce = 0;
          handshake_done = true;
        },
        e_pub ++ enc_p,
      )
