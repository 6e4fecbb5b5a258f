-- ===== src/Noise/Transport.antt =====
-- After the handshake: noise_ik_encrypt, noise_ik_decrypt and noise_ik_wipe.
use asys.Base.{
  ℕ, ◌+◌, ◌-◌, ◌%◌, ◌^◌, not, none, some, List, [], ◌++◌, ltb, if◌then◌else◌, take, drop, length,
}
use asys.Crypto.{Crypto}
use asys.Noise.{NoiseIkState, Status, ok, err_auth, err_state, zero_state, nonce12, mac_size}

module _ (c : Crypto) where
  -- The status, the state, and the cipher text with its MAC.
  unfoldable pub encrypt : NoiseIkState → List ℕ → Status × NoiseIkState × List ℕ
  encrypt st plaintext =
      let (text, mac) = c.aead_write st.send_key (nonce12 st.send_nonce) [] plaintext in
      if not st.handshake_done
      then (err_state, st, [])
      else (ok, record st { send_nonce = (st.send_nonce + 1) % 2 ^ 64 }, text ++ mac)

  unfoldable pub decrypt : NoiseIkState → List ℕ → Status × NoiseIkState × List ℕ
  decrypt st ciphertext =
      let pt_len = length ciphertext - mac_size in
      let plain =
        c.aead_read st.recv_key (nonce12 st.recv_nonce) [] (take pt_len ciphertext)
          (drop pt_len ciphertext) in
      if not st.handshake_done
      then (err_state, st, [])
      else if ltb (length ciphertext) mac_size
      then (err_auth, st, [])
      else elim plain [
        | none ↦ (err_auth, st, [])
        | some m ↦ (ok, record st { recv_nonce = (st.recv_nonce + 1) % 2 ^ 64 }, m)
      ]

-- `noise_ik_wipe`
unfoldable pub wipe : NoiseIkState → NoiseIkState
wipe st = zero_state
