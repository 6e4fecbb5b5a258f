-- ===== src/Auth/Locality.antt =====
-- What the authentication of a frame reads of the receive buffer: src/asyd/core/auth_verify.c, and
-- the sequence number in src/asyd/asyd.c.
use asys.Base.{ℕ, ◌-◌, ◌≤◌, ◌≡◌, refl, List, ltb, true, Bool-cases, inl, inr, arith}
use asys.Crypto.{Crypto}
use asys.Apdu.{ApduFrame, tag_bytes}
use asys.Apdu.Data.{SameData, data_bytes-SameData}
use asys.Auth.{verify_auth_tag, auth_message}

module _ (c : Crypto) (f : ApduFrame) (a b : List ℕ) (same : SameData f a b) where
  pub verify_auth_tag-SameData :
      (key epoch : List ℕ)
      → tag_bytes a f ≡ tag_bytes b f
      → verify_auth_tag c key (record { buf = a; frame = f }) epoch
        ≡ verify_auth_tag c key (record { buf = b; frame = f }) epoch
  unfolding verify_auth_tag auth_message
  verify_auth_tag-SameData key epoch tag = elim (Bool-cases (ltb f.data_len 4)) [
    | inl e ↦ rw e refl
    | inr e ↦
        let seq = data_bytes-SameData f a b same 0 4 (ground (arith, e)) in
        let payload = data_bytes-SameData f a b same 4 (f.data_len - 4) (ground (arith, e)) in
        rw (seq, payload, tag) refl
  ]

  -- An accepted tag means that there is a sequence number.
  pub verified_size :
      (key epoch : List ℕ)
      → verify_auth_tag c key (record { buf = a; frame = f }) epoch ≡ true
      → 4 ≤ f.data_len
  unfolding verify_auth_tag
  verified_size key epoch right = ground (arith, right)
