-- ===== src/Startup/Persistence.antt =====
-- The daemon's key pair from one start to the next: load_or_generate_keys in src/asyd/asyd.c.
use asys.Base.{
  subst, ℕ, ◌≡◌, refl, sym, ap, ◌∙◌, true, false, some, List, ◌==◌, ◌&&◌, length, take, write_at,
  Option-cases, Bool-cases, inl, inr, arith,
}
use asys.Crypto.{Crypto, Laws}
use asys.Noise.{generate_keypair}
use asys.Apdu.Buffer.{length-write_at}
use asys.Startup.Keys.{
  KeyFiles, ServerKeys, KeysIo, read_key, generate_keys, load_keys, load_or_generate_keys,
}
use asys.Startup.Stored.{
  AreKeys, Stored, FitsKey, opens_both, loads-Stored, length-clamp, length-read_key, both_whole,
  read_key_all, write_keys-Stored,
}

module _ (c : Crypto) (laws : Laws c) (io : KeysIo) (fits : FitsKey io) where
  generate_keypair-AreKeys :
      (old : List ℕ)
      → length old ≡ 32
      → let (priv, public) = generate_keypair c old io.urandom in
        AreKeys (record { priv = priv; public = public })
  unfolding generate_keypair
  generate_keypair-AreKeys old h = elim (Option-cases io.urandom) [
    | inl e ↦ rw e (record { priv_size = length-clamp old ∙ h; public_size = laws.key_size _ })
    | inr (bytes, e) ↦ rw e (record {
      priv_size =
          length-clamp (write_at old 0 bytes)
          ∙ (length-write_at old 0 bytes (omega (arith, fits bytes e)) ∙ h);
      public_size = laws.key_size _;
    })
  ]

  generate_keys-Stored :
      (buf keys : ServerKeys) (files files' : KeyFiles)
      → AreKeys buf
      → generate_keys c io buf files ≡ (true, keys, files')
      → AreKeys keys × Stored keys files'
  unfolding generate_keys
  generate_keys-Stored buf keys files files' v e =
      let (priv, public) = generate_keypair c buf.priv io.urandom in
      write_keys-Stored io (record { priv = priv; public = public }) keys files files' e
        (generate_keypair-AreKeys buf.priv v.priv_size)

  corrupt_keys :
      (buf : ServerKeys) (files : KeyFiles) (p q : List ℕ)
      → (length (take 32 p) == 32 && length (take 32 q) == 32) ≡ false
      → load_keys c io buf files p q
        ≡ generate_keys c io
            (record { priv = read_key buf.priv p; public = read_key buf.public q })
            files
  unfolding load_keys
  corrupt_keys buf files p q short = rw (load_keys, short) refl

  loaded_keys :
      (buf keys : ServerKeys) (files files' : KeyFiles) (p q : List ℕ)
      → (length (take 32 p) == 32 && length (take 32 q) == 32) ≡ true
      → load_keys c io buf files p q ≡ (true, keys, files')
      → (record { priv = read_key buf.priv p; public = read_key buf.public q } ≡ keys)
        × (files ≡ files')
  unfolding load_keys
  loaded_keys buf keys files files' p q whole e = ground (arith, e, whole)

  load_keys-Stored :
      (buf keys : ServerKeys) (files files' : KeyFiles) (p q : List ℕ)
      → AreKeys buf
      → files.private_file ≡ some p
      → files.public_file ≡ some q
      → load_keys c io buf files p q ≡ (true, keys, files')
      → AreKeys keys × Stored keys files'
  unfolding load_keys
  load_keys-Stored buf keys files files' p q v ep eq e =
      let np = length-read_key buf.priv p v.priv_size in
      let nq = length-read_key buf.public q v.public_size in
      elim (Bool-cases (length (take 32 p) == 32 && length (take 32 q) == 32)) [
        | inl whole ↦
            let same = loaded_keys buf keys files files' p q whole e in
            let (wp, wq) = both_whole (length (take 32 p)) (length (take 32 q)) whole in
            (
              subst AreKeys same.0 (record { priv_size = np; public_size = nq }),
              record {
                p = p;
                q = q;
                private_is = sym (ap (λ f. f.private_file) same.1) ∙ ep;
                public_is = sym (ap (λ f. f.public_file) same.1) ∙ eq;
                priv_bytes = sym (read_key_all buf.priv p v.priv_size wp) ∙ ap (λ k. k.priv) same.0;
                public_bytes =
                    sym (read_key_all buf.public q v.public_size wq) ∙ ap (λ k. k.public) same.0;
              },
            )
        | inr short ↦
            generate_keys-Stored
              (record { priv = read_key buf.priv p; public = read_key buf.public q }) keys files
              files' (record { priv_size = np; public_size = nq })
              (sym (corrupt_keys buf files p q short) ∙ e)
      ]

  -- Keys that were loaded or written are in the files.
  keys-Stored :
      (buf keys : ServerKeys) (files files' : KeyFiles)
      → AreKeys buf
      → load_or_generate_keys c io buf files ≡ (true, keys, files')
      → AreKeys keys × Stored keys files'
  unfolding load_or_generate_keys
  keys-Stored buf keys files files' v e = elim (Bool-cases io.accessible) [
    | inl open_dir ↦ elim (Option-cases files.private_file) [
      | inl ep ↦ generate_keys-Stored buf keys files files' v (ground (arith, e, open_dir, ep))
      | inr (p, ep) ↦ elim (Option-cases files.public_file) [
        | inl eq ↦
            generate_keys-Stored buf keys files files' v (ground (arith, e, open_dir, ep, eq))
        | inr (q, eq) ↦
            load_keys-Stored buf keys files files' p q v ep eq
              (sym (opens_both c io buf files p q open_dir ep eq) ∙ e)
      ]
    ]
    | inr shut ↦ absurd (ground (arith, e, shut))
  ]

-- If a start has got a key pair, loaded or fresh, then the next start with the files as they are
-- then gets the same key pair, generates none and leaves the files as they are, if it may access
-- the directory: the agents that know the daemon's public key need no new one.
pub keys_persist :
    (c : Crypto) (io io' : KeysIo) (buf buf' keys : ServerKeys) (files files' : KeyFiles)
    → Laws c
    → FitsKey io
    → AreKeys buf
    → AreKeys buf'
    → io'.accessible ≡ true
    → load_or_generate_keys c io buf files ≡ (true, keys, files')
    → load_or_generate_keys c io' buf' files' ≡ (true, keys, files')
keys_persist c io io' buf buf' keys files files' laws fits vb vb' open_dir e =
    let (v, s) = keys-Stored c laws io fits buf keys files files' vb e in
    loads-Stored c io' buf' keys files' open_dir vb' v s
