-- ===== src/Startup/Stored.antt =====
-- The key files and the key pair that they hold: load_or_generate_keys in src/asyd/asyd.c.
use asys.Base.{
  subst, ℕ, ◌+◌, ◌≤◌, ◌≡◌, ap, ap₂, ◌∙◌, true, some, List, ◌++◌, ◌==◌, ◌&&◌, length, take,
  drop_past, take_all, append-nil, length-take, length-set, arith,
}
use asys.Crypto.{Crypto}
use asys.Noise.{clamp}
use asys.Apdu.Buffer.{length-write_at}
use asys.Startup.Keys.{
  KeyFiles, ServerKeys, KeysIo, read_key, write_keys, load_keys, load_or_generate_keys,
}

-- The two arrays have 32 bytes.
pub record AreKeys (keys : ServerKeys) : Type 0 where
  pub priv_size : length keys.priv ≡ 32
  pub public_size : length keys.public ≡ 32

-- The files hold the keys, and maybe more.
pub record Stored (keys : ServerKeys) (files : KeyFiles) : Type 0 where
  pub p : List ℕ
  pub q : List ℕ
  pub private_is : files.private_file ≡ some p
  pub public_is : files.public_file ≡ some q
  pub priv_bytes : take 32 p ≡ keys.priv
  pub public_bytes : take 32 q ≡ keys.public

pub read_key_all :
    (buf file : List ℕ)
    → length buf ≡ 32
    → length (take 32 file) ≡ 32
    → read_key buf file ≡ take 32 file
read_key_all buf file h k =
    ap (λ rest. take 32 file ++ rest) (drop_past (0 + length (take 32 file)) buf (omega arith))
    ∙ append-nil (take 32 file)

pub length-read_key : (buf file : List ℕ) → length buf ≡ 32 → length (read_key buf file) ≡ 32
length-read_key buf file h =
    length-write_at buf 0 (take 32 file) (omega (arith, length-take 32 file)) ∙ h

pub length-clamp : (k : List ℕ) → length (clamp k) ≡ length k
unfolding clamp
length-clamp k = length-set _ 31 _ ∙ length-set k 0 _

pub both_whole : (a b : ℕ) → (a == 32 && b == 32) ≡ true → (a ≡ 32) × (b ≡ 32)
both_whole a b e = ground (arith, e)

-- `fread` gets no more from /dev/urandom than a key's size.
abbrev pub FitsKey : KeysIo → Type 0
FitsKey io = (bytes : List ℕ) → io.urandom ≡ some bytes → length bytes ≤ 32

pub opens_both :
    (c : Crypto) (io : KeysIo) (buf : ServerKeys) (files : KeyFiles) (p q : List ℕ)
    → io.accessible ≡ true
    → files.private_file ≡ some p
    → files.public_file ≡ some q
    → load_or_generate_keys c io buf files ≡ load_keys c io buf files p q
unfolding load_or_generate_keys
opens_both c io buf files p q open_dir ep eq = ground (arith, open_dir, ep, eq)

-- The daemon reads the keys that its files hold.
pub loads-Stored :
    (c : Crypto) (io : KeysIo) (buf keys : ServerKeys) (files : KeyFiles)
    → io.accessible ≡ true
    → AreKeys buf
    → AreKeys keys
    → Stored keys files
    → load_or_generate_keys c io buf files ≡ (true, keys, files)
unfolding load_keys
loads-Stored c io buf keys files open_dir vb v s =
    let np : length (take 32 s.p) ≡ 32 = ap length s.priv_bytes ∙ v.priv_size in
    let nq : length (take 32 s.q) ≡ 32 = ap length s.public_bytes ∙ v.public_size in
    let whole : (length (take 32 s.p) == 32 && length (take 32 s.q) == 32) ≡ true = ground arith in
    let p_key = read_key_all buf.priv s.p vb.priv_size np ∙ s.priv_bytes in
    let q_key = read_key_all buf.public s.q vb.public_size nq ∙ s.public_bytes in
    opens_both c io buf files s.p s.q open_dir s.private_is s.public_is
    ∙ rw (load_keys, whole)
        (ap₂ (λ a b. (true, record { priv = a; public = b }, files)) p_key q_key)

all_written : (n : ℕ) (key : List ℕ) → n ≡ 32 → length key ≡ 32 → take 32 (take n key) ≡ key
all_written n key h k =
    take_all 32 (take n key) (omega (arith, length-take n key)) ∙ take_all n key (omega arith)

module _ (io : KeysIo) (keys keys' : ServerKeys) (files files' : KeyFiles)
    (e : write_keys io keys files ≡ (true, keys', files')) where
  write_keys_ok :
      (io.private_written ≡ 32)
      × (io.public_written ≡ 32)
      × (keys ≡ keys')
      × (files'.private_file ≡ some (take io.private_written keys.priv))
      × (files'.public_file ≡ some (take io.public_written keys.public))
  unfolding write_keys
  write_keys_ok = ground (arith, e)

  pub write_keys-Stored : AreKeys keys → AreKeys keys' × Stored keys' files'
  write_keys-Stored v =
      let (np, nq, same, private_is, public_is) = write_keys_ok in
      (
        subst AreKeys same v,
        record {
          p = take io.private_written keys.priv;
          q = take io.public_written keys.public;
          private_is = private_is;
          public_is = public_is;
          priv_bytes =
              all_written io.private_written keys.priv np v.priv_size ∙ ap (λ k. k.priv) same;
          public_bytes =
              all_written io.public_written keys.public nq v.public_size ∙ ap (λ k. k.public) same;
        },
      )
