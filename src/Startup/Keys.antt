-- ===== src/Startup/Keys.antt =====
-- The daemon's static key pair: load_or_generate_keys in src/asyd/asyd.c.
--
-- The modes of the files and of the directory are left out.
use asys.Base.{
  ℕ, Bool, true, false, not, ◌&&◌, Option, none, some, List, ◌==◌, if◌then◌else◌, length, take,
  write_at,
}
use asys.Crypto.{Crypto}
use asys.Noise.{key_size, generate_keypair}

-- The two files' bytes, `none` for one that cannot be opened.
pub record KeyFiles : Type 0 where
  pub private_file : Option (List ℕ)
  pub public_file : Option (List ℕ)

-- `g_server_priv` and `g_server_pub`
pub record ServerKeys : Type 0 where
  pub priv : List ℕ
  pub public : List ℕ

-- The answers of the system: `access` to the directory, /dev/urandom, and for each file whether it
-- can be opened for writing and how many bytes `write` takes.
pub record KeysIo : Type 0 where
  pub accessible : Bool
  pub urandom : Option (List ℕ)
  pub private_opens : Bool
  pub private_written : ℕ
  pub public_opens : Bool
  pub public_written : ℕ

-- `true` for the return value 0.
abbrev pub KeysResult : Type 0
KeysResult = Bool × ServerKeys × KeyFiles

-- `fread` of a key into its array.
abbrev pub read_key : List ℕ → List ℕ → List ℕ
read_key buf file = write_at buf 0 (take key_size file)

-- From the `open` of the private key's file on.
unfoldable pub write_keys : KeysIo → ServerKeys → KeyFiles → KeysResult
write_keys io keys files =
    let files1 = record files { private_file = some (take io.private_written keys.priv) } in
    let files2 = record files1 { public_file = some (take io.public_written keys.public) } in
    if not io.private_opens
    then (false, keys, files)
    else if not (io.private_written == key_size)
    then (false, keys, files1)
    else if not io.public_opens
    then (false, keys, files1)
    else if not (io.public_written == key_size)
    then (false, keys, files2)
    else (true, keys, files2)

module _ (c : Crypto) where
  -- From `noise_ik_generate_keypair` on.
  unfoldable pub generate_keys : KeysIo → ServerKeys → KeyFiles → KeysResult
  unfolding write_keys
  generate_keys io keys files =
      let (priv, public) = generate_keypair c keys.priv io.urandom in
      write_keys io (record { priv = priv; public = public }) files

  -- Both files are open.
  unfoldable pub load_keys : KeysIo → ServerKeys → KeyFiles → (p q : List ℕ) → KeysResult
  unfolding generate_keys
  load_keys io keys files p q =
      let keys' : ServerKeys = record {
        priv = read_key keys.priv p;
        public = read_key keys.public q;
      } in
      if length (take key_size p) == key_size && length (take key_size q) == key_size
      then (true, keys', files)
      else generate_keys io keys' files

  unfoldable pub load_or_generate_keys : KeysIo → ServerKeys → KeyFiles → KeysResult
  unfolding load_keys
  load_or_generate_keys io keys files =
      let generated = generate_keys io keys files in
      if not io.accessible then (false, keys, files) else elim files.private_file [
        | none ↦ generated
        | some p ↦ elim files.public_file [
          | none ↦ generated
          | some q ↦ load_keys io keys files p q
        ]
      ]
