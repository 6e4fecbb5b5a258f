-- ===== src/Tests/Toy.antt =====
-- Simple functions with the documented laws of the cryptographic primitives, and a daemon with
-- them, for the examples.
use asys.Base.{
  ℕ, ◌+◌, ◌≡◌, refl, ap₂, Bool, none, some, false, List, [], ◌∷◌, ◌++◌, length, take, replicate,
  length-append, length-take, length-replicate, bytes_eq, bytes_eq_sound, bytes_eq_refl,
  if◌then◌else◌, arith,
}
use asys.Crypto.{Crypto, Laws}
use asys.Tasks.{TaskPool}
use asys.Reports.{Host}
use asys.Handlers.{World}
use asys.Handlers.TaskQuery.{handler_task_query}
use asys.Handlers.ProcThrottle.{handler_proc_throttle}
use asys.Handlers.SvcRestart.{handler_svc_restart}
use asys.Handlers.SysHello.{handler_sys_hello}
use asys.Handlers.SysCaps.{handler_sys_caps}
use asys.Handlers.SysStatus.{handler_sys_status}
use asys.Handlers.SysProcs.{handler_sys_procs}
use asys.Startup.Main.{never_sampled, no_procs}
use asys.Dispatcher.{Handlers}
use asys.Dispatcher.Guarded.{Installed}

-- The first `n` bytes, filled up with zeros.
unfoldable pub fit : ℕ → List ℕ → List ℕ
fit n xs = take n (xs ++ replicate n 0)

length-fit : (n : ℕ) (xs : List ℕ) → length (fit n xs) ≡ n
unfolding fit
length-fit n xs = omega (
  arith,
  length-take n (xs ++ replicate n 0),
  length-append xs (replicate n 0),
  length-replicate {A = ℕ} n 0,
)

unfoldable pub add : List ℕ → List ℕ → List ℕ
add [] ys = []
add (x ∷ xs) [] = []
add (x ∷ xs) (y ∷ ys) = (x + y) ∷ add xs ys

add_comm : (xs ys : List ℕ) → add xs ys ≡ add ys xs
unfolding add
add_comm [] [] = refl
add_comm [] (y ∷ ys) = refl
add_comm (x ∷ xs) [] = refl
add_comm (x ∷ xs) (y ∷ ys) = ap₂ ◌∷◌ (omega arith) (add_comm xs ys)

abbrev toy_mac : List ℕ → List ℕ → List ℕ → List ℕ → List ℕ
toy_mac k n ad m = fit 16 (k ++ (n ++ (ad ++ m)))

abbrev pub toy : Crypto
toy = record {
  blake2b = fit 64;
  x25519 = λ a b. add (fit 32 a) b;
  x25519_public_key = fit 32;
  aead_write = λ k n ad m. (m, toy_mac k n ad m);
  aead_read = λ k n ad text mac. if bytes_eq mac (toy_mac k n ad text) then some text else none;
  verify16 = λ a b. bytes_eq (take 16 a) (take 16 b);
  verify32 = λ a b. bytes_eq (take 32 a) (take 32 b);
}

plain_length :
    (b : Bool) (text m : List ℕ) → (if b then some text else none) ≡ some m → length m ≡ length text
plain_length b text m e = ground (arith, e)

pub toy_laws : Laws toy
toy_laws = record {
  exchange = λ a b. add_comm (fit 32 a) (fit 32 b);
  key_size = length-fit 32;
  read-write = λ k n ad m. rw (bytes_eq_refl (toy_mac k n ad m)) refl;
  cipher_size = λ k n ad m. refl;
  mac_size = λ k n ad m. length-fit 16 (k ++ (n ++ (ad ++ m)));
  plain_size = λ k n ad text mac m e. plain_length (bytes_eq mac (toy_mac k n ad text)) text m e;
  mac_verified = λ a b.
      ((λ e. bytes_eq_sound (take 16 a) (take 16 b) e), (λ e. rw e (bytes_eq_refl (take 16 b))));
  key_verified = λ a b.
      ((λ e. bytes_eq_sound (take 32 a) (take 32 b) e), (λ e. rw e (bytes_eq_refl (take 32 b))));
}

abbrev pub count_up : ℕ → ℕ × ℕ
count_up seed = (seed + 1, seed + 1)

abbrev pub handlers : Handlers
handlers = record {
  sys_caps = handler_sys_caps;
  sys_hello = handler_sys_hello;
  sys_status = handler_sys_status;
  sys_procs = handler_sys_procs;
  task_query = handler_task_query;
  proc_throttle = handler_proc_throttle;
  svc_restart = handler_svc_restart count_up;
}

pub installed : Installed count_up handlers
installed = record {
  caps = refl;
  hello = refl;
  status = refl;
  procs = refl;
  query = refl;
  throttle = refl;
  restart = refl;
}

-- A system whose files cannot be opened, and a daemon that has reported nothing yet.
abbrev pub mute : Host
mute = record {
  uname = none;
  ncpus = none;
  meminfo = none;
  statfs = none;
  has_pressure = false;
  pressure = none;
  loadavg = none;
  stat_before = none;
  stat_after = none;
  stat_disk = none;
  statvfs = none;
  net_dev = none;
  time_check = 100;
  time_disk = 100;
  time_net = 100;
  time_snap = 150;
  listing_before = record { stat = none; entries = none };
  listing = record { stat = none; entries = none };
}

abbrev pub world_of : TaskPool → World
world_of pool = record { pool = pool; status = never_sampled; procs = no_procs; effects = [] }
