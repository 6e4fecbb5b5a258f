-- ===== src/Startup/Main.antt =====
-- main in src/asyd/asyd.c up to the accept loop.
--
-- The signal handlers are installed and the pages locked without effect on what follows; `printf` is
-- left out. `whitelist_load` cannot fail here, since its argument is not NULL.
use asys.Base.{ℕ, Bool, not, Option, none, some, List, [], replicate, if◌then◌else◌}
use asys.Crypto.{Crypto}
use asys.Apdu.{zero_parser, pool_size}
use asys.Noise.{key_size}
use asys.Tasks.{task_pool_init}
use asys.Reports.{StatusCache, ProcsCache}
use asys.Handlers.{Io}
use asys.Dispatcher.{Handlers}
use asys.Whitelist.{whitelist_load}
use asys.System.{System, status_warm}
use asys.Startup.Options.{Opt, AsydConfig, config, exits, parse_args}
use asys.Startup.Keys.{KeyFiles, ServerKeys, KeysIo, load_or_generate_keys}

-- The static variables of sys_status.c and sys_procs.c before their first use.
abbrev pub never_sampled : StatusCache
never_sampled = record {
  snap = record {
    load1_x10 = 0;
    load5_x10 = 0;
    cpu_pct = 0;
    mem_avail_mb = 0;
    root_usage_pct = 0;
    iowait_ms = 0;
    in_mbps = 0;
    out_mbps = 0;
    rpi = 0;
  };
  snap_time_ms = 0;
  prev_iowait = 0;
  prev_time_ms = 0;
  prev_rx = 0;
  prev_tx = 0;
  prev_net_ms = 0;
  psi_available = none;
  ncpus = 0;
}

abbrev pub no_procs : ProcsCache
no_procs = record { prev = some []; total_prev = 0 }

abbrev pub zero_keys : ServerKeys
zero_keys = record { priv = replicate key_size 0; public = replicate key_size 0 }

-- The answers of the system: time and process number for the task pool's seed, what the keys and
-- the first status need, the whitelist's file, and whether `pthread_create`, `socket`, `inet_pton`
-- on the address, `bind` and `listen` succeed.
pub record StartIo : Type 0 where
  pub now : ℕ
  pub pid : ℕ
  pub keys : KeysIo
  pub whitelist_file : Option (List ℕ)
  pub warm : Io
  pub thread_starts : Bool
  pub socket_opens : Bool
  pub address_valid : Bool
  pub binds : Bool
  pub listens : Bool

-- The process exits, or the accept loop begins. The key files are as the start has left them.
pub data Start : Type 0 where
  fails : (code : ℕ) → KeyFiles → Start
  serving : AsydConfig → System → KeyFiles → Start

-- The state before the first connection.
unfoldable pub first_system : StartIo → ServerKeys → System
unfolding zero_parser
first_system io keys = record {
  globals = record {
    server_priv = keys.priv;
    server_pub = keys.public;
    whitelist = whitelist_load io.whitelist_file;
  };
  world = record {
    pool = task_pool_init io.now io.pid;
    status = never_sampled;
    procs = no_procs;
    effects = [];
  };
  parsers = replicate pool_size zero_parser;
  next_id = 1;
  threads = λ i. none;
}

module _ (c : Crypto) (h : Handlers) where
  -- From the creation of the thread that keeps the status warm to `listen`.
  unfoldable pub open_server : StartIo → AsydConfig → System → KeyFiles → Start
  open_server io cfg s files =
      if not io.thread_starts
      then fails 1 files
      else if not io.socket_opens
      then fails 1 files
      else if not io.address_valid
      then fails 1 files
      else if not io.binds
      then fails 1 files
      else if not io.listens
      then fails 1 files
      else serving cfg s files

  unfoldable pub start : StartIo → KeyFiles → List Opt → Start
  unfolding first_system open_server
  start io files opts = elim (parse_args opts) [
    | exits code ↦ fails code files
    | config cfg ↦
        let (loaded, keys, files') = load_or_generate_keys c io.keys zero_keys files in
        if not loaded
        then fails 1 files'
        else open_server io cfg (status_warm c h io.warm (first_system io keys)) files'
  ]
