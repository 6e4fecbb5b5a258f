-- ===== src/Tests/Starts.antt =====
-- Examples for the start and the accept loop: src/asyd/asyd.c.
use asys.Base.{
  ℕ, ◌+◌, ◌≤◌, ◌≡◌, refl, true, false, some, none, Bool, List, [], ◌∷◌, length, codes, arith,
}
use asys.Scan.{skip_white, scan_number, scan_nat, scan_digits}
use asys.Startup.Options.{
  Opt, AsydConfig, port, debug, parse_args, parse_opts, port_of, config, default_config,
}
use asys.Startup.Keys.{KeyFiles, ServerKeys, load_or_generate_keys, generate_keys, write_keys}
use asys.Startup.Persistence.{keys_persist}
use asys.Session.Clients.{clients, acquire_client}
use asys.Server.{
  ServerState, Event, sighup, passes, ends, AcceptIo, accept_pass, run, step, admit_client,
  reload_whitelist,
}
use asys.Server.Runs.{IsRun, started, ended, run-clients}
use asys.Whitelist.{whitelist_load, whitelist_check}
use asys.System.{
  System, Event as SystemEvent, connects, warms, reloads, run as run_threads, status_warm,
}
use asys.System.Validity.{IsSystem}
use asys.System.Numbers.{IsNumbered, connections}
use asys.System.Authority.{IsKnown, AreAuthorized}
use asys.Startup.Main.{StartIo, zero_keys, first_system, open_server, start, serving}
use asys.Startup.Serving.{zero_keys-AreKeys, start-start}
use asys.Startup.Lifetime.{run-start}
use asys.Tests.Requests.{io}
use asys.Tests.Admissions.{os, socket}
use asys.Tests.Toy.{toy, toy_laws, handlers, installed, count_up}

-- "--port 8000 --debug"
abbrev opts : List Opt
opts = port (codes "8000") ∷ debug ∷ []

abbrev chosen : AsydConfig
chosen = record default_config { port = 8000; debug = true }

opts_accepted : parse_args opts ≡ config chosen
unfolding parse_args parse_opts port_of skip_white scan_number scan_nat scan_digits
opts_accepted = refl

-- A first start: no files, and a writable directory; and a restart without random numbers.
abbrev first : StartIo
first = record {
  now = 100;
  pid = 7;
  keys = record {
    accessible = true;
    urandom = some (7 ∷ []);
    private_opens = true;
    private_written = 32;
    public_opens = true;
    public_written = 32;
  };
  whitelist_file = none;
  warm = io;
  thread_starts = true;
  socket_opens = true;
  address_valid = true;
  binds = true;
  listens = true;
}

abbrev second : StartIo
second = record first { keys = record first.keys { urandom = none } }

abbrev no_files : KeyFiles
no_files = record { private_file = none; public_file = none }

abbrev made : Bool × ServerKeys × KeyFiles
made = load_or_generate_keys toy first.keys zero_keys no_files

abbrev pub initial : System
initial = status_warm toy handlers first.warm (first_system first made.1)

pub first_serves : start toy handlers first no_files opts ≡ serving chosen initial made.2
unfolding start parse_args parse_opts port_of skip_white scan_number scan_nat scan_digits
    load_or_generate_keys generate_keys write_keys open_server
first_serves = refl

abbrev restarted : System
restarted = status_warm toy handlers second.warm (first_system second made.1)

made_ok : made ≡ (true, made.1, made.2)
unfolding load_or_generate_keys generate_keys write_keys
made_ok = refl

made_again : load_or_generate_keys toy second.keys zero_keys made.2 ≡ (true, made.1, made.2)
made_again =
    keys_persist toy first.keys second.keys zero_keys zero_keys made.1 no_files made.2 toy_laws
      (λ bytes e. ground (arith, e)) zero_keys-AreKeys zero_keys-AreKeys refl made_ok

second_serves : start toy handlers second made.2 [] ≡ serving default_config restarted made.2
unfolding start parse_args parse_opts open_server
second_serves = rw (start, made_again) refl

start-start_example :
    (restarted.globals.server_priv ≡ initial.globals.server_priv)
    × (restarted.globals.server_pub ≡ initial.globals.server_pub)
    × (made.2 ≡ made.2)
start-start_example =
    start-start toy handlers first second no_files made.2 made.2 opts [] chosen default_config
      initial restarted toy_laws (λ bytes e. ground (arith, e)) first_serves second_serves

-- Nobody may connect; somebody tries, and the whitelist is loaded again.
abbrev IsNobody : List ℕ → Type 0
IsNobody key = ⊥

nobody_listed : (key : List ℕ) → whitelist_check toy (whitelist_load none) key ≡ true → ⊥
unfolding whitelist_check whitelist_load
nobody_listed key e = cc

abbrev attempts : List SystemEvent
attempts = connects 0 os socket ∷ warms io ∷ reloads none ∷ []

run-start_example :
    let s = run_threads toy handlers attempts initial in
    IsSystem toy s
    × IsNumbered s
    × IsKnown toy handlers IsNobody s
    × AreAuthorized toy handlers IsNobody initial attempts s.world.effects
unfolding connections
run-start_example =
    run-start toy handlers IsNobody toy_laws count_up installed first no_files made.2 opts chosen
      initial attempts first_serves nobody_listed (tt, (tt, (nobody_listed, tt))) (omega arith)

abbrev server : ServerState
server = record {
  stop = false;
  reload = false;
  whitelist = [];
  slots = record { fd = 9; in_use = true } ∷ record { fd = 0; in_use = false } ∷ [];
}

abbrev arrival : AcceptIo
arrival = record { file = none; accepted = some 12; thread_starts = true }

-- A connection, the reload of the whitelist, the end of the first client.
abbrev events : List Event
events = passes arrival ∷ sighup ∷ ends 0 ∷ []

run-clients_example :
    let (s', done) = run events server in
    (clients s'.slots + ended events ≡ clients server.slots + started done)
    × (length s'.slots ≡ 2)
    × (clients s'.slots ≤ 2)
unfolding IsRun step accept_pass admit_client reload_whitelist acquire_client
run-clients_example = run-clients events server (tt, (tt, (refl, tt)))
