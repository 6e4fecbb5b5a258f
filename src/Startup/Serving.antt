-- ===== src/Startup/Serving.antt =====
-- What the accept loop of main in src/asyd/asyd.c starts from, and what a restart keeps.
use asys.Base.{
  subst, ap₂, ℕ, ◌≡◌, refl, sym, ap, ◌∙◌, true, false, none, List, [], length-replicate, Bool-cases,
  inl, inr, ◌⊎◌, arith,
}
use asys.Crypto.{Crypto, Laws}
use asys.Tasks.Validity.{init-IsPool}
use asys.Handlers.{disp_resp_max}
use asys.Dispatcher.{Handlers}
use asys.Dispatcher.Guarded.{Installed, dispatch_unsigned}
use asys.Dispatcher.Pools.{dispatch-IsPool}
use asys.Whitelist.{whitelist_load}
use asys.System.{System, warm, status_warm}
use asys.System.Validity.{IsSystem}
use asys.System.Numbers.{IsNumbered}
use asys.Startup.Options.{
  Opt, AsydConfig, Args, config, exits, parse_args, IsConfig, parse_args-IsConfig,
}
use asys.Startup.Keys.{KeyFiles, ServerKeys, load_or_generate_keys}
use asys.Startup.Stored.{AreKeys, FitsKey}
use asys.Startup.Persistence.{keys_persist}
use asys.Startup.Main.{StartIo, serving, zero_keys, first_system, open_server, start}

args_cases : (a : Args) → ((cfg : AsydConfig) × (a ≡ config cfg)) ⊎ ((code : ℕ) × (a ≡ exits code))
args_cases (config cfg) = inl (cfg, refl)
args_cases (exits code) = inr (code, refl)

pub zero_keys-AreKeys : AreKeys zero_keys
zero_keys-AreKeys = record {
  priv_size = length-replicate 32 0;
  public_size = length-replicate 32 0;
}

module _ (c : Crypto) (h : Handlers) where
  -- The steps of a start that succeeds.
  pub record HasStarted (io : StartIo) (files : KeyFiles) (opts : List Opt) (cfg : AsydConfig)
      (s : System) (files' : KeyFiles) : Type 0 where
    pub options : parse_args opts ≡ config cfg
    pub keys : ServerKeys
    pub loaded : load_or_generate_keys c io.keys zero_keys files ≡ (true, keys, files')
    pub state : s ≡ status_warm c h io.warm (first_system io keys)

  opened_lem :
      (io : StartIo) (cfg cfg' : AsydConfig) (s s' : System) (files files' : KeyFiles)
      → open_server c h io cfg s files ≡ serving cfg' s' files'
      → (cfg ≡ cfg') × (s' ≡ s) × (files ≡ files')
  unfolding open_server
  opened_lem io cfg cfg' s s' files files' e = ground (arith, e)

  refused :
      (io : StartIo) (files : KeyFiles) (opts : List Opt) (cfg : AsydConfig) (s : System)
      (files' : KeyFiles) (code : ℕ)
      → parse_args opts ≡ exits code
      → start c h io files opts ≡ serving cfg s files'
      → ⊥
  unfolding start
  refused io files opts cfg s files' code bad e = ground (arith, bad, e)

  keyless :
      (io : StartIo) (files : KeyFiles) (opts : List Opt) (cfg cfg' : AsydConfig) (s : System)
      (files' : KeyFiles)
      → parse_args opts ≡ config cfg'
      → (load_or_generate_keys c io.keys zero_keys files).0 ≡ false
      → start c h io files opts ≡ serving cfg s files'
      → ⊥
  unfolding start
  keyless io files opts cfg cfg' s files' options failed e = ground (arith, options, failed, e)

  keyed :
      (io : StartIo) (files : KeyFiles) (opts : List Opt) (cfg : AsydConfig)
      → parse_args opts ≡ config cfg
      → (load_or_generate_keys c io.keys zero_keys files).0 ≡ true
      → let (loaded, keys, files') = load_or_generate_keys c io.keys zero_keys files in
        start c h io files opts
        ≡ open_server c h io cfg (status_warm c h io.warm (first_system io keys)) files'
  unfolding start
  keyed io files opts cfg options fine = rw (start, options, fine) refl

  started :
      (io : StartIo) (files files' : KeyFiles) (opts : List Opt) (cfg : AsydConfig) (s : System)
      → start c h io files opts ≡ serving cfg s files'
      → HasStarted io files opts cfg s files'
  unfolding start
  started io files files' opts cfg s e = elim (args_cases (parse_args opts)) [
    | inr (code, bad) ↦ absurd (refused io files opts cfg s files' code bad e)
    | inl (cfg', options) ↦
        let (loaded, keys, files2) = load_or_generate_keys c io.keys zero_keys files in
        elim (Bool-cases loaded) [
          | inr failed ↦ absurd (keyless io files opts cfg cfg' s files' options failed e)
          | inl fine ↦
              let (same, is_s, same_files) =
                opened_lem io cfg' cfg _ s files2 files'
                  (sym (keyed io files opts cfg' options fine) ∙ e) in
              record {
                options = options ∙ ap config same;
                keys = keys;
                loaded = ap₂ (λ b f. (b, keys, f)) fine same_files;
                state = is_s;
              }
        ]
  ]

  module _ (rand_r : ℕ → ℕ × ℕ) (ins : Installed rand_r h) where
    first-IsSystem : (io : StartIo) (keys : ServerKeys) → IsSystem c (first_system io keys)
    unfolding first_system
    first-IsSystem io keys = record {
      pool = init-IsPool io.now io.pid;
      next = record { low = omega arith; high = omega arith };
      sessions = λ i r e. cc;
      apart = λ i j r q e. cc;
    }

    warmed-IsSystem :
        (io : StartIo) (keys : ServerKeys)
        → IsSystem c (status_warm c h io.warm (first_system io keys))
    unfolding status_warm first_system
    warmed-IsSystem io keys =
        let v = first-IsSystem io keys in
        record {
          pool = dispatch-IsPool rand_r h ins io.warm _ warm disp_resp_max 0 (omega arith) v.pool;
          next = v.next;
          sessions = λ i r e. cc;
          apart = λ i j r q e. cc;
        }

    -- What the accept loop starts from.
    pub record IsServing (io : StartIo) (cfg : AsydConfig) (s : System) : Type 0 where
      pub address : IsConfig cfg
      pub valid : IsSystem c s
      pub numbered : IsNumbered s
      pub first_id : s.next_id ≡ 1
      pub idle : (i : ℕ) → s.threads i ≡ none
      pub nothing_asked : s.world.effects ≡ []
      pub whitelist : s.globals.whitelist ≡ whitelist_load io.whitelist_file

    warmed-IsServing :
        (io : StartIo) (cfg : AsydConfig) (keys : ServerKeys)
        → IsConfig cfg
        → IsServing io cfg (status_warm c h io.warm (first_system io keys))
    unfolding status_warm first_system
    warmed-IsServing io cfg keys address = record {
      address = address;
      valid = warmed-IsSystem io keys;
      numbered = record { given = λ i r e. cc; distinct = λ i j r q e. cc };
      first_id = refl;
      idle = λ i. refl;
      nothing_asked = dispatch_unsigned rand_r h ins io.warm _ warm disp_resp_max 0 (λ e. cc);
      whitelist = refl;
    }

    -- A start of the daemon that reaches the accept loop has a port of 1 to 65535 and an address
    -- that fits its array, a valid state in which no thread runs a session, the whitelist of the
    -- file, and has asked the system for no signal and no restart.
    pub start-IsServing :
        (io : StartIo) (files files' : KeyFiles) (opts : List Opt) (cfg : AsydConfig) (s : System)
        → start c h io files opts ≡ serving cfg s files'
        → IsServing io cfg s
    start-IsServing io files files' opts cfg s e =
        let b = started io files files' opts cfg s e in
        subst (IsServing io cfg) (sym b.state)
          (warmed-IsServing io cfg b.keys (parse_args-IsConfig opts cfg b.options))

  accessible :
      (io : StartIo) (files files' : KeyFiles) (keys : ServerKeys)
      → load_or_generate_keys c io.keys zero_keys files ≡ (true, keys, files')
      → io.keys.accessible ≡ true
  unfolding load_or_generate_keys
  accessible io files files' keys e = ground (arith, e)

  state_keys :
      (io : StartIo) (keys : ServerKeys)
      → let s = status_warm c h io.warm (first_system io keys) in
        (s.globals.server_priv ≡ keys.priv) × (s.globals.server_pub ≡ keys.public)
  unfolding status_warm first_system
  state_keys io keys = (refl, refl)

  -- A restart keeps the daemon's identity: if a start reaches the accept loop, and a later one with
  -- the key files as the first has left them does too, whatever their options and the rest of the
  -- system, then both have the same key pair, and the second leaves the files as they are.
  pub start-start :
      (io io' : StartIo) (files files' files'' : KeyFiles) (opts opts' : List Opt)
      (cfg cfg' : AsydConfig) (s s' : System)
      → Laws c
      → FitsKey io.keys
      → start c h io files opts ≡ serving cfg s files'
      → start c h io' files' opts' ≡ serving cfg' s' files''
      → (s'.globals.server_priv ≡ s.globals.server_priv)
        × (s'.globals.server_pub ≡ s.globals.server_pub)
        × (files'' ≡ files')
  start-start io io' files files' files'' opts opts' cfg cfg' s s' laws fits e e' =
      let a = started io files files' opts cfg s e in
      let b = started io' files' files'' opts' cfg' s' e' in
      let again : load_or_generate_keys c io'.keys zero_keys files' ≡ (true, a.keys, files') =
        keys_persist c io.keys io'.keys zero_keys zero_keys a.keys files files' laws fits
          zero_keys-AreKeys zero_keys-AreKeys (accessible io' files' files'' b.keys b.loaded)
          a.loaded in
      let same : b.keys ≡ a.keys = ap (λ r. r.1) (sym b.loaded ∙ again) in
      let (priv_a, pub_a) = state_keys io a.keys in
      let (priv_b, pub_b) = state_keys io' b.keys in
      (
        ap (λ x. x.globals.server_priv) b.state
            ∙ (priv_b
                ∙ (ap (λ k. k.priv) same
                    ∙ (sym priv_a ∙ ap (λ x. x.globals.server_priv) (sym a.state)))),
        ap (λ x. x.globals.server_pub) b.state
            ∙ (pub_b
                ∙ (ap (λ k. k.public) same
                    ∙ (sym pub_a ∙ ap (λ x. x.globals.server_pub) (sym a.state)))),
        ap (λ r. r.2) (sym b.loaded ∙ again),
      )
