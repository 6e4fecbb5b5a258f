-- ===== src/Startup/Lifetime.antt =====
-- The daemon from its start on: main in src/asyd/asyd.c and all that its threads do later.
use asys.Base.{ℕ, ◌<◌, ◌≡◌, sym, subst, List, All, none, arith}
use asys.Crypto.{Crypto, Laws}
use asys.Dispatcher.{Handlers}
use asys.Dispatcher.Guarded.{Installed}
use asys.Whitelist.{whitelist_load}
use asys.System.{System, Event, run}
use asys.System.Validity.{IsSystem, run-IsSystem}
use asys.System.Numbers.{connections, IsNumbered, run-IsNumbered}
use asys.System.Authority.{Allows, LoadsAllowed, IsKnown, AreAuthorized, run-OnAuthority}
use asys.Startup.Options.{Opt, AsydConfig}
use asys.Startup.Keys.{KeyFiles}
use asys.Startup.Main.{StartIo, serving, start}
use asys.Startup.Serving.{start-IsServing}

module _ (c : Crypto) (h : Handlers) (P : List ℕ → Type 0) (laws : Laws c) (rand_r : ℕ → ℕ × ℕ)
    (ins : Installed rand_r h) where
  nobody-IsKnown :
      (s : System)
      → Allows c h P s.globals.whitelist
      → ((i : ℕ) → s.threads i ≡ none)
      → IsKnown c h P s
  nobody-IsKnown s allowed idle = record { listed = allowed; agents = λ i r e. cc (idle i, e) }

  -- For any set of keys: if a start of the daemon with its own handlers reaches the accept loop,
  -- and the whitelist's file then and at every reload accepts only keys of the set, then whatever
  -- its threads do later, in any interleaving of less than 65535 connections: the state is valid,
  -- no two sessions have the same receive buffer or the same identifier, the sessions are of agents
  -- with keys of the set, and every signal and restart so far was asked for by one of the events,
  -- in the state that the events before it have led to: by a pass of a session of an agent with
  -- such a key, whose packet completed a signed frame with a tag that verifies under the session's
  -- key and a number above the last one that the session had accepted.
  pub run-start :
      (io : StartIo) (files files' : KeyFiles) (opts : List Opt) (cfg : AsydConfig) (s : System)
      (es : List Event)
      → start c h io files opts ≡ serving cfg s files'
      → Allows c h P (whitelist_load io.whitelist_file)
      → All (LoadsAllowed c h P) es
      → connections es < 65535
      → let s' = run c h es s in
        IsSystem c s' × IsNumbered s' × IsKnown c h P s' × AreAuthorized c h P s es s'.world.effects
  run-start io files files' opts cfg s es e first later few =
      let v = start-IsServing c h rand_r ins io files files' opts cfg s e in
      let k = nobody-IsKnown s (subst (Allows c h P) (sym v.whitelist) first) v.idle in
      let (k', authorized) = run-OnAuthority c h P rand_r ins es s v.nothing_asked k later in
      (
        run-IsSystem c h laws rand_r ins es s v.valid,
        (run-IsNumbered c h es s v.numbered (omega (arith, v.first_id, few))).0,
        k',
        authorized,
      )
