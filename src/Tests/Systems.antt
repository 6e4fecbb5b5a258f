-- ===== src/Tests/Systems.antt =====
-- An example for the threads of the daemon: src/asyd/asyd.c.
use asys.Base.{
  ℕ, ◌<◌, ◌≡◌, ◌≢◌, ◌⊎◌, inl, inr, refl, sym, ap, ◌∙◌, true, none, some, List, [], ◌∷◌, subst,
  arith,
}
use asys.Apdu.{ApduParser, zero_parser}
use asys.Tasks.Keeping.{AllKept}
use asys.System.{Running, System, Event, connects, serves, warms, reaps, reloads, put, run}
use asys.System.Step.{put_cases, some-injective}
use asys.System.Validity.{IsSystem, IsRunning}
use asys.System.Numbers.{id_of, connections, IsNumbered}
use asys.System.Isolation.{Reaped, run-Undisturbed}
use asys.Tests.Toy.{toy, toy_laws, handlers, installed, count_up}
use asys.Tests.Pools.{pool1-IsPool}
use asys.Tests.Requests.{io, world}
use asys.Tests.Sessions.{pass, conn, conn-IsConn}
use asys.Tests.Admissions.{daemon, os, socket}

-- Two sessions, 5 and 6, in the threads 0 and 1, and no more parser slots.
abbrev first : Running
first = record { slot = 0; conn = conn }

abbrev second : Running
second = record { slot = 1; conn = record conn { ctx = record conn.ctx { session_id = 6 } } }

abbrev taken : ApduParser
taken = record zero_parser { in_use = true }

abbrev system : System
system = record {
  globals = daemon;
  world = world;
  parsers = taken ∷ taken ∷ [];
  next_id = 7;
  threads = put (put (λ k. none) 1 (some second)) 0 (some first);
}

two_sessions :
    (i : ℕ) (r : Running)
    → system.threads i ≡ some r
    → ((i ≡ 0) × (first ≡ r)) ⊎ ((i ≡ 1) × (second ≡ r))
two_sessions i r e = elim (put_cases (put (λ k. none) 1 (some second)) 0 (some first) i r e) [
  | inl (here, same) ↦ inl (here, some-injective same)
  | inr (there, e') ↦ elim (put_cases (λ k. none) 1 (some second) i r e') [
    | inl (here, same) ↦ inr (here, some-injective same)
    | inr (nowhere, gone) ↦ absurd (cc)
  ]
]

first-IsRunning : IsRunning toy system.parsers first
first-IsRunning = record {
  conn = conn-IsConn;
  id = record { low = omega arith; high = omega arith };
  inside = omega arith;
  marked = refl;
}

second-IsRunning : IsRunning toy system.parsers second
second-IsRunning = record {
  conn = record { parser = conn-IsConn.parser; done = conn-IsConn.done; epoch = conn-IsConn.epoch };
  id = record { low = omega arith; high = omega arith };
  inside = omega arith;
  marked = refl;
}

-- Different threads have different values of what differs between the two.
differ :
    (g : Running → ℕ)
    → g first ≢ g second
    → (i j : ℕ) (r q : Running) → system.threads i ≡ some r
    → system.threads j ≡ some q
    → i ≢ j
    → g r ≢ g q
differ g apart i j r q ei ej ne same = elim (two_sessions i r ei) [
  | inl (i0, is_r) ↦ elim (two_sessions j q ej) [
    | inl (j0, is_q) ↦ ne (i0 ∙ sym j0)
    | inr (j1, is_q) ↦ apart (ap g is_r ∙ (same ∙ sym (ap g is_q)))
  ]
  | inr (i1, is_r) ↦ elim (two_sessions j q ej) [
    | inl (j0, is_q) ↦ apart (ap g is_q ∙ (sym same ∙ sym (ap g is_r)))
    | inr (j1, is_q) ↦ ne (i1 ∙ sym j1)
  ]
]

system-IsSystem : IsSystem toy system
system-IsSystem = record {
  pool = pool1-IsPool;
  next = record { low = omega arith; high = omega arith };
  sessions = λ i r e. elim (two_sessions i r e) [
    | inl (here, same) ↦ subst (IsRunning toy system.parsers) same first-IsRunning
    | inr (here, same) ↦ subst (IsRunning toy system.parsers) same second-IsRunning
  ];
  apart = differ (λ r. r.slot) (λ e. omega (arith, e));
}

system-IsNumbered : IsNumbered system
system-IsNumbered = record {
  given = λ i r e. elim (two_sessions i r e) [
    | inl (here, same) ↦ subst (λ x. id_of x < 7) same (omega arith)
    | inr (here, same) ↦ subst (λ x. id_of x < 7) same (omega arith)
  ];
  distinct = differ id_of (λ e. omega (arith, e));
}

-- A connection that finds no parser slot, a pass of session 6, a child, and the status.
abbrev events : List Event
events = connects 2 os socket ∷ serves 1 pass ∷ reaps 42 true ∷ warms io ∷ reloads none ∷ []

run-Undisturbed_example :
    let s = run toy handlers events system in
    (s.threads 0 ≡ some first)
    × AllKept (Reaped events) 120 5 system.world.pool.entries s.world.pool.entries
unfolding connections
run-Undisturbed_example =
    run-Undisturbed toy handlers toy_laws count_up installed 120 0 first events system
      system-IsSystem system-IsNumbered refl
      (tt, (((λ e. omega (arith, e)), omega arith), (tt, (omega arith, (tt, tt))))) (omega arith)
