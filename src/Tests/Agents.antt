-- ===== src/Tests/Agents.antt =====
-- An example for an agent among the other threads of the daemon: src/asyd/asyd.c.
use asys.Base.{refl, true, none, some, List, [], ◌∷◌}
use asys.Apdu.{zero_parser}
use asys.Auth.{epoch_of}
use asys.Session.{next_session_id}
use asys.Session.Handshake.{pre_handshake_frame}
use asys.Session.Opening.{sent2}
use asys.System.{System, Event, connects, serves, warms, reaps, step, run}
use asys.System.Answers.{Interleaves, done, others, own, replies_in, IsAnswered}
use asys.System.Agents.{run-IsServed}
use asys.Tests.Toy.{toy, toy_laws, handlers, installed, count_up}
use asys.Tests.Frames.{query}
use asys.Tests.Requests.{io, world}
use asys.Tests.Sessions.{pass}
use asys.Tests.Admissions.{
  daemon, os, pool', first_slot, agent_known, agent, whole, whole-IsOpen, whole_brings,
}
use asys.Tests.Conversations.{hello, jobs, jobs-AreRequests}

abbrev fresh : System
fresh = record {
  globals = daemon;
  world = world;
  parsers = zero_parser ∷ [];
  next_id = 5;
  threads = λ k. none;
}

-- A child ends before the first packet, the status is warmed before the second one, and another
-- agent finds no parser slot at the end.
abbrev events : List Event
events = reaps 42 true ∷ serves 0 pass ∷ warms io ∷ serves 0 pass ∷ connects 1 os whole ∷ []

mixed : Interleaves 0 jobs events
mixed =
    others (reaps 42 true) tt (
      own pass query (others (warms io) tt (own pass hello (others (connects 1 os whole) tt done))))

run-IsServed_example :
    IsAnswered toy handlers 0 agent
      (replies_in toy handlers 0
        (next_session_id 5).0
        mixed
        (step toy handlers (connects 0 os whole) fresh))
      (sent2 toy handlers daemon os (zero_parser ∷ []) toy_laws (1 ∷ []) (some (3 ∷ [])) refl
        ∷ pre_handshake_frame daemon
        ∷ [])
      (run toy handlers (connects 0 os whole ∷ events) fresh)
run-IsServed_example =
    run-IsServed toy handlers 0 fresh os toy_laws count_up installed (1 ∷ []) (some (3 ∷ [])) refl
      mixed whole 0 pool' refl whole-IsOpen whole_brings refl refl agent_known first_slot
      (jobs-AreRequests agent.send_key (epoch_of toy agent.send_key) 0)
