-- ===== src/Tests/Admissions.antt =====
-- An example for the opening of a connection (src/asyd/asyd.c).
use asys.Base.{
  ap, append-nil, set, arith, ◌++◌, ℕ, ◌≡◌, refl, Bool, true, false, none, some, List, [], ◌∷◌,
  replicate, bytes_eq,
}
use asys.Apdu.{ApduParser, zero_parser, pool_acquire, acquire_from}
use asys.Noise.{NoiseIkState}
use asys.Noise.Client.{init_client, write_msg1}
use asys.Handlers.{World}
use asys.Whitelist.{whitelist_check}
use asys.Session.{Conn}
use asys.Session.Handshake.{
  OpeningIo, Opening, opened, Daemon, pre_handshake_frame, open_session, handle_client,
}
use asys.Noise.Agreement.{sent1, length-sent1}
use asys.Session.Receive.{IsOpen, joined}
use asys.Auth.{epoch_of}
use asys.Noise.Stream.{seal_all}
use asys.Session.Wire.{wire}
use asys.Session.Conversation.{encoded, passes, conversation, Answered}
use asys.Session.EndToEnd.{handle_client-Answered}
use asys.Tasks.{task_pool_release_session}
use asys.Tests.Sessions.{pass}
use asys.Tests.Conversations.{jobs, jobs-AreRequests}
use asys.Session.Greeting.{client_magic}
use asys.Session.Opening.{sent2, agent_done, Opens, open_session-Opens}
use asys.Session.Clients.{ClientSlot}
use asys.Tests.Toy.{world_of, toy, toy_laws, handlers, installed, count_up, fit}
use asys.Tests.Pools.{pool1}

-- The daemon's private key is 2, the agent's is 1, and the agent's public key is in the whitelist.
abbrev pub daemon : Daemon
daemon = record {
  server_priv = 2 ∷ [];
  server_pub = toy.x25519_public_key (2 ∷ []);
  whitelist = record { key = toy.x25519_public_key (1 ∷ []); label = [] } ∷ [];
}

abbrev msg1 : List ℕ
msg1 =
    (write_msg1 toy
      (init_client toy (1 ∷ []) (toy.x25519_public_key (1 ∷ [])) (toy.x25519_public_key (2 ∷ [])))
      (some (3 ∷ []))).2

abbrev pub os : OpeningIo
os = record { frame_sent = true; msg2_sent = true; urandom = none }

abbrev pub socket : List (List ℕ)
socket = (0x41 ∷ 0x53 ∷ 0x59 ∷ 0x53 ∷ []) ∷ msg1 ∷ []

abbrev world : World
world = world_of pool1

abbrev opening : Opening
opening = open_session toy handlers daemon os (zero_parser ∷ []) world 5 socket

abbrev is_opened : Opening → Bool
is_opened (opened _ _ _) = true
is_opened _ = false

abbrev pub pool' : List ApduParser
pool' = record zero_parser { in_use = true } ∷ []

pub first_slot : pool_acquire (zero_parser ∷ []) ≡ some (0, pool')
unfolding pool_acquire acquire_from zero_parser
first_slot = refl

pub agent_known : whitelist_check toy daemon.whitelist (toy.x25519_public_key (1 ∷ [])) ≡ true
unfolding whitelist_check bytes_eq replicate fit
agent_known = refl

socket-IsOpen : IsOpen socket
socket-IsOpen =
    let size = length-sent1 toy toy_laws (1 ∷ []) (2 ∷ []) (some (3 ∷ [])) none in
    (omega arith, (omega (arith, size), tt))

socket_brings : joined socket ≡ client_magic ++ (msg1 ++ [])
unfolding joined
socket_brings = refl

open_session-Opens_example :
    (conn : Conn) × (opening ≡ opened 0 pool' conn)
    × Opens toy handlers
        (toy.x25519_public_key (1 ∷ []))
        (sent1 toy toy_laws (1 ∷ []) (2 ∷ []) (some (3 ∷ [])) none).1
        (pre_handshake_frame daemon)
        world
        5
        []
        (sent2 toy handlers daemon os (zero_parser ∷ []) toy_laws (1 ∷ []) (some (3 ∷ [])) refl)
        conn
open_session-Opens_example =
    open_session-Opens toy handlers daemon os (zero_parser ∷ []) toy_laws (1 ∷ []) (some (3 ∷ []))
      refl world 5 0 pool' socket [] socket-IsOpen socket_brings refl refl agent_known first_slot

-- The agent after the handshake, and all it sends: the magic and message 1 as above, then two
-- packets at once.
abbrev pub agent : NoiseIkState
agent = agent_done toy handlers daemon os (zero_parser ∷ []) toy_laws (1 ∷ []) (some (3 ∷ [])) refl

abbrev pub packets : List ℕ
packets = wire (seal_all toy agent (encoded jobs))

abbrev pub whole : List (List ℕ)
whole = (0x41 ∷ 0x53 ∷ 0x59 ∷ 0x53 ∷ []) ∷ msg1 ∷ packets ∷ []

pub whole-IsOpen : IsOpen whole
unfolding wire seal_all
whole-IsOpen =
    let size = length-sent1 toy toy_laws (1 ∷ []) (2 ∷ []) (some (3 ∷ [])) none in
    (omega arith, (omega (arith, size), (omega arith, tt)))

pub whole_brings : joined whole ≡ client_magic ++ (msg1 ++ packets)
unfolding joined
whole_brings = ap (λ x. client_magic ++ (msg1 ++ x)) (append-nil packets)

handle_client-Answered_example :
    (conn : Conn) × (open_session toy handlers daemon os (zero_parser ∷ []) world 5 whole
      ≡ opened 0 pool' conn)
    × (conn.sends
        ≡ sent2 toy handlers daemon os (zero_parser ∷ []) toy_laws (1 ∷ []) (some (3 ∷ [])) refl
          ∷ pre_handshake_frame daemon
          ∷ [])
    × Answered toy handlers agent jobs conn
    × (let w = (conversation toy handlers jobs world 5).1 in
        handle_client toy handlers daemon os
          (passes jobs ++ (pass ∷ []))
          (zero_parser ∷ [])
          world
          5
          whole
        ≡ (
          set (zero_parser ∷ []) 0 zero_parser,
          record w { pool = task_pool_release_session w.pool 5 },
        ))
handle_client-Answered_example =
    handle_client-Answered toy handlers daemon os (zero_parser ∷ []) toy_laws count_up installed
      (1 ∷ []) (some (3 ∷ [])) refl jobs pass world 5 0 pool' whole whole-IsOpen whole_brings refl
      refl agent_known first_slot (jobs-AreRequests agent.send_key (epoch_of toy agent.send_key) 0)

-- One slot in use, one free.
abbrev slots : List ClientSlot
slots = record { fd = 5; in_use = true } ∷ record { fd = 0; in_use = false } ∷ []
