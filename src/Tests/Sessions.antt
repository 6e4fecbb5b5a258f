-- ===== src/Tests/Sessions.antt =====
-- Examples for the handshake (src/asyd/core/noise_ik.c) and the sessions (src/asyd/asyd.c).
use asys.Base.{
  ℕ, ◌≤◌, ◌≡◌, ◌≢◌, ◌⊎◌, refl, true, none, some, List, [], ◌∷◌, length, get_or, arith, put_u16,
}
use asys.Apdu.{ApduFrame, err_version, zero_parser}
use asys.Apdu.Codec.{encode, frame_of}
use asys.Apdu.Buffer.{zero_parser_lem}
use asys.Noise.{NoiseIkState, ok, zero_state}
use asys.Noise.Server.{read_msg1}
use asys.Noise.Client.{read_msg2}
use asys.Noise.Transport.{encrypt}
use asys.Noise.Stream.{Paired}
use asys.Noise.Agreement.{sent1, server_start, replied, handshake_agreement}
use asys.Auth.{epoch_of}
use asys.Handlers.{forked, sw_write}
use asys.Tasks.{task_pool_find_handle}
use asys.Session.{Conn, recv, recv_loop, recv_exact}
use asys.Session.Receive.{Delivers, recv_exact_lem}
use asys.Session.Packet.{
  PassIo, stops, handle_packet, handle_frame, handle_parsed, packet_loop, cleanup, sw_version,
  seq_of,
}
use asys.Session.Guard.{IsAccepted, handle_packet-guard}
use asys.Session.Replay.{replay_refused}
use asys.Session.Validity.{IsConn, packet_loop-IsConn}
use asys.Session.Replies.{Answers}
use asys.Session.Refusals.{version, handle_parsed-Refuses}
use asys.Session.Cleanup.{cleanup_lem}
use asys.Tests.Toy.{world_of, mute, toy, toy_laws, handlers, installed, count_up}
use asys.Tests.Pools.{pool1, pool1-IsPool}
use asys.Tests.Frames.{query}

-- The transport states of the two sides after a handshake.
abbrev pub server : NoiseIkState
server = record zero_state {
  send_key = 7 ∷ [];
  recv_key = 8 ∷ [];
  is_server = true;
  handshake_done = true;
}

abbrev pub client : NoiseIkState
client = record zero_state { send_key = 8 ∷ []; recv_key = 7 ∷ []; handshake_done = true }

pub server-Paired : Paired toy server client
unfolding zero_state
server-Paired = record { key = refl; nonce = refl; sender_done = refl; receiver_done = refl }

handshake_agreement_example :
    let (status1, agent_side, msg1) = sent1 toy toy_laws (1 ∷ []) (2 ∷ []) (some (3 ∷ [])) none in
    let (status2, daemon_side, agent) =
      read_msg1 toy (server_start toy toy_laws (1 ∷ []) (2 ∷ []) (some (3 ∷ [])) none) msg1 in
    let (status3, daemon', msg2) =
      replied toy toy_laws (1 ∷ []) (2 ∷ []) (some (3 ∷ [])) none daemon_side in
    let (status4, agent') = read_msg2 toy agent_side msg2 in
    (status1 ≡ ok)
    × (status2 ≡ ok)
    × (agent ≡ some (toy.x25519_public_key (1 ∷ [])))
    × (status3 ≡ ok)
    × (status4 ≡ ok)
    × (agent'.send_key ≡ daemon'.recv_key)
    × (agent'.recv_key ≡ daemon'.send_key)
    × (agent'.h ≡ daemon'.h)
    × (agent'.send_nonce ≡ 0)
    × (daemon'.recv_nonce ≡ 0)
    × (agent'.recv_nonce ≡ 0)
    × (daemon'.send_nonce ≡ 0)
    × (agent'.handshake_done ≡ true)
    × (daemon'.handshake_done ≡ true)
handshake_agreement_example =
    handshake_agreement toy toy_laws (1 ∷ []) (2 ∷ []) (some (3 ∷ [])) none

abbrev pub pass : PassIo
pass = record {
  io = record {
    sweep_time = 100;
    alloc_time = 100;
    kill_result = none;
    fork_result = forked 42;
    machine_id = none;
    realtime = none;
    host = mute;
  };
  prefix_sent = true;
  reply_sent = true;
}

-- A connection whose peer sends one packet with a TASK_QUERY, and then closes.
abbrev packet : List ℕ
packet = (encrypt toy client (encode query)).2

abbrev pub conn : Conn
conn = record {
  ctx = record {
    session_id = 5;
    noise = server;
    agent_pub = 1 ∷ [];
    epoch_id = epoch_of toy (8 ∷ []);
    last_seen_seq = 1;
  };
  parser = record zero_parser { in_use = true };
  world = world_of pool1;
  socket = put_u16 (length packet) ∷ packet ∷ [];
  sends = [];
}

pub conn-IsConn : IsConn toy conn
unfolding zero_parser
conn-IsConn = record {
  parser = record { size = zero_parser_lem.1.size; within = zero_parser_lem.1.within };
  done = refl;
  epoch = refl;
}

handle_packet-guard_example :
    let conn' = (handle_packet toy handlers pass conn).1 in
    (conn'.world.effects ≡ [])
    ⊎ ((cipher : List ℕ) × (f : ApduFrame) × IsAccepted toy handlers conn conn' cipher f)
handle_packet-guard_example = handle_packet-guard toy handlers count_up installed pass conn

packet_loop-IsConn_example : IsConn toy (packet_loop toy handlers (pass ∷ pass ∷ []) conn).1
packet_loop-IsConn_example =
    packet_loop-IsConn toy handlers toy_laws (pass ∷ pass ∷ []) conn conn-IsConn

-- A connection that has accepted the number 1 and whose buffer holds a signed frame with it.
abbrev replayed : ApduFrame
replayed = record (frame_of query) { sec = 1 }

abbrev late : Conn
late = record conn {
  parser = record { buf = 0 ∷ 0 ∷ 0 ∷ 0 ∷ 0 ∷ 0 ∷ 0 ∷ 0 ∷ 1 ∷ []; filled = 9; in_use = true };
  socket = [];
}

old_number : seq_of (packet_loop toy handlers (pass ∷ []) late).1.parser.buf replayed ≤ 1
unfolding packet_loop handle_packet recv_exact recv_loop recv
old_number = omega arith

replay_refused_example :
    let later = (packet_loop toy handlers (pass ∷ []) late).1 in
    ((handle_frame toy handlers pass later replayed).0 ≡ stops)
    × ((handle_frame toy handlers pass later replayed).1.world ≡ later.world)
replay_refused_example =
    replay_refused toy handlers (pass ∷ []) late pass replayed (λ e. omega (arith, e)) old_number

handle_parsed-Refuses_example :
    ((handle_parsed toy handlers pass conn err_version).0 ≡ stops)
    × Answers toy client conn
        (handle_parsed toy handlers pass conn err_version).1
        (sw_write sw_version)
handle_parsed-Refuses_example =
    handle_parsed-Refuses toy toy_laws handlers client pass conn err_version sw_version
      server-Paired version

recv_exact_lem_example :
    Delivers 3 ((1 ∷ 2 ∷ []) ∷ (3 ∷ 4 ∷ []) ∷ []) (recv_exact 3 ((1 ∷ 2 ∷ []) ∷ (3 ∷ 4 ∷ []) ∷ []))
recv_exact_lem_example = recv_exact_lem 3 ((1 ∷ 2 ∷ []) ∷ (3 ∷ 4 ∷ []) ∷ []) (omega arith)

cleanup_lem_example :
    let (ctx', pool', world') = cleanup conn.ctx (zero_parser ∷ []) (some 0) conn.world in
    (ctx'.noise ≡ zero_state)
    × (ctx'.agent_pub ≡ conn.ctx.agent_pub)
    × (get_or pool' 0 zero_parser ≡ zero_parser)
    × (world'.effects ≡ [])
    × ((handle : ℕ)
        → (task_pool_find_handle world'.pool handle 5 ≡ none)
          × ((other : ℕ)
              → other ≢ 5
              → task_pool_find_handle world'.pool handle other
                ≡ task_pool_find_handle pool1 handle other))
cleanup_lem_example =
    cleanup_lem conn.ctx (zero_parser ∷ []) 0 conn.world (omega arith) pool1-IsPool
