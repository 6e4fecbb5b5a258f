-- ===== src/Session/EndToEnd.antt =====
-- handle_client in src/asyd/asyd.c from the first byte to the last reply.
use asys.Base.{arith, [], ◌∷◌, set, ℕ, ◌≡◌, refl, sym, ap, ap₂, ◌∙◌, true, Option, some, List, ◌++◌}
use asys.Crypto.{Crypto, Laws}
use asys.Apdu.{ApduParser, zero_parser, pool_acquire, pool_release}
use asys.Apdu.Slots.{set-set, release-acquire}
use asys.Tasks.{task_pool_release_session}
use asys.Noise.{NoiseIkState}
use asys.Noise.Stream.{seal_all}
use asys.Noise.Agreement.{sent1}
use asys.Auth.{epoch_of}
use asys.Handlers.{World}
use asys.Dispatcher.{Handlers}
use asys.Dispatcher.Guarded.{Installed}
use asys.Whitelist.{whitelist_check}
use asys.Session.{Conn, recv, recv_loop, recv_exact}
use asys.Session.Receive.{IsOpen, joined}
use asys.Session.Wire.{wire}
use asys.Session.Packet.{PassIo, continues, stops, handle_packet, packet_loop, cleanup}
use asys.Session.Handshake.{
  OpeningIo, opened, Daemon, pre_handshake_frame, open_session, handle_client,
}
use asys.Session.Conversation.{
  Job, encoded, passes, AreRequests, conversation, Answered, packet_loop-Answered,
}
use asys.Session.Greeting.{client_magic}
use asys.Session.Opening.{sent2, agent_done, open_session-Opens}

module _ (c : Crypto) (h : Handlers) where
  packet_loop-append :
      (turns more : List PassIo) (conn : Conn)
      → (packet_loop c h turns conn).0 ≡ continues
      → packet_loop c h (turns ++ more) conn ≡ packet_loop c h more (packet_loop c h turns conn).1
  unfolding packet_loop
  packet_loop-append [] more conn goes_on = refl
  packet_loop-append (pass ∷ turns) more conn goes_on =
      ground (arith, packet_loop-append turns more (handle_packet c h pass conn).1)

  -- A pass that finds the connection closed by the agent.
  packet_loop-closed :
      (bye : PassIo) (conn : Conn)
      → conn.socket ≡ []
      → packet_loop c h (bye ∷ []) conn ≡ (stops, record conn { socket = [] })
  unfolding packet_loop handle_packet recv_exact recv_loop recv
  packet_loop-closed bye conn e = rw e refl

  -- The pool of parsers and the shared state once a connection is over.
  handle_client-stops :
      (d : Daemon) (os : OpeningIo) (pool pool' : List ApduParser) (turns : List PassIo)
      (world : World) (session_id i : ℕ) (socket : List (List ℕ)) (conn conn' : Conn)
      → open_session c h d os pool world session_id socket ≡ opened i pool' conn
      → pool_acquire pool ≡ some (i, pool')
      → packet_loop c h turns conn ≡ (stops, conn')
      → handle_client c h d os turns pool world session_id socket ≡ (
        set pool i zero_parser,
        record conn'.world {
          pool = task_pool_release_session conn'.world.pool conn'.ctx.session_id;
        },
      )
  unfolding handle_client cleanup pool_release
  handle_client-stops d os pool pool' turns world session_id i socket conn conn' e free ends =
      rw (handle_client, e, ap (λ r. r.0) ends, ap (λ r. r.1) ends)
        (ap
          (λ p. (
            p,
            record conn'.world {
              pool = task_pool_release_session conn'.world.pool conn'.ctx.session_id;
            },
          ))
          (set-set pool' i conn'.parser zero_parser ∙ (release-acquire pool i pool' free).0))

module _ (c : Crypto) (h : Handlers) (d : Daemon) (os : OpeningIo) (pool : List ApduParser)
    (laws : Laws c) (rand_r : ℕ → ℕ × ℕ) (ins : Installed rand_r h) (agent_priv : List ℕ)
    (agent_random : Option (List ℕ)) (keys : d.server_pub ≡ c.x25519_public_key d.server_priv) where
  abbrev first : List ℕ
  first = (sent1 c laws agent_priv d.server_priv agent_random os.urandom).2

  abbrev agent : NoiseIkState
  agent = agent_done c h d os pool laws agent_priv agent_random keys

  abbrev message2 : List ℕ
  message2 = sent2 c h d os pool laws agent_priv agent_random keys

  -- An agent on the whitelist sends the magic, its first handshake message, and then, sealed with
  -- what it has after the handshake, a list of well-formed messages of less than 65520 bytes, each
  -- plain or with a right tag under its send key and a number above those before; the bytes come in
  -- any nonempty chunks. If a parser slot is free, the system takes what the daemon sends, and the
  -- daemon has its own handlers, then the session is opened with the pre-handshake frame and the
  -- second handshake message, and the packet loop answers all the messages, the agent opening what
  -- it gets to the dispatcher's replies in order; and when the agent then closes the connection,
  -- handle_client ends: its parser slot is free and zero, and the shared state is that of
  -- dispatching the messages in order to the state at the start, with the tasks of the session
  -- released.
  pub handle_client-Answered :
      (jobs : List Job) (bye : PassIo) (world : World) (session_id i : ℕ) (pool' : List ApduParser)
      (socket : List (List ℕ))
      → IsOpen socket
      → joined socket ≡ client_magic ++ (first ++ wire (seal_all c agent (encoded jobs)))
      → os.frame_sent ≡ true
      → os.msg2_sent ≡ true
      → whitelist_check c d.whitelist (c.x25519_public_key agent_priv) ≡ true
      → pool_acquire pool ≡ some (i, pool')
      → AreRequests c agent.send_key (epoch_of c agent.send_key) 0 jobs
      → (conn : Conn) × (open_session c h d os pool world session_id socket ≡ opened i pool' conn)
        × (conn.sends ≡ message2 ∷ pre_handshake_frame d ∷ [])
        × Answered c h agent jobs conn
        × (let w = (conversation c h jobs world session_id).1 in
            handle_client c h d os (passes jobs ++ (bye ∷ [])) pool world session_id socket ≡ (
              set pool i zero_parser,
              record w { pool = task_pool_release_session w.pool session_id },
            ))
  handle_client-Answered jobs bye world session_id i pool' socket flowing brings frame_sent
        msg2_sent known free requests =
      let (conn, opens, o) =
        open_session-Opens c h d os pool laws agent_priv agent_random keys world session_id i pool'
          socket (wire (seal_all c agent (encoded jobs))) flowing brings frame_sent msg2_sent known
          free in
      let key = sym o.ready.requests.key in
      let a =
        packet_loop-Answered c h laws rand_r ins jobs agent conn o.ready o.left
          (rw (o.epoch, key, o.unseen) requests) in
      let conn' = (packet_loop c h (passes jobs) conn).1 in
      let ends =
        packet_loop-append c h (passes jobs) (bye ∷ []) conn a.goes_on
        ∙ packet_loop-closed c h bye conn' a.drained in
      let w' : conn'.world ≡ (conversation c h jobs world session_id).1 =
        a.world ∙ ap (λ r. r.1) (ap₂ (conversation c h jobs) o.world_same o.id) in
      (
        conn,
        opens,
        o.sent,
        a,
        handle_client-stops c h d os pool pool' (passes jobs ++ (bye ∷ [])) world session_id i
              socket conn (record conn' { socket = [] }) opens free ends
            ∙ ap₂
                (λ w id.
                  (set pool i zero_parser, record w { pool = task_pool_release_session w.pool id }))
                w' (a.session ∙ o.id),
      )
