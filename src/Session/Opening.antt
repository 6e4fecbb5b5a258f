-- ===== src/Session/Opening.antt =====
-- The opening of a session that succeeds: handle_client in src/asyd/asyd.c up to the packet loop,
-- with an agent that keeps to the protocol.
use asys.Base.{ℕ, ◌≡◌, refl, sym, ap, ap₂, ◌∙◌, true, Option, some, List, [], ◌∷◌, ◌++◌}
use asys.Crypto.{Crypto, Laws}
use asys.Apdu.{ApduParser, pool_acquire, zero_parser}
use asys.Apdu.Buffer.{zero_parser_lem}
use asys.Noise.{NoiseIkState, Status, ok}
use asys.Noise.Server.{init_server, read_msg1, write_msg2}
use asys.Noise.Client.{read_msg2}
use asys.Noise.Agreement.{sent1, server_start, length-sent1, handshake_agreement}
use asys.Auth.{epoch_of}
use asys.Handlers.{World}
use asys.Dispatcher.{Handlers}
use asys.Whitelist.{whitelist_check}
use asys.Session.{Conn}
use asys.Session.Receive.{IsOpen, joined}
use asys.Session.Service.{Ready}
use asys.Session.Handshake.{
  OpeningIo, opened, Daemon, new_ctx, pre_handshake_frame, handshake, open_session,
}
use asys.Session.Greeting.{
  client_magic, admit_known, answered, answer_sent, read1, handshake_read, greeted,
  open_session_reads,
}

-- The two sides after a successful opening, `msg2` being what the agent reads last.
pub record Opens (c : Crypto) (h : Handlers) (agent_pub : List ℕ) (agent1 : NoiseIkState)
    (frame : List ℕ) (world : World) (session_id : ℕ) (rest msg2 : List ℕ) (conn : Conn)
    : Type 0 where
  pub sent : conn.sends ≡ msg2 ∷ frame ∷ []
  pub agent_reads : (read_msg2 c agent1 msg2).0 ≡ ok
  pub ready : Ready c h (read_msg2 c agent1 msg2).1 (read_msg2 c agent1 msg2).1 conn
  pub left : joined conn.socket ≡ rest
  pub world_same : conn.world ≡ world
  pub id : conn.ctx.session_id ≡ session_id
  pub peer : conn.ctx.agent_pub ≡ agent_pub
  pub epoch : conn.ctx.epoch_id ≡ epoch_of c conn.ctx.noise.recv_key
  pub unseen : conn.ctx.last_seen_seq ≡ 0

module _ (c : Crypto) (h : Handlers) (d : Daemon) (os : OpeningIo) (pool : List ApduParser)
    (laws : Laws c) (agent_priv : List ℕ) (agent_random : Option (List ℕ))
    (keys : d.server_pub ≡ c.x25519_public_key d.server_priv) where
  abbrev first : Status × NoiseIkState × List ℕ
  first = sent1 c laws agent_priv d.server_priv agent_random os.urandom

  abbrev me : List ℕ
  me = c.x25519_public_key agent_priv

  -- The daemon's state once it has read message 1.
  abbrev reader : NoiseIkState
  reader =
      (read_msg1 c (server_start c laws agent_priv d.server_priv agent_random os.urandom) first.2).1

  -- What the daemon sends then, and the agent's state once it has read that.
  abbrev pub sent2 : List ℕ
  sent2 = (write_msg2 c reader os.urandom).2

  abbrev pub agent_done : NoiseIkState
  agent_done = (read_msg2 c first.1 sent2).1

  reads_first : read1 c h d os pool first.2 ≡ (ok, reader, some me)
  reads_first =
      let agreement = handshake_agreement c laws agent_priv d.server_priv agent_random os.urandom in
      ap (λ key. read_msg1 c (init_server c d.server_priv key) first.2) keys
      ∙ ap₂ (λ status agent. (status, reader, agent)) agreement.1 agreement.2

  module _ (world : World) (session_id i : ℕ) (pool' : List ApduParser) (socket : List (List ℕ))
      (rest : List ℕ) (flowing : IsOpen socket)
      (brings : joined socket ≡ client_magic ++ (first.2 ++ rest))
      (frame_sent : os.frame_sent ≡ true) (msg2_sent : os.msg2_sent ≡ true)
      (known : whitelist_check c d.whitelist me ≡ true)
      (free : pool_acquire pool ≡ some (i, pool')) where
    begins :
        (socket' : List (List ℕ)) × (open_session c h d os pool world session_id socket
          ≡ handshake c h d os pool (greeted c h d os pool world session_id socket') first.2)
        × IsOpen socket'
        × (joined socket' ≡ rest)
    begins =
        open_session_reads c h d os pool world session_id socket first.2 rest frame_sent
          (length-sent1 c laws agent_priv d.server_priv agent_random os.urandom) flowing brings

    abbrev introduced : Conn
    introduced =
        let conn = greeted c h d os pool world session_id begins.0 in
        record conn { ctx = record conn.ctx { noise = reader; agent_pub = me } }

    abbrev in_loop : Conn
    in_loop = record (answered c h d os pool introduced) {
      parser = record zero_parser { in_use = true };
    }

    opens_at : open_session c h d os pool world session_id socket ≡ opened i pool' in_loop
    opens_at =
        begins.1
        ∙ (handshake_read c h d os pool (greeted c h d os pool world session_id begins.0) first.2 me
              reader reads_first
            ∙ (answer_sent c h d os pool introduced msg2_sent
                ∙ admit_known c h d os pool (answered c h d os pool introduced) i pool' known free))

    in_loop-Opens : Opens c h me first.1 (pre_handshake_frame d) world session_id rest sent2 in_loop
    unfolding new_ctx zero_parser
    in_loop-Opens =
        let agreed = handshake_agreement c laws agent_priv d.server_priv agent_random os.urandom in
        record {
          sent = refl;
          agent_reads = agreed.4;
          ready = record {
            parser = record { size = zero_parser_lem.1.size; within = zero_parser_lem.1.within };
            empty = refl;
            requests = record {
              key = agreed.5;
              nonce = agreed.8 ∙ sym agreed.9;
              sender_done = agreed.12;
              receiver_done = agreed.13;
            };
            replies = record {
              key = sym agreed.6;
              nonce = agreed.11 ∙ sym agreed.10;
              sender_done = agreed.13;
              receiver_done = agreed.12;
            };
            is_open = begins.2;
          };
          left = begins.3;
          world_same = refl;
          id = refl;
          peer = refl;
          epoch = refl;
          unseen = refl;
        }

    -- If an agent that is on the whitelist sends the magic and its first message, in any nonempty
    -- chunks, a parser slot is free, and the system takes the daemon's frame and second message,
    -- then the session is opened, whatever the random sources give: the daemon has sent the
    -- pre-handshake frame and a message that the agent reads successfully; the two sides are paired
    -- in both directions; and the packet loop starts with an empty buffer, the rest of the agent's
    -- bytes before it, the agent's key as that of the peer, the epoch of its receive key, and no
    -- number seen.
    pub open_session-Opens :
        (conn : Conn) × (open_session c h d os pool world session_id socket ≡ opened i pool' conn)
        × Opens c h me first.1 (pre_handshake_frame d) world session_id rest sent2 conn
    open_session-Opens = (in_loop, opens_at, in_loop-Opens)
