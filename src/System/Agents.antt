-- ===== src/System/Agents.antt =====
-- An agent that keeps to the protocol, from its first byte to the last reply, while the other
-- threads of the daemon go on: src/asyd/asyd.c.
use asys.Base.{ℕ, ◌≡◌, sym, subst, true, none, some, Option, List, [], ◌∷◌, ◌++◌}
use asys.Crypto.{Crypto, Laws}
use asys.Apdu.{ApduParser, pool_acquire}
use asys.Noise.{NoiseIkState}
use asys.Noise.Stream.{seal_all}
use asys.Noise.Agreement.{sent1}
use asys.Auth.{epoch_of}
use asys.Dispatcher.{Handlers}
use asys.Dispatcher.Guarded.{Installed}
use asys.Whitelist.{whitelist_check}
use asys.Session.{Conn, next_session_id}
use asys.Session.Receive.{IsOpen, joined}
use asys.Session.Wire.{wire}
use asys.Session.Handshake.{OpeningIo, opened, pre_handshake_frame, open_session}
use asys.Session.Conversation.{Job, AreRequests, encoded}
use asys.Session.Greeting.{client_magic}
use asys.Session.Opening.{sent2, agent_done, open_session-Opens}
use asys.System.{System, Event, connects, connect, step, run}
use asys.System.Step.{put_self}
use asys.System.Answers.{Interleaves, replies_in, IsAnswered, run-IsAnswered}

module _ (c : Crypto) (h : Handlers) (t : ℕ) (s : System) (os : OpeningIo) where
  connected :
      (socket : List (List ℕ)) (k : ℕ) (parsers : List ApduParser) (conn : Conn)
      → s.threads t ≡ none
      → open_session c h s.globals os s.parsers s.world (next_session_id s.next_id).0 socket
        ≡ opened k parsers conn
      → (step c h (connects t os socket) s).threads t ≡ some (record { slot = k; conn = conn })
  unfolding step connect
  connected socket k parsers conn idle e = rw (step, idle, connect, e) (put_self s.threads t _)

  module _ (laws : Laws c) (rand_r : ℕ → ℕ × ℕ) (ins : Installed rand_r h) (agent_priv : List ℕ)
      (agent_random : Option (List ℕ))
      (keys : s.globals.server_pub ≡ c.x25519_public_key s.globals.server_priv) where
    abbrev first : List ℕ
    first = (sent1 c laws agent_priv s.globals.server_priv agent_random os.urandom).2

    abbrev agent : NoiseIkState
    agent = agent_done c h s.globals os s.parsers laws agent_priv agent_random keys

    abbrev message2 : List ℕ
    message2 = sent2 c h s.globals os s.parsers laws agent_priv agent_random keys

    -- Let thread `t` be idle, a parser slot be free, and the system take what the daemon sends. An
    -- agent on the whitelist connects in thread `t` and sends the magic, its first handshake
    -- message, and then, sealed with what it has after the handshake, a list of well-formed
    -- messages of less than 65520 bytes, each plain or with a right tag under its send key and a
    -- number above those before, in any nonempty chunks. Then, with the daemon's handlers and
    -- whatever the other threads do before, between and after the passes of thread `t`: the session
    -- is opened with the pre-handshake frame and the second handshake message, and still runs in
    -- the end, with all bytes read; and what it has sent since are the packets that the agent opens
    -- to the dispatcher's replies, in order, each for the shared state that the message has met.
    pub run-IsServed :
        {jobs : List Job} {es : List Event} (i : Interleaves t jobs es) (socket : List (List ℕ))
        (k : ℕ) (parsers : List ApduParser)
        → s.threads t ≡ none
        → IsOpen socket
        → joined socket ≡ client_magic ++ (first ++ wire (seal_all c agent (encoded jobs)))
        → os.frame_sent ≡ true
        → os.msg2_sent ≡ true
        → whitelist_check c s.globals.whitelist (c.x25519_public_key agent_priv) ≡ true
        → pool_acquire s.parsers ≡ some (k, parsers)
        → AreRequests c agent.send_key (epoch_of c agent.send_key) 0 jobs
        → IsAnswered c h t agent
            (replies_in c h t (next_session_id s.next_id).0 i (step c h (connects t os socket) s))
            (message2 ∷ pre_handshake_frame s.globals ∷ [])
            (run c h (connects t os socket ∷ es) s)
    unfolding run
    run-IsServed {jobs} {es} i socket k parsers idle flowing brings frame_sent msg2_sent known free
          requests =
        let id = (next_session_id s.next_id).0 in
        let (conn, opens, o) =
          open_session-Opens c h s.globals os s.parsers laws agent_priv agent_random keys s.world id
            k parsers socket (wire (seal_all c agent (encoded jobs))) flowing brings frame_sent
            msg2_sent known free in
        let key = sym o.ready.requests.key in
        let next = step c h (connects t os socket) s in
        let a =
          run-IsAnswered c h t laws rand_r ins i agent agent next (record { slot = k; conn = conn })
            (connected socket k parsers conn idle opens) o.ready o.left
            (rw (o.epoch, key, o.unseen) requests) in
        subst
          (λ id.
            IsAnswered c h t agent (replies_in c h t id i next)
              (message2 ∷ pre_handshake_frame s.globals ∷ []) (run c h es next))
          o.id
          (subst
            (λ sends.
              IsAnswered c h t agent (replies_in c h t conn.ctx.session_id i next) sends
                (run c h es next))
            o.sent a)
