-- ===== src/Session/Greeting.antt =====
-- The steps of an opening that succeeds, one by one: handle_client in src/asyd/asyd.c up to the
-- packet loop.
use asys.Base.{ℕ, ◌≡◌, refl, ap, true, Option, some, List, [], ◌∷◌, ◌++◌, length}
use asys.Crypto.{Crypto}
use asys.Apdu.{ApduParser, pool_acquire, zero_parser}
use asys.Noise.{NoiseIkState, Status, ok, msg1_size}
use asys.Noise.Server.{init_server, read_msg1, write_msg2}
use asys.Auth.{epoch_of}
use asys.Handlers.{World}
use asys.Dispatcher.{Handlers}
use asys.Whitelist.{whitelist_check}
use asys.Session.{Conn, recv_exact, wait_for_client_magic}
use asys.Session.Receive.{IsOpen, joined}
use asys.Session.Wire.{recv_exact_part}
use asys.Session.Handshake.{
  OpeningIo, opened, Daemon, new_ctx, pre_handshake_frame, admit, answer_msg1, handshake,
  open_session,
}

-- "ASYS"
abbrev pub client_magic : List ℕ
client_magic = 0x41 ∷ 0x53 ∷ 0x59 ∷ 0x53 ∷ []

waits_for_magic :
    (socket : List (List ℕ)) (rest : List ℕ)
    → IsOpen socket
    → joined socket ≡ client_magic ++ rest
    → let (seen, socket') = wait_for_client_magic socket in
      (seen ≡ true) × IsOpen socket' × (joined socket' ≡ rest)
unfolding wait_for_client_magic
waits_for_magic socket rest flowing e =
    let (value, flowing', left) = recv_exact_part 4 client_magic rest socket refl flowing e in
    (rw (wait_for_client_magic, value) refl, flowing', left)

module _ (c : Crypto) (h : Handlers) (d : Daemon) (os : OpeningIo) (pool : List ApduParser) where
  pub admit_known :
      (conn : Conn) (i : ℕ) (pool' : List ApduParser)
      → whitelist_check c d.whitelist conn.ctx.agent_pub ≡ true
      → pool_acquire pool ≡ some (i, pool')
      → admit c h d pool conn
        ≡ opened i pool' (record conn { parser = record zero_parser { in_use = true } })
  unfolding admit
  admit_known conn i pool' known free = rw (admit, known, free) refl

  -- The connection once message 2 was sent.
  abbrev pub answered : Conn → Conn
  answered conn =
      let (status, st, msg2) = write_msg2 c conn.ctx.noise os.urandom in
      record conn {
        ctx = record conn.ctx { noise = st; epoch_id = epoch_of c st.recv_key };
        sends = msg2 ∷ conn.sends;
      }

  pub answer_sent :
      (conn : Conn)
      → os.msg2_sent ≡ true
      → answer_msg1 c h d os pool conn ≡ admit c h d pool (answered conn)
  unfolding answer_msg1
  answer_sent conn sent = rw (answer_msg1, sent) refl

  abbrev pub read1 : List ℕ → Status × NoiseIkState × Option (List ℕ)
  read1 msg1 = read_msg1 c (init_server c d.server_priv d.server_pub) msg1

  pub handshake_read :
      (conn : Conn) (msg1 agent_pub : List ℕ) (st : NoiseIkState)
      → read1 msg1 ≡ (ok, st, some agent_pub)
      → handshake c h d os pool conn msg1
        ≡ answer_msg1 c h d os pool
            (record conn { ctx = record conn.ctx { noise = st; agent_pub = agent_pub } })
  unfolding handshake
  handshake_read conn msg1 agent_pub st e =
      rw (handshake, ap (λ r. r.0) e, ap (λ r. r.2) e)
        (ap
          (λ r.
            answer_msg1 c h d os pool
              (record conn { ctx = record conn.ctx { noise = r.1; agent_pub = agent_pub } }))
          e)

  -- The connection after the pre-handshake frame.
  abbrev pub greeted : World → ℕ → List (List ℕ) → Conn
  greeted world session_id socket = record {
    ctx = new_ctx session_id;
    parser = zero_parser;
    world = world;
    socket = socket;
    sends = pre_handshake_frame d ∷ [];
  }

  pub open_session_reads :
      (world : World) (session_id : ℕ) (socket : List (List ℕ)) (msg1 rest : List ℕ)
      → os.frame_sent ≡ true
      → length msg1 ≡ msg1_size
      → IsOpen socket
      → joined socket ≡ client_magic ++ (msg1 ++ rest)
      → (socket' : List (List ℕ)) × (open_session c h d os pool world session_id socket
          ≡ handshake c h d os pool (greeted world session_id socket') msg1)
        × IsOpen socket'
        × (joined socket' ≡ rest)
  unfolding open_session handshake answer_msg1
  open_session_reads world session_id socket msg1 rest sent size flowing e =
      let (seen, flowing1, left1) = waits_for_magic socket (msg1 ++ rest) flowing e in
      let socket1 = (wait_for_client_magic socket).1 in
      let (value, flowing2, left2) =
        recv_exact_part msg1_size msg1 rest socket1 size flowing1 left1 in
      ((recv_exact msg1_size socket1).1, rw (open_session, seen, sent, value) refl, flowing2, left2)
