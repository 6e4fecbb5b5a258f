-- ===== src/Session/Admission.antt =====
-- Who gets into the packet loop: the opening of handle_client in src/asyd/asyd.c.
use asys.Base.{ℕ, ◌≡◌, refl, true, Option, none, some, List, [], ◌∷◌, Option-cases, inl, inr, arith}
use asys.Crypto.{Crypto}
use asys.Apdu.{ApduParser, zero_parser}
use asys.Apdu.Buffer.{zero_parser_lem}
use asys.Noise.{NoiseIkState, ok, err_auth, msg1_size}
use asys.Noise.Server.{init_server, read_msg1, read_payload, write_msg2}
use asys.Auth.{epoch_of}
use asys.Handlers.{World}
use asys.Dispatcher.{Handlers}
use asys.Whitelist.{whitelist_check}
use asys.Session.{Conn, recv_exact, wait_for_client_magic}
use asys.Session.Handshake.{
  OpeningIo, opened, Daemon, pre_handshake_frame, new_ctx, admit, answer_msg1, handshake,
  open_session,
}
use asys.Session.Validity.{IsConn}

present :
    (o : Option (List ℕ)) (old : List ℕ)
    → (o ≡ none → ok ≡ err_auth)
    → o ≡ some (elim o [ none ↦ old | some s ↦ s ])
present none old h = ground (arith, h refl)
present (some s) old h = refl

new_ctx_lem :
    (session_id : ℕ)
    → ((new_ctx session_id).last_seen_seq ≡ 0) × ((new_ctx session_id).session_id ≡ session_id)
unfolding new_ctx
new_ctx_lem session_id = (refl, refl)

zero_filled : zero_parser.filled ≡ 0
unfolding zero_parser
zero_filled = refl

module _ (c : Crypto) (h : Handlers) (d : Daemon) where
  -- What the checks of the opening found, for a connection that is in the loop.
  pub record IsAdmitted (session_id : ℕ) (conn : Conn) : Type 0 where
    pub known : whitelist_check c d.whitelist conn.ctx.agent_pub ≡ true
    pub fresh : conn.ctx.last_seen_seq ≡ 0
    pub id : conn.ctx.session_id ≡ session_id
    pub nothing_pending : conn.parser.filled ≡ 0
    pub is_conn : IsConn c conn

  -- The agent whose key the first message proves.
  pub IsProved : List ℕ → List ℕ → Type 0
  IsProved msg1 agent_pub =
      let (status, st, agent) = read_msg1 c (init_server c d.server_priv d.server_pub) msg1 in
      (status ≡ ok) × (agent ≡ some agent_pub)

  module _ (pool : List ApduParser) (i : ℕ) (pool' : List ApduParser) (out : Conn) where
    admit_lem :
        (conn : Conn)
        → admit c h d pool conn ≡ opened i pool' out
        → (whitelist_check c d.whitelist conn.ctx.agent_pub ≡ true)
          × (out ≡ record conn { parser = record zero_parser { in_use = true } })
    unfolding admit
    admit_lem conn e = ground arith

    -- The connection with the second message made.
    abbrev answered : OpeningIo → Conn → Conn
    answered os conn =
        let (status, st, msg2) = write_msg2 c conn.ctx.noise os.urandom in
        record conn {
          ctx = record conn.ctx { noise = st; epoch_id = epoch_of c st.recv_key };
          sends = msg2 ∷ conn.sends;
        }

    answer_lem :
        (os : OpeningIo) (conn : Conn)
        → answer_msg1 c h d os pool conn ≡ opened i pool' out
        → admit c h d pool (answered os conn) ≡ opened i pool' out
    unfolding answer_msg1
    answer_lem os conn e = ground arith

    write_msg2-done :
        (st : NoiseIkState) (urandom : Option (List ℕ))
        → st.is_server ≡ true
        → (write_msg2 c st urandom).1.handshake_done ≡ true
    unfolding write_msg2
    write_msg2-done st urandom server = ground arith

    read_msg1_lem :
        (st : NoiseIkState) (msg1 : List ℕ)
        → (read_msg1 c st msg1).0 ≡ ok
        → ((read_msg1 c st msg1).1.is_server ≡ true)
          × ((read_msg1 c st msg1).2 ≡ none → (ok ≡ err_auth))
    unfolding read_msg1 read_payload
    read_msg1_lem st msg1 e = ground arith

    -- The connection with the first message read.
    abbrev greeted : Conn → List ℕ → Conn
    greeted conn msg1 =
        let (status, st, agent) = read_msg1 c (init_server c d.server_priv d.server_pub) msg1 in
        let agent_pub : List ℕ = elim agent [ none ↦ conn.ctx.agent_pub | some s ↦ s ] in
        record conn { ctx = record conn.ctx { noise = st; agent_pub = agent_pub } }

    handshake_lem :
        (os : OpeningIo) (conn : Conn) (msg1 : List ℕ)
        → handshake c h d os pool conn msg1 ≡ opened i pool' out
        → ((read_msg1 c (init_server c d.server_priv d.server_pub) msg1).0 ≡ ok)
          × (answer_msg1 c h d os pool (greeted conn msg1) ≡ opened i pool' out)
    unfolding handshake
    handshake_lem os conn msg1 e = ground arith

  module _ (pool : List ApduParser) (i : ℕ) (pool' : List ApduParser) (conn : Conn) where
    greeted_lem :
        (os : OpeningIo) (start : Conn) (msg1 : List ℕ) (session_id : ℕ)
        → start.ctx.last_seen_seq ≡ 0
        → start.ctx.session_id ≡ session_id
        → handshake c h d os pool start msg1 ≡ opened i pool' conn
        → IsProved msg1 conn.ctx.agent_pub × IsAdmitted session_id conn
    unfolding IsProved
    greeted_lem os start msg1 session_id zero_seq same_id e =
        let server = init_server c d.server_priv d.server_pub in
        let (read, answers) = handshake_lem pool i pool' conn os start msg1 e in
        let (is_server, has_agent) = read_msg1_lem pool i pool' conn server msg1 read in
        let met = greeted pool i pool' conn start msg1 in
        let after = answered pool i pool' conn os met in
        let admits = answer_lem pool i pool' conn os met answers in
        let (known, now) = admit_lem pool i pool' conn after admits in
        let done = write_msg2-done pool i pool' conn met.ctx.noise os.urandom is_server in
        let valid = zero_parser_lem.1 in
        rw now (
          (read, present (read_msg1 c server msg1).2 start.ctx.agent_pub has_agent),
          record {
            known = known;
            fresh = zero_seq;
            id = same_id;
            nothing_pending = zero_filled;
            is_conn = record {
              parser = record { size = valid.size; within = valid.within };
              done = done;
              epoch = refl;
            };
          },
        )

    pub open_session-IsAdmitted :
        (os : OpeningIo) (world : World) (session_id : ℕ) (socket : List (List ℕ))
        → open_session c h d os pool world session_id socket ≡ opened i pool' conn
        → ((wait_for_client_magic socket).0 ≡ true)
          × ((msg1 : List ℕ) × ((recv_exact msg1_size (wait_for_client_magic socket).1).0
                ≡ some msg1)
              × IsProved msg1 conn.ctx.agent_pub)
          × IsAdmitted session_id conn
    unfolding open_session
    open_session-IsAdmitted os world session_id socket e =
        let (got, rest) = recv_exact msg1_size (wait_for_client_magic socket).1 in
        let start : Conn = record {
          ctx = new_ctx session_id;
          parser = zero_parser;
          world = world;
          socket = rest;
          sends = pre_handshake_frame d ∷ [];
        } in
        elim (Option-cases (recv_exact msg1_size (wait_for_client_magic socket).1).0) [
          | inl none_read ↦ ground (arith, none_read)
          | inr (m, read) ↦
              let shaken : handshake c h d os pool start m ≡ opened i pool' conn =
                ground (arith, read) in
              let (proved, admitted) =
                greeted_lem os start m session_id (new_ctx_lem session_id).0
                  (new_ctx_lem session_id).1 shaken in
              (ground (arith, read), (m, read, proved), admitted)
        ]
