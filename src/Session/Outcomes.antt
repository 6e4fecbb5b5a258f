-- ===== src/Session/Outcomes.antt =====
-- What the outcome of an opening has of the parser pool and of the session's identifier:
-- handle_client in src/asyd/asyd.c up to the packet loop.
use asys.Base.{
  Bool-cases, ◌⊎◌, [], ◌∷◌, ℕ, ◌≡◌, refl, some, none, List, Option-cases, inl, inr, arith,
}
use asys.Crypto.{Crypto}
use asys.Apdu.{ApduParser, zero_parser, pool_acquire}
use asys.Noise.{Status, ok, err_auth, err_state, msg1_size}
use asys.Noise.Server.{init_server, read_msg1, write_msg2}
use asys.Auth.{epoch_of}
use asys.Handlers.{World, sw_access_denied}
use asys.Dispatcher.{Handlers}
use asys.Session.{Conn, recv_exact, wait_for_client_magic}
use asys.Session.Packet.{send_sw}
use asys.Session.Handshake.{
  OpeningIo, Opening, dropped, ended, opened, Daemon, pre_handshake_frame, new_ctx, admit,
  answer_msg1, handshake, open_session,
}

-- A session of the identifier ends before the packet loop or enters it with the slot that the pool
-- gives.
unfoldable pub IsOutcome : List ApduParser → ℕ → Opening → Type 0
IsOutcome pool id dropped = Unit
IsOutcome pool id (ended ctx sends) = ctx.session_id ≡ id
IsOutcome pool id (opened i pool' conn) = pool_acquire pool ≡ some (i, pool')

status_cases : (status : Status) → (status ≡ ok) ⊎ (status ≡ err_auth) ⊎ (status ≡ err_state)
status_cases ok = inl refl
status_cases err_auth = inr (inl refl)
status_cases err_state = inr (inr refl)

module _ (c : Crypto) (h : Handlers) (d : Daemon) (pool : List ApduParser) where
  send_sw-session :
      (conn : Conn) (sw : ℕ) → (send_sw c h conn sw).ctx.session_id ≡ conn.ctx.session_id
  unfolding send_sw
  send_sw-session conn sw = ground arith

  admit-IsOutcome : (conn : Conn) → IsOutcome pool conn.ctx.session_id (admit c h d pool conn)
  unfolding IsOutcome admit
  admit-IsOutcome conn = ground (arith, send_sw-session conn sw_access_denied)

  answer-IsOutcome :
      (os : OpeningIo) (conn : Conn)
      → IsOutcome pool conn.ctx.session_id (answer_msg1 c h d os pool conn)
  unfolding answer_msg1 IsOutcome
  answer-IsOutcome os conn =
      let (status, st, msg2) = write_msg2 c conn.ctx.noise os.urandom in
      let answered : Conn = record conn {
        ctx = record conn.ctx { noise = st; epoch_id = epoch_of c st.recv_key };
        sends = msg2 ∷ conn.sends;
      } in
      elim (Bool-cases os.msg2_sent) [
        | inl sent ↦ rw (answer_msg1, sent) (admit-IsOutcome answered)
        | inr lost ↦ rw (answer_msg1, lost) refl
      ]

  handshake-IsOutcome :
      (os : OpeningIo) (conn : Conn) (msg1 : List ℕ)
      → IsOutcome pool conn.ctx.session_id (handshake c h d os pool conn msg1)
  unfolding handshake IsOutcome
  handshake-IsOutcome os conn msg1 =
      let (status, st, agent) = read_msg1 c (init_server c d.server_priv d.server_pub) msg1 in
      let agent_pub : List ℕ = elim agent [ none ↦ conn.ctx.agent_pub | some s ↦ s ] in
      let met : Conn = record conn {
        ctx = record conn.ctx { noise = st; agent_pub = agent_pub };
      } in
      elim (status_cases status) [
        | inl good ↦ rw (handshake, good) (answer-IsOutcome os met)
        | inr (inl bad) ↦ rw (handshake, bad) refl
        | inr (inr bad) ↦ rw (handshake, bad) refl
      ]

  pub open_session-IsOutcome :
      (os : OpeningIo) (world : World) (id : ℕ) (socket : List (List ℕ))
      → IsOutcome pool id (open_session c h d os pool world id socket)
  unfolding open_session new_ctx IsOutcome
  open_session-IsOutcome os world id socket =
      let (seen, socket1) = wait_for_client_magic socket in
      let (got, socket2) = recv_exact msg1_size socket1 in
      let start : Conn = record {
        ctx = new_ctx id;
        parser = zero_parser;
        world = world;
        socket = socket2;
        sends = pre_handshake_frame d ∷ [];
      } in
      elim (Bool-cases seen) [
        | inr wrong ↦ rw (open_session, wrong) tt
        | inl right ↦ elim (Bool-cases os.frame_sent) [
          | inr lost ↦ rw (open_session, right, lost) refl
          | inl sent ↦ elim (Option-cases got) [
            | inl silent ↦ rw (open_session, right, sent, silent) refl
            | inr (m, read) ↦ rw (open_session, right, sent, read) (handshake-IsOutcome os start m)
          ]
        ]
      ]
