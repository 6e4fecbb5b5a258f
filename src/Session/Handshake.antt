-- ===== src/Session/Handshake.antt =====
-- handle_client in src/asyd/asyd.c as a whole: what comes before the packet loop, and the end.
use asys.Base.{ℕ, Bool, true, not, Option, none, some, List, [], ◌∷◌, if◌then◌else◌, set, replicate}
use asys.Crypto.{Crypto}
use asys.Apdu.{ApduParser, pool_acquire, zero_parser}
use asys.Noise.{ok, key_size, msg1_size, zero_state}
use asys.Noise.Server.{init_server, read_msg1, write_msg2}
use asys.Auth.{epoch_of}
use asys.Handlers.{World, sw_access_denied}
use asys.Dispatcher.{Handlers}
use asys.Whitelist.{Whitelist, whitelist_check}
use asys.Session.{SessionCtx, Conn, recv_exact, wait_for_client_magic}
use asys.Session.Packet.{PassIo, continues, stops, send_sw, packet_loop, cleanup}

-- Whether `send` takes all bytes of the pre-handshake frame and of the second message, and what
-- /dev/urandom gives.
pub record OpeningIo : Type 0 where
  pub frame_sent : Bool
  pub msg2_sent : Bool
  pub urandom : Option (List ℕ)

-- `dropped` is the plain `return`, `ended` is `goto cleanup` with what was sent, and `opened`
-- enters the packet loop with a slot of the parser pool.
pub data Opening : Type 0 where
  dropped : Opening
  ended : SessionCtx → (sends : List (List ℕ)) → Opening
  opened : (slot : ℕ) → List ApduParser → Conn → Opening

-- The globals that the function reads.
pub record Daemon : Type 0 where
  pub server_priv : List ℕ
  pub server_pub : List ℕ
  pub whitelist : Whitelist

unfoldable pub new_ctx : ℕ → SessionCtx
new_ctx session_id = record {
  session_id = session_id;
  noise = zero_state;
  agent_pub = replicate key_size 0;
  epoch_id = replicate 4 0;
  last_seen_seq = 0;
}

unfoldable pub pre_handshake_frame : Daemon → List ℕ
pre_handshake_frame d = 0x41 ∷ 0x53 ∷ 0x59 ∷ 0x53 ∷ 0x01 ∷ 0x00 ∷ d.server_pub

module _ (c : Crypto) (h : Handlers) (d : Daemon) where
  -- From the whitelist check to the loop.
  unfoldable pub admit : List ApduParser → Conn → Opening
  admit pool conn =
      if not (whitelist_check c d.whitelist conn.ctx.agent_pub)
      then (let told = send_sw c h conn sw_access_denied in ended told.ctx told.sends)
      else elim (pool_acquire pool) [
        | none ↦ ended conn.ctx conn.sends
        | some (i, pool') ↦
            opened i pool' (record conn { parser = record zero_parser { in_use = true } })
      ]

  -- From `noise_ik_write_msg2` on, with the first message read.
  unfoldable pub answer_msg1 : OpeningIo → List ApduParser → Conn → Opening
  answer_msg1 os pool conn =
      let (status, st, msg2) = write_msg2 c conn.ctx.noise os.urandom in
      let conn' : Conn = record conn {
        ctx = record conn.ctx { noise = st; epoch_id = epoch_of c st.recv_key };
        sends = msg2 ∷ conn.sends;
      } in
      if not os.msg2_sent
      then ended (record conn.ctx { noise = st }) conn'.sends
      else admit pool conn'

  -- From `noise_ik_read_msg1` on.
  unfoldable pub handshake : OpeningIo → List ApduParser → Conn → List ℕ → Opening
  handshake os pool conn msg1 =
      let (status, st, agent) = read_msg1 c (init_server c d.server_priv d.server_pub) msg1 in
      let agent_pub : List ℕ = elim agent [ none ↦ conn.ctx.agent_pub | some s ↦ s ] in
      let ctx : SessionCtx = record conn.ctx { noise = st; agent_pub = agent_pub } in
      elim status [
        | ok ↦ answer_msg1 os pool (record conn { ctx = ctx })
        | _ ↦ ended ctx conn.sends
      ]

  unfoldable pub open_session : OpeningIo → List ApduParser → World → ℕ → List (List ℕ) → Opening
  unfolding new_ctx pre_handshake_frame zero_parser
  open_session os pool world session_id socket =
      let (magic, socket1) = wait_for_client_magic socket in
      let (msg1, socket2) = recv_exact msg1_size socket1 in
      let ctx = new_ctx session_id in
      let conn : Conn = record {
        ctx = ctx;
        parser = zero_parser;
        world = world;
        socket = socket2;
        sends = pre_handshake_frame d ∷ [];
      } in
      if not magic then dropped else if not os.frame_sent then ended ctx conn.sends else elim msg1 [
        | none ↦ ended (record ctx { noise = init_server c d.server_priv d.server_pub }) conn.sends
        | some m ↦ handshake os pool conn m
      ]

  -- The whole of `handle_client`: the parser pool and the shared state after it. The packet loop
  -- runs for the passes given; if it has not ended then, there is no clean-up yet.
  unfoldable pub handle_client :
      OpeningIo
      → List PassIo
      → List ApduParser
      → World
      → ℕ
      → List (List ℕ)
      → List ApduParser × World
  unfolding open_session
  handle_client os passes pool world session_id socket =
      elim (open_session os pool world session_id socket) [
        | dropped ↦ (pool, world)
        | ended ctx sends ↦
            let (ctx', pool', world') = cleanup ctx pool none world in (pool', world')
        | opened i pool' conn ↦
            let (next, conn') = packet_loop c h passes conn in
            let used = set pool' i conn'.parser in
            elim next [
              | continues ↦ (used, conn'.world)
              | stops ↦
                  let (ctx', pool'', world') = cleanup conn'.ctx used (some i) conn'.world in
                  (pool'', world')
            ]
      ]
