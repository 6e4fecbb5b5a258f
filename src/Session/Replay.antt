-- ===== src/Session/Replay.antt =====
-- Sequence numbers over a session: the replay gate of the packet loop in src/asyd/asyd.c. The code
-- ends a session at an old number, where docs/en/asys-spec.md (2.2.4) lets it go on.
use asys.Base.{ℕ, ◌≤◌, ◌≡◌, ◌≢◌, List, [], ◌∷◌, inl, inr, arith}
use asys.Crypto.{Crypto}
use asys.Apdu.{
  ApduFrame, ParseResult, ready, need_more, err_version, err_rfu, err_ext_lc, err_length, try_parse,
  sec_plain,
}
use asys.Handlers.{sw_access_denied, sw_replay_detected, sw_wrong_len}
use asys.Dispatcher.{Handlers}
use asys.Session.{Conn}
use asys.Session.Passes.{handle_packet-cases}
use asys.Session.Guard.{run_frame-world, send_sw-Quiet, received}
use asys.Session.Packet.{
  PassIo, stops, seq_of, handle_frame, handle_parsed, handle_cipher, handle_packet, packet_loop,
  sw_version,
}

module _ (c : Crypto) (h : Handlers) where
  abbrev last_seq : Conn → ℕ
  last_seq conn = conn.ctx.last_seen_seq

  handle_frame-seq :
      (pass : PassIo) (conn : Conn) (f : ApduFrame)
      → last_seq conn ≤ last_seq (handle_frame c h pass conn f).1
  unfolding handle_frame
  handle_frame-seq pass conn f =
      let accepted : Conn = record conn {
        ctx = record conn.ctx { last_seen_seq = seq_of conn.parser.buf f };
      } in
      ground (
        arith,
        run_frame-world c h pass conn f,
        run_frame-world c h pass accepted f,
        send_sw-Quiet c h conn sw_access_denied,
        send_sw-Quiet c h conn sw_replay_detected,
      )

  handle_parsed-seq :
      (pass : PassIo) (conn : Conn) (result : ParseResult)
      → last_seq conn ≤ last_seq (handle_parsed c h pass conn result).1
  unfolding handle_parsed
  handle_parsed-seq pass conn need_more = omega arith
  handle_parsed-seq pass conn err_version = ground (arith, send_sw-Quiet c h conn sw_version)
  handle_parsed-seq pass conn err_rfu = ground (arith, send_sw-Quiet c h conn sw_wrong_len)
  handle_parsed-seq pass conn err_ext_lc = ground (arith, send_sw-Quiet c h conn sw_wrong_len)
  handle_parsed-seq pass conn err_length = ground (arith, send_sw-Quiet c h conn sw_wrong_len)
  handle_parsed-seq pass conn (ready f) = handle_frame-seq pass conn f

  handle_cipher-seq :
      (pass : PassIo) (conn : Conn) (cipher : List ℕ)
      → last_seq conn ≤ last_seq (handle_cipher c h pass conn cipher).1
  unfolding handle_cipher
  handle_cipher-seq pass conn cipher =
      let got = received c h conn cipher in
      ground (arith, handle_parsed-seq pass got (try_parse got.parser))

  handle_packet-seq :
      (pass : PassIo) (conn : Conn) → last_seq conn ≤ last_seq (handle_packet c h pass conn).1
  handle_packet-seq pass conn = elim (handle_packet-cases c h pass conn) [
    | inl (socket, e) ↦ rw e (omega arith)
    | inr (socket, cipher, e) ↦
        rw e (handle_cipher-seq pass (record conn { socket = socket }) cipher)
  ]

  packet_loop-seq :
      (passes : List PassIo) (conn : Conn)
      → last_seq conn ≤ last_seq (packet_loop c h passes conn).1
  unfolding packet_loop
  packet_loop-seq [] conn = omega arith
  packet_loop-seq (pass ∷ passes) conn =
      ground
        (arith, handle_packet-seq pass conn, packet_loop-seq passes (handle_packet c h pass conn).1)

  -- Once a session has accepted a sequence number, then whatever packets follow, a later frame that
  -- is not plain and whose number is not above it ends the session, and no handler runs.
  pub replay_refused :
      (passes : List PassIo) (conn : Conn) (pass : PassIo) (f : ApduFrame)
      → let later = (packet_loop c h passes conn).1 in
        f.sec ≢ sec_plain
        → seq_of later.parser.buf f ≤ conn.ctx.last_seen_seq
        → ((handle_frame c h pass later f).0 ≡ stops)
          × ((handle_frame c h pass later f).1.world ≡ later.world)
  unfolding handle_frame
  replay_refused passes conn pass f signed old =
      let later = (packet_loop c h passes conn).1 in
      ground (
        arith,
        packet_loop-seq passes conn,
        send_sw-Quiet c h later sw_access_denied,
        send_sw-Quiet c h later sw_replay_detected,
      )
