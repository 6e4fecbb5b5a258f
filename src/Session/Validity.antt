-- ===== src/Session/Validity.antt =====
-- What every pass of the packet loop keeps: src/asyd/asyd.c with src/asyd/core/apdu_parser.c.
use asys.Base.{
  ℕ, ◌-◌, ◌≤◌, ◌≡◌, ◌∙◌, sym, ap, subst, true, List, [], ◌∷◌, length, length-take, take, drop,
  Option-cases, inl, inr, arith,
}
use asys.Crypto.{Crypto, Laws}
use asys.Apdu.{
  ApduFrame, IsValid, ParseResult, ready, need_more, err_version, err_rfu, err_ext_lc, err_length,
  try_parse, consume, recv_ptr, recv_commit, write_received,
}
use asys.Apdu.Buffer.{receive_lem, consume_lem}
use asys.Noise.{ok, mac_size, nonce12, NoiseIkState}
use asys.Noise.Transport.{encrypt, decrypt}
use asys.Auth.{epoch_of}
use asys.Handlers.{Request, sw_access_denied, sw_replay_detected, sw_wrong_len, disp_resp_max}
use asys.Dispatcher.{Handlers, dispatch}
use asys.Session.{Conn}
use asys.Session.Passes.{handle_packet-cases}
use asys.Session.Guard.{received}
use asys.Session.Packet.{
  PassIo, seq_of, send_sw, send_reply, run_frame, handle_frame, handle_parsed, handle_cipher,
  handle_packet, packet_loop, sw_version,
}

module _ (c : Crypto) where
  -- The receive buffer is within its bounds, the handshake is done, and the epoch is the receive
  -- key's.
  pub record IsConn (conn : Conn) : Type 0 where
    pub parser : IsValid conn.parser
    pub done : conn.ctx.noise.handshake_done ≡ true
    pub epoch : conn.ctx.epoch_id ≡ epoch_of c conn.ctx.noise.recv_key

  module _ (h : Handlers) where
    send_sw-IsConn : (conn : Conn) (sw : ℕ) → IsConn conn → IsConn (send_sw c h conn sw)
    unfolding send_sw encrypt
    send_sw-IsConn conn sw v = ground arith

    send_reply-IsConn :
        (pass : PassIo) (conn : Conn) (resp : List ℕ)
        → IsConn conn
        → IsConn (send_reply c h pass conn resp).1
    unfolding send_reply encrypt
    send_reply-IsConn pass conn resp v = ground arith

    run_frame-IsConn :
        (pass : PassIo) (conn : Conn) (f : ApduFrame)
        → IsConn conn
        → IsConn (run_frame c h pass conn f).1
    unfolding run_frame
    run_frame-IsConn pass conn f v =
        let req : Request = record { buf = conn.parser.buf; frame = f } in
        let (resp, world) = dispatch h pass.io conn.world req disp_resp_max conn.ctx.session_id in
        send_reply-IsConn pass (record conn { world = world; parser = consume conn.parser f }) resp
          (record { parser = (consume_lem f v.parser).1; done = v.done; epoch = v.epoch })

    handle_frame-IsConn :
        (pass : PassIo) (conn : Conn) (f : ApduFrame)
        → IsConn conn
        → IsConn (handle_frame c h pass conn f).1
    unfolding handle_frame
    handle_frame-IsConn pass conn f v =
        let accepted : Conn = record conn {
          ctx = record conn.ctx { last_seen_seq = seq_of conn.parser.buf f };
        } in
        let fresh : IsConn accepted = record {
          parser = v.parser;
          done = v.done;
          epoch = v.epoch;
        } in
        ground (
          arith,
          run_frame-IsConn pass conn f v,
          run_frame-IsConn pass accepted f fresh,
          send_sw-IsConn conn sw_access_denied v,
          send_sw-IsConn conn sw_replay_detected v,
        )

    handle_parsed-IsConn :
        (pass : PassIo) (conn : Conn) (result : ParseResult)
        → IsConn conn
        → IsConn (handle_parsed c h pass conn result).1
    unfolding handle_parsed
    handle_parsed-IsConn pass conn need_more v = v
    handle_parsed-IsConn pass conn err_version v = send_sw-IsConn conn sw_version v
    handle_parsed-IsConn pass conn err_rfu v = send_sw-IsConn conn sw_wrong_len v
    handle_parsed-IsConn pass conn err_ext_lc v = send_sw-IsConn conn sw_wrong_len v
    handle_parsed-IsConn pass conn err_length v = send_sw-IsConn conn sw_wrong_len v
    handle_parsed-IsConn pass conn (ready f) v = handle_frame-IsConn pass conn f v

    module _ (laws : Laws c) where
      decrypt_lem :
          (st : NoiseIkState) (cipher : List ℕ)
          → (decrypt c st cipher).0 ≡ ok
          → (length (decrypt c st cipher).2 ≡ length cipher - mac_size)
            × ((decrypt c st cipher).1.handshake_done ≡ true)
            × ((decrypt c st cipher).1.recv_key ≡ st.recv_key)
      unfolding decrypt
      decrypt_lem st cipher e =
          let n = length cipher - mac_size in
          let size =
            laws.plain_size st.recv_key (nonce12 st.recv_nonce) [] (take n cipher)
              (drop n cipher) in
          elim (Option-cases
            (c.aead_read st.recv_key (nonce12 st.recv_nonce) [] (take n cipher) (drop n cipher))) [
              | inl wrong ↦ ground (arith, wrong)
              | inr (m, right) ↦ ground (arith, right, size m right, length-take n cipher)
            ]

      received-IsConn :
          (conn : Conn) (cipher : List ℕ)
          → IsConn conn
          → (decrypt c conn.ctx.noise cipher).0 ≡ ok
          → length cipher - mac_size ≤ (recv_ptr conn.parser).1
          → IsConn (received c h conn cipher)
      received-IsConn conn cipher v e room =
          let (status, st, plain) = decrypt c conn.ctx.noise cipher in
          let (size, done, key) = decrypt_lem conn.ctx.noise cipher e in
          record {
            parser =
                subst (λ n. IsValid (recv_commit (write_received conn.parser plain) n)) size
                  (receive_lem plain v.parser (omega arith)).1;
            done = done;
            epoch = v.epoch ∙ ap (epoch_of c) (sym key);
          }

      handle_cipher-IsConn :
          (pass : PassIo) (conn : Conn) (cipher : List ℕ)
          → IsConn conn
          → IsConn (handle_cipher c h pass conn cipher).1
      unfolding handle_cipher
      handle_cipher-IsConn pass conn cipher v =
          let got = received c h conn cipher in
          ground (
            arith,
            received-IsConn conn cipher v,
            handle_parsed-IsConn pass got (try_parse got.parser),
          )

      pub handle_packet-IsConn :
          (pass : PassIo) (conn : Conn) → IsConn conn → IsConn (handle_packet c h pass conn).1
      handle_packet-IsConn pass conn v = elim (handle_packet-cases c h pass conn) [
        | inl (socket, e) ↦ rw e (record { parser = v.parser; done = v.done; epoch = v.epoch })
        | inr (socket, cipher, e) ↦ rw e (
            handle_cipher-IsConn pass (record conn { socket = socket }) cipher
              (record { parser = v.parser; done = v.done; epoch = v.epoch }))
      ]

      -- If the receive buffer is within its bounds, the handshake done and the epoch the receive
      -- key's, then this is so after any number of passes of the packet loop, whatever bytes the
      -- peer sends.
      pub packet_loop-IsConn :
          (passes : List PassIo) (conn : Conn)
          → IsConn conn
          → IsConn (packet_loop c h passes conn).1
      unfolding packet_loop
      packet_loop-IsConn [] conn v = v
      packet_loop-IsConn (pass ∷ passes) conn v =
          let next = handle_packet-IsConn pass conn v in
          ground (arith, next, packet_loop-IsConn passes (handle_packet c h pass conn).1 next)
