-- ===== src/Session/Guard.antt =====
-- What a packet must carry before the daemon acts: the checks of the packet loop in
-- src/asyd/asyd.c, with the handlers of src/asyd/core/dispatcher.c.
use asys.Base.{ℕ, ◌-◌, ◌<◌, ◌≡◌, ◌≢◌, ◌⊎◌, inl, inr, refl, ◌∙◌, ap, true, List, length, arith}
use asys.Crypto.{Crypto}
use asys.Apdu.{
  ApduFrame, ParseResult, ready, need_more, err_version, err_rfu, err_ext_lc, err_length, try_parse,
  write_received, recv_commit, consume, sec_signed,
}
use asys.Noise.{ok, mac_size}
use asys.Noise.Transport.{decrypt}
use asys.Auth.{verify_auth_tag}
use asys.Handlers.{Request, disp_resp_max, sw_access_denied, sw_replay_detected}
use asys.Dispatcher.{Handlers, dispatch}
use asys.Dispatcher.Guarded.{Installed, dispatch_unsigned}
use asys.Session.{SessionCtx, Conn}
use asys.Session.Passes.{handle_packet-cases}
use asys.Session.Packet.{
  PassIo, with_noise, seq_of, send_sw, send_reply, run_frame, handle_frame, handle_parsed,
  handle_cipher, handle_packet,
}

module _ (c : Crypto) (h : Handlers) where
  -- Sending leaves the shared state and the sequence number as they are.
  pub record Quiet (conn conn' : Conn) : Type 0 where
    pub world : conn'.world ≡ conn.world
    pub seq : conn'.ctx.last_seen_seq ≡ conn.ctx.last_seen_seq

  pub send_sw-Quiet : (conn : Conn) (sw : ℕ) → Quiet conn (send_sw c h conn sw)
  unfolding send_sw
  send_sw-Quiet conn sw = ground arith

  send_reply-Quiet :
      (pass : PassIo) (conn : Conn) (resp : List ℕ) → Quiet conn (send_reply c h pass conn resp).1
  unfolding send_reply
  send_reply-Quiet pass conn resp = ground arith

  pub run_frame-world :
      (pass : PassIo) (conn : Conn) (f : ApduFrame)
      → let req : Request = record { buf = conn.parser.buf; frame = f } in
        let out = (run_frame c h pass conn f).1 in
        (out.world ≡ (dispatch h pass.io conn.world req disp_resp_max conn.ctx.session_id).1)
        × (out.ctx.last_seen_seq ≡ conn.ctx.last_seen_seq)
  unfolding run_frame
  run_frame-world pass conn f =
      let req : Request = record { buf = conn.parser.buf; frame = f } in
      let (resp, world) = dispatch h pass.io conn.world req disp_resp_max conn.ctx.session_id in
      let quiet =
        send_reply-Quiet pass (record conn { world = world; parser = consume conn.parser f })
          resp in
      (quiet.world, quiet.seq)

  -- The connection with a packet decrypted into the parser's buffer.
  abbrev pub received : Conn → List ℕ → Conn
  received conn cipher =
      let (status, st, plain) = decrypt c conn.ctx.noise cipher in
      record (with_noise conn st) {
        parser = recv_commit (write_received conn.parser plain) (length cipher - mac_size);
      }

  -- The frame is signed with the session's key and new: its number is above the last one, and is
  -- the last one afterwards.
  pub record IsAuthentic (ctx : SessionCtx) (buf : List ℕ) (f : ApduFrame) (conn' : Conn)
      : Type 0 where
    pub signed : f.sec ≡ sec_signed
    pub verified :
        verify_auth_tag c ctx.noise.recv_key (record { buf = buf; frame = f }) ctx.epoch_id ≡ true
    pub fresh : ctx.last_seen_seq < seq_of buf f
    pub recorded : conn'.ctx.last_seen_seq ≡ seq_of buf f

  -- A packet that decrypted, the frame that it completed, and that the frame is authentic.
  pub record IsAccepted (conn conn' : Conn) (cipher : List ℕ) (f : ApduFrame) : Type 0 where
    pub decrypted : (decrypt c conn.ctx.noise cipher).0 ≡ ok
    pub complete : try_parse (received conn cipher).parser ≡ ready f
    pub authentic : IsAuthentic (received conn cipher).ctx (received conn cipher).parser.buf f conn'

  module _ (rand_r : ℕ → ℕ × ℕ) (installed : Installed rand_r h) where
    run_unsigned :
        (pass : PassIo) (conn : Conn) (f : ApduFrame)
        → f.sec ≢ sec_signed
        → (run_frame c h pass conn f).1.world.effects ≡ conn.world.effects
    run_unsigned pass conn f unsigned =
        ap (λ w. w.effects) (run_frame-world pass conn f).0
        ∙ dispatch_unsigned rand_r h installed pass.io conn.world
            (record { buf = conn.parser.buf; frame = f }) disp_resp_max conn.ctx.session_id unsigned

    handle_frame-guard :
        (pass : PassIo) (conn : Conn) (f : ApduFrame)
        → let conn' = (handle_frame c h pass conn f).1 in
          (conn'.world.effects ≡ conn.world.effects) ⊎ IsAuthentic conn.ctx conn.parser.buf f conn'
    unfolding handle_frame
    handle_frame-guard pass conn f =
        let seq = seq_of conn.parser.buf f in
        let accepted : Conn = record conn { ctx = record conn.ctx { last_seen_seq = seq } } in
        ground (
          arith,
          run_unsigned pass conn f,
          run_unsigned pass accepted f,
          run_frame-world pass accepted f,
          send_sw-Quiet conn sw_access_denied,
          send_sw-Quiet conn sw_replay_detected,
        )

    handle_parsed-guard :
        (pass : PassIo) (conn : Conn) (result : ParseResult)
        → let conn' = (handle_parsed c h pass conn result).1 in
          (conn'.world.effects ≡ conn.world.effects)
          ⊎ ((f : ApduFrame) × (result ≡ ready f) × IsAuthentic conn.ctx conn.parser.buf f conn')
    unfolding handle_parsed
    handle_parsed-guard pass conn need_more = inl refl
    handle_parsed-guard pass conn err_version =
        inl (ap (λ w. w.effects) (send_sw-Quiet conn _).world)
    handle_parsed-guard pass conn err_rfu = inl (ap (λ w. w.effects) (send_sw-Quiet conn _).world)
    handle_parsed-guard pass conn err_ext_lc =
        inl (ap (λ w. w.effects) (send_sw-Quiet conn _).world)
    handle_parsed-guard pass conn err_length =
        inl (ap (λ w. w.effects) (send_sw-Quiet conn _).world)
    handle_parsed-guard pass conn (ready f) = elim (handle_frame-guard pass conn f) [
      | inl e ↦ inl e
      | inr a ↦ inr (f, refl, a)
    ]

    handle_cipher-guard :
        (pass : PassIo) (conn : Conn) (cipher : List ℕ)
        → let conn' = (handle_cipher c h pass conn cipher).1 in
          (conn'.world.effects ≡ conn.world.effects)
          ⊎ ((f : ApduFrame) × IsAccepted conn conn' cipher f)
    unfolding handle_cipher
    handle_cipher-guard pass conn cipher = ground (
      arith,
      handle_parsed-guard pass (received conn cipher) (try_parse (received conn cipher).parser),
    )

    -- With the daemon's handlers: a pass of the packet loop asks the system for nothing, or its
    -- packet decrypts under the session's key and completes a signed frame whose tag the session's
    -- key verifies and whose sequence number is above the last one accepted, and is the last one
    -- then.
    pub handle_packet-guard :
        (pass : PassIo) (conn : Conn)
        → let conn' = (handle_packet c h pass conn).1 in
          (conn'.world.effects ≡ conn.world.effects)
          ⊎ ((cipher : List ℕ) × (f : ApduFrame) × IsAccepted conn conn' cipher f)
    handle_packet-guard pass conn = elim (handle_packet-cases c h pass conn) [
      | inl (socket, e) ↦ rw e (inl refl)
      | inr (socket, cipher, e) ↦
          rw e (elim (handle_cipher-guard pass (record conn { socket = socket }) cipher) [
            | inl same ↦ inl same
            | inr (f, a) ↦ inr (
              cipher,
              f,
              record { decrypted = a.decrypted; complete = a.complete; authentic = a.authentic },
            )
          ])
    ]
