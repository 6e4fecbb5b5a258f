-- ===== src/System/Passes.antt =====
-- What a pass of the packet loop does to the state that the sessions share: src/asyd/asyd.c.
use asys.Base.{Bool-cases, ◌==◌, leb, ◌≡◌, ◌⊎◌, inl, inr, refl, arith, ℕ, List}
use asys.Crypto.{Crypto}
use asys.Apdu.{
  sec_plain, ApduFrame, ParseResult, ready, need_more, err_version, err_rfu, err_ext_lc, err_length,
  try_parse,
}
use asys.Handlers.{Request, disp_resp_max, sw_access_denied, sw_replay_detected}
use asys.Auth.{verify_auth_tag}
use asys.Dispatcher.{Handlers, dispatch}
use asys.Session.{Conn}
use asys.Session.Guard.{send_sw-Quiet, run_frame-world, received}
use asys.Session.Packet.{
  PassIo, seq_of, send_sw, send_reply, run_frame, handle_frame, handle_parsed, handle_cipher,
  handle_packet,
}
use asys.Session.Passes.{handle_packet-cases}

module _ (c : Crypto) (h : Handlers) where
  -- The shared state is as before, or as one dispatch for the session leaves it.
  pub record IsPassed (pass : PassIo) (conn conn' : Conn) : Type 0 where
    pub session : conn'.ctx.session_id ≡ conn.ctx.session_id
    pub agent : conn'.ctx.agent_pub ≡ conn.ctx.agent_pub
    pub world :
        (conn'.world ≡ conn.world)
        ⊎ ((req : Request) × (conn'.world
              ≡ (dispatch h pass.io conn.world req disp_resp_max conn.ctx.session_id).1))

  send_sw_ctx :
      (conn : Conn) (sw : ℕ)
      → let ctx = (send_sw c h conn sw).ctx in
        (ctx.session_id ≡ conn.ctx.session_id) × (ctx.agent_pub ≡ conn.ctx.agent_pub)
  unfolding send_sw
  send_sw_ctx conn sw = ground arith

  run_frame_ctx :
      (pass : PassIo) (conn : Conn) (f : ApduFrame)
      → let ctx = (run_frame c h pass conn f).1.ctx in
        (ctx.session_id ≡ conn.ctx.session_id) × (ctx.agent_pub ≡ conn.ctx.agent_pub)
  unfolding run_frame send_reply
  run_frame_ctx pass conn f = ground arith

  told : (pass : PassIo) (conn : Conn) (sw : ℕ) → IsPassed pass conn (send_sw c h conn sw)
  told pass conn sw = record {
    session = (send_sw_ctx conn sw).0;
    agent = (send_sw_ctx conn sw).1;
    world = inl (send_sw-Quiet c h conn sw).world;
  }

  run_frame-IsPassed :
      (pass : PassIo) (conn : Conn) (f : ApduFrame)
      → IsPassed pass conn (run_frame c h pass conn f).1
  run_frame-IsPassed pass conn f = record {
    session = (run_frame_ctx pass conn f).0;
    agent = (run_frame_ctx pass conn f).1;
    world = inr (record { buf = conn.parser.buf; frame = f }, (run_frame-world c h pass conn f).0);
  }

  handle_frame-IsPassed :
      (pass : PassIo) (conn : Conn) (f : ApduFrame)
      → IsPassed pass conn (handle_frame c h pass conn f).1
  unfolding handle_frame
  handle_frame-IsPassed pass conn f =
      let req : Request = record { buf = conn.parser.buf; frame = f } in
      let seq = seq_of conn.parser.buf f in
      let accepted : Conn = record conn { ctx = record conn.ctx { last_seen_seq = seq } } in
      let after = run_frame-IsPassed pass accepted f in
      elim (Bool-cases (f.sec == sec_plain)) [
        | inl plain ↦ rw plain (run_frame-IsPassed pass conn f)
        | inr signed ↦
            elim (Bool-cases (verify_auth_tag c conn.ctx.noise.recv_key req conn.ctx.epoch_id)) [
              | inr bad ↦ rw (signed, bad) (told pass conn sw_access_denied)
              | inl good ↦ elim (Bool-cases (leb seq conn.ctx.last_seen_seq)) [
                | inl seen ↦ rw (signed, good, seen) (told pass conn sw_replay_detected)
                | inr fresh ↦
                    rw (signed, good, fresh)
                      (record { session = after.session; agent = after.agent; world = after.world })
              ]
            ]
      ]

  handle_parsed-IsPassed :
      (pass : PassIo) (conn : Conn) (result : ParseResult)
      → IsPassed pass conn (handle_parsed c h pass conn result).1
  unfolding handle_parsed
  handle_parsed-IsPassed pass conn need_more = record {
    session = refl;
    agent = refl;
    world = inl refl;
  }
  handle_parsed-IsPassed pass conn err_version = told pass conn _
  handle_parsed-IsPassed pass conn err_rfu = told pass conn _
  handle_parsed-IsPassed pass conn err_ext_lc = told pass conn _
  handle_parsed-IsPassed pass conn err_length = told pass conn _
  handle_parsed-IsPassed pass conn (ready f) = handle_frame-IsPassed pass conn f

  handle_cipher-IsPassed :
      (pass : PassIo) (conn : Conn) (cipher : List ℕ)
      → IsPassed pass conn (handle_cipher c h pass conn cipher).1
  unfolding handle_cipher
  handle_cipher-IsPassed pass conn cipher =
      let got = received c h conn cipher in
      let after = handle_parsed-IsPassed pass got (try_parse got.parser) in
      let nothing : IsPassed pass conn conn = record {
        session = refl;
        agent = refl;
        world = inl refl;
      } in
      let done : IsPassed pass conn (handle_parsed c h pass got (try_parse got.parser)).1 = record {
        session = after.session;
        agent = after.agent;
        world = after.world;
      } in
      ground (arith, nothing, done)

  pub handle_packet-IsPassed :
      (pass : PassIo) (conn : Conn) → IsPassed pass conn (handle_packet c h pass conn).1
  handle_packet-IsPassed pass conn = elim (handle_packet-cases c h pass conn) [
    | inl (socket, e) ↦ rw e (record { session = refl; agent = refl; world = inl refl })
    | inr (socket, cipher, e) ↦
        let p = handle_cipher-IsPassed pass (record conn { socket = socket }) cipher in
        rw e (record { session = p.session; agent = p.agent; world = p.world })
  ]
