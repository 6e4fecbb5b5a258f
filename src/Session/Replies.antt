-- ===== src/Session/Replies.antt =====
-- What the agent reads for each frame: the replies of the packet loop in src/asyd/asyd.c.
use asys.Base.{
  ℕ, ◌+◌, ◌<◌, ◌≡◌, ◌≢◌, refl, ◌∙◌, sym, ap, ap₂, true, false, List, [], ◌∷◌, leb, ◌==◌, length,
  length-append, put_u16, arith,
}
use asys.Crypto.{Crypto, Laws}
use asys.Apdu.{ApduFrame, consume, sec_plain}
use asys.Noise.{ok, mac_size, nonce12, NoiseIkState}
use asys.Noise.Transport.{encrypt, decrypt}
use asys.Noise.Stream.{Paired, decrypt_sealed}
use asys.Auth.{verify_auth_tag}
use asys.Handlers.{Request, sw_write, disp_resp_max}
use asys.Dispatcher.{Handlers, dispatch}
use asys.Session.{Conn}
use asys.Session.Packet.{PassIo, continues, seq_of, send_sw, send_reply, run_frame, handle_frame}

module _ (c : Crypto) where
  -- One packet was sent with its length before it; the agent, whose state is `client`, decrypts it
  -- to the reply and is ready for the next.
  pub record Answers (client : NoiseIkState) (conn conn' : Conn) (reply : List ℕ) : Type 0 where
    pub packet : List ℕ
    pub sent : conn'.sends ≡ packet ∷ put_u16 (length packet) ∷ conn.sends
    pub arrives : (decrypt c client packet).0 ≡ ok
    pub reads : (decrypt c client packet).2 ≡ reply
    pub paired : Paired c conn'.ctx.noise (decrypt c client packet).1

  module _ (laws : Laws c) where
    pub encrypt_lem :
        (st : NoiseIkState) (m : List ℕ)
        → st.handshake_done ≡ true
        → ((encrypt c st m).0 ≡ ok) × (length (encrypt c st m).2 ≡ length m + mac_size)
    unfolding encrypt
    encrypt_lem st m done =
        let (text, mac) = c.aead_write st.send_key (nonce12 st.send_nonce) [] m in
        rw done (
          refl,
          length-append text mac
              ∙ ap₂ ◌+◌ (laws.cipher_size st.send_key (nonce12 st.send_nonce) [] m)
                  (laws.mac_size st.send_key (nonce12 st.send_nonce) [] m),
        )

    module _ (h : Handlers) (client : NoiseIkState) where
      pub send_sw-Answers :
          (conn : Conn) (sw : ℕ)
          → Paired c conn.ctx.noise client
          → Answers client conn (send_sw c h conn sw) (sw_write sw)
      unfolding send_sw
      send_sw-Answers conn sw p =
          let (status, st, enc) = encrypt c conn.ctx.noise (sw_write sw) in
          let (good, size) = encrypt_lem conn.ctx.noise (sw_write sw) p.sender_done in
          let (arrives, reads, paired) =
            decrypt_sealed c laws conn.ctx.noise client (sw_write sw) p in
          rw (send_sw, good)
            (record {
              packet = enc;
              sent = refl;
              arrives = arrives;
              reads = reads;
              paired = paired;
            })

      send_reply-Answers :
          (pass : PassIo) (conn : Conn) (resp : List ℕ)
          → pass.prefix_sent ≡ true
          → pass.reply_sent ≡ true
          → Paired c conn.ctx.noise client
          → ((send_reply c h pass conn resp).0 ≡ continues)
            × Answers client conn (send_reply c h pass conn resp).1 resp
      unfolding send_reply
      send_reply-Answers pass conn resp e e' p =
          let (status, st, enc) = encrypt c conn.ctx.noise resp in
          let (good, size) = encrypt_lem conn.ctx.noise resp p.sender_done in
          let (arrives, reads, paired) = decrypt_sealed c laws conn.ctx.noise client resp p in
          rw (send_reply, good, e, e')
            (
              refl,
              record {
                packet = enc;
                sent = ap (λ n. enc ∷ put_u16 n ∷ conn.sends) (sym size);
                arrives = arrives;
                reads = reads;
                paired = paired;
              },
            )

      run_frame-Answers :
          (pass : PassIo) (conn : Conn) (f : ApduFrame)
          → pass.prefix_sent ≡ true
          → pass.reply_sent ≡ true
          → Paired c conn.ctx.noise client
          → ((run_frame c h pass conn f).0 ≡ continues)
            × Answers client conn
                (run_frame c h pass conn f).1
                (dispatch h pass.io conn.world
                  (record { buf = conn.parser.buf; frame = f })
                  disp_resp_max
                  conn.ctx.session_id).0
      unfolding run_frame
      run_frame-Answers pass conn f e e' p =
          let req : Request = record { buf = conn.parser.buf; frame = f } in
          let (resp, world) = dispatch h pass.io conn.world req disp_resp_max conn.ctx.session_id in
          let (goes, a) =
            send_reply-Answers pass (record conn { world = world; parser = consume conn.parser f })
              resp e e' p in
          (
            goes,
            record {
              packet = a.packet;
              sent = a.sent;
              arrives = a.arrives;
              reads = a.reads;
              paired = a.paired;
            },
          )

      -- The frame may be dispatched: it is plain, or its tag is right and its number new.
      pub data Admits (conn : Conn) (f : ApduFrame) : Type 0 where
        plain : f.sec ≡ sec_plain → Admits conn f
        signed :
            f.sec ≢ sec_plain
            → verify_auth_tag c conn.ctx.noise.recv_key
                (record { buf = conn.parser.buf; frame = f })
                conn.ctx.epoch_id
              ≡ true
            → conn.ctx.last_seen_seq < seq_of conn.parser.buf f
            → Admits conn f

      -- A frame that is plain, or has a right tag and a new number, is answered with the
      -- dispatcher's reply, and the session goes on, if the system sends the two parts of the
      -- reply. An agent whose state is paired with the daemon's decrypts the reply and is paired
      -- again.
      handle_frame-Answers :
          (pass : PassIo) (conn : Conn) (f : ApduFrame)
          → pass.prefix_sent ≡ true
          → pass.reply_sent ≡ true
          → Paired c conn.ctx.noise client
          → Admits conn f
          → ((handle_frame c h pass conn f).0 ≡ continues)
            × Answers client conn
                (handle_frame c h pass conn f).1
                (dispatch h pass.io conn.world
                  (record { buf = conn.parser.buf; frame = f })
                  disp_resp_max
                  conn.ctx.session_id).0
      unfolding handle_frame
      handle_frame-Answers pass conn f e e' p (plain is_plain) =
          let test : (f.sec == sec_plain) ≡ true = ground arith in
          rw (handle_frame, test) (run_frame-Answers pass conn f e e' p)
      handle_frame-Answers pass conn f e e' p (signed not_plain good new) =
          let seq = seq_of conn.parser.buf f in
          let test : (f.sec == sec_plain) ≡ false = ground arith in
          let above : leb seq conn.ctx.last_seen_seq ≡ false = ground arith in
          let accepted : Conn = record conn { ctx = record conn.ctx { last_seen_seq = seq } } in
          let (goes, a) = run_frame-Answers pass accepted f e e' p in
          rw (handle_frame, test, good, above)
            (
              goes,
              record {
                packet = a.packet;
                sent = a.sent;
                arrives = a.arrives;
                reads = a.reads;
                paired = a.paired;
              },
            )
