-- ===== src/Session/Step.antt =====
-- One pass of the packet loop in src/asyd/asyd.c on a packet that holds one message.
use asys.Base.{
  ℕ, ◌+◌, ◌-◌, ◌≤◌, ◌<◌, ◌≡◌, ◌≢◌, ◌⊎◌, inl, inr, refl, ap, ◌∙◌, true, false, List, [], ◌∷◌, ◌++◌,
  length, ltb, leb, ◌==◌, if◌then◌else◌, put_u16, arith,
}
use asys.Crypto.{Crypto, Laws}
use asys.Apdu.{
  ApduFrame, IsValid, pending, try_parse, ready, consume, recv_ptr, sec_plain, max_frame_size,
}
use asys.Apdu.Buffer.{receive_lem, recv_ptr_room, length-pending}
use asys.Apdu.Codec.{Message, IsMessage, encode, frame_of, length-encode}
use asys.Apdu.Sync.{try_parse-pieces}
use asys.Noise.{ok, mac_size}
use asys.Noise.Transport.{encrypt, decrypt}
use asys.Auth.{verify_auth_tag}
use asys.Handlers.{Request, disp_resp_max}
use asys.Dispatcher.{Handlers, dispatch}
use asys.Session.{Conn}
use asys.Session.Guard.{received}
use asys.Session.Replies.{encrypt_lem}
use asys.Session.Packet.{
  PassIo, continues, with_noise, seq_of, send_reply, run_frame, handle_frame, handle_parsed,
  handle_cipher,
}

abbrev request_in : Conn → ApduFrame → Request
request_in conn f = record { buf = conn.parser.buf; frame = f }

abbrev pub last_seq : ℕ → List ℕ → ApduFrame → ℕ
last_seq last buf f = if f.sec == sec_plain then last else seq_of buf f

abbrev pub accepted : Conn → ApduFrame → Conn
accepted conn f = record conn {
  ctx = record conn.ctx { last_seen_seq = last_seq conn.ctx.last_seen_seq conn.parser.buf f };
}

-- The tag of a frame is right and its number new, or it is plain.
abbrev pub MayRun : Crypto → Conn → ApduFrame → Type 0
MayRun c conn f =
    (f.sec ≡ sec_plain)
    ⊎ ((f.sec ≢ sec_plain)
        × (verify_auth_tag c conn.ctx.noise.recv_key (request_in conn f) conn.ctx.epoch_id ≡ true)
        × (conn.ctx.last_seen_seq < seq_of conn.parser.buf f))

module _ (c : Crypto) (h : Handlers) where
  pub handle_frame_runs :
      (pass : PassIo) (conn : Conn) (f : ApduFrame)
      → MayRun c conn f
      → handle_frame c h pass conn f ≡ run_frame c h pass (accepted conn f) f
  unfolding handle_frame
  handle_frame_runs pass conn f (inl e) =
      let plain : (f.sec == sec_plain) ≡ true = ground arith in rw plain refl
  handle_frame_runs pass conn f (inr (not_plain, right, new)) =
      let signed : (f.sec == sec_plain) ≡ false = ground arith in
      let fresh : leb (seq_of conn.parser.buf f) conn.ctx.last_seen_seq ≡ false = ground arith in
      rw (signed, right, fresh) refl

  -- The connection after its reply was sent.
  abbrev replied_to : Conn → List ℕ → Conn
  replied_to conn resp =
      let (status, st, enc) = encrypt c conn.ctx.noise resp in
      record (with_noise conn st) { sends = enc ∷ put_u16 (length resp + mac_size) ∷ conn.sends }

  module _ (laws : Laws c) where
    send_reply_ok :
        (pass : PassIo) (conn : Conn) (resp : List ℕ)
        → pass.prefix_sent ≡ true
        → pass.reply_sent ≡ true
        → conn.ctx.noise.handshake_done ≡ true
        → send_reply c h pass conn resp ≡ (continues, replied_to conn resp)
    unfolding send_reply
    send_reply_ok pass conn resp e e' done =
        let good = (encrypt_lem c laws conn.ctx.noise resp done).0 in
        rw (send_reply, good, e, e') refl

    -- The connection after a frame was dispatched and answered.
    abbrev pub done_with : PassIo → Conn → ApduFrame → Conn
    done_with pass conn f =
        let (resp, world) =
          dispatch h pass.io conn.world (request_in conn f) disp_resp_max conn.ctx.session_id in
        replied_to (record conn { world = world; parser = consume conn.parser f }) resp

    pub run_frame_ok :
        (pass : PassIo) (conn : Conn) (f : ApduFrame)
        → pass.prefix_sent ≡ true
        → pass.reply_sent ≡ true
        → conn.ctx.noise.handshake_done ≡ true
        → run_frame c h pass conn f ≡ (continues, done_with pass conn f)
    unfolding run_frame
    run_frame_ok pass conn f e e' done =
        let (resp, world) =
          dispatch h pass.io conn.world (request_in conn f) disp_resp_max conn.ctx.session_id in
        send_reply_ok pass (record conn { world = world; parser = consume conn.parser f }) resp e e'
          done

    -- A cipher text that decrypts to a message.
    pub record Carries (conn : Conn) (cipher : List ℕ) (m : Message) : Type 0 where
      pub status : (decrypt c conn.ctx.noise cipher).0 ≡ ok
      pub plain : (decrypt c conn.ctx.noise cipher).2 ≡ encode m
      pub size : length cipher ≡ length (encode m) + mac_size

    module _ (pass : PassIo) (conn : Conn) (cipher : List ℕ) (m : Message) (v : IsValid conn.parser)
        (empty : pending conn.parser ≡ []) (im : IsMessage m) (car : Carries conn cipher m) where
      length-encode_max : length (encode m) ≤ max_frame_size
      length-encode_max = ground (arith, length-encode m, im.body_size, im.tag_size)

      filled_none : conn.parser.filled ≡ 0
      filled_none =
          omega
            (arith, length-pending conn.parser (omega (arith, v.size, v.within)), ap length empty)

      plain_size : length cipher - mac_size ≡ length (encode m)
      plain_size = omega (arith, car.size)

      room : length (encode m) ≤ (recv_ptr conn.parser).1
      room = rw (recv_ptr_room v) (omega (arith, filled_none, length-encode_max))

      pub received-pending :
          (pending (received c h conn cipher).parser ≡ encode m)
          × IsValid (received c h conn cipher).parser
      received-pending =
          let (bytes, v') = receive_lem (encode m) v room in
          rw (car.plain, plain_size) (bytes ∙ ap (λ l. l ++ encode m) empty, v')

      received_parse : try_parse (received c h conn cipher).parser ≡ ready (frame_of m)
      received_parse =
          let p = (received c h conn cipher).parser in
          let (bytes, v') = received-pending in
          let inside : p.filled ≤ length p.buf = omega (arith, v'.size, v'.within) in
          let full : leb (length (encode m)) p.filled ≡ true =
            ground (arith, length-pending p inside, ap length bytes) in
          try_parse-pieces p m [] [] im (ap (λ l. l ++ []) bytes) inside ∙ rw full refl

      pub handle_cipher_frame :
          handle_cipher c h pass conn cipher
          ≡ handle_frame c h pass (received c h conn cipher) (frame_of m)
      unfolding handle_cipher handle_parsed
      handle_cipher_frame =
          let fits : ltb (recv_ptr conn.parser).1 (length cipher - mac_size) ≡ false =
            ground (arith, plain_size, room) in
          rw (fits, car.status, received_parse) refl
