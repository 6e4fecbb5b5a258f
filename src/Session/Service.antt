-- ===== src/Session/Service.antt =====
-- A whole conversation: what an agent gets for a list of messages from the packet loop in
-- src/asyd/asyd.c.
use asys.Base.{
  ℕ, ◌+◌, ◌<◌, ◌≡◌, refl, sym, ap, ◌∙◌, true, List, [], ◌∷◌, ◌++◌, length, drop, drop_past, put_u16,
  arith,
}
use asys.Crypto.{Crypto, Laws}
use asys.Apdu.{IsValid, pending}
use asys.Apdu.Buffer.{consume_lem}
use asys.Apdu.Codec.{Message, IsMessage, encode, frame_of}
use asys.Noise.{NoiseIkState, ok, mac_size}
use asys.Noise.Transport.{encrypt, decrypt}
use asys.Noise.Stream.{
  Paired, decrypt_sealed, Paired-decrypt, Paired-encrypt, recv_key-decrypt, recv_key-encrypt,
}
use asys.Handlers.{World, disp_resp_max}
use asys.Dispatcher.{Handlers, dispatch}
use asys.Dispatcher.Guarded.{Installed}
use asys.Dispatcher.Locality.{request, dispatch_local}
use asys.Session.{Conn}
use asys.Session.Receive.{IsOpen, joined}
use asys.Session.Guard.{received}
use asys.Session.Replies.{encrypt_lem}
use asys.Session.Admissible.{Admissible, Admissible-MayRun, encode-SameData}
use asys.Session.Step.{
  MayRun, Carries, handle_cipher_frame, received-pending, done_with, run_frame_ok,
  handle_frame_runs, MayRun, last_seq, accepted,
}
use asys.Session.Wire.{handle_packet_reads}
use asys.Session.Packet.{PassIo, continues, handle_packet, handle_cipher}

module _ (c : Crypto) (h : Handlers) where
  -- The connection waits for a packet, with an empty buffer. `up` is the agent's state as it sends
  -- and `down` as it receives.
  pub record Ready (up down : NoiseIkState) (conn : Conn) : Type 0 where
    pub parser : IsValid conn.parser
    pub empty : pending conn.parser ≡ []
    pub requests : Paired c up conn.ctx.noise
    pub replies : Paired c conn.ctx.noise down
    pub is_open : IsOpen conn.socket

  -- What the daemon replies to a message, and its state then.
  abbrev pub reply_to : PassIo → World → ℕ → Message → List ℕ × World
  reply_to pass w session_id m =
      dispatch h pass.io w (request (encode m) (frame_of m)) disp_resp_max session_id

  -- A pass that answered a message, with the agent's next packets behind it.
  pub record Served (up down : NoiseIkState) (pass : PassIo) (m : Message) (conn conn' : Conn)
      (behind : List ℕ) : Type 0 where
    pub packet : List ℕ
    pub goes_on : handle_packet c h pass conn ≡ (continues, conn')
    pub sent : conn'.sends ≡ packet ∷ put_u16 (length packet) ∷ conn.sends
    pub arrives : (decrypt c down packet).0 ≡ ok
    pub reads : (decrypt c down packet).2 ≡ (reply_to pass conn.world conn.ctx.session_id m).0
    pub world : conn'.world ≡ (reply_to pass conn.world conn.ctx.session_id m).1
    pub ready : Ready (encrypt c up (encode m)).1 (decrypt c down packet).1 conn'
    pub left : joined conn'.socket ≡ behind
    pub seq : conn'.ctx.last_seen_seq ≡ last_seq conn.ctx.last_seen_seq (encode m) (frame_of m)
    pub key : conn'.ctx.noise.recv_key ≡ conn.ctx.noise.recv_key
    pub epoch : conn'.ctx.epoch_id ≡ conn.ctx.epoch_id
    pub session : conn'.ctx.session_id ≡ conn.ctx.session_id

  module _ (laws : Laws c) (rand_r : ℕ → ℕ × ℕ) (ins : Installed rand_r h) where
    module _ (up down : NoiseIkState) (pass : PassIo) (m : Message) (conn : Conn) (behind : List ℕ)
        (rd : Ready up down conn) (im : IsMessage m) (short : length (encode m) < 65520)
        (e : pass.prefix_sent ≡ true) (e' : pass.reply_sent ≡ true)
        (ok_m : Admissible c conn.ctx.noise.recv_key conn.ctx.epoch_id conn.ctx.last_seen_seq m)
        (here : joined conn.socket
          ≡ put_u16 (length (encrypt c up (encode m)).2)
            ++ ((encrypt c up (encode m)).2 ++ behind)) where
      abbrev sealed : List ℕ
      sealed = (encrypt c up (encode m)).2

      opened :
          ((decrypt c conn.ctx.noise sealed).0 ≡ ok)
          × ((decrypt c conn.ctx.noise sealed).2 ≡ encode m)
          × Paired c (encrypt c up (encode m)).1 (decrypt c conn.ctx.noise sealed).1
      opened = decrypt_sealed c laws up conn.ctx.noise (encode m) rd.requests

      length-sealed : length sealed ≡ length (encode m) + mac_size
      length-sealed = (encrypt_lem c laws up (encode m) rd.requests.sender_done).1

      arrival :
          (socket : List (List ℕ)) × (handle_packet c h pass conn
            ≡ handle_cipher c h pass (record conn { socket = socket }) sealed)
          × IsOpen socket
          × (joined socket ≡ behind)
      arrival =
          handle_packet_reads c h pass conn sealed behind rd.is_open here
            (omega (arith, length-sealed)) (omega (arith, length-sealed, short))

      abbrev waiting : Conn
      waiting = record conn { socket = arrival.0 }

      carries : Carries c h laws waiting sealed m
      carries = record { status = opened.0; plain = opened.1; size = length-sealed }

      -- The connection with the message in its buffer.
      abbrev filled : Conn
      filled = received c h waiting sealed

      holds : (pending filled.parser ≡ encode m) × IsValid filled.parser
      holds = received-pending c h laws pass waiting sealed m rd.parser rd.empty im carries

      kept :
          (filled.ctx.noise.recv_key ≡ conn.ctx.noise.recv_key)
          × (filled.ctx.noise.handshake_done ≡ true)
          × Paired c filled.ctx.noise down
      kept =
          let down_ready = Paired-decrypt c conn.ctx.noise down sealed rd.replies in
          (recv_key-decrypt c conn.ctx.noise sealed, down_ready.sender_done, down_ready)

      may_run :
          MayRun c filled (frame_of m)
          × (last_seq conn.ctx.last_seen_seq filled.parser.buf (frame_of m)
              ≡ last_seq conn.ctx.last_seen_seq (encode m) (frame_of m))
      may_run =
          Admissible-MayRun c conn.ctx.noise.recv_key conn.ctx.epoch_id filled m im holds.0 kept.0
            refl ok_m

      abbrev after : Conn
      after = done_with c h laws pass (accepted filled (frame_of m)) (frame_of m)

      goes_on : handle_packet c h pass conn ≡ (continues, after)
      goes_on =
          arrival.1
          ∙ (handle_cipher_frame c h laws pass waiting sealed m rd.parser rd.empty im carries
              ∙ (handle_frame_runs c h pass filled (frame_of m) may_run.0
                  ∙ run_frame_ok c h laws pass (accepted filled (frame_of m)) (frame_of m) e e'
                      kept.1))

      same_reply :
          dispatch h pass.io conn.world
            (request filled.parser.buf (frame_of m))
            disp_resp_max
            conn.ctx.session_id
          ≡ reply_to pass conn.world conn.ctx.session_id m
      same_reply =
          dispatch_local rand_r h ins pass.io conn.world (frame_of m) filled.parser.buf (encode m)
            disp_resp_max conn.ctx.session_id
            (encode-SameData m im filled.parser.buf filled.parser.filled holds.0)

      abbrev reply : List ℕ
      reply =
          (dispatch h pass.io conn.world (request filled.parser.buf (frame_of m)) disp_resp_max
            conn.ctx.session_id).0

      answered :
          ((decrypt c down (encrypt c filled.ctx.noise reply).2).0 ≡ ok)
          × ((decrypt c down (encrypt c filled.ctx.noise reply).2).2 ≡ reply)
          × Paired c
              (encrypt c filled.ctx.noise reply).1
              (decrypt c down (encrypt c filled.ctx.noise reply).2).1
      answered = decrypt_sealed c laws filled.ctx.noise down reply kept.2

      after-Ready :
          Ready
            (encrypt c up (encode m)).1
            (decrypt c down (encrypt c filled.ctx.noise reply).2).1
            after
      after-Ready =
          let (left, v) = consume_lem (frame_of m) holds.1 in
          record {
            parser = v;
            empty =
                left
                ∙ (ap (drop (length (encode m))) holds.0
                    ∙ drop_past (length (encode m)) (encode m) (omega arith));
            requests = Paired-encrypt c filled.ctx.noise (encrypt c up (encode m)).1 reply opened.2;
            replies = answered.2;
            is_open = arrival.2;
          }

      after-Served : Served up down pass m conn after behind
      after-Served = record {
        packet = (encrypt c filled.ctx.noise reply).2;
        goes_on = goes_on;
        sent =
            ap (λ n. (encrypt c filled.ctx.noise reply).2 ∷ put_u16 n ∷ conn.sends)
              (sym (encrypt_lem c laws filled.ctx.noise reply kept.1).1);
        arrives = answered.0;
        reads = answered.1 ∙ ap (λ r. r.0) same_reply;
        world = ap (λ r. r.1) same_reply;
        ready = after-Ready;
        left = arrival.3;
        seq = may_run.1;
        key = recv_key-encrypt c filled.ctx.noise reply ∙ kept.0;
        epoch = refl;
        session = refl;
      }

      -- The pass answers the message, and the connection is ready for the next.
      pub served : (conn' : Conn) × Served up down pass m conn conn' behind
      served = (after, after-Served)
