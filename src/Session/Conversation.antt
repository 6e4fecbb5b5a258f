-- ===== src/Session/Conversation.antt =====
-- A whole conversation: what an agent gets for a list of messages from the packet loop in
-- src/asyd/asyd.c.
use asys.Base.{
  arith, length-append, ℕ, ◌<◌, ◌≡◌, refl, ap, ap₂, ◌∙◌, true, List, [], ◌∷◌, length, put_u16,
}
use asys.Crypto.{Crypto, Laws}
use asys.Apdu.{pending}
use asys.Apdu.Codec.{Message, IsMessage, encode, frame_of}
use asys.Noise.{NoiseIkState}
use asys.Noise.Transport.{encrypt, decrypt}
use asys.Noise.Stream.{seal_all, open_all}
use asys.Handlers.{World}
use asys.Dispatcher.{Handlers}
use asys.Dispatcher.Guarded.{Installed}
use asys.Session.{Conn}
use asys.Session.Receive.{IsOpen, joined}
use asys.Session.Admissible.{Admissible}
use asys.Session.Step.{last_seq}
use asys.Session.Wire.{wire}
use asys.Session.Packet.{PassIo, continues, handle_packet, packet_loop}
use asys.Session.Service.{Ready, Served, reply_to, served}

-- A message, with what the system answers in the pass that handles it.
abbrev pub Job : Type 0
Job = PassIo × Message

abbrev pub encoded : List Job → List (List ℕ)
encoded [] = []
encoded ((pass, m) ∷ jobs) = encode m ∷ encoded jobs

abbrev pub passes : List Job → List PassIo
passes [] = []
passes ((pass, m) ∷ jobs) = pass ∷ passes jobs

-- Well-formed messages that fit a packet with its 16-bit length, each plain or with a right tag and
-- a number above those before, and a system that takes the replies.
unfoldable pub AreRequests : Crypto → (key epoch : List ℕ) → ℕ → List Job → Type 0
AreRequests c key epoch last [] = Unit
AreRequests c key epoch last ((pass, m) ∷ jobs) =
    (IsMessage m
      × (length (encode m) < 65520)
      × (pass.prefix_sent ≡ true)
      × (pass.reply_sent ≡ true)
      × Admissible c key epoch last m)
    × AreRequests c key epoch (last_seq last (encode m) (frame_of m)) jobs

-- What was sent, latest first, after packets with their lengths.
abbrev pub sent_on : List (List ℕ) → List (List ℕ) → List (List ℕ)
sent_on [] sends = sends
sent_on (p ∷ ps) sends = sent_on ps (p ∷ put_u16 (length p) ∷ sends)

pub silent : (socket : List (List ℕ)) → IsOpen socket → joined socket ≡ [] → socket ≡ []
unfolding joined
silent [] flowing e = refl
silent (chunk ∷ socket) (some_bytes, flowing) e =
    absurd (omega (arith, ap length e, length-append chunk (joined socket)))

module _ (c : Crypto) (h : Handlers) where
  -- The dispatcher's replies to the messages, one after another, and the daemon's state then.
  unfoldable pub conversation : List Job → World → ℕ → List (List ℕ) × World
  conversation [] w session_id = ([], w)
  conversation ((pass, m) ∷ jobs) w session_id =
      let (reply, w') = reply_to c h pass w session_id m in
      let (replies, w'') = conversation jobs w' session_id in (reply ∷ replies, w'')

  -- The loop has answered all messages, and waits for the next.
  pub record Answered (down : NoiseIkState) (jobs : List Job) (conn : Conn) : Type 0 where
    pub goes_on : (packet_loop c h (passes jobs) conn).0 ≡ continues
    pub packets : List (List ℕ)
    pub sent : (packet_loop c h (passes jobs) conn).1.sends ≡ sent_on packets conn.sends
    pub reads : open_all c down packets ≡ (conversation jobs conn.world conn.ctx.session_id).0
    pub world :
        (packet_loop c h (passes jobs) conn).1.world
        ≡ (conversation jobs conn.world conn.ctx.session_id).1
    pub empty : pending (packet_loop c h (passes jobs) conn).1.parser ≡ []
    pub drained : (packet_loop c h (passes jobs) conn).1.socket ≡ []
    pub session : (packet_loop c h (passes jobs) conn).1.ctx.session_id ≡ conn.ctx.session_id

  loop_step :
      (pass : PassIo) (conn conn' : Conn) (more : List PassIo)
      → handle_packet c h pass conn ≡ (continues, conn')
      → packet_loop c h (pass ∷ more) conn ≡ packet_loop c h more conn'
  unfolding packet_loop
  loop_step pass conn conn' more e =
      rw (packet_loop, ap (λ r. r.0) e) (ap (λ r. packet_loop c h more r.1) e)

  Answered-cons :
      (up down : NoiseIkState) (pass : PassIo) (m : Message) (jobs : List Job) (conn conn' : Conn)
      (behind : List ℕ) (s : Served c h up down pass m conn conn' behind)
      → Answered (decrypt c down s.packet).1 jobs conn'
      → Answered down ((pass, m) ∷ jobs) conn
  unfolding conversation open_all
  Answered-cons up down pass m jobs conn conn' behind s a =
      let loop = loop_step pass conn conn' (passes jobs) s.goes_on in
      let rest = ap₂ (conversation jobs) s.world s.session in
      record {
        goes_on = ap (λ r. r.0) loop ∙ a.goes_on;
        packets = s.packet ∷ a.packets;
        sent = ap (λ r. r.1.sends) loop ∙ (a.sent ∙ ap (sent_on a.packets) s.sent);
        reads = rw (open_all, s.arrives) (ap₂ ◌∷◌ s.reads (a.reads ∙ ap (λ r. r.0) rest));
        world = ap (λ r. r.1.world) loop ∙ (a.world ∙ ap (λ r. r.1) rest);
        empty = ap (λ r. pending r.1.parser) loop ∙ a.empty;
        drained = ap (λ r. r.1.socket) loop ∙ a.drained;
        session = ap (λ r. r.1.ctx.session_id) loop ∙ (a.session ∙ s.session);
      }

  module _ (laws : Laws c) (rand_r : ℕ → ℕ × ℕ) (ins : Installed rand_r h) where
    answers_from :
        (jobs : List Job) (up down : NoiseIkState) (conn : Conn)
        → Ready c h up down conn
        → joined conn.socket ≡ wire (seal_all c up (encoded jobs))
        → AreRequests c conn.ctx.noise.recv_key conn.ctx.epoch_id conn.ctx.last_seen_seq jobs
        → Answered down jobs conn
    unfolding wire seal_all packet_loop conversation open_all AreRequests
    answers_from [] up down conn rd here ok_jobs = record {
      goes_on = refl;
      packets = [];
      sent = refl;
      reads = refl;
      world = refl;
      empty = rd.empty;
      drained = silent conn.socket rd.is_open here;
      session = refl;
    }
    answers_from ((pass, m) ∷ jobs) up down conn rd here ((im, short, e, e', ok_m), ok_jobs) =
        let behind = wire (seal_all c (encrypt c up (encode m)).1 (encoded jobs)) in
        let (conn', s) =
          served c h laws rand_r ins up down pass m conn behind rd im short e e' ok_m here in
        let later =
          answers_from jobs (encrypt c up (encode m)).1 (decrypt c down s.packet).1 conn' s.ready
            s.left (rw (s.key, s.epoch, s.seq) ok_jobs) in
        Answered-cons up down pass m jobs conn conn' behind s later

    -- An agent whose state is paired with the daemon's in both directions seals well-formed
    -- messages of less than 65520 bytes, each plain or with a right tag and a number above those
    -- before, and the chunks of the socket bring the packets with their lengths, with no empty
    -- chunk. If the system takes the replies, and the daemon has its own handlers and an empty
    -- valid buffer, then the packet loop answers all of them: after one pass for each it goes on,
    -- with an empty buffer, all bytes read, and the state that dispatching the messages in order
    -- leads to, and what it has sent are the packets that the agent opens to the dispatcher's
    -- replies, in order.
    pub packet_loop-Answered :
        (jobs : List Job) (agent : NoiseIkState) (conn : Conn)
        → Ready c h agent agent conn
        → joined conn.socket ≡ wire (seal_all c agent (encoded jobs))
        → AreRequests c conn.ctx.noise.recv_key conn.ctx.epoch_id conn.ctx.last_seen_seq jobs
        → Answered agent jobs conn
    packet_loop-Answered jobs agent = answers_from jobs agent agent
