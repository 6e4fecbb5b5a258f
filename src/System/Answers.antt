-- ===== src/System/Answers.antt =====
-- A conversation in one thread of the daemon while the others go on: src/asyd/asyd.c.
use asys.Base.{ℕ, ◌≡◌, ◌≢◌, refl, sym, ap, ap₂, ◌∙◌, some, List, [], ◌∷◌}
use asys.Crypto.{Crypto, Laws}
use asys.Apdu.{pending}
use asys.Apdu.Codec.{Message, encode}
use asys.Noise.{NoiseIkState}
use asys.Noise.Transport.{encrypt, decrypt}
use asys.Noise.Stream.{seal_all, open_all}
use asys.Dispatcher.{Handlers}
use asys.Dispatcher.Guarded.{Installed}
use asys.Session.{Conn}
use asys.Session.Receive.{joined}
use asys.Session.Wire.{wire}
use asys.Session.Packet.{PassIo, continues, handle_packet}
use asys.Session.Service.{Ready, reply_to, served}
use asys.Session.Conversation.{Job, AreRequests, encoded, sent_on, silent}
use asys.System.{
  Running, System, Event, connects, serves, warms, reaps, reloads, serve, status_warm, step, run,
}
use asys.System.Step.{
  put_other, put_self, none-some, connect_cases, serve_cases, connects_cases, serves_cases, before,
}

module _ (t : ℕ) where
  abbrev pub IsOthers : Event → Type 0
  IsOthers (serves i pass) = i ≢ t
  IsOthers _ = Unit {0}

  -- The passes of thread `t` handle the messages, one after the other, with any events of other
  -- threads before, between and after them.
  pub data Interleaves : List Job → List Event → Type 0 where
    done : Interleaves [] []
    others :
        {jobs : List Job} {es : List Event} (e : Event)
        → IsOthers e
        → Interleaves jobs es
        → Interleaves jobs (e ∷ es)
    own :
        {jobs : List Job} {es : List Event} (pass : PassIo) (m : Message)
        → Interleaves jobs es
        → Interleaves ((pass, m) ∷ jobs) (serves t pass ∷ es)

module _ (c : Crypto) (h : Handlers) (t : ℕ) where
  -- The dispatcher's replies to the messages for a session, each in the shared state of its pass.
  unfoldable pub replies_in :
      (id : ℕ) {jobs : List Job} {es : List Event} → Interleaves t jobs es → System → List (List ℕ)
  replies_in id done s = []
  replies_in id (others e away i) s = replies_in id i (step c h e s)
  replies_in id (own pass m i) s =
      (reply_to c h pass s.world id m).0 ∷ replies_in id i (step c h (serves t pass) s)

  -- The session has sent the packets that the agent opens to the replies, and waits for the next.
  pub record IsAnswered (down : NoiseIkState) (replies sends : List (List ℕ)) (s : System)
      : Type 0 where
    pub session : Running
    pub runs : s.threads t ≡ some session
    pub packets : List (List ℕ)
    pub sent : session.conn.sends ≡ sent_on packets sends
    pub reads : open_all c down packets ≡ replies
    pub empty : pending session.conn.parser ≡ []
    pub drained : session.conn.socket ≡ []

  others_keep :
      (e : Event) (s : System) (r : Running)
      → IsOthers t e
      → s.threads t ≡ some r
      → (step c h e s).threads t ≡ some r
  unfolding step status_warm
  others_keep (connects i os socket) s r away busy =
      connects_cases c h s i os socket (λ s'. s'.threads t ≡ some r) busy
        λ idle.
          connect_cases c h s i os socket (λ s'. s'.threads t ≡ some r) busy (λ ctx sends e. busy)
            (λ k parsers conn e.
              put_other s.threads i _ t
                (λ same. none-some (sym idle ∙ (ap s.threads (sym same) ∙ busy)))
              ∙ busy)
  others_keep (serves i pass) s r away busy =
      serves_cases c h s i pass (λ s'. s'.threads t ≡ some r) busy
        λ q busy'.
          serve_cases c h s i pass q (λ s'. s'.threads t ≡ some r)
            (put_other s.threads i _ t (λ e. away (sym e)) ∙ busy)
            (put_other s.threads i _ t (λ e. away (sym e)) ∙ busy)
  others_keep (warms io) s r away busy = busy
  others_keep (reaps pid ok) s r away busy = busy
  others_keep (reloads file) s r away busy = busy

  own_step :
      (pass : PassIo) (s : System) (r : Running) (conn : Conn)
      → s.threads t ≡ some r
      → handle_packet c h pass (before c h s t pass r) ≡ (continues, conn)
      → (step c h (serves t pass) s).threads t ≡ some (record r { conn = conn })
  unfolding step serve
  own_step pass s r conn busy e =
      rw (step, busy, serve, ap (λ x. x.0) e)
        (put_self s.threads t _ ∙ ap (λ x. some (record r { conn = x.1 })) e)

  module _ (laws : Laws c) (rand_r : ℕ → ℕ × ℕ) (ins : Installed rand_r h) where
    -- A session runs in thread `t`, with an empty valid buffer, and an agent whose state is paired
    -- with its state in both directions seals well-formed messages of less than 65520 bytes, each
    -- plain or with a right tag and a number above those before, and the socket brings the packets
    -- with their lengths in any nonempty chunks. If the system takes the replies and the daemon has
    -- its own handlers, then whatever the other threads do before, between and after the passes:
    -- all messages are answered, the session still runs, with an empty buffer and all bytes read,
    -- and what it has sent are the packets that the agent opens to the dispatcher's replies, in
    -- order, each for the shared state that the message has met.
    pub run-IsAnswered :
        {jobs : List Job} {es : List Event} (i : Interleaves t jobs es) (up down : NoiseIkState)
        (s : System) (r : Running)
        → s.threads t ≡ some r
        → Ready c h up down r.conn
        → joined r.conn.socket ≡ wire (seal_all c up (encoded jobs))
        → AreRequests c r.conn.ctx.noise.recv_key r.conn.ctx.epoch_id r.conn.ctx.last_seen_seq jobs
        → IsAnswered down (replies_in r.conn.ctx.session_id i s) r.conn.sends (run c h es s)
    unfolding run replies_in wire seal_all AreRequests open_all
    run-IsAnswered done up down s r busy rd here ok_jobs = record {
      session = r;
      runs = busy;
      packets = [];
      sent = refl;
      reads = refl;
      empty = rd.empty;
      drained = silent r.conn.socket rd.is_open here;
    }
    run-IsAnswered (others e away i) up down s r busy rd here ok_jobs =
        run-IsAnswered i up down (step c h e s) r (others_keep e s r away busy) rd here ok_jobs
    run-IsAnswered (own {jobs} pass m i) up down s r busy rd here
          ((im, short, e, e', ok_m), ok_jobs) =
        let now : Ready c h up down (before c h s t pass r) = record {
          parser = rd.parser;
          empty = rd.empty;
          requests = rd.requests;
          replies = rd.replies;
          is_open = rd.is_open;
        } in
        let behind = wire (seal_all c (encrypt c up (encode m)).1 (encoded jobs)) in
        let (conn, a) =
          served c h laws rand_r ins up down pass m (before c h s t pass r) behind now im short e e'
            ok_m here in
        let later =
          run-IsAnswered i (encrypt c up (encode m)).1 (decrypt c down a.packet).1
            (step c h (serves t pass) s) (record r { conn = conn })
            (own_step pass s r conn busy a.goes_on) a.ready a.left
            (rw (a.key, a.epoch, a.seq) ok_jobs) in
        record {
          session = later.session;
          runs = later.runs;
          packets = a.packet ∷ later.packets;
          sent = later.sent ∙ ap (sent_on later.packets) a.sent;
          reads =
              rw (open_all, a.arrives)
                (ap₂ ◌∷◌ a.reads (
                  later.reads ∙ ap (λ id. replies_in id i (step c h (serves t pass) s)) a.session));
          empty = later.empty;
          drained = later.drained;
        }
