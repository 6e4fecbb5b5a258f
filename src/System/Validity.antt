-- ===== src/System/Validity.antt =====
-- The invariant of the running daemon, src/asyd/asyd.c: every interleaving of its threads keeps it.
use asys.Base.{
  ℕ, ◌<◌, ◌≡◌, ◌≢◌, inl, inr, refl, sym, ap, ◌∙◌, subst, true, none, some, List, [], ◌∷◌, length,
  set, length-set, get_or-set_self, get_or-set_ne, arith,
}
use asys.Crypto.{Crypto, Laws}
use asys.Apdu.{ApduParser, pool_acquire, pool_release, zero_parser}
use asys.Apdu.Slots.{slot, taken, acquire-first}
use asys.Tasks.{TaskPool, task_pool_release_session, releases, step as pool_step}
use asys.Tasks.Validity.{IsPool, step-IsPool, update-IsPool}
use asys.Handlers.{World, disp_resp_max}
use asys.Dispatcher.{Handlers}
use asys.Dispatcher.Guarded.{Installed}
use asys.Dispatcher.Pools.{dispatch-IsPool}
use asys.Session.{Conn, next_session_id}
use asys.Session.Packet.{PassIo, handle_packet}
use asys.Session.Handshake.{OpeningIo, opened, open_session}
use asys.Session.Admission.{open_session-IsAdmitted}
use asys.Session.Outcomes.{IsOutcome, open_session-IsOutcome}
use asys.Session.Validity.{IsConn, handle_packet-IsConn}
use asys.System.{
  status_warm, Running, System, Event, connects, serves, warms, reaps, reloads, warm, step, run,
}
use asys.System.Passes.{handle_packet-IsPassed}
use asys.System.Step.{
  some-injective, still, without_one, connects_cases, serves_cases, put_cases, connect_cases,
  serve_cases, admitted, before, went_on, left_loop,
}

pub release-IsPool : (p : TaskPool) (sid : ℕ) → IsPool p → IsPool (task_pool_release_session p sid)
unfolding pool_step
release-IsPool p sid v = step-IsPool (λ seed. (seed, seed)) p 0 (releases sid) tt v

-- A session identifier is a `uint16_t` that is not 0.
pub record IsId (id : ℕ) : Type 0 where
  pub low : 0 < id
  pub high : id < 65536

pub next-IsId : (id : ℕ) → IsId id → IsId (next_session_id id).0 × IsId (next_session_id id).1
unfolding next_session_id
next-IsId id v =
    (record { low = v.low; high = v.high }, record { low = ground arith; high = ground arith })

released-length :
    (parsers : List ApduParser) (k : ℕ) (p : ApduParser)
    → length (pool_release (set parsers k p) k) ≡ length parsers
unfolding pool_release
released-length parsers k p = length-set (set parsers k p) k zero_parser ∙ length-set parsers k p

released-keeps :
    (parsers : List ApduParser) (k j : ℕ) (p : ApduParser)
    → k ≢ j
    → (slot (pool_release (set parsers k p) k) j).in_use ≡ (slot parsers j).in_use
unfolding pool_release
released-keeps parsers k j p other =
    ap (λ x. x.in_use)
      (get_or-set_ne (set parsers k p) zero_parser zero_parser other
        ∙ get_or-set_ne parsers p zero_parser other)

module _ (c : Crypto) where
  -- A session in its loop: a valid connection, with a parser slot that is marked as in use.
  pub record IsRunning (parsers : List ApduParser) (r : Running) : Type 0 where
    pub conn : IsConn c r.conn
    pub id : IsId r.conn.ctx.session_id
    pub inside : r.slot < length parsers
    pub marked : (slot parsers r.slot).in_use ≡ true

  -- The task pool is valid, every session is, and no two have the same parser slot.
  pub record IsSystem (s : System) : Type 0 where
    pub pool : IsPool s.world.pool
    pub next : IsId s.next_id
    pub sessions : (i : ℕ) (r : Running) → s.threads i ≡ some r → IsRunning s.parsers r
    pub apart :
        (i j : ℕ) (r q : Running)
        → s.threads i ≡ some r
        → s.threads j ≡ some q
        → i ≢ j
        → r.slot ≢ q.slot

  with_parsers :
      {parsers parsers' : List ApduParser} {r : Running}
      → IsRunning parsers r
      → r.slot < length parsers'
      → (slot parsers' r.slot).in_use ≡ true
      → IsRunning parsers' r
  with_parsers v inside marked = record {
    conn = v.conn;
    id = v.id;
    inside = inside;
    marked = marked;
  }

  -- The threads stay; the rest may change.
  with_pool-IsSystem :
      (s : System) (world : World) (next_id : ℕ)
      → IsSystem s
      → IsPool world.pool
      → IsId next_id
      → IsSystem (record s { world = world; next_id = next_id })
  with_pool-IsSystem s world next_id v pool next = record {
    pool = pool;
    next = next;
    sessions = v.sessions;
    apart = v.apart;
  }

  module _ (h : Handlers) (laws : Laws c) (rand_r : ℕ → ℕ × ℕ) (ins : Installed rand_r h) where
    admitted-IsSystem :
        (s : System) (i : ℕ) (os : OpeningIo) (socket : List (List ℕ)) (k : ℕ)
        (parsers : List ApduParser) (conn : Conn)
        → IsSystem s
        → s.threads i ≡ none
        → open_session c h s.globals os s.parsers s.world (next_session_id s.next_id).0 socket
          ≡ opened k parsers conn
        → IsSystem (admitted c h s i os socket k parsers conn)
    unfolding IsOutcome
    admitted-IsSystem s i os socket k parsers conn v idle e =
        let id = (next_session_id s.next_id).0 in
        let acquired : pool_acquire s.parsers ≡ some (k, parsers) =
          subst (IsOutcome s.parsers id) e
            (open_session-IsOutcome c h s.globals s.parsers os s.world id socket) in
        let (lt, free, changed, first) = acquire-first s.parsers k parsers acquired in
        let a =
          (open_session-IsAdmitted c h s.globals s.parsers k parsers conn os s.world id socket
            e).2 in
        let new : Running = record { slot = k; conn = conn } in
        let size : length (set s.parsers k taken) ≡ length s.parsers =
          length-set s.parsers k taken in
        let new_running : IsRunning (set s.parsers k taken) new = record {
          conn = a.is_conn;
          id = subst IsId (sym a.id) (next-IsId s.next_id v.next).0;
          inside = omega (arith, size, lt);
          marked = ap (λ p. p.in_use) (get_or-set_self s.parsers k taken zero_parser lt);
        } in
        let other : (j : ℕ) (q : Running) → s.threads j ≡ some q → k ≢ q.slot = λ j q ej same.
          cc (free, ap (λ n. (slot s.parsers n).in_use) same, (v.sessions j q ej).marked) in
        record {
          pool = v.pool;
          next = (next-IsId s.next_id v.next).1;
          sessions = λ j q ej.
              subst (λ ps. IsRunning ps q) (sym changed)
                (elim (put_cases s.threads i (some new) j q ej) [
                  | inl (here, same) ↦
                      subst (IsRunning (set s.parsers k taken)) (some-injective same) new_running
                  | inr (there, old) ↦
                      with_parsers (v.sessions j q old)
                        (omega (arith, size, (v.sessions j q old).inside))
                        (ap (λ p. p.in_use)
                            (get_or-set_ne s.parsers taken zero_parser (other j q old))
                          ∙ (v.sessions j q old).marked)
                ]);
          apart = λ a b r q ea eb ne same. elim (put_cases s.threads i (some new) a r ea) [
            | inl (here, new_r) ↦ elim (put_cases s.threads i (some new) b q eb) [
              | inl (here', new_q) ↦ ne (here ∙ sym here')
              | inr (there, old) ↦ other b q old (ap (λ x. x.slot) (some-injective new_r) ∙ same)
            ]
            | inr (there, old_r) ↦ elim (put_cases s.threads i (some new) b q eb) [
              | inl (here', new_q) ↦
                  other a r old_r (ap (λ x. x.slot) (some-injective new_q) ∙ sym same)
              | inr (there', old_q) ↦ v.apart a b r q old_r old_q ne same
            ]
          ];
        }

    module _ (s : System) (i : ℕ) (pass : PassIo) (r : Running) (v : IsSystem s)
        (e : s.threads i ≡ some r) where
      abbrev here : Conn
      here = before c h s i pass r

      abbrev out : Conn
      out = (handle_packet c h pass here).1

      now : IsRunning s.parsers r
      now = v.sessions i r e

      out-IsPool : IsPool out.world.pool
      out-IsPool = elim (handle_packet-IsPassed c h pass here).world [
        | inl same ↦ subst (λ w. IsPool w.pool) (sym same) v.pool
        | inr (req, did) ↦
            subst (λ w. IsPool w.pool) (sym did)
              (dispatch-IsPool rand_r h ins pass.io s.world req disp_resp_max r.conn.ctx.session_id
                now.id.high v.pool)
      ]

      out-IsRunning : IsRunning s.parsers (record r { conn = out })
      out-IsRunning = record {
        conn =
            handle_packet-IsConn c h laws pass here
              (record { parser = now.conn.parser; done = now.conn.done; epoch = now.conn.epoch });
        id = subst IsId (sym (handle_packet-IsPassed c h pass here).session) now.id;
        inside = now.inside;
        marked = now.marked;
      }

    went_on-IsSystem :
        (s : System) (i : ℕ) (pass : PassIo) (r : Running)
        → IsSystem s
        → s.threads i ≡ some r
        → IsSystem (went_on c h s i pass r)
    went_on-IsSystem s i pass r v e =
        let new : Running = record r { conn = out s i pass r v e } in
        record {
          pool = out-IsPool s i pass r v e;
          next = v.next;
          sessions = λ j q ej. elim (put_cases s.threads i (some new) j q ej) [
            | inl (same, is_new) ↦
                subst (IsRunning s.parsers) (some-injective is_new) (out-IsRunning s i pass r v e)
            | inr (other, old) ↦ v.sessions j q old
          ];
          apart = λ a b p q ea eb ne same.
              let (p', old_p, slot_p) = still (λ x. x.slot) s.threads i r new e refl a p ea in
              let (q', old_q, slot_q) = still (λ x. x.slot) s.threads i r new e refl b q eb in
              v.apart a b p' q' old_p old_q ne (slot_p ∙ (same ∙ sym slot_q));
        }

    left_loop-IsSystem :
        (s : System) (i : ℕ) (pass : PassIo) (r : Running)
        → IsSystem s
        → s.threads i ≡ some r
        → IsSystem (left_loop c h s i pass r)
    left_loop-IsSystem s i pass r v e =
        let used = set s.parsers r.slot (out s i pass r v e).parser in
        let size : length (pool_release used r.slot) ≡ length s.parsers =
          released-length s.parsers r.slot _ in
        let gone = without_one s.threads i in
        record {
          pool = release-IsPool _ _ (out-IsPool s i pass r v e);
          next = v.next;
          sessions = λ j q ej.
              let (other, old) = gone j q ej in
              let w = v.sessions j q old in
              with_parsers w (omega (arith, size, w.inside))
                (released-keeps s.parsers r.slot q.slot _ (v.apart i j r q e old other) ∙ w.marked);
          apart = λ a b p q ea eb ne. v.apart a b p q (gone a p ea).1 (gone b q eb).1 ne;
        }

    pub step-IsSystem : (e : Event) (s : System) → IsSystem s → IsSystem (step c h e s)
    unfolding step status_warm
    step-IsSystem (connects i os socket) s v = connects_cases c h s i os socket IsSystem v λ idle.
        connect_cases c h s i os socket IsSystem
          (with_pool-IsSystem s s.world _ v v.pool (next-IsId s.next_id v.next).1)
          (λ ctx sends e.
            with_pool-IsSystem s _ _ v (release-IsPool s.world.pool ctx.session_id v.pool)
              (next-IsId s.next_id v.next).1)
          (λ k parsers conn e. admitted-IsSystem s i os socket k parsers conn v idle e)
    step-IsSystem (serves i pass) s v = serves_cases c h s i pass IsSystem v λ r busy.
        serve_cases c h s i pass r IsSystem (went_on-IsSystem s i pass r v busy)
          (left_loop-IsSystem s i pass r v busy)
    step-IsSystem (warms io) s v =
        with_pool-IsSystem s _ s.next_id v
          (dispatch-IsPool rand_r h ins io s.world warm disp_resp_max 0 (omega arith) v.pool) v.next
    step-IsSystem (reaps pid ok) s v =
        with_pool-IsSystem s _ s.next_id v (update-IsPool s.world.pool pid ok v.pool) v.next
    step-IsSystem (reloads file) s v = record {
      pool = v.pool;
      next = v.next;
      sessions = v.sessions;
      apart = v.apart;
    }

    pub run-IsSystem : (es : List Event) (s : System) → IsSystem s → IsSystem (run c h es s)
    unfolding run
    run-IsSystem [] s v = v
    run-IsSystem (e ∷ es) s v = run-IsSystem es (step c h e s) (step-IsSystem e s v)
