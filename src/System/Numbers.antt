-- ===== src/System/Numbers.antt =====
-- The identifiers of the sessions that run at the same time: `g_next_session_id` in
-- src/asyd/asyd.c.
use asys.Base.{ℕ, ◌+◌, ◌≤◌, ◌<◌, ◌≡◌, ◌≢◌, inl, inr, sym, ap, ◌∙◌, some, List, [], ◌∷◌, arith}
use asys.Crypto.{Crypto}
use asys.Apdu.{ApduParser}
use asys.Dispatcher.{Handlers}
use asys.Session.{Conn, next_session_id}
use asys.Session.Packet.{PassIo, handle_packet}
use asys.Session.Handshake.{OpeningIo, opened, open_session}
use asys.Session.Admission.{open_session-IsAdmitted}
use asys.System.{
  Running, System, Event, connects, serves, warms, reaps, reloads, status_warm, step, run,
}
use asys.System.Passes.{handle_packet-IsPassed}
use asys.System.Step.{
  put_cases, connect_cases, serve_cases, connects_cases, serves_cases, some-injective, still,
  without_one, admitted, before, went_on, left_loop,
}

unfoldable pub connections : List Event → ℕ
connections [] = 0
connections (connects i os socket ∷ es) = connections es + 1
connections (serves i pass ∷ es) = connections es
connections (warms io ∷ es) = connections es
connections (reaps pid ok ∷ es) = connections es
connections (reloads file ∷ es) = connections es

abbrev pub id_of : Running → ℕ
id_of r = r.conn.ctx.session_id

-- Different sessions have different identifiers, all given out already.
pub record IsNumbered (s : System) : Type 0 where
  pub given : (i : ℕ) (r : Running) → s.threads i ≡ some r → id_of r < s.next_id
  pub distinct :
      (i j : ℕ) (r q : Running)
      → s.threads i ≡ some r
      → s.threads j ≡ some q
      → i ≢ j
      → id_of r ≢ id_of q

pub no_wrap : (n : ℕ) → n + 1 < 65536 → next_session_id n ≡ (n, n + 1)
unfolding next_session_id
no_wrap n small = ground arith

pub connections-cons :
    (e : Event) (es : List Event) → connections (e ∷ es) ≡ connections (e ∷ []) + connections es
unfolding connections
connections-cons (connects i os socket) es = omega arith
connections-cons (serves i pass) es = omega arith
connections-cons (warms io) es = omega arith
connections-cons (reaps pid ok) es = omega arith
connections-cons (reloads file) es = omega arith

module _ (c : Crypto) (h : Handlers) where
  -- The next identifier grows by a connection at most.
  abbrev pub Counted : ℕ → System → System → Type 0
  Counted k s s' = IsNumbered s' × (s'.next_id ≤ s.next_id + k)

  more-IsNumbered :
      (s : System) (next_id : ℕ)
      → IsNumbered s
      → s.next_id ≤ next_id
      → IsNumbered (record s { next_id = next_id })
  more-IsNumbered s next_id v le = record {
    given = λ i r e. omega (arith, v.given i r e);
    distinct = v.distinct;
  }

  admitted-IsNumbered :
      (s : System) (i : ℕ) (os : OpeningIo) (socket : List (List ℕ)) (k : ℕ)
      (parsers : List ApduParser) (conn : Conn)
      → IsNumbered s
      → s.next_id + 1 < 65536
      → open_session c h s.globals os s.parsers s.world (next_session_id s.next_id).0 socket
        ≡ opened k parsers conn
      → Counted 1 s (admitted c h s i os socket k parsers conn)
  admitted-IsNumbered s i os socket k parsers conn v small e =
      let id = (next_session_id s.next_id).0 in
      let a =
        (open_session-IsAdmitted c h s.globals s.parsers k parsers conn os s.world id socket e).2 in
      let given_id : id ≡ s.next_id = ap (λ r. r.0) (no_wrap s.next_id small) in
      let then_id : (next_session_id s.next_id).1 ≡ s.next_id + 1 =
        ap (λ r. r.1) (no_wrap s.next_id small) in
      let new : Running = record { slot = k; conn = conn } in
      let new_id : (q : Running) → some new ≡ some q → id_of q ≡ s.next_id =
        λ q same. ap id_of (sym (some-injective same)) ∙ (a.id ∙ given_id) in
      (
        record {
          given = λ j q ej. elim (put_cases s.threads i (some new) j q ej) [
            | inl (here, same) ↦ omega (arith, then_id, new_id q same)
            | inr (there, old) ↦ omega (arith, then_id, v.given j q old)
          ];
          distinct = λ j b r q ea eb ne same. elim (put_cases s.threads i (some new) j r ea) [
            | inl (here, is_r) ↦ elim (put_cases s.threads i (some new) b q eb) [
              | inl (here', is_q) ↦ ne (here ∙ sym here')
              | inr (there, old) ↦ omega (arith, new_id r is_r, v.given b q old, same)
            ]
            | inr (there, old_r) ↦ elim (put_cases s.threads i (some new) b q eb) [
              | inl (here', is_q) ↦ omega (arith, new_id q is_q, v.given j r old_r, same)
              | inr (there', old_q) ↦ v.distinct j b r q old_r old_q ne same
            ]
          ];
        },
        omega (arith, then_id),
      )

  went_on-IsNumbered :
      (s : System) (i : ℕ) (pass : PassIo) (r : Running)
      → IsNumbered s
      → s.threads i ≡ some r
      → IsNumbered (went_on c h s i pass r)
  went_on-IsNumbered s i pass r v e =
      let here = before c h s i pass r in
      let new : Running = record r { conn = (handle_packet c h pass here).1 } in
      let same_id : id_of r ≡ id_of new = sym (handle_packet-IsPassed c h pass here).session in
      record {
        given = λ j q ej.
            let (q', old, id) = still id_of s.threads i r new e same_id j q ej in
            omega (arith, v.given j q' old, id);
        distinct = λ j b p q ea eb ne same.
            let (p', old_p, id_p) = still id_of s.threads i r new e same_id j p ea in
            let (q', old_q, id_q) = still id_of s.threads i r new e same_id b q eb in
            v.distinct j b p' q' old_p old_q ne (id_p ∙ (same ∙ sym id_q));
      }

  left_loop-IsNumbered :
      (s : System) (i : ℕ) (pass : PassIo) (r : Running)
      → IsNumbered s
      → IsNumbered (left_loop c h s i pass r)
  left_loop-IsNumbered s i pass r v =
      let gone = without_one s.threads i in
      record {
        given = λ j q ej. v.given j q (gone j q ej).1;
        distinct = λ a b p q ea eb ne. v.distinct a b p q (gone a p ea).1 (gone b q eb).1 ne;
      }

  pub step-IsNumbered :
      (e : Event) (s : System)
      → IsNumbered s
      → s.next_id + connections (e ∷ []) < 65536
      → Counted (connections (e ∷ [])) s (step c h e s)
  unfolding step connections status_warm
  step-IsNumbered (connects i os socket) s v small =
      let then_id : (next_session_id s.next_id).1 ≡ s.next_id + 1 =
        ap (λ r. r.1) (no_wrap s.next_id small) in
      let counts : (s.next_id ≤ s.next_id + 1)
          × ((next_session_id s.next_id).1 ≤ s.next_id + 1)
          × (s.next_id ≤ (next_session_id s.next_id).1) =
        (omega arith, omega (arith, then_id), omega (arith, then_id)) in
      connects_cases c h s i os socket (Counted 1 s) (v, counts.0)
        λ idle.
          connect_cases c h s i os socket (Counted 1 s) (more-IsNumbered s _ v counts.2, counts.1)
            (λ ctx sends e. (
              record { given = (more-IsNumbered s _ v counts.2).given; distinct = v.distinct },
              counts.1,
            ))
            (λ k parsers conn e. admitted-IsNumbered s i os socket k parsers conn v small e)
  step-IsNumbered (serves i pass) s v small =
      serves_cases c h s i pass (Counted 0 s) (v, omega arith)
        λ r busy.
          serve_cases c h s i pass r (Counted 0 s)
            (went_on-IsNumbered s i pass r v busy, omega arith)
            (left_loop-IsNumbered s i pass r v, omega arith)
  step-IsNumbered (warms io) s v small =
      (record { given = v.given; distinct = v.distinct }, omega arith)
  step-IsNumbered (reaps pid ok) s v small =
      (record { given = v.given; distinct = v.distinct }, omega arith)
  step-IsNumbered (reloads file) s v small =
      (record { given = v.given; distinct = v.distinct }, omega arith)

  -- As long as the identifiers do not wrap, the sessions that run at the same time have different
  -- ones, after any interleaving of connections, passes, and the rest.
  pub run-IsNumbered :
      (es : List Event) (s : System)
      → IsNumbered s
      → s.next_id + connections es < 65536
      → Counted (connections es) s (run c h es s)
  unfolding run connections
  run-IsNumbered [] s v small = (v, omega arith)
  run-IsNumbered (e ∷ es) s v small =
      let count = connections-cons e es in
      let (v', more) = step-IsNumbered e s v (omega (arith, count)) in
      let (v'', more') = run-IsNumbered es (step c h e s) v' (omega (arith, count, more)) in
      (v'', omega (arith, count, more, more'))
