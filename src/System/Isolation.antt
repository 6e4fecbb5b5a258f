-- ===== src/System/Isolation.antt =====
-- What the other threads of the daemon can do to a session: src/asyd/asyd.c with the task pool of
-- src/asyd/core/task_pool.c.
use asys.Base.{
  ℕ, ◌+◌, ◌≤◌, ◌<◌, ◌≡◌, ◌≢◌, inl, inr, refl, Bool, sym, ap, ◌∙◌, subst, some, List, [], ◌∷◌, All,
  Any, arith,
}
use asys.Crypto.{Crypto, Laws}
use asys.Tasks.Keeping.{
  AllKept, AllKept-refl, AllKept-trans, AllSpared-AllKept, release-AllKept, update-AllKept,
}
use asys.Handlers.{disp_resp_max, Io, Request}
use asys.Dispatcher.{Handlers, dispatch}
use asys.Dispatcher.Guarded.{Installed}
use asys.Dispatcher.Isolation.{dispatch-Isolates}
use asys.Session.{Conn, next_session_id}
use asys.Session.Packet.{PassIo, handle_packet}
use asys.Session.Handshake.{OpeningIo, ended, open_session}
use asys.Session.Outcomes.{IsOutcome, open_session-IsOutcome}
use asys.System.{
  Running, System, Event, connects, serves, warms, reaps, reloads, warm, status_warm, step, run,
}
use asys.System.Passes.{handle_packet-IsPassed}
use asys.System.Step.{
  put_other, none-some, connect_cases, serve_cases, connects_cases, serves_cases, before, went_on,
  left_loop, turned_away,
}
use asys.System.Validity.{IsSystem, step-IsSystem}
use asys.System.Numbers.{id_of, connections, IsNumbered, no_wrap, step-IsNumbered, connections-cons}

-- An event of another thread than `t`, with a sweep at time `now` at the latest.
abbrev pub IsElsewhere : (now t : ℕ) → Event → Type 0
IsElsewhere now t (serves i pass) = (i ≢ t) × (pass.io.sweep_time ≤ now)
IsElsewhere now t (warms io) = io.sweep_time ≤ now
IsElsewhere now t _ = Unit

-- A report that a child has ended counts as one.
abbrev Tells : (Ended : ℕ → Bool → Type 0) → Event → Type 0
Tells Ended (reaps pid ok) = Ended pid ok
Tells Ended _ = Unit {0}

module _ (c : Crypto) (h : Handlers) (laws : Laws c) (rand_r : ℕ → ℕ × ℕ) (ins : Installed rand_r h)
    (Ended : ℕ → Bool → Type 0) (now t : ℕ) (r : Running) where
  -- The session of thread `t` is where it was, and its tasks are kept.
  abbrev pub Undisturbed : System → System → Type 0
  Undisturbed s s' =
      (s'.threads t ≡ some r)
      × AllKept Ended now (id_of r) s.world.pool.entries s'.world.pool.entries

  module _ (s : System) (v : IsSystem c s) (n : IsNumbered s) (busy : s.threads t ≡ some r) where
    same_pool : Undisturbed s s
    same_pool = (busy, AllKept-refl Ended now (id_of r) s.world.pool.entries)

    dispatch-AllKept :
        (io : Io) (req : Request) (other : ℕ)
        → io.sweep_time ≤ now
        → other ≢ id_of r
        → AllKept Ended now
            (id_of r)
            s.world.pool.entries
            (dispatch h io s.world req disp_resp_max other).1.pool.entries
    dispatch-AllKept io req other le ne =
        AllSpared-AllKept Ended now (id_of r) io.sweep_time other _ _ le ne
          (dispatch-Isolates rand_r h ins io s.world req disp_resp_max other v.pool)

    module _ (i : ℕ) (pass : PassIo) (q : Running) (other : i ≢ t) (le : pass.io.sweep_time ≤ now)
        (busy' : s.threads i ≡ some q) where
      abbrev here : Conn
      here = before c h s i pass q

      not_mine : id_of q ≢ id_of r
      not_mine = n.distinct i t q r busy' busy other

      passed-AllKept :
          AllKept Ended now
            (id_of r)
            s.world.pool.entries
            (handle_packet c h pass here).1.world.pool.entries
      passed-AllKept = elim (handle_packet-IsPassed c h pass here).world [
        | inl same ↦
            subst (λ w. AllKept Ended now (id_of r) s.world.pool.entries w.pool.entries) (sym same)
              (AllKept-refl Ended now (id_of r) s.world.pool.entries)
        | inr (req, did) ↦
            subst (λ w. AllKept Ended now (id_of r) s.world.pool.entries w.pool.entries) (sym did)
              (dispatch-AllKept pass.io req (id_of q) le not_mine)
      ]

      went_on-Undisturbed : Undisturbed s (went_on c h s i pass q)
      went_on-Undisturbed = (put_other s.threads i _ t (λ e. other (sym e)) ∙ busy, passed-AllKept)

      left_loop-Undisturbed : Undisturbed s (left_loop c h s i pass q)
      left_loop-Undisturbed = (
        put_other s.threads i _ t (λ e. other (sym e)) ∙ busy,
        AllKept-trans Ended now (id_of r) _ _ _ passed-AllKept (
            release-AllKept Ended now (id_of r) (handle_packet c h pass here).1.world.pool _
              (λ e. not_mine (sym (handle_packet-IsPassed c h pass here).session ∙ e))),
      )

    turned_away-Undisturbed :
        (i : ℕ) (os : OpeningIo) (socket : List (List ℕ)) {ctx : _} {sends : List (List ℕ)}
        → s.next_id + 1 < 65536
        → open_session c h s.globals os s.parsers s.world (next_session_id s.next_id).0 socket
          ≡ ended ctx sends
        → Undisturbed s (turned_away c h s i os socket ctx)
    unfolding IsOutcome
    turned_away-Undisturbed i os socket {ctx} small e =
        let id = (next_session_id s.next_id).0 in
        let out : ctx.session_id ≡ id =
          subst (IsOutcome s.parsers id) e
            (open_session-IsOutcome c h s.globals s.parsers os s.world id socket) in
        let number : id ≡ s.next_id = ap (λ x. x.0) (no_wrap s.next_id small) in
        (
          busy,
          release-AllKept Ended now (id_of r) s.world.pool ctx.session_id
              (λ same. omega (arith, n.given t r busy, out, number, same)),
        )

    step-Undisturbed :
        (e : Event)
        → IsElsewhere now t e
        → Tells Ended e
        → s.next_id + connections (e ∷ []) < 65536
        → Undisturbed s (step c h e s)
    unfolding step status_warm connections
    step-Undisturbed (connects i os socket) away tells small =
        connects_cases c h s i os socket (Undisturbed s) same_pool λ idle.
          connect_cases c h s i os socket (Undisturbed s) same_pool
            (λ ctx sends e. turned_away-Undisturbed i os socket small e)
            (λ k parsers conn e. (
              put_other s.threads i _ t
                    (λ same. none-some (sym idle ∙ (ap s.threads (sym same) ∙ busy)))
                  ∙ busy,
              AllKept-refl Ended now (id_of r) s.world.pool.entries,
            ))
    step-Undisturbed (serves i pass) (other, le) tells small =
        serves_cases c h s i pass (Undisturbed s) same_pool λ q busy'.
          serve_cases c h s i pass q (Undisturbed s) (went_on-Undisturbed i pass q other le busy')
            (left_loop-Undisturbed i pass q other le busy')
    step-Undisturbed (warms io) le tells small =
        (busy, dispatch-AllKept io warm 0 le (λ e. omega (arith, (v.sessions t r busy).id.low, e)))
    step-Undisturbed (reaps pid ok) away tells small =
        (busy, update-AllKept Ended now (id_of r) s.world.pool pid ok tells)
    step-Undisturbed (reloads file) away tells small = same_pool

  run-Kept :
      (es : List Event) (s : System)
      → IsSystem c s
      → IsNumbered s
      → s.threads t ≡ some r
      → All (IsElsewhere now t) es
      → All (Tells Ended) es
      → s.next_id + connections es < 65536
      → Undisturbed s (run c h es s)
  unfolding run connections
  run-Kept [] s v n busy away told small =
      (busy, AllKept-refl Ended now (id_of r) s.world.pool.entries)
  run-Kept (e ∷ es) s v n busy (first, rest) (told, tells) small =
      let count = connections-cons e es in
      let fits : s.next_id + connections (e ∷ []) < 65536 = omega (arith, count) in
      let (n', more) = step-IsNumbered c h e s n fits in
      let (busy', a) = step-Undisturbed s v n busy e first told fits in
      let (busy'', b) =
        run-Kept es (step c h e s) (step-IsSystem c h laws rand_r ins e s v) n' busy' rest tells
          (omega (arith, count, more)) in
      (busy'', AllKept-trans Ended now (id_of r) _ _ _ a b)

-- The end of the child is reported among the events.
abbrev pub Reaped : List Event → ℕ → Bool → Type 0
Reaped es pid ok = Any (λ e. e ≡ reaps pid ok) es

told_one : (all : List Event) (e : Event) → Any (λ x. x ≡ e) all → Tells (Reaped all) e
told_one all (connects i os socket) m = tt
told_one all (serves i pass) m = tt
told_one all (warms io) m = tt
told_one all (reaps pid ok) m = m
told_one all (reloads file) m = tt

all_told :
    (all es : List Event)
    → ((e : Event) → Any (λ x. x ≡ e) es → Any (λ x. x ≡ e) all)
    → All (Tells (Reaped all)) es
all_told all [] sub = tt
all_told all (e ∷ es) sub =
    (told_one all e (sub e (inl refl)), all_told all es (λ x m. sub x (inr m)))

module _ (c : Crypto) (h : Handlers) (laws : Laws c) (rand_r : ℕ → ℕ × ℕ) (ins : Installed rand_r h)
    (now t : ℕ) (r : Running) where
  -- The daemon's handlers, a valid state in which thread `t` runs a session, and session
  -- identifiers that differ and do not wrap: whatever the other threads do meanwhile, connections,
  -- passes with any bytes, ends of sessions, the thread that warms the status, children and
  -- reloads, with no sweep later than time `now`, the session is as it was, and in every slot of
  -- the task pool a task of the session that is at most 30 seconds old at `now` is as it was, or
  -- was pending and has got the result with which the end of its own child was reported meanwhile.
  pub run-Undisturbed :
      (es : List Event) (s : System)
      → IsSystem c s
      → IsNumbered s
      → s.threads t ≡ some r
      → All (IsElsewhere now t) es
      → s.next_id + connections es < 65536
      → Undisturbed c h laws rand_r ins (Reaped es) now t r s (run c h es s)
  run-Undisturbed es s v n busy away small =
      run-Kept c h laws rand_r ins (Reaped es) now t r es s v n busy away
        (all_told es es (λ e m. m)) small
