-- ===== src/System/Authority.antt =====
-- On whose authority the daemon acts: from the whitelist of src/asyd/core/whitelist.c through the
-- threads of src/asyd/asyd.c to the signals and restarts of src/asyd/handlers.
use asys.Base.{
  ℕ, ◌≡◌, inl, inr, refl, sym, ap, ◌∙◌, subst, true, some, List, [], ◌∷◌, ◌++◌, append_assoc, All,
}
use asys.Crypto.{Crypto}
use asys.Apdu.{ApduFrame, ApduParser}
use asys.Handlers.{Effect, disp_resp_max}
use asys.Dispatcher.{Handlers}
use asys.Dispatcher.Guarded.{Installed, dispatch_unsigned}
use asys.Dispatcher.Effects.{AddsOne, dispatch-AddsOne}
use asys.Whitelist.{Whitelist, whitelist_load, whitelist_check}
use asys.Session.{Conn, next_session_id}
use asys.Session.Packet.{PassIo, handle_packet}
use asys.Session.Handshake.{OpeningIo, opened, open_session}
use asys.Session.Admission.{open_session-IsAdmitted}
use asys.Session.Guard.{IsAccepted, handle_packet-guard}
use asys.System.{
  Running, System, Event, connects, serves, warms, reaps, reloads, warm, status_warm, step, run,
}
use asys.System.Passes.{handle_packet-IsPassed}
use asys.System.Step.{
  put_cases, some-injective, without_one, connect_cases, serve_cases, connects_cases, serves_cases,
  before, went_on, left_loop, admitted,
}

run_last :
    (c : Crypto) (h : Handlers) (past : List Event) (e : Event) (s : System)
    → run c h (past ++ (e ∷ [])) s ≡ step c h e (run c h past s)
unfolding run
run_last c h [] e s = refl
run_last c h (x ∷ past) e s = run_last c h past e (step c h x s)

module _ (c : Crypto) (h : Handlers) (P : List ℕ → Type 0) where
  -- A whitelist with such keys only, and an event that loads no other.
  abbrev pub Allows : Whitelist → Type 0
  Allows wl = (key : List ℕ) → whitelist_check c wl key ≡ true → P key

  abbrev pub LoadsAllowed : Event → Type 0
  LoadsAllowed (reloads file) = Allows (whitelist_load file)
  LoadsAllowed _ = Unit

  -- The sessions that run are those of agents with such keys.
  pub record IsKnown (s : System) : Type 0 where
    pub listed : Allows s.globals.whitelist
    pub agents : (i : ℕ) (r : Running) → s.threads i ≡ some r → P r.conn.ctx.agent_pub

  module _ (start : System) (all : List Event) where
    -- A state that the run from `start` passes through, with the events that are left.
    pub record Reached (s : System) (rest : List Event) : Type 0 where
      pub past : List Event
      pub split : all ≡ past ++ rest
      pub state : run c h past start ≡ s

    -- The pass of a session that asked for the effect, in the state that the run had reached, when
    -- the effects below were asked for: the agent's key is such a key, and the packet completed a
    -- signed frame whose tag the session's key verifies, with a number above the session's last
    -- one.
    pub record IsAuthorized (effect : Effect) (earlier : List Effect) : Type 0 where
      pub state : System
      pub thread : ℕ
      pub pass : PassIo
      pub rest : List Event
      pub reached : Reached state (serves thread pass ∷ rest)
      pub asked_before : state.world.effects ≡ earlier
      pub session : Running
      pub runs : state.threads thread ≡ some session
      pub known : P session.conn.ctx.agent_pub
      pub asked :
          (handle_packet c h pass (before c h state thread pass session)).1.world.effects
          ≡ effect ∷ earlier
      pub cipher : List ℕ
      pub frame : ApduFrame
      pub accepted :
          IsAccepted c h
            (before c h state thread pass session)
            (handle_packet c h pass (before c h state thread pass session)).1
            cipher
            frame

    -- Every effect of a list, the latest first.
    abbrev pub AreAuthorized : List Effect → Type 0
    AreAuthorized [] = Unit {0}
    AreAuthorized (effect ∷ earlier) = IsAuthorized effect earlier × AreAuthorized earlier

    abbrev pub OnAuthority : System → Type 0
    OnAuthority s = IsKnown s × AreAuthorized s.world.effects

    -- Nothing more was asked for.
    quiet :
        (s s' : System)
        → AreAuthorized s.world.effects
        → IsKnown s'
        → s'.world.effects ≡ s.world.effects
        → OnAuthority s'
    quiet s s' a k e = (k, subst AreAuthorized (sym e) a)

  module _ (rand_r : ℕ → ℕ × ℕ) (ins : Installed rand_r h) where
    module _ (s : System) (k : IsKnown s) where
      admitted-IsKnown :
          (i : ℕ) (os : OpeningIo) (socket : List (List ℕ)) (slot : ℕ) (parsers : List ApduParser)
          (conn : Conn)
          → open_session c h s.globals os s.parsers s.world (next_session_id s.next_id).0 socket
            ≡ opened slot parsers conn
          → IsKnown (admitted c h s i os socket slot parsers conn)
      admitted-IsKnown i os socket slot parsers conn e =
          let id = (next_session_id s.next_id).0 in
          let a =
            (open_session-IsAdmitted c h s.globals s.parsers slot parsers conn os s.world id socket
              e).2 in
          let new : Running = record { slot = slot; conn = conn } in
          record {
            listed = k.listed;
            agents = λ j q ej. elim (put_cases s.threads i (some new) j q ej) [
              | inl (here, same) ↦
                  subst (λ x. P x.conn.ctx.agent_pub) (some-injective same)
                    (k.listed conn.ctx.agent_pub a.known)
              | inr (there, old) ↦ k.agents j q old
            ];
          }

      module _ (i : ℕ) (pass : PassIo) (r : Running) (busy : s.threads i ≡ some r) where
        abbrev here : Conn
        here = before c h s i pass r

        abbrev out : Conn
        out = (handle_packet c h pass here).1

        out-AddsOne : AddsOne s.world.effects out.world.effects
        out-AddsOne = elim (handle_packet-IsPassed c h pass here).world [
          | inl same ↦ inl (ap (λ w. w.effects) same)
          | inr (req, did) ↦
              subst (λ w. AddsOne s.world.effects w.effects) (sym did)
                (dispatch-AddsOne rand_r h ins pass.io s.world req disp_resp_max
                  r.conn.ctx.session_id)
        ]

        asked_for :
            (start : System) (all rest : List Event)
            → Reached start all s (serves i pass ∷ rest)
            → AreAuthorized start all s.world.effects
            → AreAuthorized start all out.world.effects
        asked_for start all rest reached allowed =
            elim (handle_packet-guard c h rand_r ins pass here) [
              | inl same ↦ subst (AreAuthorized start all) (sym same) allowed
              | inr (cipher, f, a) ↦ elim out-AddsOne [
                | inl same ↦ subst (AreAuthorized start all) (sym same) allowed
                | inr (effect, e) ↦
                    let one : IsAuthorized start all effect s.world.effects = record {
                      state = s;
                      thread = i;
                      pass = pass;
                      rest = rest;
                      reached = reached;
                      asked_before = refl;
                      session = r;
                      runs = busy;
                      known = k.agents i r busy;
                      asked = e;
                      cipher = cipher;
                      frame = f;
                      accepted = a;
                    } in
                    subst (AreAuthorized start all) (sym e) (one, allowed)
              ]
            ]

        went_on-IsKnown : IsKnown (went_on c h s i pass r)
        went_on-IsKnown = record {
          listed = k.listed;
          agents = λ j q ej. elim (put_cases s.threads i (some (record r { conn = out })) j q ej) [
            | inl (same, is_new) ↦
                subst (λ x. P x.conn.ctx.agent_pub) (some-injective is_new)
                  (subst P (sym (handle_packet-IsPassed c h pass here).agent) (k.agents i r busy))
            | inr (other, old) ↦ k.agents j q old
          ];
        }

        left_loop-IsKnown : IsKnown (left_loop c h s i pass r)
        left_loop-IsKnown = record {
          listed = k.listed;
          agents = λ j q ej. k.agents j q (without_one s.threads i j q ej).1;
        }

      module _ (start : System) (all rest : List Event)
          (allowed : AreAuthorized start all s.world.effects) where
        still_known :
            (s' : System)
            → IsKnown s'
            → s'.world.effects ≡ s.world.effects
            → OnAuthority start all s'
        still_known s' k' e = quiet start all s s' allowed k' e

        step-OnAuthority :
            (e : Event)
            → LoadsAllowed e
            → Reached start all s (e ∷ rest)
            → OnAuthority start all (step c h e s)
        unfolding step status_warm
        step-OnAuthority (connects i os socket) fine reached =
            connects_cases c h s i os socket (OnAuthority start all) (still_known s k refl) λ idle.
              connect_cases c h s i os socket (OnAuthority start all)
                (still_known _ (record { listed = k.listed; agents = k.agents }) refl)
                (λ ctx sends e.
                  still_known _ (record { listed = k.listed; agents = k.agents }) refl)
                (λ slot parsers conn e.
                  still_known _ (admitted-IsKnown i os socket slot parsers conn e) refl)
        step-OnAuthority (serves i pass) fine reached =
            serves_cases c h s i pass (OnAuthority start all) (still_known s k refl) λ r busy.
              let asked = asked_for i pass r busy start all rest reached allowed in
              serve_cases c h s i pass r (OnAuthority start all)
                (went_on-IsKnown i pass r busy, asked) (left_loop-IsKnown i pass r busy, asked)
        step-OnAuthority (warms io) fine reached =
            still_known _ (record { listed = k.listed; agents = k.agents })
              (dispatch_unsigned rand_r h ins io s.world warm disp_resp_max 0 (λ e. cc))
        step-OnAuthority (reaps pid ok) fine reached =
            still_known _ (record { listed = k.listed; agents = k.agents }) refl
        step-OnAuthority (reloads file) fine reached =
            still_known _ (record { listed = fine; agents = k.agents }) refl

    module _ (start : System) (all : List Event) where
      step-Reached :
          (s : System) (e : Event) (rest : List Event)
          → Reached start all s (e ∷ rest)
          → Reached start all (step c h e s) rest
      step-Reached s e rest r = record {
        past = r.past ++ (e ∷ []);
        split = r.split ∙ sym (append_assoc r.past (e ∷ []) rest);
        state = run_last c h r.past e start ∙ ap (step c h e) r.state;
      }

      run-Reached :
          (es : List Event) (s : System)
          → Reached start all s es
          → OnAuthority start all s
          → All LoadsAllowed es
          → OnAuthority start all (run c h es s)
      unfolding run
      run-Reached [] s reached a fine = a
      run-Reached (e ∷ es) s reached (k, allowed) (first, rest) =
          run-Reached es (step c h e s) (step-Reached s e es reached)
            (step-OnAuthority s k start all es allowed e first reached) rest

    -- With the daemon's handlers, for any set of keys: if nothing has been asked for at the start,
    -- the whitelist then and every one that is loaded later accept only keys of the set, and the
    -- sessions at the start are of agents with such keys, then every signal and every restart that
    -- the daemon asks the system for, in any interleaving of its threads, is asked for by one of
    -- the events, in the state that the events before it lead to: a pass of a session whose agent
    -- has such a key, its packet completing a signed frame whose tag the session's key verifies and
    -- whose number is above the session's last one; and the sessions at the end are of agents with
    -- such keys.
    pub run-OnAuthority :
        (es : List Event) (s : System)
        → s.world.effects ≡ []
        → IsKnown s
        → All LoadsAllowed es
        → OnAuthority s es (run c h es s)
    unfolding run
    run-OnAuthority es s none_asked k fine =
        run-Reached s es es s (record { past = []; split = refl; state = refl })
          (k, subst (AreAuthorized s es) (sym none_asked) tt) fine
