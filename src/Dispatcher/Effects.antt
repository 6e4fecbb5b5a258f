-- ===== src/Dispatcher/Effects.antt =====
-- A request asks the operating system for one thing at most: the handlers of src/asyd/handlers
-- through src/asyd/core/dispatcher.c.
use asys.Base.{
  Bool-cases, ℕ, ◌≡◌, ◌⊎◌, inl, inr, refl, List, ◌∷◌, ◌++◌, some, ltb, Option-cases, arith,
}
use asys.Handlers.{
  Request, Io, World, HandlerFn, Effect, kills, restarts, sigstop, sigcont, to_pid_t,
}
use asys.Handlers.TaskQuery.{handler_task_query}
use asys.Handlers.ProcThrottle.{handler_proc_throttle, throttle_pid}
use asys.Handlers.SvcRestart.{handler_svc_restart, requested_name, service_suffix}
use asys.Handlers.SysHello.{handler_sys_hello}
use asys.Handlers.SysCaps.{handler_sys_caps}
use asys.Handlers.SysStatus.{handler_sys_status}
use asys.Handlers.SysProcs.{handler_sys_procs}
use asys.Handlers.Restarts.{svc_restart_effect}
use asys.Dispatcher.{in_caps_bitmap, Handlers, dispatch, handler_for}
use asys.Dispatcher.Guarded.{Installed, each_entry}

-- Nothing was asked, or one thing.
abbrev pub AddsOne : List Effect → List Effect → Type 0
AddsOne before after = (after ≡ before) ⊎ ((effect : Effect) × (after ≡ effect ∷ before))

AsksOnce : HandlerFn → Type 0
AsksOnce fn =
    (io : Io) (w : World) (req : Request) (sz session_id : ℕ)
    → AddsOne w.effects (fn io w req sz session_id).1.effects

sys_caps-AsksOnce : AsksOnce handler_sys_caps
unfolding AsksOnce handler_sys_caps
sys_caps-AsksOnce io w req sz sid = inl (ground arith)

sys_hello-AsksOnce : AsksOnce handler_sys_hello
unfolding AsksOnce handler_sys_hello
sys_hello-AsksOnce io w req sz sid = inl (ground arith)

sys_status-AsksOnce : AsksOnce handler_sys_status
unfolding AsksOnce handler_sys_status
sys_status-AsksOnce io w req sz sid = inl (ground arith)

sys_procs-AsksOnce : AsksOnce handler_sys_procs
unfolding AsksOnce handler_sys_procs
sys_procs-AsksOnce io w req sz sid = inl (ground arith)

task_query-AsksOnce : AsksOnce handler_task_query
unfolding AsksOnce handler_task_query
task_query-AsksOnce io w req sz sid = inl (ground arith)

throttle_effect :
    (io : Io) (w : World) (req : Request) (sz session_id : ℕ)
    → let after = (handler_proc_throttle io w req sz session_id).1.effects in
      let pid = to_pid_t (throttle_pid req) in
      (after ≡ w.effects)
      ⊎ (after ≡ kills pid sigstop ∷ w.effects)
      ⊎ (after ≡ kills pid sigcont ∷ w.effects)
unfolding handler_proc_throttle
throttle_effect io w req sz sid = ground arith

proc_throttle-AsksOnce : AsksOnce handler_proc_throttle
unfolding AsksOnce
proc_throttle-AsksOnce io w req sz sid = elim (throttle_effect io w req sz sid) [
  | inl e ↦ inl e
  | inr (inl e) ↦ inr (kills (to_pid_t (throttle_pid req)) sigstop, e)
  | inr (inr e) ↦ inr (kills (to_pid_t (throttle_pid req)) sigcont, e)
]

svc_restart-AsksOnce : (rand_r : ℕ → ℕ × ℕ) → AsksOnce (handler_svc_restart rand_r)
unfolding AsksOnce
svc_restart-AsksOnce rand_r io w req sz sid = elim (svc_restart_effect rand_r io w req sz sid) [
  | inl e ↦ inl e
  | inr (e, signed, valid, fresh) ↦ inr (restarts (requested_name req ++ service_suffix), e)
]

module _ (rand_r : ℕ → ℕ × ℕ) (h : Handlers) (ins : Installed rand_r h) where
  found-AsksOnce : (i : ℕ) (fn : HandlerFn) → handler_for h i ≡ some fn → AsksOnce fn
  found-AsksOnce =
      each_entry rand_r h ins AsksOnce sys_caps-AsksOnce sys_hello-AsksOnce sys_status-AsksOnce
        sys_procs-AsksOnce task_query-AsksOnce proc_throttle-AsksOnce (svc_restart-AsksOnce rand_r)

  pub dispatch-AddsOne :
      (io : Io) (w : World) (req : Request) (resp_size session_id : ℕ)
      → AddsOne w.effects (dispatch h io w req resp_size session_id).1.effects
  unfolding dispatch AsksOnce
  dispatch-AddsOne io w req resp_size sid = elim (Bool-cases (ltb resp_size 2)) [
    | inl tiny ↦ rw (dispatch, tiny) (inl refl)
    | inr room ↦ elim (Bool-cases (in_caps_bitmap req.frame.ins)) [
      | inr absent ↦ rw (dispatch, room, absent) (inl refl)
      | inl present ↦ elim (Option-cases (handler_for h req.frame.ins)) [
        | inl e ↦ rw (dispatch, room, present, e) (inl refl)
        | inr (fn, e) ↦
            rw (dispatch, room, present, e)
              (found-AsksOnce req.frame.ins fn e io w req resp_size sid)
      ]
    ]
  ]
