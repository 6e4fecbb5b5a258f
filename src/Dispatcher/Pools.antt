-- ===== src/Dispatcher/Pools.antt =====
-- Every request keeps the task pool valid: the handlers of src/asyd/handlers through
-- src/asyd/core/dispatcher.c.
use asys.Base.{ℕ, ◌<◌, ◌≡◌, List, some, Option-cases, inl, inr, arith}
use asys.Handlers.{Request, Io, World, HandlerFn}
use asys.Handlers.TaskQuery.{handler_task_query, query_handle, answer}
use asys.Handlers.ProcThrottle.{handler_proc_throttle}
use asys.Handlers.SvcRestart.{handler_svc_restart, start_restart, requested_name}
use asys.Handlers.SysHello.{handler_sys_hello}
use asys.Handlers.SysCaps.{handler_sys_caps}
use asys.Handlers.SysStatus.{handler_sys_status}
use asys.Handlers.SysProcs.{handler_sys_procs}
use asys.Tasks.{
  TaskPool, task_pool_free, task_pool_sweep_timeouts, task_pool_alloc, step, frees, allocates,
}
use asys.Tasks.Validity.{IsPool, sweep-IsPool, step-IsPool}
use asys.Dispatcher.{Handlers, dispatch, handler_for}
use asys.Dispatcher.Guarded.{Installed, each_entry}
use asys.Dispatcher.Isolation.{
  LeavesPool, sys_caps-LeavesPool, sys_hello-LeavesPool, sys_status-LeavesPool,
  sys_procs-LeavesPool, proc_throttle-LeavesPool, fork_cases, start_failed, start_forked,
}

unfoldable pub KeepsPool : HandlerFn → Type 0
KeepsPool fn =
    (io : Io) (w : World) (req : Request) (sz session_id : ℕ)
    → session_id < 65536
    → IsPool w.pool
    → IsPool (fn io w req sz session_id).1.pool

LeavesPool-KeepsPool : (fn : HandlerFn) → LeavesPool fn → KeepsPool fn
unfolding KeepsPool LeavesPool
LeavesPool-KeepsPool fn same io w req sz sid small v = rw (same io w req sz sid) v

pub free-IsPool : (p : TaskPool) (handle : ℕ) → IsPool p → IsPool (task_pool_free p handle)
unfolding step
free-IsPool p handle v = step-IsPool (λ seed. (seed, seed)) p 0 (frees handle) tt v

task_query-KeepsPool : KeepsPool handler_task_query
unfolding KeepsPool handler_task_query answer
task_query-KeepsPool io w req sz sid small v =
    let p = task_pool_sweep_timeouts io.sweep_time w.pool in
    let swept = sweep-IsPool io.sweep_time w.pool v in
    ground (arith, swept, free-IsPool p (query_handle req) swept)

module _ (rand_r : ℕ → ℕ × ℕ) where
  alloc-IsPool :
      (now : ℕ) (p : TaskPool) (sid : ℕ) (name : List ℕ) (pid : ℕ)
      → sid < 65536
      → IsPool p
      → IsPool (task_pool_alloc rand_r now p sid name pid).1
  unfolding step
  alloc-IsPool now p sid name pid small v =
      step-IsPool rand_r p now (allocates sid name pid) small v

  start-IsPool :
      (io : Io) (w : World) (p : TaskPool) (sid : ℕ) (name : List ℕ)
      → sid < 65536
      → IsPool p
      → IsPool (start_restart rand_r io w p sid name).1.pool
  start-IsPool io w p sid name small v = elim (fork_cases io.fork_result) [
    | inl (error, e) ↦ rw (start_failed rand_r io w p sid name error e) v
    | inr (pid, e) ↦
        rw (start_forked rand_r io w p sid name pid e)
          (alloc-IsPool io.alloc_time p sid name pid small v)
  ]

  svc_restart-KeepsPool : KeepsPool (handler_svc_restart rand_r)
  unfolding KeepsPool handler_svc_restart
  svc_restart-KeepsPool io w req sz sid small v =
      let p = task_pool_sweep_timeouts io.sweep_time w.pool in
      let swept = sweep-IsPool io.sweep_time w.pool v in
      ground (arith, swept, start-IsPool io w p sid (requested_name req) small swept)

module _ (rand_r : ℕ → ℕ × ℕ) (h : Handlers) (ins : Installed rand_r h) where
  found-KeepsPool : (i : ℕ) (fn : HandlerFn) → handler_for h i ≡ some fn → KeepsPool fn
  found-KeepsPool =
      each_entry rand_r h ins KeepsPool (LeavesPool-KeepsPool handler_sys_caps sys_caps-LeavesPool)
        (LeavesPool-KeepsPool handler_sys_hello sys_hello-LeavesPool)
        (LeavesPool-KeepsPool handler_sys_status sys_status-LeavesPool)
        (LeavesPool-KeepsPool handler_sys_procs sys_procs-LeavesPool) task_query-KeepsPool
        (LeavesPool-KeepsPool handler_proc_throttle proc_throttle-LeavesPool)
        (svc_restart-KeepsPool rand_r)

  pub dispatch-IsPool :
      (io : Io) (w : World) (req : Request) (resp_size session_id : ℕ)
      → session_id < 65536
      → IsPool w.pool
      → IsPool (dispatch h io w req resp_size session_id).1.pool
  unfolding dispatch KeepsPool
  dispatch-IsPool io w req resp_size sid small v =
      elim (Option-cases (handler_for h req.frame.ins)) [
        | inl e ↦ ground (arith, e, v)
        | inr (fn, e) ↦
            ground (arith, e, v, found-KeepsPool req.frame.ins fn e io w req resp_size sid small v)
      ]
