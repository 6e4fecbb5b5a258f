-- ===== src/Dispatcher/Isolation.antt =====
-- What a request of one session can do to the tasks of another: the handlers of src/asyd/handlers
-- on the shared task pool.
use asys.Base.{
  ℕ, ◌/◌, ◌%◌, ◌^◌, ◌≡◌, ◌⊎◌, refl, some, List, ltb, Bool-cases, Option-cases, inl, inr, arith,
}
use asys.Handlers.{Errno, ForkResult, fork_failed, forked, Request, Io, World, HandlerFn}
use asys.Handlers.TaskQuery.{handler_task_query, query_handle, answer}
use asys.Handlers.ProcThrottle.{handler_proc_throttle}
use asys.Handlers.SvcRestart.{handler_svc_restart, start_restart, requested_name}
use asys.Handlers.SysHello.{handler_sys_hello}
use asys.Handlers.SysCaps.{handler_sys_caps}
use asys.Handlers.SysStatus.{handler_sys_status}
use asys.Handlers.SysProcs.{handler_sys_procs}
use asys.Tasks.{
  TaskEntry, TaskPool, is_pending, task_pool_free, task_pool_find_handle, task_pool_sweep_timeouts,
  task_pool_alloc,
}
use asys.Tasks.Validity.{IsPool, sweep-IsPool}
use asys.Tasks.Alloc.{alloc_cases}
use asys.Tasks.Sparing.{
  AllSpared, AllSpared-refl, AllSpared-sweep, AllSpared-modify, handle_owner, empty_owner,
}
use asys.Dispatcher.{Handlers, dispatch, handler_for}
use asys.Dispatcher.Guarded.{Installed, each_entry}

-- The pool after the handler, against the pool before.
unfoldable pub Isolates : HandlerFn → Type 0
Isolates fn =
    (io : Io) (w : World) (req : Request) (sz session_id : ℕ)
    → IsPool w.pool
    → AllSpared io.sweep_time session_id w.pool.entries (fn io w req sz session_id).1.pool.entries

-- A handler that does not touch the pool.
unfoldable pub LeavesPool : HandlerFn → Type 0
LeavesPool fn =
    (io : Io) (w : World) (req : Request) (sz session_id : ℕ)
    → (fn io w req sz session_id).1.pool ≡ w.pool

LeavesPool-Isolates : (fn : HandlerFn) → LeavesPool fn → Isolates fn
unfolding Isolates LeavesPool
LeavesPool-Isolates fn same io w req sz sid v =
    rw (same io w req sz sid) (AllSpared-refl io.sweep_time sid w.pool.entries)

pub sys_caps-LeavesPool : LeavesPool handler_sys_caps
unfolding LeavesPool handler_sys_caps
sys_caps-LeavesPool io w req sz sid = ground arith

pub sys_hello-LeavesPool : LeavesPool handler_sys_hello
unfolding LeavesPool handler_sys_hello
sys_hello-LeavesPool io w req sz sid = ground arith

pub sys_status-LeavesPool : LeavesPool handler_sys_status
unfolding LeavesPool handler_sys_status
sys_status-LeavesPool io w req sz sid = ground arith

pub sys_procs-LeavesPool : LeavesPool handler_sys_procs
unfolding LeavesPool handler_sys_procs
sys_procs-LeavesPool io w req sz sid = ground arith

pub proc_throttle-LeavesPool : LeavesPool handler_proc_throttle
unfolding LeavesPool handler_proc_throttle
proc_throttle-LeavesPool io w req sz sid = ground arith

module _ (now sid : ℕ) (p : TaskPool) (v : IsPool p) where
  abbrev swept : TaskPool
  swept = task_pool_sweep_timeouts now p

  swept-AllSpared : AllSpared now sid p.entries swept.entries
  unfolding task_pool_sweep_timeouts
  swept-AllSpared = AllSpared-sweep now sid p.entries

  free-AllSpared :
      (handle : ℕ)
      → handle / 2 ^ 16 % 2 ^ 16 ≡ sid
      → AllSpared now sid p.entries (task_pool_free swept handle).entries
  unfolding task_pool_free task_pool_sweep_timeouts
  free-AllSpared handle own =
      AllSpared-modify now sid _ _ (handle_owner handle sid own) p.entries
        (sweep-IsPool now p v).slots

  alloc-AllSpared :
      (rand_r : ℕ → ℕ × ℕ) (time : ℕ) (name : List ℕ) (pid : ℕ)
      → AllSpared now sid p.entries (task_pool_alloc rand_r time swept sid name pid).1.entries
  unfolding task_pool_sweep_timeouts
  alloc-AllSpared rand_r time name pid =
      alloc_cases rand_r time swept sid name pid (λ q. AllSpared now sid p.entries q.entries)
        swept-AllSpared
        (λ _. AllSpared-modify now sid _ _ (empty_owner sid) p.entries (sweep-IsPool now p v).slots)

found_own :
    (p : TaskPool) (handle sid : ℕ) {e : TaskEntry}
    → task_pool_find_handle p handle sid ≡ some e
    → handle / 2 ^ 16 % 2 ^ 16 ≡ sid
unfolding task_pool_find_handle
found_own p handle sid found = ground arith

task_query-Isolates : Isolates handler_task_query
unfolding Isolates handler_task_query answer
task_query-Isolates io w req sz sid v =
    let now = io.sweep_time in
    let handle = query_handle req in
    elim (Bool-cases (ltb req.frame.data_len 4)) [
      | inl short ↦ rw short (AllSpared-refl now sid w.pool.entries)
      | inr enough ↦
          elim (Option-cases (task_pool_find_handle (swept now sid w.pool v) handle sid)) [
            | inl absent ↦ rw (enough, absent) (swept-AllSpared now sid w.pool v)
            | inr (e, found) ↦ elim (Bool-cases (is_pending e.status)) [
              | inl waits ↦ rw (enough, found, waits) (swept-AllSpared now sid w.pool v)
              | inr ended ↦
                  rw (enough, found, ended)
                    (free-AllSpared now sid w.pool v handle
                      (found_own (swept now sid w.pool v) handle sid found))
            ]
          ]
    ]

pub fork_cases :
    (r : ForkResult) → ((error : Errno) × (r ≡ fork_failed error)) ⊎ ((pid : ℕ) × (r ≡ forked pid))
fork_cases (fork_failed error) = inl (error, refl)
fork_cases (forked pid) = inr (pid, refl)

module _ (rand_r : ℕ → ℕ × ℕ) where
  pub start_failed :
      (io : Io) (w : World) (p : TaskPool) (sid : ℕ) (name : List ℕ) (error : Errno)
      → io.fork_result ≡ fork_failed error
      → (start_restart rand_r io w p sid name).1.pool ≡ p
  unfolding start_restart
  start_failed io w p sid name error e = ground arith

  pub start_forked :
      (io : Io) (w : World) (p : TaskPool) (sid : ℕ) (name : List ℕ) (pid : ℕ)
      → io.fork_result ≡ forked pid
      → (start_restart rand_r io w p sid name).1.pool
        ≡ (task_pool_alloc rand_r io.alloc_time p sid name pid).1
  unfolding start_restart
  start_forked io w p sid name pid e = ground arith

  start-AllSpared :
      (io : Io) (w : World) (sid : ℕ) (name : List ℕ) (v : IsPool w.pool)
      → let p = swept io.sweep_time sid w.pool v in
        AllSpared io.sweep_time sid w.pool.entries
          (start_restart rand_r io w p sid name).1.pool.entries
  start-AllSpared io w sid name v =
      let now = io.sweep_time in
      let p = swept now sid w.pool v in
      elim (fork_cases io.fork_result) [
        | inl (error, e) ↦
            rw (start_failed io w p sid name error e) (swept-AllSpared now sid w.pool v)
        | inr (pid, e) ↦
            rw (start_forked io w p sid name pid e)
              (alloc-AllSpared now sid w.pool v rand_r io.alloc_time name pid)
      ]

  svc_restart-Isolates : Isolates (handler_svc_restart rand_r)
  unfolding Isolates handler_svc_restart
  svc_restart-Isolates io w req sz sid v =
      let now = io.sweep_time in
      ground (
        arith,
        AllSpared-refl now sid w.pool.entries,
        swept-AllSpared now sid w.pool v,
        start-AllSpared io w sid (requested_name req) v,
      )

module _ (rand_r : ℕ → ℕ × ℕ) (h : Handlers) (ins : Installed rand_r h) where
  found-Isolates : (i : ℕ) (fn : HandlerFn) → handler_for h i ≡ some fn → Isolates fn
  found-Isolates =
      each_entry rand_r h ins Isolates (LeavesPool-Isolates handler_sys_caps sys_caps-LeavesPool)
        (LeavesPool-Isolates handler_sys_hello sys_hello-LeavesPool)
        (LeavesPool-Isolates handler_sys_status sys_status-LeavesPool)
        (LeavesPool-Isolates handler_sys_procs sys_procs-LeavesPool) task_query-Isolates
        (LeavesPool-Isolates handler_proc_throttle proc_throttle-LeavesPool)
        (svc_restart-Isolates rand_r)

  -- With the daemon's handlers and a valid task pool, whatever a session requests: each slot of the
  -- pool keeps its task, but for a task that is pending for more than 30 seconds, which may time
  -- out, the session's own tasks, empty slots, and results of more than 30 seconds. So a request
  -- never removes or changes another session's task that is in its time.
  pub dispatch-Isolates :
      (io : Io) (w : World) (req : Request) (resp_size session_id : ℕ)
      → IsPool w.pool
      → AllSpared io.sweep_time session_id w.pool.entries
          (dispatch h io w req resp_size session_id).1.pool.entries
  unfolding dispatch Isolates
  dispatch-Isolates io w req resp_size session_id v =
      elim (Option-cases (handler_for h req.frame.ins)) [
        | inl e ↦ ground (arith, e, AllSpared-refl io.sweep_time session_id w.pool.entries)
        | inr (fn, e) ↦ ground (
          arith,
          e,
          AllSpared-refl io.sweep_time session_id w.pool.entries,
          found-Isolates req.frame.ins fn e io w req resp_size session_id v,
        )
      ]
