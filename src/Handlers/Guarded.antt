-- ===== src/Handlers/Guarded.antt =====
-- Which handlers of src/asyd/handlers act on the system, and for whom.
use asys.Base.{ℕ, ◌≡◌, ◌≢◌, arith}
use asys.Apdu.{sec_signed}
use asys.Handlers.{Request, Io, World, HandlerFn}
use asys.Handlers.TaskQuery.{handler_task_query}
use asys.Handlers.ProcThrottle.{handler_proc_throttle}
use asys.Handlers.SvcRestart.{handler_svc_restart}
use asys.Handlers.SysHello.{handler_sys_hello}
use asys.Handlers.SysCaps.{handler_sys_caps}
use asys.Handlers.SysStatus.{handler_sys_status}
use asys.Handlers.SysProcs.{handler_sys_procs}

-- The handler asks the system for nothing on an unsigned frame.
unfoldable pub NeedsSignature : HandlerFn → Type 0
NeedsSignature fn =
    (io : Io) (w : World) (req : Request) (sz session_id : ℕ)
    → req.frame.sec ≢ sec_signed
    → (fn io w req sz session_id).1.effects ≡ w.effects

pub proc_throttle-NeedsSignature : NeedsSignature handler_proc_throttle
unfolding NeedsSignature handler_proc_throttle
proc_throttle-NeedsSignature io w req sz session_id unsigned = ground arith

pub task_query-NeedsSignature : NeedsSignature handler_task_query
unfolding NeedsSignature handler_task_query
task_query-NeedsSignature io w req sz session_id unsigned = ground arith

pub sys_hello-NeedsSignature : NeedsSignature handler_sys_hello
unfolding NeedsSignature handler_sys_hello
sys_hello-NeedsSignature io w req sz session_id unsigned = ground arith

pub sys_caps-NeedsSignature : NeedsSignature handler_sys_caps
unfolding NeedsSignature handler_sys_caps
sys_caps-NeedsSignature io w req sz session_id unsigned = ground arith

pub sys_status-NeedsSignature : NeedsSignature handler_sys_status
unfolding NeedsSignature handler_sys_status
sys_status-NeedsSignature io w req sz session_id unsigned = ground arith

pub sys_procs-NeedsSignature : NeedsSignature handler_sys_procs
unfolding NeedsSignature handler_sys_procs
sys_procs-NeedsSignature io w req sz session_id unsigned = ground arith

pub svc_restart-NeedsSignature : (rand_r : ℕ → ℕ × ℕ) → NeedsSignature (handler_svc_restart rand_r)
unfolding NeedsSignature handler_svc_restart
svc_restart-NeedsSignature rand_r io w req sz session_id unsigned = ground arith
