-- ===== src/Dispatcher/Sizes.antt =====
-- How long a reply of src/asyd/core/dispatcher.c and src/asyd/handlers is, against the caller's
-- buffer.
use asys.Base.{
  replicate, ℕ, zero, suc, ◌+◌, ◌*◌, ◌≤◌, ◌≡◌, some, List, [], ◌∷◌, ◌++◌, length, length-append,
  Option-cases, Bool-cases, ltb, ◌==◌, inl, inr, arith,
}
use asys.Handlers.{Request, Io, World, HandlerFn}
use asys.Reports.{Host, ProcsCache, cpus}
use asys.Handlers.TaskQuery.{handler_task_query, answer}
use asys.Handlers.ProcThrottle.{handler_proc_throttle}
use asys.Handlers.SvcRestart.{handler_svc_restart, start_restart}
use asys.Handlers.SysHello.{handler_sys_hello}
use asys.Handlers.SysCaps.{handler_sys_caps, kernel_static, build_kernel_hash}
use asys.Handlers.SysStatus.{handler_sys_status, status_report}
use asys.Handlers.SysProcs.{
  handler_sys_procs, slots, procs_report, procs_resp_len, snaps_of, total_since, warm_up,
}
use asys.Handlers.SysProcs.Proc.{read_mem_total_kb, scan_proc}
use asys.Handlers.SysProcs.Top.{ProcInfo, top_n, top_of}
use asys.Dispatcher.{Handlers, dispatch, handler_for, reply_bytes}
use asys.Dispatcher.Guarded.{Installed, each_entry}

-- A buffer of six bytes or more holds the whole reply, which has a status word at least.
unfoldable pub Fits : HandlerFn → Type 0
Fits fn =
    (io : Io) (w : World) (req : Request) (sz session_id : ℕ)
    → 6 ≤ sz
    → let n = length (reply_bytes (fn io w req sz session_id).0) in (2 ≤ n) × (n ≤ sz)

proc_throttle-Fits : Fits handler_proc_throttle
unfolding Fits handler_proc_throttle
proc_throttle-Fits io w req sz session_id room = ground arith

task_query-Fits : Fits handler_task_query
unfolding Fits handler_task_query answer
task_query-Fits io w req sz session_id room = ground arith

svc_restart-Fits : (rand_r : ℕ → ℕ × ℕ) → Fits (handler_svc_restart rand_r)
unfolding Fits handler_svc_restart start_restart
svc_restart-Fits rand_r io w req sz session_id room = ground arith

sys_hello-Fits : Fits handler_sys_hello
unfolding Fits handler_sys_hello
sys_hello-Fits io w req sz session_id room = ground arith

kernel_static-append :
    (host : Host) (ys : List ℕ) → length (kernel_static host ++ ys) ≡ 8 + length ys
unfolding kernel_static build_kernel_hash
kernel_static-append host ys = elim (Option-cases host.uname) [
  | inl e ↦ rw e (omega arith)
  | inr (uts, e) ↦ rw e (omega arith)
]

sys_caps-Fits : Fits handler_sys_caps
unfolding Fits handler_sys_caps
sys_caps-Fits io w req sz session_id room = elim (Bool-cases (ltb sz 36)) [
  | inl e ↦ rw e (omega arith, ground arith)
  | inr e ↦ rw (e, kernel_static-append) (omega arith, ground (arith, e))
]

sys_status-Fits : Fits handler_sys_status
unfolding Fits handler_sys_status status_report
sys_status-Fits io w req sz session_id room = ground arith

length-slots :
    (room ncpus total_delta : ℕ) (top : List ProcInfo)
    → length (slots room ncpus total_delta top) ≡ room * 8
unfolding slots replicate
length-slots zero ncpus total_delta top = omega arith
length-slots (suc room) ncpus total_delta [] = omega (arith, length-slots room ncpus total_delta [])
length-slots (suc room) ncpus total_delta (p ∷ top) =
    let ih = length-slots room ncpus total_delta top in
    elim (Bool-cases (p.pid == 0)) [
      | inl e ↦ rw e (omega (arith, ih))
      | inr e ↦ rw e (omega (arith, ih))
    ]

length-procs_report :
    (ncpus total_procs : ℕ) (prev curr : ProcsCache)
    → length (procs_report ncpus total_procs prev curr) ≡ procs_resp_len
unfolding procs_report
length-procs_report ncpus total_procs prev curr =
    let top = top_of (snaps_of curr.prev) [] (snaps_of prev.prev) in
    let bytes = slots top_n ncpus (total_since prev.total_prev curr.total_prev) top in
    omega (
      arith,
      length-append bytes (0x90 ∷ 0x00 ∷ []),
      length-slots top_n ncpus (total_since prev.total_prev curr.total_prev) top,
    )

sys_procs-Fits : Fits handler_sys_procs
unfolding Fits handler_sys_procs
sys_procs-Fits io w req sz session_id room =
    let mem_total_kb = read_mem_total_kb io.host.meminfo in
    let t2 = scan_proc mem_total_kb io.host.listing in
    ground (
      arith,
      length-procs_report (cpus io.host) t2.total_procs (warm_up mem_total_kb io.host w.procs)
          (record { prev = t2.snaps; total_prev = t2.total }),
    )

module _ (rand_r : ℕ → ℕ × ℕ) (h : Handlers) (ins : Installed rand_r h) where
  found-Fits : (i : ℕ) (fn : HandlerFn) → handler_for h i ≡ some fn → Fits fn
  found-Fits =
      each_entry rand_r h ins Fits sys_caps-Fits sys_hello-Fits sys_status-Fits sys_procs-Fits
        task_query-Fits proc_throttle-Fits (svc_restart-Fits rand_r)

  -- With the daemon's handlers and a buffer of six bytes or more: whatever the request, the
  -- system's answers and the instruction, the dispatcher writes a status word at least, and no byte
  -- beyond the buffer.
  pub dispatch_fits :
      (io : Io) (w : World) (req : Request) (resp_size session_id : ℕ)
      → 6 ≤ resp_size
      → let n = length (dispatch h io w req resp_size session_id).0 in (2 ≤ n) × (n ≤ resp_size)
  unfolding dispatch Fits
  dispatch_fits io w req resp_size session_id room =
      elim (Option-cases (handler_for h req.frame.ins)) [
        | inl e ↦ ground (arith, e)
        | inr (fn, e) ↦
            ground (arith, e, found-Fits req.frame.ins fn e io w req resp_size session_id room)
      ]
