-- ===== src/Dispatcher/Locality.antt =====
-- What the handlers of src/asyd/handlers read of the receive buffer: the frame's data and no more.
use asys.Base.{ℕ, ◌-◌, ◌≤◌, ◌≡◌, refl, List, some, ltb, Bool-cases, Option-cases, inl, inr, arith}
use asys.Apdu.{ApduFrame}
use asys.Apdu.Data.{SameData, data_byte-SameData, data_bytes-SameData}
use asys.Handlers.{Request, Io, World, HandlerFn}
use asys.Handlers.TaskQuery.{handler_task_query, query_handle}
use asys.Handlers.ProcThrottle.{handler_proc_throttle, throttle_pid}
use asys.Handlers.SvcRestart.{handler_svc_restart}
use asys.Handlers.SysHello.{handler_sys_hello}
use asys.Handlers.SysCaps.{handler_sys_caps}
use asys.Handlers.SysStatus.{handler_sys_status}
use asys.Handlers.SysProcs.{handler_sys_procs}
use asys.Dispatcher.{Handlers, dispatch, handler_for}
use asys.Dispatcher.Guarded.{Installed, each_entry}

abbrev pub request : List ℕ → ApduFrame → Request
request buf f = record { buf = buf; frame = f }

ReadsData : HandlerFn → Type 0
ReadsData fn =
    (io : Io) (w : World) (f : ApduFrame) (a b : List ℕ) (sz session_id : ℕ)
    → SameData f a b
    → fn io w (request a f) sz session_id ≡ fn io w (request b f) sz session_id

sys_caps-ReadsData : ReadsData handler_sys_caps
unfolding ReadsData handler_sys_caps
sys_caps-ReadsData io w f a b sz sid same = refl

sys_hello-ReadsData : ReadsData handler_sys_hello
unfolding ReadsData handler_sys_hello
sys_hello-ReadsData io w f a b sz sid same = refl

sys_status-ReadsData : ReadsData handler_sys_status
unfolding ReadsData handler_sys_status
sys_status-ReadsData io w f a b sz sid same = refl

sys_procs-ReadsData : ReadsData handler_sys_procs
unfolding ReadsData handler_sys_procs
sys_procs-ReadsData io w f a b sz sid same = refl

module _ (f : ApduFrame) (a b : List ℕ) (same : SameData f a b) where
  query_handle-SameData : 4 ≤ f.data_len → query_handle (request a f) ≡ query_handle (request b f)
  query_handle-SameData h =
      let at = data_byte-SameData f a b same in
      omega (arith, at 0 (omega arith), at 1 (omega arith), at 2 (omega arith), at 3 (omega arith))

  throttle_pid-SameData : 8 ≤ f.data_len → throttle_pid (request a f) ≡ throttle_pid (request b f)
  throttle_pid-SameData h =
      let at = data_byte-SameData f a b same in
      omega (arith, at 4 (omega arith), at 5 (omega arith), at 6 (omega arith), at 7 (omega arith))

task_query-ReadsData : ReadsData handler_task_query
unfolding ReadsData handler_task_query
task_query-ReadsData io w f a b sz sid same = elim (Bool-cases (ltb f.data_len 4)) [
  | inl e ↦ rw e refl
  | inr e ↦ rw (e, query_handle-SameData f a b same (ground (arith, e))) refl
]

proc_throttle-ReadsData : ReadsData handler_proc_throttle
unfolding ReadsData handler_proc_throttle
proc_throttle-ReadsData io w f a b sz sid same = elim (Bool-cases (ltb f.data_len 8)) [
  | inl e ↦ rw e refl
  | inr e ↦ rw (e, throttle_pid-SameData f a b same (ground (arith, e))) refl
]

svc_restart-ReadsData : (rand_r : ℕ → ℕ × ℕ) → ReadsData (handler_svc_restart rand_r)
unfolding ReadsData handler_svc_restart
svc_restart-ReadsData rand_r io w f a b sz sid same = elim (Bool-cases (ltb f.data_len 5)) [
  | inl e ↦ rw e refl
  | inr e ↦ rw (e, data_bytes-SameData f a b same 4 (f.data_len - 4) (ground (arith, e))) refl
]

module _ (rand_r : ℕ → ℕ × ℕ) (h : Handlers) (ins : Installed rand_r h) where
  found-ReadsData : (i : ℕ) (fn : HandlerFn) → handler_for h i ≡ some fn → ReadsData fn
  found-ReadsData =
      each_entry rand_r h ins ReadsData sys_caps-ReadsData sys_hello-ReadsData sys_status-ReadsData
        sys_procs-ReadsData task_query-ReadsData proc_throttle-ReadsData
        (svc_restart-ReadsData rand_r)

  -- With the daemon's handlers: the reply to a frame and everything that the request changes depend
  -- on the frame's fields and on the bytes of its data, and on no other byte of the receive buffer.
  pub dispatch_local :
      (io : Io) (w : World) (f : ApduFrame) (a b : List ℕ) (resp_size session_id : ℕ)
      → SameData f a b
      → dispatch h io w (request a f) resp_size session_id
        ≡ dispatch h io w (request b f) resp_size session_id
  unfolding dispatch ReadsData
  dispatch_local io w f a b resp_size session_id same = elim (Option-cases (handler_for h f.ins)) [
    | inl e ↦ rw e refl
    | inr (fn, e) ↦ rw (e, found-ReadsData f.ins fn e io w f a b resp_size session_id same) refl
  ]
