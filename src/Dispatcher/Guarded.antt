-- ===== src/Dispatcher/Guarded.antt =====
-- The handlers that src/asyd/core/dispatcher.c installs, and what an unsigned frame cannot do.
use asys.Base.{ℕ, ◌≡◌, ◌≢◌, ◌⊎◌, inl, inr, subst, sym, ◌∙◌, some, Option-cases, arith}
use asys.Apdu.{sec_signed}
use asys.Handlers.{Request, Io, World, HandlerFn}
use asys.Handlers.TaskQuery.{handler_task_query}
use asys.Handlers.ProcThrottle.{handler_proc_throttle}
use asys.Handlers.SvcRestart.{handler_svc_restart}
use asys.Handlers.SysHello.{handler_sys_hello}
use asys.Handlers.SysCaps.{handler_sys_caps}
use asys.Handlers.SysStatus.{handler_sys_status}
use asys.Handlers.SysProcs.{handler_sys_procs}
use asys.Handlers.Guarded.{
  NeedsSignature, proc_throttle-NeedsSignature, task_query-NeedsSignature, sys_hello-NeedsSignature,
  svc_restart-NeedsSignature, sys_caps-NeedsSignature, sys_status-NeedsSignature,
  sys_procs-NeedsSignature,
}
use asys.Dispatcher.{Handlers, dispatch, handler_for, core_table, standard_table}

-- The tables' entries.
pub record Installed (rand_r : ℕ → ℕ × ℕ) (h : Handlers) : Type 0 where
  pub caps : h.sys_caps ≡ handler_sys_caps
  pub hello : h.sys_hello ≡ handler_sys_hello
  pub status : h.sys_status ≡ handler_sys_status
  pub procs : h.sys_procs ≡ handler_sys_procs
  pub query : h.task_query ≡ handler_task_query
  pub throttle : h.proc_throttle ≡ handler_proc_throttle
  pub restart : h.svc_restart ≡ handler_svc_restart rand_r

module _ (rand_r : ℕ → ℕ × ℕ) (h : Handlers) (ins : Installed rand_r h) where
  entry_cases :
      (i : ℕ) (fn : HandlerFn)
      → handler_for h i ≡ some fn
      → (h.sys_caps ≡ fn)
        ⊎ (h.sys_hello ≡ fn)
        ⊎ (h.sys_status ≡ fn)
        ⊎ (h.sys_procs ≡ fn)
        ⊎ (h.task_query ≡ fn)
        ⊎ (h.proc_throttle ≡ fn)
        ⊎ (h.svc_restart ≡ fn)
  unfolding handler_for core_table standard_table
  entry_cases i fn found = ground arith

  -- What holds of the seven handlers holds of every entry.
  pub each_entry :
      (P : HandlerFn → Type 0)
      → P handler_sys_caps
      → P handler_sys_hello
      → P handler_sys_status
      → P handler_sys_procs
      → P handler_task_query
      → P handler_proc_throttle
      → P (handler_svc_restart rand_r)
      → (i : ℕ) (fn : HandlerFn) → handler_for h i ≡ some fn
      → P fn
  each_entry P a b c d e f g i fn found = elim (entry_cases i fn found) [
    | inl p ↦ subst P (sym ins.caps ∙ p) a
    | inr (inl p) ↦ subst P (sym ins.hello ∙ p) b
    | inr (inr (inl p)) ↦ subst P (sym ins.status ∙ p) c
    | inr (inr (inr (inl p))) ↦ subst P (sym ins.procs ∙ p) d
    | inr (inr (inr (inr (inl p)))) ↦ subst P (sym ins.query ∙ p) e
    | inr (inr (inr (inr (inr (inl p))))) ↦ subst P (sym ins.throttle ∙ p) f
    | inr (inr (inr (inr (inr (inr p))))) ↦ subst P (sym ins.restart ∙ p) g
  ]

  found-NeedsSignature : (i : ℕ) (fn : HandlerFn) → handler_for h i ≡ some fn → NeedsSignature fn
  found-NeedsSignature =
      each_entry NeedsSignature sys_caps-NeedsSignature sys_hello-NeedsSignature
        sys_status-NeedsSignature sys_procs-NeedsSignature task_query-NeedsSignature
        proc_throttle-NeedsSignature (svc_restart-NeedsSignature rand_r)

  -- With the daemon's handlers: whatever the instruction, the dispatch of a frame that is not
  -- signed sends no signal and starts no process.
  pub dispatch_unsigned :
      (io : Io) (w : World) (req : Request) (resp_size session_id : ℕ)
      → req.frame.sec ≢ sec_signed
      → (dispatch h io w req resp_size session_id).1.effects ≡ w.effects
  unfolding dispatch NeedsSignature
  dispatch_unsigned io w req resp_size session_id unsigned =
      elim (Option-cases (handler_for h req.frame.ins)) [
        | inl e ↦ ground (arith, e)
        | inr (fn, e) ↦ ground (
          arith,
          e,
          found-NeedsSignature req.frame.ins fn e io w req resp_size session_id unsigned,
        )
      ]
