-- ===== src/Tasks/Starts.antt =====
-- What a session finds of a task that it has just started, and of the exit of its child on either
-- side of the start: task_pool_alloc, task_pool_find_handle and task_pool_update_by_pid.
use asys.Base.{ℕ, ◌<◌, ◌≡◌, sym, subst, Bool, true, false, none, some, List, if◌then◌else◌}
use asys.Tasks.{
  TaskStatus, empty, success, failed, TaskEntry, TaskPool, find_first, has_handle, is_pending_child,
  task_pool_alloc, task_pool_available, task_pool_find_handle, task_pool_update_by_pid,
}
use asys.Tasks.Alloc.{allocated}
use asys.Tasks.Bag.{IsNew}
use asys.Tasks.Refinement.{allocated-IsNew}
use asys.Tasks.Handles.{find_handle-alloc}
use asys.Tasks.Timeouts.{update_none, reap-after-alloc}

result_used : (ok : Bool) → (if ok then success else failed) ≡ empty → ⊥
result_used true e = cc
result_used false e = cc

module _ (rand_r : ℕ → ℕ × ℕ) (now : ℕ) (p : TaskPool) (sid : ℕ) (name : List ℕ) (pid : ℕ) where
  -- A task that a session with a 16-bit identifier has just been given, in a pool with a free slot,
  -- is found under its handle by the session, unless a task already had that handle: it is pending
  -- since now, belongs to the session and to the child, has the first 64 characters of the service's
  -- name, and its handle is the session's identifier and 16 bits behind it that are not 0.
  pub find_handle-IsNew :
      sid < 65536
      → task_pool_available p ≡ true
      → let (handle, q) = task_pool_alloc rand_r now p sid name pid in
        find_first (has_handle handle) p.entries ≡ none
        → (e : TaskEntry) × (task_pool_find_handle q handle sid ≡ some e) × IsNew now sid name pid e
  find_handle-IsNew small room fresh = (
    allocated rand_r now p sid name pid,
    find_handle-alloc rand_r now p sid name pid small room fresh,
    allocated-IsNew rand_r now p sid name pid small,
  )

  -- The order of a start and of its child's exit matters. In a pool with a free slot, for a session
  -- with a 16-bit identifier, if no other pending task has that child and no other task the handle: a
  -- child that exits after its task was allocated gives it its result, and one that exits before is
  -- forgotten, so that the session finds the same task pending.
  pub reap-order :
      (exit_ok : Bool)
      → sid < 65536
      → task_pool_available p ≡ true
      → find_first (is_pending_child pid) p.entries ≡ none
      → let result = (if exit_ok then success else failed) in
        let (handle, q) = task_pool_alloc rand_r now p sid name pid in
        let (handle', q') =
          task_pool_alloc rand_r now (task_pool_update_by_pid p pid result) sid name pid in
        find_first (has_handle handle) p.entries ≡ none
        → (e : TaskEntry) × IsNew now sid name pid e
          × (task_pool_find_handle (task_pool_update_by_pid q pid result) handle sid
              ≡ some (record e { status = result }))
          × (task_pool_find_handle q' handle' sid ≡ some e)
  reap-order exit_ok small room single fresh =
      let result : TaskStatus = (if exit_ok then success else failed) in
      let e = allocated rand_r now p sid name pid in
      (
        e,
        allocated-IsNew rand_r now p sid name pid small,
        reap-after-alloc rand_r now p sid name pid result small (result_used exit_ok) room single
            fresh,
        subst
            (λ x.
              task_pool_find_handle (task_pool_alloc rand_r now x sid name pid).1
                (task_pool_alloc rand_r now x sid name pid).0 sid
              ≡ some e)
            (sym (update_none p pid result single))
            (find_handle-alloc rand_r now p sid name pid small room fresh),
      )
