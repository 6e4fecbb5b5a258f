-- ===== src/Tasks/Timeouts.antt =====
-- Time limits, and the order of allocation and child exit: task_pool_sweep_timeouts and
-- task_pool_update_by_pid.
use asys.Base.{
  ℕ, ◌-◌, ◌≤◌, ◌<◌, ◌≡◌, ◌≢◌, ◌⊎◌, sym, subst, ap, ◌∙◌, true, none, some, List, [], ◌∷◌, map, All,
  arith,
}
use asys.Tasks.{
  TaskStatus, empty, timeout, TaskEntry, TaskPool, find_first, has_handle, is_pending_child,
  slot_is_empty, sweep_entry, task_pool_alloc, task_pool_available, task_pool_find_handle,
  task_pool_sweep_timeouts, task_pool_update_by_pid, new_entry, handle_rand,
}
use asys.Tasks.Alloc.{allocated, pool_with, alloc_room}
use asys.Tasks.Find.{find_first-some, modify_first-none, find_first-modify_modify}
use asys.Tasks.Handles.{find_handle_own, allocated_handle, available_found}

-- What a client may see of a task after the sweep at time `now`.
abbrev IsCurrent : ℕ → TaskEntry → Type 0
IsCurrent now e = (e.status ≡ empty) ⊎ (now - e.created_at ≤ 30) ⊎ (e.status ≡ timeout)

sweep_entry-IsCurrent : (now : ℕ) (e : TaskEntry) → IsCurrent now (sweep_entry now e)
sweep_entry-IsCurrent now e = ground arith

swept-IsCurrent : (now : ℕ) (es : List TaskEntry) → All (IsCurrent now) (map (sweep_entry now) es)
swept-IsCurrent now [] = tt
swept-IsCurrent now (e ∷ es) = (sweep_entry-IsCurrent now e, swept-IsCurrent now es)

-- After the sweep, a task that a handle finds is at most 30 seconds old or has timed out: no task
-- is reported as pending, or with a result, beyond its time.
pub find_handle-sweep :
    (now : ℕ) (p : TaskPool) (handle sid : ℕ) {e : TaskEntry}
    → task_pool_find_handle (task_pool_sweep_timeouts now p) handle sid ≡ some e
    → (now - e.created_at ≤ 30) ⊎ (e.status ≡ timeout)
unfolding task_pool_find_handle task_pool_sweep_timeouts
find_handle-sweep now p handle sid {e} h =
    let swept = map (sweep_entry now) p.entries in
    let found : find_first (has_handle handle) swept ≡ some e = ground arith in
    let (hit, current) =
      find_first-some (IsCurrent now) (has_handle handle) swept (swept-IsCurrent now p.entries)
        found in
    ground (arith, hit, current)

new_is_child :
    (rnd sid : ℕ) (name : List ℕ) (pid now : ℕ)
    → is_pending_child pid (new_entry rnd sid name pid now) ≡ true
unfolding new_entry
new_is_child rnd sid name pid now = ground arith

pub update_none :
    (p : TaskPool) (pid : ℕ) (result : TaskStatus)
    → find_first (is_pending_child pid) p.entries ≡ none
    → task_pool_update_by_pid p pid result ≡ p
unfolding task_pool_update_by_pid
update_none p pid result h =
    ap (λ es. record p { entries = es }) (modify_first-none (is_pending_child pid) _ p.entries h)

-- A child that exits after its task was allocated gives the task its result: what the handle
-- finds is then the task with the reported status, if no other pending task has that child and no
-- other task that handle.
pub reap-after-alloc :
    (rand_r : ℕ → ℕ × ℕ) (now : ℕ) (p : TaskPool) (sid : ℕ) (name : List ℕ) (pid : ℕ)
    (result : TaskStatus)
    → sid < 65536
    → result ≢ empty
    → task_pool_available p ≡ true
    → find_first (is_pending_child pid) p.entries ≡ none
    → let (handle, q) = task_pool_alloc rand_r now p sid name pid in
      find_first (has_handle handle) p.entries ≡ none
      → task_pool_find_handle (task_pool_update_by_pid q pid result) handle sid
        ≡ some (record (allocated rand_r now p sid name pid) { status = result })
unfolding task_pool_update_by_pid
reap-after-alloc rand_r now p sid name pid result h ne room single fresh =
    let e = allocated rand_r now p sid name pid in
    let a = alloc_room rand_r now p sid name pid room in
    let (high, nonzero) = allocated_handle rand_r now p sid name pid h in
    let fresh' : find_first (has_handle e.handle_id) p.entries ≡ none =
      subst (λ r. find_first (has_handle r.0) p.entries ≡ none) a fresh in
    subst
      (λ r.
        task_pool_find_handle (task_pool_update_by_pid r.1 pid result) r.0 sid
        ≡ some (record e { status = result }))
      (sym a)
      (find_handle_own (task_pool_update_by_pid (pool_with rand_r now p sid name pid) pid result)
          e.handle_id sid nonzero high
        ∙ find_first-modify_modify (has_handle e.handle_id) slot_is_empty (is_pending_child pid)
            (λ e. record e { status = result }) e p.entries (ground arith)
            (new_is_child (handle_rand (rand_r p.rand_seed).0) sid name pid now) fresh' single
            (available_found p room))
