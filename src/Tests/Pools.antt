-- ===== src/Tests/Pools.antt =====
-- Examples for the task pool (src/asyd/core/task_pool.c).
use asys.Base.{ℕ, ◌≡◌, refl, true, none, some, List, [], ◌∷◌, replicate, arith}
use asys.Tasks.{
  TaskEntry, TaskPool, success, find_first, modify_first, has_handle, is_pending_child, handle_rand,
  new_entry, task_pool_init, task_pool_available, task_pool_alloc, task_pool_find_handle,
  task_pool_find_pending, task_pool_update_by_pid, task_pool_sweep_timeouts, step, run, Call,
  allocates, reaps, releases, frees, sweeps,
}
use asys.Tasks.Alloc.{allocated}
use asys.Tasks.Validity.{IsPool, init-IsPool, step-IsPool}
use asys.Tasks.Bag.{IsNew, tasks, Runs, told}
use asys.Tasks.Refinement.{run-Refines}
use asys.Tasks.Moves.{Moves, step-Moves}
use asys.Tasks.Handles.{find_handle-alloc}
use asys.Tasks.Starts.{find_handle-IsNew, reap-order}
use asys.Tests.Toy.{count_up}

-- "cups"
abbrev pub cups : List ℕ
cups = b'c' ∷ b'u' ∷ b'p' ∷ b's' ∷ []

abbrev pool0 : TaskPool
pool0 = task_pool_init 100 7

pool0-IsPool : IsPool pool0
pool0-IsPool = init-IsPool 100 7

pool0_free : task_pool_available pool0 ≡ true
unfolding task_pool_available task_pool_init replicate find_first
pool0_free = refl

-- Session 5 starts a restart with child 42.
abbrev pub pool1 : TaskPool
pool1 = (task_pool_alloc count_up 100 pool0 5 cups 42).1

abbrev handle1 : ℕ
handle1 = (task_pool_alloc count_up 100 pool0 5 cups 42).0

pub pool1-IsPool : IsPool pool1
unfolding step
pool1-IsPool = step-IsPool count_up pool0 100 (allocates 5 cups 42) (omega arith) pool0-IsPool

-- The restart, a second one of session 6, the end of the first child, the end of session 6, and the
-- client's answer to the first.
abbrev calls : List (ℕ × Call)
calls =
    (100, allocates 5 cups 42)
    ∷ (101, allocates 6 cups 43)
    ∷ (102, reaps 42 true)
    ∷ (103, releases 6)
    ∷ (104, sweeps)
    ∷ (105, frees handle1)
    ∷ []

run-Refines_example :
    let p = run count_up pool0 calls in
    Runs [] calls (tasks p.entries)
    × ((handle sid : ℕ) → task_pool_find_handle p handle sid ≡ told handle sid (tasks p.entries))
run-Refines_example =
    run-Refines count_up 100 7 calls (omega arith, (omega arith, (tt, (tt, (tt, (tt, tt))))))

step-Moves_example : Moves 140 pool1.entries (step count_up pool1 (140, sweeps)).entries
step-Moves_example = step-Moves count_up pool1 140 sweeps

fresh_handle : find_first (has_handle handle1) pool0.entries ≡ none
unfolding task_pool_available task_pool_init replicate find_first task_pool_alloc handle_rand
    new_entry
fresh_handle = refl

no_child : find_first (is_pending_child 42) pool0.entries ≡ none
unfolding task_pool_init replicate find_first
no_child = refl

no_pending : task_pool_find_pending pool0 5 cups ≡ 0
unfolding task_pool_init replicate find_first task_pool_find_pending
no_pending = refl

find_handle-IsNew_example :
    (e : TaskEntry) × (task_pool_find_handle pool1 handle1 5 ≡ some e) × IsNew 100 5 cups 42 e
find_handle-IsNew_example =
    find_handle-IsNew count_up 100 pool0 5 cups 42 (omega arith) pool0_free fresh_handle

pub found1 : task_pool_find_handle pool1 handle1 5 ≡ some (allocated count_up 100 pool0 5 cups 42)
found1 = find_handle-alloc count_up 100 pool0 5 cups 42 (omega arith) pool0_free fresh_handle

reap-order_example :
    let (handle', q') =
      task_pool_alloc count_up 100 (task_pool_update_by_pid pool0 42 success) 5 cups 42 in
    (e : TaskEntry) × IsNew 100 5 cups 42 e
    × (task_pool_find_handle (task_pool_update_by_pid pool1 42 success) handle1 5
        ≡ some (record e { status = success }))
    × (task_pool_find_handle q' handle' 5 ≡ some e)
reap-order_example =
    reap-order count_up 100 pool0 5 cups 42 true (omega arith) pool0_free no_child fresh_handle

-- The task 5 seconds later.
found_after_sweep :
    task_pool_find_handle (task_pool_sweep_timeouts 105 pool1) handle1 5
    ≡ some (allocated count_up 100 pool0 5 cups 42)
unfolding task_pool_available task_pool_init replicate find_first modify_first task_pool_alloc
    handle_rand new_entry task_pool_find_handle task_pool_sweep_timeouts
found_after_sweep = refl
