-- ===== src/Tasks/Refinement.antt =====
-- The task pool of src/asyd/core/task_pool.c implements the bag of tasks.
use asys.Base.{
  ℕ, ◌<◌, ◌≡◌, inl, inr, refl, sym, ap, subst, ◌∙◌, Bool, true, false, none, List, [], ◌∷◌, ◌++◌,
  ◌==◌, if◌then◌else◌, Option-cases, Bool-cases, All, length, length-append, arith,
}
use asys.Tasks.{
  TaskEntry, TaskPool, success, failed, is_empty, find_first, slot_is_empty, is_pending_child,
  zero_entry, task_pool_available, task_pool_init, task_pool_free, task_pool_find_handle,
  task_pool_update_by_pid, task_pool_release_session, task_pool_sweep_timeouts, new_entry, Call,
  allocates, frees, reaps, releases, sweeps, step, run,
}
use asys.Tasks.Alloc.{allocated, pool_with, alloc_room, alloc_full}
use asys.Tasks.Find.{find_first-none}
use asys.Tasks.Handles.{available_found}
use asys.Tasks.Validity.{IsEntry, IsPool, InRange, new_entry-IsLive, init-IsPool, step-IsPool}
use asys.Tasks.Slots.{
  tasks_free, picked, tasks-All, modify_first-splits, tasks-release, tasks-sweep, find_first-tasks,
  length-tasks, tasks_full, All-middle, unused, named, waits_pending, tasks_zero,
}
use asys.Tasks.Bag.{
  tasks, Picks, IsNew, Allowed, adds, is_full, removes, has_none, ends, no_child, forgets, ages,
  Runs, stays, goes, told,
}

no_room : (p : TaskPool) → task_pool_available p ≡ false → find_first slot_is_empty p.entries ≡ none
unfolding task_pool_available
no_room p h = elim (Option-cases (find_first slot_is_empty p.entries)) [
  | inl e ↦ e
  | inr (x, e) ↦ absurd (ground (arith, e, h))
]

module _ (rand_r : ℕ → ℕ × ℕ) (now : ℕ) (p : TaskPool) where
  pub allocated-IsNew :
      (sid : ℕ) (name : List ℕ) (pid : ℕ)
      → sid < 65536
      → IsNew now sid name pid (allocated rand_r now p sid name pid)
  unfolding new_entry
  allocated-IsNew sid name pid h =
      let l = new_entry-IsLive (rand_r p.rand_seed).0 sid pid now name h in
      record {
        owner = refl;
        child = refl;
        service = refl;
        waits = refl;
        since = refl;
        handle_low = l.handle_low;
        handle_high = l.handle_high;
      }

  fewer :
      (xs : List TaskEntry) (e : TaskEntry) (ys : List TaskEntry)
      → IsPool p
      → p.entries ≡ xs ++ e ∷ ys
      → length (tasks xs ++ tasks ys) < 64
  fewer xs e ys v is = omega (
    arith,
    v.size,
    ap (λ l. length l) is,
    length-append xs (e ∷ ys),
    length-append (tasks xs) (tasks ys),
    length-tasks xs,
    length-tasks ys,
  )

  room-Allowed :
      (sid : ℕ) (name : List ℕ) (pid : ℕ)
      → sid < 65536
      → IsPool p
      → task_pool_available p ≡ true
      → Allowed now
          (tasks p.entries)
          (tasks (pool_with rand_r now p sid name pid).entries)
          (allocates sid name pid)
  unfolding new_entry
  room-Allowed sid name pid h v room =
      let new = allocated rand_r now p sid name pid in
      elim (modify_first-splits slot_is_empty (λ _. new) p.entries) [
        | inl (none_free, same) ↦
            absurd (available_found p room (find_first-none slot_is_empty p.entries none_free))
        | inr (xs, e, ys, is, free, changed) ↦
            let before : tasks p.entries ≡ tasks xs ++ tasks ys =
              ap tasks is ∙ tasks_free xs e ys free in
            adds new (subst (λ ts. length ts < 64) (sym before) (fewer xs e ys v is))
              (allocated-IsNew sid name pid h)
              (subst (λ ts. Picks new ts (tasks (pool_with rand_r now p sid name pid).entries))
                (sym before) (picked xs new ys _ changed refl))
      ]

  allocates-Allowed :
      (sid : ℕ) (name : List ℕ) (pid : ℕ)
      → sid < 65536
      → IsPool p
      → Allowed now
          (tasks p.entries)
          (tasks (step rand_r p (now, allocates sid name pid)).entries)
          (allocates sid name pid)
  unfolding step
  allocates-Allowed sid name pid h v = elim (Bool-cases (task_pool_available p)) [
    | inl room ↦
        rw (step, alloc_room rand_r now p sid name pid room) (room-Allowed sid name pid h v room)
    | inr full ↦
        rw (step, alloc_full rand_r now p sid name pid full)
          (is_full (ap (λ l. length l) (tasks_full p.entries (no_room p full)) ∙ v.size) refl)
  ]

  frees-Allowed :
      (handle : ℕ)
      → IsPool p
      → Allowed now (tasks p.entries) (tasks (task_pool_free p handle).entries) (frees handle)
  unfolding task_pool_free
  frees-Allowed handle v =
      elim (modify_first-splits (λ e. e.handle_id == handle) (λ _. zero_entry) p.entries) [
        | inl (no_handle, same) ↦
            has_none (tasks-All _ _ (λ e used miss. ground (arith, miss)) p.entries no_handle)
              (ap tasks same)
        | inr (xs, e, ys, is, hit, changed) ↦
            let after : tasks (task_pool_free p handle).entries ≡ tasks xs ++ tasks ys =
              ap tasks changed ∙ tasks_free xs zero_entry ys refl in
            elim (Bool-cases (is_empty e.status)) [
              | inl free ↦
                  let no_handle : handle ≡ 0 =
                    unused e handle free
                      (All-middle IsEntry xs e ys (subst (All IsEntry) is v.slots)) hit in
                  has_none
                    (tasks-All IsEntry _ (λ e used l. named e handle no_handle used l) p.entries
                      v.slots)
                    (after ∙ sym (ap tasks is ∙ tasks_free xs e ys free))
              | inr used ↦ removes e (ground (arith, hit)) (
                  subst (λ ts. Picks e ts (tasks p.entries)) (sym after)
                    (picked xs e ys p.entries is used))
            ]
      ]

  reaps-Allowed :
      (pid : ℕ) (ok : Bool)
      → Allowed now
          (tasks p.entries)
          (tasks (step rand_r p (now, reaps pid ok)).entries)
          (reaps pid ok)
  unfolding step task_pool_update_by_pid
  reaps-Allowed pid ok =
      let over : TaskEntry → TaskEntry =
        λ e. record e { status = if ok then success else failed } in
      elim (modify_first-splits (is_pending_child pid) over p.entries) [
        | inl (no_one, same) ↦
            no_child
              (tasks-All _ _ (λ e used miss. λ child waits. ground (arith, miss, child, waits))
                p.entries no_one)
              (ap tasks same)
        | inr (xs, e, ys, is, hit, changed) ↦
            ends e (tasks xs ++ tasks ys) (ground (arith, hit))
              (waits_pending e.status (ground (arith, hit)))
              (picked xs e ys p.entries is (ground (arith, hit)))
              (picked xs (over e) ys _ changed (ground arith))
      ]

  -- Every call does to the tasks of the pool what it does to the bag.
  step-Allowed :
      (c : Call)
      → InRange c
      → IsPool p
      → Allowed now (tasks p.entries) (tasks (step rand_r p (now, c)).entries) c
  unfolding step task_pool_release_session task_pool_sweep_timeouts
  step-Allowed (allocates sid name pid) h v = allocates-Allowed sid name pid h v
  step-Allowed (frees handle) h v = frees-Allowed handle v
  step-Allowed (reaps pid ok) h v = reaps-Allowed pid ok
  step-Allowed (releases sid) h v = forgets (tasks-release sid p.entries)
  step-Allowed sweeps h v = ages (tasks-sweep now p.entries)

find_handle-tasks :
    (p : TaskPool) (handle sid : ℕ)
    → task_pool_find_handle p handle sid ≡ told handle sid (tasks p.entries)
unfolding task_pool_find_handle told
find_handle-tasks p handle sid = rw (find_first-tasks handle p.entries) refl

module _ (rand_r : ℕ → ℕ × ℕ) where
  run-Runs :
      (p : TaskPool) (cs : List (ℕ × Call))
      → All (λ c. InRange c.1) cs
      → IsPool p
      → Runs (tasks p.entries) cs (tasks (run rand_r p cs).entries)
  unfolding run
  run-Runs p [] h v = stays
  run-Runs p ((now, c) ∷ cs) h v =
      goes (step-Allowed rand_r now p c h.0 v)
        (run-Runs (step rand_r p (now, c)) cs h.1 (step-IsPool rand_r p now c h.0 v))

  -- Let calls for 16-bit sessions be made one after the other on a pool that was just started. Then
  -- the tasks of the pool are what the same calls make of an empty bag of tasks, in which a call
  -- adds a task that is new and pending or finds the bag full with 64, takes one task with the
  -- handle out or finds none, ends one pending task of the child or finds none, takes out all tasks
  -- of a session, or times out the pending and takes out the other tasks of more than 30 seconds;
  -- and a session is told of the first task with its handle, and of none if the handle is 0 or
  -- names another session.
  pub run-Refines :
      (started pid : ℕ) (cs : List (ℕ × Call))
      → All (λ c. InRange c.1) cs
      → let p = run rand_r (task_pool_init started pid) cs in
        Runs [] cs (tasks p.entries)
        × ((handle sid : ℕ)
            → task_pool_find_handle p handle sid ≡ told handle sid (tasks p.entries))
  unfolding task_pool_init
  run-Refines started pid cs h =
      let p = task_pool_init started pid in
      (
        subst (λ ts. Runs ts cs (tasks (run rand_r p cs).entries)) (tasks_zero 64)
            (run-Runs p cs h (init-IsPool started pid)),
        λ handle sid. find_handle-tasks (run rand_r p cs) handle sid,
      )
