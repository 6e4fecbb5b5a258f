-- ===== src/Tasks/Alloc.antt =====
-- task_pool_alloc by its two outcomes.
use asys.Base.{ℕ, ◌≡◌, refl, true, false, List, Bool-cases, inl, inr}
use asys.Tasks.{
  TaskEntry, TaskPool, modify_first, slot_is_empty, task_pool_alloc, task_pool_available, new_entry,
  handle_rand,
}

module _ (rand_r : ℕ → ℕ × ℕ) (now : ℕ) (p : TaskPool) (sid : ℕ) (name : List ℕ) (pid : ℕ) where
  -- The entry that is stored, and the pool that holds it.
  abbrev pub allocated : TaskEntry
  allocated = new_entry (handle_rand (rand_r p.rand_seed).0) sid name pid now

  abbrev pub pool_with : TaskPool
  pool_with = record {
    entries = modify_first slot_is_empty (λ _. allocated) p.entries;
    rand_seed = (rand_r p.rand_seed).1;
  }

  pub alloc_room :
      task_pool_available p ≡ true
      → task_pool_alloc rand_r now p sid name pid ≡ (allocated.handle_id, pool_with)
  unfolding task_pool_alloc
  alloc_room h = rw h refl

  pub alloc_full :
      task_pool_available p ≡ false → task_pool_alloc rand_r now p sid name pid ≡ (0, p)
  unfolding task_pool_alloc
  alloc_full h = rw h refl

  pub alloc_cases :
      (P : TaskPool → Type 0)
      → P p
      → (task_pool_available p ≡ true → P pool_with)
      → P (task_pool_alloc rand_r now p sid name pid).1
  alloc_cases P full room = elim (Bool-cases (task_pool_available p)) [
    | inl h ↦ rw (alloc_room h) (room h)
    | inr h ↦ rw (alloc_full h) full
  ]
