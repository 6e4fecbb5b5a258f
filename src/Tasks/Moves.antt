-- ===== src/Tasks/Moves.antt =====
-- The life of a task slot: which changes of an entry the calls of task_pool.c can make.
use asys.Base.{
  ℕ, ◌-◌, ◌<◌, ◌≡◌, ◌⊎◌, inl, inr, refl, Bool, true, false, List, [], ◌∷◌, map, if◌then◌else◌,
  Bool-cases, arith, ◌==◌, ◌&&◌, not, leb,
}
use asys.Tasks.{
  empty, pending, success, failed, timeout, is_empty, is_pending, timeout_sec, TaskEntry, TaskPool,
  zero_entry, modify_first, slot_is_empty, is_pending_child, release_entry, sweep_entry,
  task_pool_free, task_pool_update_by_pid, task_pool_release_session, task_pool_sweep_timeouts,
  new_entry, Call, allocates, frees, reaps, releases, sweeps, step,
}
use asys.Tasks.Alloc.{alloc_cases}

-- One entry before and after a call at time `now`.
pub data Move (now : ℕ) (e e' : TaskEntry) : Type 0 where
  keep : e' ≡ e → Move now e e'
  start : e.status ≡ empty → e'.status ≡ pending → e'.created_at ≡ now → Move now e e'
  finish :
      e.status ≡ pending
      → (e' ≡ record e { status = success }) ⊎ (e' ≡ record e { status = failed })
      → Move now e e'
  expire :
      e.status ≡ pending
      → 30 < now - e.created_at
      → e' ≡ record e { status = timeout }
      → Move now e e'
  clear : e' ≡ zero_entry → Move now e e'

-- The arrays before and after, entry by entry.
abbrev pub Moves : ℕ → List TaskEntry → List TaskEntry → Type 0
Moves now [] [] = Unit {0}
Moves now [] (e' ∷ es') = ⊥
Moves now (e ∷ es) [] = ⊥
Moves now (e ∷ es) (e' ∷ es') = Move now e e' × Moves now es es'

Moves-refl : (now : ℕ) (es : List TaskEntry) → Moves now es es
Moves-refl now [] = tt
Moves-refl now (e ∷ es) = (keep refl, Moves-refl now es)

modify_first-Moves :
    (now : ℕ) (test : TaskEntry → Bool) (change : TaskEntry → TaskEntry)
    → ((e : TaskEntry) → test e ≡ true → Move now e (change e))
    → (es : List TaskEntry) → Moves now es (modify_first test change es)
unfolding modify_first
modify_first-Moves now test change h [] = tt
modify_first-Moves now test change h (e ∷ es) = elim (Bool-cases (test e)) [
  | inl hit ↦ rw hit (h e hit, Moves-refl now es)
  | inr miss ↦ rw miss (keep refl, modify_first-Moves now test change h es)
]

map-Moves :
    (now : ℕ) (change : TaskEntry → TaskEntry)
    → ((e : TaskEntry) → Move now e (change e))
    → (es : List TaskEntry) → Moves now es (map change es)
map-Moves now change h [] = tt
map-Moves now change h (e ∷ es) = (h e, map-Moves now change h es)

empty_of_slot : (e : TaskEntry) → slot_is_empty e ≡ true → e.status ≡ empty
empty_of_slot e h = ground arith

release_entry-Move : (now sid : ℕ) (e : TaskEntry) → Move now e (release_entry sid e)
release_entry-Move now sid e = elim (Bool-cases (e.session_id == sid && not (is_empty e.status))) [
  | inl mine ↦ rw mine (clear refl)
  | inr other ↦ rw other (keep refl)
]

sweep_entry-Move : (now : ℕ) (e : TaskEntry) → Move now e (sweep_entry now e)
sweep_entry-Move now e = elim (Bool-cases (is_empty e.status)) [
  | inl free ↦ rw free (keep refl)
  | inr used ↦ elim (Bool-cases (leb (now - e.created_at) timeout_sec)) [
    | inl in_time ↦ rw (used, in_time) (keep refl)
    | inr late ↦ elim (Bool-cases (is_pending e.status)) [
      | inl waits ↦ rw (used, late, waits) (expire (ground arith) (ground arith) refl)
      | inr ended ↦ rw (used, late, ended) (clear refl)
    ]
  ]
]

reap_entry-Move :
    (now pid : ℕ) (ok : Bool) (e : TaskEntry)
    → is_pending_child pid e ≡ true
    → Move now e (record e { status = if ok then success else failed })
reap_entry-Move now pid true e h = finish (ground arith) (inl refl)
reap_entry-Move now pid false e h = finish (ground arith) (inr refl)

module _ (rand_r : ℕ → ℕ × ℕ) where
  -- Every call changes each slot along the life cycle only: an empty slot becomes pending, a
  -- pending one succeeds, fails or (past its time) times out, and any slot may be cleared. In
  -- particular a result, once there, is never overwritten by another.
  pub step-Moves :
      (p : TaskPool) (now : ℕ) (c : Call) → Moves now p.entries (step rand_r p (now, c)).entries
  unfolding step task_pool_free task_pool_update_by_pid task_pool_release_session
      task_pool_sweep_timeouts new_entry
  step-Moves p now (allocates sid name pid) =
      alloc_cases rand_r now p sid name pid (λ q. Moves now p.entries q.entries)
        (Moves-refl now p.entries)
        (λ _. modify_first-Moves now _ _ (λ e h. start (empty_of_slot e h) refl refl) p.entries)
  step-Moves p now (frees h) = modify_first-Moves now _ _ (λ e _. clear refl) p.entries
  step-Moves p now (reaps pid ok) =
      modify_first-Moves now _ _ (reap_entry-Move now pid ok) p.entries
  step-Moves p now (releases sid) = map-Moves now _ (release_entry-Move now sid) p.entries
  step-Moves p now sweeps = map-Moves now _ (sweep_entry-Move now) p.entries
