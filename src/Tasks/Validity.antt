-- ===== src/Tasks/Validity.antt =====
-- The representation invariant of the task pool: 64 slots, each zero or holding a task whose handle
-- names its session.
use asys.Base.{
  ℕ, ◌+◌, ◌*◌, ◌≤◌, ◌<◌, ◌≡◌, ◌≢◌, ◌⊎◌, inl, inr, refl, Bool, true, List, [], ◌∷◌, map,
  if◌then◌else◌, Bool-cases, All, length, length-take, length-replicate, replicate, arith, zero,
  suc, ap, ◌∙◌, ◌==◌, ◌&&◌, not, leb, ◌-◌,
}
use asys.Tasks.{
  TaskStatus, empty, success, failed, timeout, TaskEntry, TaskPool, zero_entry, modify_first,
  slot_is_empty, is_pending_child, release_entry, sweep_entry, task_pool_free,
  task_pool_update_by_pid, task_pool_release_session, task_pool_sweep_timeouts, task_pool_init,
  new_entry, handle_rand, Call, allocates, frees, reaps, releases, sweeps, step, is_empty,
  is_pending, timeout_sec,
}
use asys.Tasks.Alloc.{alloc_cases}

-- A slot in use: the handle is [session | random], the random half is not 0, the name fits.
pub record IsLive (e : TaskEntry) : Type 0 where
  pub used : e.status ≢ empty
  pub owner_range : e.session_id < 65536
  pub handle_low : e.session_id * 65536 < e.handle_id
  pub handle_high : e.handle_id < e.session_id * 65536 + 65536
  pub name_size : length e.svc_name ≤ 64

abbrev pub IsEntry : TaskEntry → Type 0
IsEntry e = (e ≡ zero_entry) ⊎ IsLive e

pub record IsPool (p : TaskPool) : Type 0 where
  pub size : length p.entries ≡ 64
  pub slots : All IsEntry p.entries

-- The arguments that the daemon passes: a session id is a `uint16_t`.
abbrev pub InRange : Call → Type 0
InRange (allocates sid name pid) = sid < 65536
InRange _ = Unit {0}

handle_rand_range : (drawn : ℕ) → (0 < handle_rand drawn) × (handle_rand drawn < 65536)
unfolding handle_rand
handle_rand_range drawn = ground arith

module _ (P : TaskEntry → Type 0) where
  modify_first-All :
      (test : TaskEntry → Bool) (change : TaskEntry → TaskEntry)
      → ((e : TaskEntry) → test e ≡ true → P e → P (change e))
      → (es : List TaskEntry) → All P es
      → All P (modify_first test change es)
  unfolding modify_first
  modify_first-All test change h [] a = tt
  modify_first-All test change h (e ∷ es) a = elim (Bool-cases (test e)) [
    | inl hit ↦ rw hit (h e hit a.0, a.1)
    | inr miss ↦ rw miss (a.0, modify_first-All test change h es a.1)
  ]

  map-All :
      (change : TaskEntry → TaskEntry)
      → ((e : TaskEntry) → P e → P (change e))
      → (es : List TaskEntry) → All P es
      → All P (map change es)
  map-All change h [] a = tt
  map-All change h (e ∷ es) a = (h e a.0, map-All change h es a.1)

  replicate-All : (n : ℕ) (e : TaskEntry) → P e → All P (replicate n e)
  unfolding replicate
  replicate-All zero e h = tt
  replicate-All (suc n) e h = (h, replicate-All n e h)

length-modify_first :
    (test : TaskEntry → Bool) (change : TaskEntry → TaskEntry) (es : List TaskEntry)
    → length (modify_first test change es) ≡ length es
unfolding modify_first
length-modify_first test change [] = refl
length-modify_first test change (e ∷ es) = ground (arith, length-modify_first test change es)

length-map :
    (change : TaskEntry → TaskEntry) (es : List TaskEntry) → length (map change es) ≡ length es
length-map change [] = refl
length-map change (e ∷ es) = ap suc (length-map change es)

pub new_entry-IsLive :
    (drawn sid pid now : ℕ) (name : List ℕ)
    → sid < 65536
    → IsLive (new_entry (handle_rand drawn) sid name pid now)
unfolding new_entry
new_entry-IsLive drawn sid pid now name h = record {
  used = λ e. cc;
  owner_range = h;
  handle_low = omega (arith, handle_rand_range drawn);
  handle_high = omega (arith, handle_rand_range drawn);
  name_size = omega (arith, length-take 64 name);
}

with_status-IsEntry :
    (e : TaskEntry) (s : TaskStatus)
    → s ≢ empty
    → e.status ≢ empty
    → IsEntry e
    → IsEntry (record e { status = s })
with_status-IsEntry e s h u (inl z) = absurd (u (ground arith))
with_status-IsEntry e s h u (inr l) = inr (record {
  used = h;
  owner_range = l.owner_range;
  handle_low = l.handle_low;
  handle_high = l.handle_high;
  name_size = l.name_size;
})

release_entry-IsEntry : (sid : ℕ) (e : TaskEntry) → IsEntry e → IsEntry (release_entry sid e)
release_entry-IsEntry sid e v = elim (Bool-cases (e.session_id == sid && not (is_empty e.status))) [
  | inl mine ↦ rw mine (inl refl)
  | inr other ↦ rw other v
]

sweep_entry-IsEntry : (now : ℕ) (e : TaskEntry) → IsEntry e → IsEntry (sweep_entry now e)
sweep_entry-IsEntry now e v = elim (Bool-cases (is_empty e.status)) [
  | inl free ↦ rw free v
  | inr used ↦ elim (Bool-cases (leb (now - e.created_at) timeout_sec)) [
    | inl in_time ↦ rw (used, in_time) v
    | inr late ↦ elim (Bool-cases (is_pending e.status)) [
      | inl waits ↦
          rw (used, late, waits) (with_status-IsEntry e timeout (λ h. cc) (ground arith) v)
      | inr ended ↦ rw (used, late, ended) (inl refl)
    ]
  ]
]

reap_entry-IsEntry :
    (pid : ℕ) (ok : Bool) (e : TaskEntry)
    → is_pending_child pid e ≡ true
    → IsEntry e
    → IsEntry (record e { status = if ok then success else failed })
reap_entry-IsEntry pid ok e h v = with_status-IsEntry e _ (ground arith) (ground arith) v

-- A started pool is valid.
pub init-IsPool : (now pid : ℕ) → IsPool (task_pool_init now pid)
unfolding task_pool_init
init-IsPool now pid = record {
  size = length-replicate 64 zero_entry;
  slots = replicate-All IsEntry 64 zero_entry (inl refl);
}

module _ (rand_r : ℕ → ℕ × ℕ) where
  step-size :
      (p : TaskPool) (now : ℕ) (c : Call)
      → length (step rand_r p (now, c)).entries ≡ length p.entries
  unfolding step task_pool_free task_pool_update_by_pid task_pool_release_session
      task_pool_sweep_timeouts
  step-size p now (allocates sid name pid) =
      alloc_cases rand_r now p sid name pid (λ q. length q.entries ≡ length p.entries) refl
        (λ _. length-modify_first _ _ p.entries)
  step-size p now (frees h) = length-modify_first _ _ p.entries
  step-size p now (reaps pid ok) = length-modify_first _ _ p.entries
  step-size p now (releases sid) = length-map _ p.entries
  step-size p now sweeps = length-map _ p.entries

  step-slots :
      (p : TaskPool) (now : ℕ) (c : Call)
      → InRange c
      → All IsEntry p.entries
      → All IsEntry (step rand_r p (now, c)).entries
  unfolding step task_pool_free task_pool_update_by_pid task_pool_release_session
      task_pool_sweep_timeouts
  step-slots p now (allocates sid name pid) h v =
      alloc_cases rand_r now p sid name pid (λ q. All IsEntry q.entries) v
        λ _.
          modify_first-All IsEntry slot_is_empty _
            (λ e _ _. inr (new_entry-IsLive _ sid pid now name h)) p.entries v
  step-slots p now (frees handle) h v = modify_first-All IsEntry _ _ (λ e _ _. inl refl) p.entries v
  step-slots p now (reaps pid ok) h v =
      modify_first-All IsEntry _ _ (reap_entry-IsEntry pid ok) p.entries v
  step-slots p now (releases sid) h v = map-All IsEntry _ (release_entry-IsEntry sid) p.entries v
  step-slots p now sweeps h v = map-All IsEntry _ (sweep_entry-IsEntry now) p.entries v

  -- Every call keeps the pool valid.
  pub step-IsPool :
      (p : TaskPool) (now : ℕ) (c : Call) → InRange c → IsPool p → IsPool (step rand_r p (now, c))
  step-IsPool p now c h v = record {
    size = step-size p now c ∙ v.size;
    slots = step-slots p now c h v.slots;
  }

pub sweep-IsPool : (now : ℕ) (p : TaskPool) → IsPool p → IsPool (task_pool_sweep_timeouts now p)
unfolding step
sweep-IsPool now p v = step-IsPool (λ seed. (seed, seed)) p now sweeps tt v

pub update-IsPool :
    (p : TaskPool) (pid : ℕ) (ok : Bool)
    → IsPool p
    → IsPool (task_pool_update_by_pid p pid (if ok then success else failed))
unfolding step
update-IsPool p pid ok v = step-IsPool (λ seed. (seed, seed)) p 0 (reaps pid ok) tt v
