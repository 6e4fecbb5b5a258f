-- ===== src/Tasks/Handles.antt =====
-- Task handles: ownership by session, lookup after allocation, and release at disconnect.
use asys.Base.{
  ℕ, ◌/◌, ◌%◌, ◌^◌, ◌≤◌, ◌<◌, ◌≡◌, ◌≢◌, ◌↔◌, inl, inr, sym, subst, ◌∙◌, true, false, none, some,
  List, [], ◌∷◌, map, ◌==◌, Bool-cases, Option-cases, All, bytes_eq_refl, take_all, length, arith,
}
use asys.Tasks.{
  empty, TaskEntry, TaskPool, find_first, slot_is_empty, has_handle, is_pending_for, release_entry,
  task_pool_alloc, task_pool_available, task_pool_find_handle, task_pool_find_pending,
  task_pool_release_session, new_entry, handle_rand,
}
use asys.Tasks.Validity.{IsEntry, IsPool}
use asys.Tasks.Alloc.{allocated, pool_with, alloc_room}
use asys.Tasks.Find.{find_first-some, find_first-none, find_first-modify_new, find_first-map_keep}

-- A lookup succeeds only for the session that the handle was given to, and returns that very task.
pub find_handle-owner :
    (p : TaskPool) (handle sid : ℕ) {e : TaskEntry}
    → IsPool p
    → task_pool_find_handle p handle sid ≡ some e
    → (e.session_id ≡ sid) × (e.handle_id ≡ handle) × (e.status ≢ empty)
unfolding task_pool_find_handle
find_handle-owner p handle sid {e} v h =
    let found : find_first (has_handle handle) p.entries ≡ some e = ground arith in
    let (hit, kind) = find_first-some IsEntry (has_handle handle) p.entries v.slots found in
    elim kind [ inl z ↦ ground (arith, hit, z) | inr l ↦ ground (arith, hit, l) ]

-- The pool is full exactly when allocation answers 0, and then nothing has changed.
pub alloc_zero_iff :
    (rand_r : ℕ → ℕ × ℕ) (now : ℕ) (p : TaskPool) (sid : ℕ) (name : List ℕ) (pid : ℕ)
    → ((task_pool_alloc rand_r now p sid name pid).0 ≡ 0) ↔ (task_pool_available p ≡ false)
unfolding task_pool_alloc new_entry handle_rand
alloc_zero_iff rand_r now p sid name pid = ((λ h. ground arith), (λ h. ground arith))

pub available_found :
    (p : TaskPool) → task_pool_available p ≡ true → find_first slot_is_empty p.entries ≢ none
unfolding task_pool_available
available_found p h e = ground arith

pub allocated_handle :
    (rand_r : ℕ → ℕ × ℕ) (now : ℕ) (p : TaskPool) (sid : ℕ) (name : List ℕ) (pid : ℕ)
    → sid < 65536
    → let e = allocated rand_r now p sid name pid in
      (e.handle_id / 2 ^ 16 % 2 ^ 16 ≡ sid) × (e.handle_id ≢ 0)
unfolding new_entry handle_rand
allocated_handle rand_r now p sid name pid h = (ground arith, λ e. ground arith)

pub find_handle_own :
    (p : TaskPool) (handle sid : ℕ)
    → handle ≢ 0
    → handle / 2 ^ 16 % 2 ^ 16 ≡ sid
    → task_pool_find_handle p handle sid ≡ find_first (has_handle handle) p.entries
unfolding task_pool_find_handle
find_handle_own p handle sid h k = ground arith

new_has_handle :
    (rnd sid : ℕ) (name : List ℕ) (pid now : ℕ)
    → has_handle (new_entry rnd sid name pid now).handle_id (new_entry rnd sid name pid now) ≡ true
unfolding new_entry
new_has_handle rnd sid name pid now = ground arith

new_is_pending :
    (rnd sid : ℕ) (name : List ℕ) (pid now : ℕ)
    → length name ≤ 64
    → is_pending_for sid name (new_entry rnd sid name pid now) ≡ true
unfolding new_entry
new_is_pending rnd sid name pid now h = rw (take_all 64 name h, bytes_eq_refl name) (ground arith)

-- In a valid pool the answer 0 means that no such task is pending.
find_pending_zero :
    (p : TaskPool) (sid : ℕ) (name : List ℕ)
    → IsPool p
    → task_pool_find_pending p sid name ≡ 0
    → find_first (is_pending_for sid name) p.entries ≡ none
unfolding task_pool_find_pending
find_pending_zero p sid name v h =
    elim (Option-cases (find_first (is_pending_for sid name) p.entries)) [
      | inl e ↦ e
      | inr (e, found) ↦
          let (hit, kind) =
            find_first-some IsEntry (is_pending_for sid name) p.entries v.slots found in
          elim kind [ inl z ↦ ground (arith, hit, z) | inr l ↦ ground (arith, found, l) ]
    ]

-- A task that has just been allocated is found under its handle by its session, as it was stored,
-- unless a task already had that handle.
pub find_handle-alloc :
    (rand_r : ℕ → ℕ × ℕ) (now : ℕ) (p : TaskPool) (sid : ℕ) (name : List ℕ) (pid : ℕ)
    → sid < 65536
    → task_pool_available p ≡ true
    → let (handle, q) = task_pool_alloc rand_r now p sid name pid in
      find_first (has_handle handle) p.entries ≡ none
      → task_pool_find_handle q handle sid ≡ some (allocated rand_r now p sid name pid)
unfolding task_pool_find_handle
find_handle-alloc rand_r now p sid name pid h room fresh =
    let e = allocated rand_r now p sid name pid in
    let a = alloc_room rand_r now p sid name pid room in
    let (high, nonzero) = allocated_handle rand_r now p sid name pid h in
    let fresh' : find_first (has_handle e.handle_id) p.entries ≡ none =
      subst (λ r. find_first (has_handle r.0) p.entries ≡ none) a fresh in
    subst (λ r. task_pool_find_handle r.1 r.0 sid ≡ some e) (sym a)
      (find_handle_own (pool_with rand_r now p sid name pid) e.handle_id sid nonzero high
        ∙ find_first-modify_new (has_handle e.handle_id) slot_is_empty e p.entries
            (new_has_handle (handle_rand (rand_r p.rand_seed).0) sid name pid now) fresh'
            (available_found p room))

find_pending_some :
    (p : TaskPool) (sid : ℕ) (name : List ℕ) {e : TaskEntry}
    → find_first (is_pending_for sid name) p.entries ≡ some e
    → task_pool_find_pending p sid name ≡ e.handle_id
unfolding task_pool_find_pending
find_pending_some p sid name h = ground arith

-- While the task is pending, a second request of the session for the same service finds it.
pub find_pending-alloc :
    (rand_r : ℕ → ℕ × ℕ) (now : ℕ) (p : TaskPool) (sid : ℕ) (name : List ℕ) (pid : ℕ)
    → task_pool_available p ≡ true
    → length name ≤ 64
    → IsPool p
    → task_pool_find_pending p sid name ≡ 0
    → let (handle, q) = task_pool_alloc rand_r now p sid name pid in
      task_pool_find_pending q sid name ≡ handle
find_pending-alloc rand_r now p sid name pid room short v fresh =
    let e = allocated rand_r now p sid name pid in
    subst (λ r. task_pool_find_pending r.1 sid name ≡ r.0)
      (sym (alloc_room rand_r now p sid name pid room))
      (find_pending_some (pool_with rand_r now p sid name pid) sid name (
        find_first-modify_new (is_pending_for sid name) slot_is_empty e p.entries
          (new_is_pending (handle_rand (rand_r p.rand_seed).0) sid name pid now short)
          (find_pending_zero p sid name v fresh) (available_found p room)))

released_gone :
    (sid handle : ℕ) (es : List TaskEntry)
    → handle / 2 ^ 16 % 2 ^ 16 ≡ sid
    → All IsEntry es
    → All (λ e. has_handle handle e ≡ false) (map (release_entry sid) es)
released_gone sid handle [] h a = tt
released_gone sid handle (e ∷ es) h (inl z, a) =
    (ground (arith, z), released_gone sid handle es h a)
released_gone sid handle (e ∷ es) h (inr l, a) =
    (ground (arith, l), released_gone sid handle es h a)

released_own :
    (p : TaskPool) (sid handle : ℕ)
    → IsPool p
    → task_pool_find_handle (task_pool_release_session p sid) handle sid ≡ none
unfolding task_pool_find_handle task_pool_release_session
released_own p sid handle v = elim (Bool-cases (handle / 2 ^ 16 % 2 ^ 16 == sid)) [
  | inl own ↦ ground (
    arith,
    find_first-none (has_handle handle) (map (release_entry sid) p.entries)
        (released_gone sid handle p.entries (ground arith) v.slots),
  )
  | inr foreign ↦ ground arith
]

kept_by_release :
    (sid handle other : ℕ) (e : TaskEntry)
    → other ≢ sid
    → handle / 2 ^ 16 % 2 ^ 16 ≡ other
    → IsEntry e
    → has_handle handle e ≡ true
    → release_entry sid e ≡ e
kept_by_release sid handle other e ne h (inl z) hit = ground arith
kept_by_release sid handle other e ne h (inr l) hit = ground arith

missed_by_release :
    (sid handle : ℕ) (e : TaskEntry)
    → has_handle handle e ≡ false
    → has_handle handle (release_entry sid e) ≡ false
missed_by_release sid handle e miss = ground arith

released_other :
    (p : TaskPool) (sid handle other : ℕ)
    → IsPool p
    → other ≢ sid
    → task_pool_find_handle (task_pool_release_session p sid) handle other
      ≡ task_pool_find_handle p handle other
unfolding task_pool_find_handle task_pool_release_session
released_other p sid handle other v ne = elim (Bool-cases (handle / 2 ^ 16 % 2 ^ 16 == other)) [
  | inl own ↦ ground (
    arith,
    find_first-map_keep IsEntry (has_handle handle) (release_entry sid)
        (λ e k hit. kept_by_release sid handle other e ne (ground arith) k hit)
        (λ e k miss. missed_by_release sid handle e miss) p.entries v.slots,
  )
  | inr foreign ↦ ground arith
]

-- In a valid pool, after a disconnect the session's handles find nothing, and every other session's
-- handles find what they found before.
pub find_handle-release :
    (p : TaskPool) (sid handle : ℕ)
    → IsPool p
    → (task_pool_find_handle (task_pool_release_session p sid) handle sid ≡ none)
      × ((other : ℕ)
          → other ≢ sid
          → task_pool_find_handle (task_pool_release_session p sid) handle other
            ≡ task_pool_find_handle p handle other)
find_handle-release p sid handle v =
    (released_own p sid handle v, λ other ne. released_other p sid handle other v ne)
