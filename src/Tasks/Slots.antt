-- ===== src/Tasks/Slots.antt =====
-- The slots of the task pool (src/asyd/core/task_pool.c) and the tasks in them.
use asys.Base.{
  ℕ, ◌≤◌, ◌≡◌, ◌≢◌, ◌⊎◌, inl, inr, refl, sym, ap, subst, ◌∙◌, Bool, true, false, none, List, [],
  ◌∷◌, ◌++◌, map, ◌==◌, Bool-cases, All, length, replicate, zero, suc, arith,
}
use asys.Tasks.{
  TaskStatus, empty, pending, success, failed, timeout, cancelled, TaskEntry, is_empty, is_pending,
  modify_first, find_first, slot_is_empty, has_handle, release_entry, sweep_entry, zero_entry,
}
use asys.Tasks.Validity.{IsEntry}
use asys.Tasks.Bag.{tasks, Picks, here, there, others, aged}

pub tasks-append : (es es' : List TaskEntry) → tasks (es ++ es') ≡ tasks es ++ tasks es'
unfolding tasks
tasks-append [] es' = refl
tasks-append (e ∷ es) es' = ground (arith, tasks-append es es')

pub Picks-middle : (e : TaskEntry) (ts us : List TaskEntry) → Picks e (ts ++ us) (ts ++ e ∷ us)
Picks-middle e [] us = here
Picks-middle e (t ∷ ts) us = there t (Picks-middle e ts us)

pub tasks-All :
    (P Q : TaskEntry → Type 0)
    → ((e : TaskEntry) → is_empty e.status ≡ false → P e → Q e)
    → (es : List TaskEntry) → All P es
    → All Q (tasks es)
unfolding tasks
tasks-All P Q h [] a = tt
tasks-All P Q h (e ∷ es) a = elim (Bool-cases (is_empty e.status)) [
  | inl free ↦ rw free (tasks-All P Q h es a.1)
  | inr used ↦ rw used (h e used a.0, tasks-All P Q h es a.1)
]

-- The loop that changes one entry leaves the array as it is, or the entries around one.
pub modify_first-splits :
    (test : TaskEntry → Bool) (change : TaskEntry → TaskEntry) (es : List TaskEntry)
    → (All (λ e. test e ≡ false) es × (modify_first test change es ≡ es))
      ⊎ ((xs : List TaskEntry) × (e : TaskEntry) × (ys : List TaskEntry) × (es ≡ xs ++ e ∷ ys)
          × (test e ≡ true)
          × (modify_first test change es ≡ xs ++ change e ∷ ys))
unfolding modify_first
modify_first-splits test change [] = inl (tt, refl)
modify_first-splits test change (x ∷ es) = elim (Bool-cases (test x)) [
  | inl hit ↦ inr ([], x, es, refl, hit, rw hit refl)
  | inr miss ↦ elim (modify_first-splits test change es) [
    | inl (a, same) ↦ inl ((miss, a), rw (miss, same) refl)
    | inr (xs, e, ys, is, hit, new) ↦ inr (x ∷ xs, e, ys, ap (◌∷◌ x) is, hit, rw (miss, new) refl)
  ]
]

pub tasks-release :
    (sid : ℕ) (es : List TaskEntry) → tasks (map (release_entry sid) es) ≡ others sid (tasks es)
unfolding tasks others
tasks-release sid [] = refl
tasks-release sid (e ∷ es) = ground (arith, tasks-release sid es)

pub tasks-sweep :
    (now : ℕ) (es : List TaskEntry) → tasks (map (sweep_entry now) es) ≡ aged now (tasks es)
unfolding tasks aged
tasks-sweep now [] = refl
tasks-sweep now (e ∷ es) = ground (arith, tasks-sweep now es)

pub find_first-tasks :
    (handle : ℕ) (es : List TaskEntry)
    → find_first (has_handle handle) es ≡ find_first (λ e. e.handle_id == handle) (tasks es)
unfolding tasks find_first
find_first-tasks handle [] = refl
find_first-tasks handle (e ∷ es) = ground (arith, find_first-tasks handle es)

pub length-tasks : (es : List TaskEntry) → length (tasks es) ≤ length es
unfolding tasks
length-tasks [] = omega arith
length-tasks (e ∷ es) = ground (arith, length-tasks es)

pub tasks_full : (es : List TaskEntry) → find_first slot_is_empty es ≡ none → tasks es ≡ es
unfolding tasks find_first
tasks_full [] h = refl
tasks_full (e ∷ es) h = ground (arith, tasks_full es)

pub tasks_free :
    (xs : List TaskEntry) (e : TaskEntry) (ys : List TaskEntry)
    → is_empty e.status ≡ true
    → tasks (xs ++ e ∷ ys) ≡ tasks xs ++ tasks ys
unfolding tasks
tasks_free xs e ys free = rw (tasks-append xs (e ∷ ys), tasks, free) refl

pub tasks_used :
    (xs : List TaskEntry) (e : TaskEntry) (ys : List TaskEntry)
    → is_empty e.status ≡ false
    → tasks (xs ++ e ∷ ys) ≡ tasks xs ++ e ∷ tasks ys
unfolding tasks
tasks_used xs e ys used = rw (tasks-append xs (e ∷ ys), tasks, used) refl

-- A used slot among others.
pub picked :
    (xs : List TaskEntry) (e : TaskEntry) (ys es : List TaskEntry)
    → es ≡ xs ++ e ∷ ys
    → is_empty e.status ≡ false
    → Picks e (tasks xs ++ tasks ys) (tasks es)
picked xs e ys es is used =
    subst (λ l. Picks e (tasks xs ++ tasks ys) l) (sym (ap tasks is ∙ tasks_used xs e ys used))
      (Picks-middle e (tasks xs) (tasks ys))

pub All-middle :
    (P : TaskEntry → Type 0) (xs : List TaskEntry) (e : TaskEntry) (ys : List TaskEntry)
    → All P (xs ++ e ∷ ys)
    → P e
All-middle P [] e ys a = a.0
All-middle P (x ∷ xs) e ys a = All-middle P xs e ys a.1

-- A free slot has the handle 0, and no task has.
pub unused :
    (e : TaskEntry) (handle : ℕ)
    → is_empty e.status ≡ true
    → IsEntry e
    → e.handle_id == handle ≡ true
    → handle ≡ 0
unused e handle free (inl z) hit = ground (arith, z, hit)
unused e handle free (inr l) hit = absurd (ground (arith, free, l))

pub named :
    (e : TaskEntry) (handle : ℕ)
    → handle ≡ 0
    → is_empty e.status ≡ false
    → IsEntry e
    → e.handle_id ≢ handle
named e handle h used (inl z) = absurd (ground (arith, z, used))
named e handle h used (inr l) = λ same. omega (arith, l.handle_low, same, h)

pub waits_pending : (s : TaskStatus) → is_pending s ≡ true → s ≡ pending
waits_pending pending h = refl
waits_pending empty h = cc
waits_pending success h = cc
waits_pending failed h = cc
waits_pending timeout h = cc
waits_pending cancelled h = cc

pub tasks_zero : (n : ℕ) → tasks (replicate n zero_entry) ≡ []
unfolding tasks replicate
tasks_zero zero = refl
tasks_zero (suc n) = tasks_zero n
