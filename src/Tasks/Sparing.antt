-- ===== src/Tasks/Sparing.antt =====
-- Which tasks a change of the pool leaves alone: src/asyd/core/task_pool.c.
use asys.Base.{
  sym, ap, ◌∙◌, ℕ, ◌-◌, ◌/◌, ◌%◌, ◌^◌, ◌<◌, ◌≡◌, ◌≢◌, ◌⊎◌, inl, inr, refl, Bool, true, List, [],
  ◌∷◌, map, leb, ◌==◌, Bool-cases, All, arith,
}
use asys.Tasks.{
  empty, pending, timeout, is_empty, is_pending, timeout_sec, TaskEntry, modify_first, sweep_entry,
  slot_is_empty,
}
use asys.Tasks.Validity.{IsEntry}

timeout_used : timeout ≢ empty
timeout_used e = cc

-- One entry before and after what session `sid` did at time `now`: it is as it was, or has timed
-- out, or it was the session's own, empty, or a result of more than 30 seconds.
pub data Spared (now sid : ℕ) (e e' : TaskEntry) : Type 0 where
  kept : e' ≡ e → Spared now sid e e'
  timed_out :
      e.status ≡ pending
      → 30 < now - e.created_at
      → e' ≡ record e { status = timeout }
      → Spared now sid e e'
  owned : e.session_id ≡ sid → Spared now sid e e'
  unused : e.status ≡ empty → Spared now sid e e'
  old : e.status ≢ pending → 30 < now - e.created_at → Spared now sid e e'

-- The arrays before and after, entry by entry.
abbrev pub AllSpared : (now sid : ℕ) → List TaskEntry → List TaskEntry → Type 0
AllSpared now sid [] [] = Unit {0}
AllSpared now sid [] (e' ∷ es') = ⊥
AllSpared now sid (e ∷ es) [] = ⊥
AllSpared now sid (e ∷ es) (e' ∷ es') = Spared now sid e e' × AllSpared now sid es es'

module _ (now sid : ℕ) where
  pub AllSpared-refl : (es : List TaskEntry) → AllSpared now sid es es
  AllSpared-refl [] = tt
  AllSpared-refl (e ∷ es) = (kept refl, AllSpared-refl es)

  -- What the sweep does to an entry, and what the entry is then open to.
  sweep_cases :
      (e : TaskEntry)
      → ((sweep_entry now e ≡ e)
          ⊎ ((e.status ≡ pending)
              × (30 < now - e.created_at)
              × (sweep_entry now e ≡ record e { status = timeout })))
        ⊎ ((e.status ≢ pending) × (30 < now - e.created_at))
  sweep_cases e = elim (Bool-cases (is_empty e.status)) [
    | inl free ↦ rw free (inl (inl refl))
    | inr used ↦ elim (Bool-cases (leb (now - e.created_at) timeout_sec)) [
      | inl in_time ↦ rw (used, in_time) (inl (inl refl))
      | inr late ↦ elim (Bool-cases (is_pending e.status)) [
        | inl waits ↦ rw (used, late, waits) (inl (inr (ground arith, ground arith, refl)))
        | inr ended ↦ inr ((λ p. ground arith), ground arith)
      ]
    ]
  ]

  sweep_entry-Spared : (e : TaskEntry) → Spared now sid e (sweep_entry now e)
  sweep_entry-Spared e = elim (sweep_cases e) [
    | inl (inl same) ↦ kept same
    | inl (inr (waits, late, changed)) ↦ timed_out waits late changed
    | inr (ended, late) ↦ old ended late
  ]

  overwritten-Spared :
      (e e' : TaskEntry)
      → ((sweep_entry now e).session_id ≡ sid) ⊎ ((sweep_entry now e).status ≡ empty)
      → Spared now sid e e'
  overwritten-Spared e e' h = elim (sweep_cases e) [
    | inl (inl same) ↦ elim h [
      | inl mine ↦ owned (sym (ap (λ x. x.session_id) same) ∙ mine)
      | inr free ↦ unused (sym (ap (λ x. x.status) same) ∙ free)
    ]
    | inl (inr (waits, late, changed)) ↦ elim h [
      | inl mine ↦ owned (sym (ap (λ x. x.session_id) changed) ∙ mine)
      | inr free ↦ absurd (timeout_used (sym (ap (λ x. x.status) changed) ∙ free))
    ]
    | inr (ended, late) ↦ old ended late
  ]

  pub AllSpared-sweep : (es : List TaskEntry) → AllSpared now sid es (map (sweep_entry now) es)
  AllSpared-sweep [] = tt
  AllSpared-sweep (e ∷ es) = (sweep_entry-Spared e, AllSpared-sweep es)

  -- After the sweep, a loop writes over the first entry with a property that only the session's own
  -- entries and empty ones have.
  pub AllSpared-modify :
      (test : TaskEntry → Bool) (change : TaskEntry → TaskEntry)
      → ((e : TaskEntry) → IsEntry e → test e ≡ true → (e.session_id ≡ sid) ⊎ (e.status ≡ empty))
      → (es : List TaskEntry) → All IsEntry (map (sweep_entry now) es)
      → AllSpared now sid es (modify_first test change (map (sweep_entry now) es))
  unfolding modify_first
  AllSpared-modify test change own [] a = tt
  AllSpared-modify test change own (e ∷ es) a = elim (Bool-cases (test (sweep_entry now e))) [
    | inl hit ↦ rw hit (
      overwritten-Spared e (change (sweep_entry now e)) (own (sweep_entry now e) a.0 hit),
      AllSpared-sweep es,
    )
    | inr miss ↦ rw miss (sweep_entry-Spared e, AllSpared-modify test change own es a.1)
  ]

-- An entry with a handle of the session, or an empty one.
pub handle_owner :
    (handle sid : ℕ)
    → handle / 2 ^ 16 % 2 ^ 16 ≡ sid
    → (e : TaskEntry) → IsEntry e
    → (e.handle_id == handle) ≡ true
    → (e.session_id ≡ sid) ⊎ (e.status ≡ empty)
handle_owner handle sid h e (inl z) hit = ground (arith, z)
handle_owner handle sid h e (inr l) hit = ground (arith, l)

pub empty_owner :
    (sid : ℕ) (e : TaskEntry)
    → IsEntry e
    → slot_is_empty e ≡ true
    → (e.session_id ≡ sid) ⊎ (e.status ≡ empty)
empty_owner sid e v hit = ground arith
