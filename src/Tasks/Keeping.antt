-- ===== src/Tasks/Keeping.antt =====
-- What becomes of one session's tasks while others use the pool: src/asyd/core/task_pool.c.
use asys.Base.{
  ℕ, ◌-◌, ◌≤◌, ◌<◌, ◌≡◌, ◌≢◌, inl, inr, refl, sym, ◌∙◌, subst, Bool, true, false, not, ◌&&◌, List,
  [], ◌∷◌, map, ◌==◌, if◌then◌else◌, Bool-cases, arith,
}
use asys.Tasks.{
  TaskStatus, empty, pending, success, failed, is_empty, TaskEntry, TaskPool, modify_first,
  is_pending_child, release_entry, task_pool_update_by_pid, task_pool_release_session,
}
use asys.Tasks.Sparing.{Spared, kept, timed_out, owned, unused, old, AllSpared}

-- One entry before and after, up to time `now`: as it was, or with the result of its child, which
-- has ended so, or none of the session's that is at most 30 seconds old. `Ended pid ok` says that
-- the end of a child was reported.
pub data Kept (Ended : ℕ → Bool → Type 0) (now sid : ℕ) (e e' : TaskEntry) : Type 0 where
  unchanged : e' ≡ e → Kept Ended now sid e e'
  finished :
      (ok : Bool)
      → e.status ≡ pending
      → Ended e.child_pid ok
      → e' ≡ record e { status = if ok then success else failed }
      → Kept Ended now sid e e'
  not_own : e.session_id ≢ sid → Kept Ended now sid e e'
  no_task : e.status ≡ empty → Kept Ended now sid e e'
  expired : 30 < now - e.created_at → Kept Ended now sid e e'

-- The arrays before and after, entry by entry.
abbrev pub AllKept :
    (Ended : ℕ → Bool → Type 0) (now sid : ℕ) → List TaskEntry → List TaskEntry → Type 0
AllKept Ended now sid [] [] = Unit {0}
AllKept Ended now sid [] (e' ∷ es') = ⊥
AllKept Ended now sid (e ∷ es) [] = ⊥
AllKept Ended now sid (e ∷ es) (e' ∷ es') = Kept Ended now sid e e' × AllKept Ended now sid es es'

module _ (Ended : ℕ → Bool → Type 0) (now sid : ℕ) where
  pub AllKept-refl : (es : List TaskEntry) → AllKept Ended now sid es es
  AllKept-refl [] = tt
  AllKept-refl (e ∷ es) = (unchanged refl, AllKept-refl es)

  result : Bool → TaskStatus
  result ok = if ok then success else failed

  result_ends : (ok : Bool) → (result ok ≢ empty) × (result ok ≢ pending)
  unfolding result
  result_ends true = ((λ e. cc), (λ e. cc))
  result_ends false = ((λ e. cc), (λ e. cc))

  from_finished :
      (e a : TaskEntry) (ok : Bool)
      → e.status ≡ pending
      → Ended e.child_pid ok
      → Kept Ended now sid (record e { status = result ok }) a
      → Kept Ended now sid e a
  unfolding result
  from_finished e a ok waits ended (unchanged same) = finished ok waits ended same
  from_finished e a ok waits ended (finished ok' p ended' x) = absurd ((result_ends ok).1 p)
  from_finished e a ok waits ended (not_own p) = not_own p
  from_finished e a ok waits ended (no_task p) = absurd ((result_ends ok).0 p)
  from_finished e a ok waits ended (expired p) = expired p

  Kept-trans :
      {e a b : TaskEntry} → Kept Ended now sid e a → Kept Ended now sid a b → Kept Ended now sid e b
  unfolding result
  Kept-trans {e} {a} {b} (unchanged same) k = subst (λ x. Kept Ended now sid x b) same k
  Kept-trans {e} {a} {b} (finished ok waits ended same) k =
      from_finished e b ok waits ended (subst (λ x. Kept Ended now sid x b) same k)
  Kept-trans (not_own p) k = not_own p
  Kept-trans (no_task p) k = no_task p
  Kept-trans (expired p) k = expired p

  pub AllKept-trans :
      (es mid bs : List TaskEntry)
      → AllKept Ended now sid es mid
      → AllKept Ended now sid mid bs
      → AllKept Ended now sid es bs
  AllKept-trans [] [] [] k l = tt
  AllKept-trans [] [] (b ∷ bs) k l = elim l [ ]
  AllKept-trans [] (a ∷ mid) bs k l = elim k [ ]
  AllKept-trans (e ∷ es) [] bs k l = elim k [ ]
  AllKept-trans (e ∷ es) (a ∷ mid) [] k l = elim l [ ]
  AllKept-trans (e ∷ es) (a ∷ mid) (b ∷ bs) k l =
      (Kept-trans k.0 l.0, AllKept-trans es mid bs k.1 l.1)

  -- What the request of another session does, at an earlier time.
  Spared-Kept :
      (time other : ℕ) {e e' : TaskEntry}
      → time ≤ now
      → other ≢ sid
      → Spared time other e e'
      → Kept Ended now sid e e'
  Spared-Kept time other le ne (kept same) = unchanged same
  Spared-Kept time other le ne (timed_out waits late same) = expired (omega (arith, late))
  Spared-Kept time other le ne (owned mine) = not_own (λ x. ne (sym mine ∙ x))
  Spared-Kept time other le ne (unused p) = no_task p
  Spared-Kept time other le ne (old p late) = expired (omega (arith, late))

  pub AllSpared-AllKept :
      (time other : ℕ) (es es' : List TaskEntry)
      → time ≤ now
      → other ≢ sid
      → AllSpared time other es es'
      → AllKept Ended now sid es es'
  AllSpared-AllKept time other [] [] le ne a = tt
  AllSpared-AllKept time other [] (e' ∷ es') le ne a = elim a [ ]
  AllSpared-AllKept time other (e ∷ es) [] le ne a = elim a [ ]
  AllSpared-AllKept time other (e ∷ es) (e' ∷ es') le ne a =
      (Spared-Kept time other le ne a.0, AllSpared-AllKept time other es es' le ne a.1)

  released-Kept :
      (other : ℕ) (e : TaskEntry) → other ≢ sid → Kept Ended now sid e (release_entry other e)
  released-Kept other e ne = elim (Bool-cases (e.session_id == other && not (is_empty e.status))) [
    | inl theirs ↦ not_own (λ x. ne (ground (arith, theirs, x)))
    | inr rest ↦ rw rest (unchanged refl)
  ]

  map-released :
      (other : ℕ) (es : List TaskEntry)
      → other ≢ sid
      → AllKept Ended now sid es (map (release_entry other) es)
  map-released other [] ne = tt
  map-released other (e ∷ es) ne = (released-Kept other e ne, map-released other es ne)

  -- The end of another session.
  pub release-AllKept :
      (p : TaskPool) (other : ℕ)
      → other ≢ sid
      → AllKept Ended now sid p.entries (task_pool_release_session p other).entries
  unfolding task_pool_release_session
  release-AllKept p other ne = map-released other p.entries ne

  reaped-Kept :
      (pid : ℕ) (ok : Bool) (e : TaskEntry)
      → Ended pid ok
      → is_pending_child pid e ≡ true
      → Kept Ended now sid e (record e { status = if ok then success else failed })
  reaped-Kept pid ok e ended hit =
      finished ok (ground (arith, hit)) (subst (λ n. Ended n ok) (ground (arith, hit)) ended) refl

  modify-reaped :
      (pid : ℕ) (ok : Bool) (es : List TaskEntry)
      → Ended pid ok
      → AllKept Ended now sid es (
          modify_first
            (is_pending_child pid)
            (λ e. record e { status = if ok then success else failed })
            es)
  unfolding modify_first
  modify-reaped pid ok [] ended = tt
  modify-reaped pid ok (e ∷ es) ended = elim (Bool-cases (is_pending_child pid e)) [
    | inl hit ↦ rw hit (reaped-Kept pid ok e ended hit, AllKept-refl es)
    | inr miss ↦ rw miss (unchanged refl, modify-reaped pid ok es ended)
  ]

  -- The reaping of a child.
  pub update-AllKept :
      (p : TaskPool) (pid : ℕ) (ok : Bool)
      → Ended pid ok
      → AllKept Ended now sid p.entries
          (task_pool_update_by_pid p pid (if ok then success else failed)).entries
  unfolding task_pool_update_by_pid
  update-AllKept p pid ok ended = modify-reaped pid ok p.entries ended
