-- ===== src/Session/Clients.antt =====
-- The connection slots, and the reaping of children: client_thread, sigchld_handler and the accept
-- loop of main in src/asyd/asyd.c.
use asys.Base.{
  ℕ, zero, suc, ◌+◌, ◌≤◌, ◌≡◌, ◌↔◌, refl, Bool, true, false, not, Option, none, some, List, [], ◌∷◌,
  ◌==◌, if◌then◌else◌, length, Option-cases, inl, inr, arith,
}
use asys.Tasks.{TaskPool, task_pool_update_by_pid, success, failed}
use asys.Tasks.Validity.{IsPool, update-IsPool}

-- The peer's address is only printed.
pub record ClientSlot : Type 0 where
  pub fd : ℕ
  pub in_use : Bool

-- The loop over the slots that takes the first free one, from index `i` on: its index.
unfoldable pub acquire_client : ℕ → ℕ → List ClientSlot → Option (ℕ × List ClientSlot)
acquire_client cfd i [] = none
acquire_client cfd i (s ∷ ss) =
    let rest = acquire_client cfd (i + 1) ss in
    if not s.in_use
    then some (i, record { fd = cfd; in_use = true } ∷ ss)
    else elim rest [ none ↦ none | some (j, ss') ↦ some (j, s ∷ ss') ]

-- `slot->in_use = 0` at the end of a client's thread.
unfoldable pub release_client : ℕ → List ClientSlot → List ClientSlot
release_client i [] = []
release_client zero (s ∷ ss) = record s { in_use = false } ∷ ss
release_client (suc i) (s ∷ ss) = s ∷ release_client i ss

-- The children that `waitpid` returns one after the other: a process number, and the exit code or
-- `none` for a child that did not exit by itself.
reap_children : TaskPool → List (ℕ × Option ℕ) → TaskPool
reap_children p [] = p
reap_children p ((pid, code) ∷ cs) =
    let ok : Bool = elim code [ none ↦ false | some n ↦ n == 0 ] in
    reap_children (task_pool_update_by_pid p pid (if ok then success else failed)) cs

-- The slots in use.
unfoldable pub clients : List ClientSlot → ℕ
clients [] = 0
clients (s ∷ ss) = if s.in_use then clients ss + 1 else clients ss

pub clients_bound : (ss : List ClientSlot) → clients ss ≤ length ss
unfolding clients
clients_bound [] = omega arith
clients_bound (s ∷ ss) = ground (arith, clients_bound ss)

full_iff :
    (cfd i : ℕ) (ss : List ClientSlot) → (acquire_client cfd i ss ≡ none) ↔ (clients ss ≡ length ss)
unfolding acquire_client clients
full_iff cfd i [] = ((λ e. refl), (λ e. refl))
full_iff cfd i (s ∷ ss) = (
  (λ e. ground (arith, full_iff cfd (i + 1) ss, clients_bound ss)),
  (λ e. ground (arith, full_iff cfd (i + 1) ss, clients_bound ss)),
)

one_more :
    (cfd i j : ℕ) (ss ss' : List ClientSlot)
    → acquire_client cfd i ss ≡ some (j, ss')
    → (clients ss' ≡ clients ss + 1) × (length ss' ≡ length ss)
unfolding acquire_client clients
one_more cfd i j [] ss' e = cc
one_more cfd i j (s ∷ ss) ss' e = elim (Option-cases (acquire_client cfd (i + 1) ss)) [
  | inl full ↦ ground (arith, full)
  | inr ((k, rest), found) ↦ ground (arith, found, one_more cfd (i + 1) k ss rest found)
]

-- A connection is turned away exactly when every slot is in use; otherwise one slot more is in use
-- and their number stays the same, so there are never more clients than slots.
pub acquire_client_lem :
    (cfd : ℕ) (ss : List ClientSlot)
    → ((acquire_client cfd 0 ss ≡ none) ↔ (clients ss ≡ length ss))
      × ((j : ℕ) (ss' : List ClientSlot)
          → acquire_client cfd 0 ss ≡ some (j, ss')
          → (clients ss' ≡ clients ss + 1) × (length ss' ≡ length ss))
acquire_client_lem cfd ss = (full_iff cfd 0 ss, (λ j ss' e. one_more cfd 0 j ss ss' e))

-- Reaping children, whatever they are and however they ended, keeps the task pool valid.
reap_children-IsPool :
    (p : TaskPool) (cs : List (ℕ × Option ℕ)) → IsPool p → IsPool (reap_children p cs)
unfolding reap_children
reap_children-IsPool p [] v = v
reap_children-IsPool p ((pid, code) ∷ cs) v =
    let ok : Bool = elim code [ none ↦ false | some n ↦ n == 0 ] in
    reap_children-IsPool (task_pool_update_by_pid p pid (if ok then success else failed)) cs
      (update-IsPool p pid ok v)
