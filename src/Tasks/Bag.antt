-- ===== src/Tasks/Bag.antt =====
-- The task pool as a bag of tasks: src/asyd/core/task_pool.c against a machine that has no slots,
-- no order and no seed.
use asys.Base.{
  ℕ, ◌+◌, ◌-◌, ◌*◌, ◌/◌, ◌%◌, ◌^◌, ◌<◌, ◌≡◌, ◌≢◌, Bool, not, none, Option, List, [], ◌∷◌, leb, ◌==◌,
  if◌then◌else◌, All, length, take,
}
use asys.Tasks.{
  TaskEntry, pending, success, failed, timeout, is_empty, is_pending, timeout_sec, svc_name_max,
  find_first, Call, allocates, frees, reaps, releases, sweeps,
}

-- The tasks of the array, and the first of them with a handle.
unfoldable pub tasks : List TaskEntry → List TaskEntry
tasks [] = []
tasks (e ∷ es) = if is_empty e.status then tasks es else e ∷ tasks es

-- A task and the others, in any order.
pub data Picks (e : TaskEntry) : List TaskEntry → List TaskEntry → Type 0 where
  here : {ts : List TaskEntry} → Picks e ts (e ∷ ts)
  there :
      {ts us : List TaskEntry} (other : TaskEntry)
      → Picks e ts us
      → Picks e (other ∷ ts) (other ∷ us)

unfoldable pub others : ℕ → List TaskEntry → List TaskEntry
others session_id [] = []
others session_id (e ∷ ts) =
    if e.session_id == session_id then others session_id ts else e ∷ others session_id ts

-- A task that has waited too long has failed, and one that ended long ago is forgotten.
unfoldable pub aged : ℕ → List TaskEntry → List TaskEntry
aged now [] = []
aged now (e ∷ ts) =
    if leb (now - e.created_at) timeout_sec
    then e ∷ aged now ts
    else if is_pending e.status
    then record e { status = timeout } ∷ aged now ts
    else aged now ts

pub record IsNew (now sid : ℕ) (name : List ℕ) (pid : ℕ) (e : TaskEntry) : Type 0 where
  pub owner : e.session_id ≡ sid
  pub child : e.child_pid ≡ pid
  pub service : e.svc_name ≡ take svc_name_max name
  pub waits : e.status ≡ pending
  pub since : e.created_at ≡ now
  pub handle_low : sid * 65536 < e.handle_id
  pub handle_high : e.handle_id < sid * 65536 + 65536

-- What a call does to the bag.
pub data Allowed (now : ℕ) (ts ts' : List TaskEntry) : Call → Type 0 where
  adds :
      {sid : ℕ} {name : List ℕ} {pid : ℕ} (e : TaskEntry)
      → length ts < 64
      → IsNew now sid name pid e
      → Picks e ts ts'
      → Allowed now ts ts' (allocates sid name pid)
  is_full :
      {sid : ℕ} {name : List ℕ} {pid : ℕ}
      → length ts ≡ 64
      → ts' ≡ ts
      → Allowed now ts ts' (allocates sid name pid)
  removes :
      {handle : ℕ} (e : TaskEntry)
      → e.handle_id ≡ handle
      → Picks e ts' ts
      → Allowed now ts ts' (frees handle)
  has_none :
      {handle : ℕ}
      → All (λ e. e.handle_id ≢ handle) ts
      → ts' ≡ ts
      → Allowed now ts ts' (frees handle)
  ends :
      {pid : ℕ} {ok : Bool} (e : TaskEntry) (rest : List TaskEntry)
      → e.child_pid ≡ pid
      → e.status ≡ pending
      → Picks e rest ts
      → Picks (record e { status = if ok then success else failed }) rest ts'
      → Allowed now ts ts' (reaps pid ok)
  no_child :
      {pid : ℕ} {ok : Bool}
      → All (λ e. e.child_pid ≡ pid → e.status ≢ pending) ts
      → ts' ≡ ts
      → Allowed now ts ts' (reaps pid ok)
  forgets : {sid : ℕ} → ts' ≡ others sid ts → Allowed now ts ts' (releases sid)
  ages : ts' ≡ aged now ts → Allowed now ts ts' sweeps

-- The calls one after the other.
pub data Runs : List TaskEntry → List (ℕ × Call) → List TaskEntry → Type 0 where
  stays : {ts : List TaskEntry} → Runs ts [] ts
  goes :
      {ts ts' us : List TaskEntry} {now : ℕ} {c : Call} {cs : List (ℕ × Call)}
      → Allowed now ts ts' c
      → Runs ts' cs us
      → Runs ts ((now, c) ∷ cs) us

-- The task that a session is told of under a handle.
unfoldable pub told : ℕ → ℕ → List TaskEntry → Option TaskEntry
told handle session_id ts =
    if handle == 0
    then none
    else if not (handle / 2 ^ 16 % 2 ^ 16 == session_id)
    then none
    else find_first (λ e. e.handle_id == handle) ts
