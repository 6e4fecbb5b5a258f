-- ===== src/Tasks.antt =====
-- The pool of asynchronous task handles: src/asyd/core/task_pool.c and task_pool.h.
--
-- The pool is the static array with the seed of `rand_r`. A `char` array with a terminator is the
-- list of the bytes before it. Times are seconds, passed in where the code calls `time(NULL)`;
-- `rand_r` is a parameter that gives the drawn value and the next seed. A pointer to an entry is
-- the entry, since the callers only read it.
pub mod Find
pub mod Alloc
pub mod Moves
pub mod Validity
pub mod Handles
pub mod Timeouts
pub mod Sparing
pub mod Keeping
pub mod Bag
pub mod Slots
pub mod Refinement
pub mod Starts
use asys.Base.{
  ℕ, ◌+◌, ◌-◌, ◌*◌, ◌/◌, ◌%◌, ◌^◌, Bool, true, false, not, ◌&&◌, Option, none, some, List, [], ◌∷◌,
  map, leb, ◌==◌, if◌then◌else◌, bytes_eq, take, replicate, bit_xor,
}

abbrev task_pool_size : ℕ
task_pool_size = 64

abbrev pub svc_name_max : ℕ
svc_name_max = 64

abbrev pub timeout_sec : ℕ
timeout_sec = 30

pub data TaskStatus : Type 0 where
  empty pending success failed timeout cancelled : TaskStatus

abbrev pub is_empty : TaskStatus → Bool
is_empty empty = true
is_empty _ = false

abbrev pub is_pending : TaskStatus → Bool
is_pending pending = true
is_pending _ = false

pub record TaskEntry : Type 0 where
  pub handle_id : ℕ
  pub session_id : ℕ
  pub child_pid : ℕ
  pub status : TaskStatus
  pub created_at : ℕ
  pub svc_name : List ℕ

pub record TaskPool : Type 0 where
  pub entries : List TaskEntry
  pub rand_seed : ℕ

-- An entry after `memset(…, 0, sizeof(TaskEntry))`.
abbrev pub zero_entry : TaskEntry
zero_entry = record {
  handle_id = 0;
  session_id = 0;
  child_pid = 0;
  status = empty;
  created_at = 0;
  svc_name = [];
}

-- A loop over the array that changes the first entry with a property and returns.
unfoldable pub modify_first :
    (TaskEntry → Bool) → (TaskEntry → TaskEntry) → List TaskEntry → List TaskEntry
modify_first test change [] = []
modify_first test change (e ∷ es) =
    if test e then change e ∷ es else e ∷ modify_first test change es

-- A loop over the array that returns the first entry with a property.
unfoldable pub find_first : (TaskEntry → Bool) → List TaskEntry → Option TaskEntry
find_first test [] = none
find_first test (e ∷ es) = if test e then some e else find_first test es

unfoldable pub task_pool_init : ℕ → ℕ → TaskPool
task_pool_init now pid = record {
  entries = replicate task_pool_size zero_entry;
  rand_seed = bit_xor now pid % 2 ^ 32;
}

abbrev pub slot_is_empty : TaskEntry → Bool
slot_is_empty e = is_empty e.status

unfoldable pub task_pool_available : TaskPool → Bool
task_pool_available p = elim (find_first slot_is_empty p.entries) [ none ↦ false | some e ↦ true ]

-- The random half of a handle: 0 is reserved as the "not found" sentinel.
unfoldable pub handle_rand : ℕ → ℕ
handle_rand drawn = if drawn % 65536 == 0 then 1 else drawn % 65536

unfoldable pub new_entry : ℕ → ℕ → List ℕ → ℕ → ℕ → TaskEntry
new_entry rnd session_id svc_name child_pid now = record {
  handle_id = session_id * 2 ^ 16 + rnd;
  session_id = session_id;
  child_pid = child_pid;
  status = pending;
  created_at = now;
  svc_name = take svc_name_max svc_name;
}

module _ (rand_r : ℕ → ℕ × ℕ) where
  -- The handle, or 0 if the pool is full, and the pool. A value is drawn only for a free slot.
  unfoldable pub task_pool_alloc : ℕ → TaskPool → ℕ → List ℕ → ℕ → ℕ × TaskPool
  task_pool_alloc now p session_id svc_name child_pid =
      let (drawn, seed) = rand_r p.rand_seed in
      let e = new_entry (handle_rand drawn) session_id svc_name child_pid now in
      if task_pool_available p
      then (
        e.handle_id,
        record { entries = modify_first slot_is_empty (λ _. e) p.entries; rand_seed = seed },
      )
      else (0, p)

abbrev pub is_pending_for : ℕ → List ℕ → TaskEntry → Bool
is_pending_for session_id svc_name e =
    is_pending e.status && e.session_id == session_id && bytes_eq e.svc_name svc_name

unfoldable pub task_pool_find_pending : TaskPool → ℕ → List ℕ → ℕ
task_pool_find_pending p session_id svc_name =
    elim (find_first (is_pending_for session_id svc_name) p.entries) [
      | none ↦ 0
      | some e ↦ e.handle_id
    ]

abbrev pub has_handle : ℕ → TaskEntry → Bool
has_handle handle_id e = e.handle_id == handle_id && not (is_empty e.status)

unfoldable pub task_pool_find_handle : TaskPool → ℕ → ℕ → Option TaskEntry
task_pool_find_handle p handle_id session_id =
    if handle_id == 0
    then none
    else if not (handle_id / 2 ^ 16 % 2 ^ 16 == session_id)
    then none
    else find_first (has_handle handle_id) p.entries

unfoldable pub task_pool_free : TaskPool → ℕ → TaskPool
task_pool_free p handle_id = record p {
  entries = modify_first (λ e. e.handle_id == handle_id) (λ _. zero_entry) p.entries;
}

abbrev pub is_pending_child : ℕ → TaskEntry → Bool
is_pending_child pid e = e.child_pid == pid && is_pending e.status

unfoldable pub task_pool_update_by_pid : TaskPool → ℕ → TaskStatus → TaskPool
task_pool_update_by_pid p pid new_status = record p {
  entries = modify_first (is_pending_child pid) (λ e. record e { status = new_status }) p.entries;
}

abbrev pub release_entry : ℕ → TaskEntry → TaskEntry
release_entry session_id e =
    if e.session_id == session_id && not (is_empty e.status) then zero_entry else e

unfoldable pub task_pool_release_session : TaskPool → ℕ → TaskPool
task_pool_release_session p session_id = record p {
  entries = map (release_entry session_id) p.entries;
}

-- `now - created_at <= 30` on signed times: a clock that went back gives a negative age, which is
-- in time, as 0 is here.
abbrev pub sweep_entry : ℕ → TaskEntry → TaskEntry
sweep_entry now e =
    if is_empty e.status
    then e
    else if leb (now - e.created_at) timeout_sec
    then e
    else if is_pending e.status
    then record e { status = timeout }
    else zero_entry

unfoldable pub task_pool_sweep_timeouts : ℕ → TaskPool → TaskPool
task_pool_sweep_timeouts now p = record p { entries = map (sweep_entry now) p.entries }

-- The calls that change the pool after its start, each at a time.
pub data Call : Type 0 where
  allocates : (session_id : ℕ) (svc_name : List ℕ) (child_pid : ℕ) → Call
  frees : (handle_id : ℕ) → Call
  reaps : (pid : ℕ) (exit_ok : Bool) → Call
  releases : (session_id : ℕ) → Call
  sweeps : Call

module _ (rand_r : ℕ → ℕ × ℕ) where
  unfoldable pub step : TaskPool → ℕ × Call → TaskPool
  step p (now, allocates sid name pid) = (task_pool_alloc rand_r now p sid name pid).1
  step p (now, frees h) = task_pool_free p h
  step p (now, reaps pid ok) = task_pool_update_by_pid p pid (if ok then success else failed)
  step p (now, releases sid) = task_pool_release_session p sid
  step p (now, sweeps) = task_pool_sweep_timeouts now p

  unfoldable pub run : TaskPool → List (ℕ × Call) → TaskPool
  run p [] = p
  run p (c ∷ cs) = run (step p c) cs
