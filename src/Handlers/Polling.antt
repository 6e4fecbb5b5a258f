-- ===== src/Handlers/Polling.antt =====
-- What a session learns of tasks by TASK_QUERY: src/asyd/handlers/task_query.c.
use asys.Base.{ℕ, ◌-◌, ◌≤◌, ◌<◌, ◌≡◌, ◌⊎◌}
use asys.Tasks.{TaskStatus, pending, success, failed, timeout, cancelled, TaskEntry}

-- The byte that stands for a status.
pub data IsCode : TaskStatus → ℕ → Type 0 where
  waits : IsCode pending 0
  worked : IsCode success 1
  went_wrong : IsCode failed 2
  too_late : IsCode timeout 3
  gave_up : IsCode cancelled 4

-- A task that the session started under the handle asked for: the code is that of its status if it
-- is at most 30 seconds old, and that of a timeout if it has waited longer.
pub record IsReported (sid handle now code : ℕ) (e : TaskEntry) : Type 0 where
  pub own : e.session_id ≡ sid
  pub asked : e.handle_id ≡ handle
  pub told :
      ((now - e.created_at ≤ 30) × IsCode e.status code)
      ⊎ ((30 < now - e.created_at) × (e.status ≡ pending) × (code ≡ 3))
