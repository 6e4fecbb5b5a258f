-- ===== src/Handlers/TaskQuery.antt =====
-- The 0x11 TASK_QUERY handler: src/asyd/handlers/task_query.c.
use asys.Base.{ℕ, Option, none, some, List, ◌∷◌, ltb, if◌then◌else◌, get_u32}
use asys.Apdu.{data_byte}
use asys.Tasks.{
  TaskStatus, empty, pending, success, failed, timeout, cancelled, is_pending, TaskEntry, TaskPool,
  task_pool_sweep_timeouts, task_pool_find_handle, task_pool_free,
}
use asys.Handlers.{Request, HandlerFn, sw_write, sw_ok, sw_wrong_len}

unfoldable pub to_wire : TaskStatus → ℕ
to_wire pending = 0x00
to_wire success = 0x01
to_wire failed = 0x02
to_wire timeout = 0x03
to_wire cancelled = 0x04
to_wire empty = 0xFF

abbrev pub query_handle : Request → ℕ
query_handle req =
    get_u32 (data_byte req.buf req.frame 0) (data_byte req.buf req.frame 1)
      (data_byte req.buf req.frame 2) (data_byte req.buf req.frame 3)

-- The answer about an entry, and the pool after it.
unfoldable pub answer : TaskPool → ℕ → Option TaskEntry → List ℕ × TaskPool
unfolding to_wire
answer p handle none = (0xFF ∷ sw_write sw_ok, p)
answer p handle (some e) =
    (to_wire e.status ∷ sw_write sw_ok, if is_pending e.status then p else task_pool_free p handle)

unfoldable pub handler_task_query : HandlerFn
unfolding answer
handler_task_query io w req sz session_id =
    let handle = query_handle req in
    let p = task_pool_sweep_timeouts io.sweep_time w.pool in
    let (reply, p') = answer p handle (task_pool_find_handle p handle session_id) in
    if ltb req.frame.data_len 4
    then (some (sw_write sw_wrong_len), w)
    else (some reply, record w { pool = p' })
