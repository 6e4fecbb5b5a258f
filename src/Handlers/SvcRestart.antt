-- ===== src/Handlers/SvcRestart.antt =====
-- The 0x22 SVC_RESTART handler: src/asyd/handlers/svc_restart.c.
--
-- The child process is what it executes: `systemctl restart` on a unit name.
use asys.Base.{
  ℕ, ◌-◌, Bool, true, false, not, ◌&&◌, ◌||◌, some, List, [], ◌∷◌, ◌++◌, ltb, leb, ◌==◌,
  if◌then◌else◌, length, drop, bytes_eq, put_u32,
}
use asys.Apdu.{data_bytes, sec_signed}
use asys.Tasks.{
  TaskPool, svc_name_max, task_pool_sweep_timeouts, task_pool_find_pending, task_pool_available,
  task_pool_alloc,
}
use asys.Handlers.{
  Request, Io, World, Reply, HandlerFn, enomem, forked, fork_failed, restarts, sw_write, sw_ok,
  sw_access_denied, sw_wrong_len, sw_wrong_data, sw_blocked, sw_sys_err, sw_sys_err_nomem,
}

abbrev min_data_len : ℕ
min_data_len = 5

-- ".service"
abbrev pub service_suffix : List ℕ
service_suffix = b'.' ∷ b's' ∷ b'e' ∷ b'r' ∷ b'v' ∷ b'i' ∷ b'c' ∷ b'e' ∷ []

-- A `char` above 127 is negative in C and fails every test, as it does here.
unfoldable pub svc_char_valid : ℕ → Bool
svc_char_valid c =
    leb b'a' c && leb c b'z' || leb b'0' c && leb c b'9' || c == b'_' || c == b'-' || c == b'.'

unfoldable pub svc_chars_valid : List ℕ → Bool
unfolding svc_char_valid
svc_chars_valid [] = true
svc_chars_valid (c ∷ cs) = svc_char_valid c && svc_chars_valid cs

unfoldable pub svc_name_valid : List ℕ → Bool
unfolding svc_chars_valid
svc_name_valid name =
    let len = length name in
    if ltb len 1 || ltb svc_name_max len
    then false
    else if not (svc_chars_valid name)
    then false
    else if ltb 8 len && bytes_eq (drop (len - 8) name) service_suffix
    then false
    else true

abbrev pub requested_name : Request → List ℕ
requested_name req = data_bytes req.buf req.frame 4 (req.frame.data_len - 4)

module _ (rand_r : ℕ → ℕ × ℕ) where
  -- From `fork` on: the parent's side, with what the child executes.
  unfoldable pub start_restart : Io → World → TaskPool → ℕ → List ℕ → Reply × World
  start_restart io w p session_id name = elim io.fork_result [
    | fork_failed enomem ↦ (some (sw_write sw_sys_err_nomem), record w { pool = p })
    | fork_failed _ ↦ (some (sw_write sw_sys_err), record w { pool = p })
    | forked pid ↦
        let (handle, p') = task_pool_alloc rand_r io.alloc_time p session_id name pid in
        let w' = record w { pool = p'; effects = restarts (name ++ service_suffix) ∷ w.effects } in
        if handle == 0
        then (some (sw_write sw_blocked), w')
        else (some (put_u32 handle ++ sw_write sw_ok), w')
  ]

  unfoldable pub handler_svc_restart : HandlerFn
  handler_svc_restart io w req sz session_id =
      let f = req.frame in
      let name = requested_name req in
      let p = task_pool_sweep_timeouts io.sweep_time w.pool in
      let handle = task_pool_find_pending p session_id name in
      if not (f.sec == sec_signed)
      then (some (sw_write sw_access_denied), w)
      else if ltb f.data_len min_data_len
      then (some (sw_write sw_wrong_len), w)
      else if not (svc_name_valid name)
      then (some (sw_write sw_wrong_data), w)
      else if not (handle == 0)
      then (some (put_u32 handle ++ sw_write sw_ok), record w { pool = p })
      else if not (task_pool_available p)
      then (some (sw_write sw_blocked), record w { pool = p })
      else start_restart io w p session_id name
