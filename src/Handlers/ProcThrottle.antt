-- ===== src/Handlers/ProcThrottle.antt =====
-- The 0x20 PROC_THROTTLE handler: src/asyd/handlers/proc_throttle.c.
use asys.Base.{ℕ, not, ◌&&◌, none, some, ◌∷◌, ltb, ◌==◌, if◌then◌else◌, get_u32}
use asys.Apdu.{data_byte, sec_signed}
use asys.Handlers.{
  Request, HandlerFn, esrch, einval, eperm, CallResult, sigstop, sigcont, kills, to_pid_t, sw_write,
  sw_ok, sw_access_denied, sw_wrong_len, sw_wrong_data, sw_sys_err,
}

abbrev proc_throttle_data_len : ℕ
proc_throttle_data_len = 8

abbrev pub throttle_pid : Request → ℕ
throttle_pid req =
    get_u32 (data_byte req.buf req.frame 4) (data_byte req.buf req.frame 5)
      (data_byte req.buf req.frame 6) (data_byte req.buf req.frame 7)

-- The status word for the outcome of `kill`.
abbrev pub kill_sw : CallResult → ℕ
kill_sw none = sw_ok
kill_sw (some esrch) = sw_wrong_data
kill_sw (some einval) = sw_wrong_data
kill_sw (some eperm) = sw_access_denied
kill_sw (some _) = sw_sys_err

unfoldable pub handler_proc_throttle : HandlerFn
unfolding to_pid_t
handler_proc_throttle io w req sz session_id =
    let f = req.frame in
    let pid = throttle_pid req in
    let sig = (if f.p1 == 0x01 then sigcont else sigstop) in
    if not (f.sec == sec_signed)
    then (some (sw_write sw_access_denied), w)
    else if ltb f.data_len proc_throttle_data_len
    then (some (sw_write sw_wrong_len), w)
    else if not (f.p1 == 0x00) && not (f.p1 == 0x01)
    then (some (sw_write sw_wrong_data), w)
    else if pid == 0
    then (some (sw_write sw_wrong_data), w)
    else (
      some (sw_write (kill_sw io.kill_result)),
      record w { effects = kills (to_pid_t pid) sig ∷ w.effects },
    )
