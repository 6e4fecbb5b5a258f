-- ===== src/Handlers.antt =====
-- What the instruction handlers share: the status words, the capability bitmaps and `sw_write` of
-- src/asyd/core/dispatcher.h, the request, the daemon's state, and what the operating system
-- answers to a handler's calls.
--
-- A handler's reply is the list of the bytes that it writes to `resp_out`, from the first on; its
-- length is the returned count, and `none` is the return value -1.
pub mod TaskQuery
pub mod ProcThrottle
pub mod SvcRestart
pub mod SysHello
pub mod SysCaps
pub mod SysStatus
pub mod SysProcs
pub mod Guarded
pub mod Signals
pub mod Restarts
pub mod Polling
use asys.Base.{ℕ, ◌+◌, ◌-◌, ◌^◌, List, [], ◌∷◌, Option, Bool, ltb, if◌then◌else◌, byte_at}
use asys.Apdu.{ApduFrame}
use asys.Tasks.{TaskPool}
use asys.Reports.{Host, StatusCache, ProcsCache}

abbrev pub sw_ok : ℕ
sw_ok = 0x9000

abbrev pub sw_not_found : ℕ
sw_not_found = 0x6A81

abbrev pub sw_access_denied : ℕ
sw_access_denied = 0x6982

abbrev pub sw_not_supported : ℕ
sw_not_supported = 0x6D00

abbrev pub sw_wrong_data : ℕ
sw_wrong_data = 0x6A80

abbrev pub sw_wrong_len : ℕ
sw_wrong_len = 0x6700

abbrev pub sw_blocked : ℕ
sw_blocked = 0x6400

abbrev pub sw_replay_detected : ℕ
sw_replay_detected = 0x6985

abbrev pub sw_sys_err : ℕ
sw_sys_err = 0x6F00

abbrev pub sw_sys_err_nomem : ℕ
sw_sys_err_nomem = 0x6F01

abbrev pub core_caps_bitmap : ℕ
core_caps_bitmap = 0x0002000F

abbrev pub ext_caps_bitmap : ℕ
ext_caps_bitmap = 0x00000005

abbrev pub disp_resp_max : ℕ
disp_resp_max = 256

abbrev pub sw_write : ℕ → List ℕ
sw_write sw = byte_at sw 8 ∷ byte_at sw 0 ∷ []

-- The frame, with the receive buffer that its pointers point into.
pub record Request : Type 0 where
  pub buf : List ℕ
  pub frame : ApduFrame

-- A C `int`; `negsuc n` is -(n + 1).
pub data ℤ : Type 0 where
  pos : ℕ → ℤ
  negsuc : ℕ → ℤ

-- `(pid_t)v` of a `uint32_t`.
unfoldable pub to_pid_t : ℕ → ℤ
to_pid_t v = if ltb v (2 ^ 31) then pos v else negsuc (2 ^ 32 - (v + 1))

pub data Signal : Type 0 where
  sigstop sigcont : Signal

pub data Errno : Type 0 where
  esrch einval eperm enomem other : Errno

-- What the daemon asks of the operating system.
pub data Effect : Type 0 where
  kills : ℤ → Signal → Effect
  restarts : (unit : List ℕ) → Effect

-- `none` is success.
abbrev pub CallResult : Type 0
CallResult = Option Errno

pub data ForkResult : Type 0 where
  forked : (pid : ℕ) → ForkResult
  fork_failed : Errno → ForkResult

-- The answers of the operating system to the calls of one handler run.
pub record Io : Type 0 where
  pub sweep_time : ℕ
  pub alloc_time : ℕ
  pub kill_result : CallResult
  pub fork_result : ForkResult
  pub machine_id : Option (List ℕ)
  pub realtime : Option (ℕ × ℕ)
  pub host : Host

-- The state that handlers change: the task pool, the variables that the reports keep, and what was
-- asked of the system, latest first.
pub record World : Type 0 where
  pub pool : TaskPool
  pub status : StatusCache
  pub procs : ProcsCache
  pub effects : List Effect

abbrev pub Reply : Type 0
Reply = Option (List ℕ)

-- `HandlerFn`: the request, `resp_size`, `session_id`.
abbrev pub HandlerFn : Type 0
HandlerFn = Io → World → Request → ℕ → ℕ → Reply × World
