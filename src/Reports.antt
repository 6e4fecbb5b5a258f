-- ===== src/Reports.antt =====
-- What the reporting handlers of src/asyd/handlers (sys_caps.c, sys_status.c, sys_procs.c) read of
-- the system and keep between calls.
--
-- A file is the list of its bytes, or `none` if it cannot be opened.
pub mod Files
use asys.Base.{
  ℕ, zero, suc, ◌+◌, ◌*◌, ◌^◌, ◌%◌, Bool, true, false, Option, none, some, List, [], ◌∷◌, ◌==◌,
  if◌then◌else◌, get_or,
}

abbrev pub File : Type 0
File = Option (List ℕ)

-- An entry of /proc, with its files `stat` and `status`.
pub record ProcDir : Type 0 where
  pub name : List ℕ
  pub stat : File
  pub status : File

-- One listing of /proc (`none` if it cannot be opened), and /proc/stat before it.
pub record Listing : Type 0 where
  pub stat : File
  pub entries : Option (List ProcDir)

-- `struct utsname`
pub record Utsname : Type 0 where
  pub release : List ℕ
  pub machine : List ℕ

-- `struct statfs`
pub record Statfs : Type 0 where
  pub f_frsize : ℕ
  pub f_bsize : ℕ
  pub f_blocks : ℕ
  pub f_type : ℕ

-- The answers of the system to the calls of one run of a reporting handler; the times are the
-- readings of `now_ms`, in the order of the calls.
pub record Host : Type 0 where
  pub uname : Option Utsname
  -- `none` for -1.
  pub ncpus : Option ℕ
  pub meminfo : File
  pub statfs : Option Statfs
  -- Whether /proc/pressure/cpu opens at the probe, and the file when it is read.
  pub has_pressure : Bool
  pub pressure : File
  pub loadavg : File
  -- /proc/stat at the two ends of the CPU sample, and for the I/O wait.
  pub stat_before : File
  pub stat_after : File
  pub stat_disk : File
  -- `f_blocks` and `f_bfree` of `statvfs`
  pub statvfs : Option (ℕ × ℕ)
  pub net_dev : File
  pub time_check : ℕ
  pub time_disk : ℕ
  pub time_net : ℕ
  pub time_snap : ℕ
  -- The listing of a cold start, and the current one.
  pub listing_before : Listing
  pub listing : Listing

-- `sysconf(_SC_NPROCESSORS_ONLN)`, at least 1.
abbrev pub cpus : Host → ℕ
cpus host = elim host.ncpus [ none ↦ 1 | some n ↦ if n == 0 then 1 else n ]

pub record StatusSnap : Type 0 where
  pub load1_x10 : ℕ
  pub load5_x10 : ℕ
  pub cpu_pct : ℕ
  pub mem_avail_mb : ℕ
  pub root_usage_pct : ℕ
  pub iowait_ms : ℕ
  pub in_mbps : ℕ
  pub out_mbps : ℕ
  pub rpi : ℕ

-- The static variables of sys_status.c; `psi_available` is `none` for -1.
pub record StatusCache : Type 0 where
  pub snap : StatusSnap
  pub snap_time_ms : ℕ
  pub prev_iowait : ℕ
  pub prev_time_ms : ℕ
  pub prev_rx : ℕ
  pub prev_tx : ℕ
  pub prev_net_ms : ℕ
  pub psi_available : Option Bool
  pub ncpus : ℕ

pub record ProcSnap : Type 0 where
  pub pid : ℕ
  pub jiffies : ℕ
  pub mem_pct : ℕ
  pub status_flag : ℕ

-- The static variables of sys_procs.c that a call leaves for the next: `g_prev` up to `g_n_prev`,
-- which is `none` for -1, and `g_total_prev`.
pub record ProcsCache : Type 0 where
  pub prev : Option (List ProcSnap)
  pub total_prev : ℕ
