-- ===== src/Handlers/SysStatus/Readers.antt =====
-- The readers of /proc of src/asyd/handlers/sys_status.c, but for /proc/net/dev.
--
-- The static variables of a function are fields of the cache, read and given back.
use asys.Base.{
  ℕ, ◌+◌, ◌-◌, ◌*◌, ◌/◌, ◌%◌, ◌^◌, Bool, Option, none, some, List, [], ◌∷◌, ◌++◌, ltb, leb, ◌==◌,
  if◌then◌else◌, length, codes,
}
use asys.Scan.{Directive, lit, white, number, lits, Value, num, scan}
use asys.Reports.{File, Host, StatusCache, cpus}
use asys.Reports.Files.{stat_format, find_kb}

-- "%u.%u %u.%u"
abbrev pub loadavg_format : List Directive
loadavg_format = number 32 ∷ lit b'.' ∷ number 32 ∷ white ∷ number 32 ∷ lit b'.' ∷ number 32 ∷ []

-- `(uint8_t)(l_int * 10 + l_frac / 10)`, in 32 bits before the cast.
unfoldable pub load_x10 : (int frac : ℕ) → ℕ
load_x10 int frac = (int * 10 + frac / 10) % 2 ^ 32 % 2 ^ 8

unfoldable pub four_numbers : List Value → Option (ℕ × ℕ × ℕ × ℕ)
four_numbers (num a ∷ num b ∷ num c ∷ num d ∷ []) = some (a, b, c, d)
four_numbers _ = none

unfoldable pub loads : Option (ℕ × ℕ × ℕ × ℕ) → ℕ × ℕ
unfolding load_x10
loads none = (0, 0)
loads (some (i1, f1, i5, f5)) = (load_x10 i1 f1, load_x10 i5 f5)

unfoldable pub read_loadavg : File → ℕ × ℕ
unfolding loads four_numbers scan
read_loadavg none = (0, 0)
read_loadavg (some file) = loads (four_numbers (scan loadavg_format file).0)

-- The eight times of /proc/stat.
pub record CpuTimes : Type 0 where
  pub user : ℕ
  pub nice : ℕ
  pub system : ℕ
  pub idle : ℕ
  pub iowait : ℕ
  pub irq : ℕ
  pub softirq : ℕ
  pub steal : ℕ

unfoldable pub cpu_times : List Value → Option CpuTimes
cpu_times (num u ∷ num n ∷ num s ∷ num i ∷ num w ∷ num x ∷ num y ∷ num z ∷ []) = some (record {
  user = u;
  nice = n;
  system = s;
  idle = i;
  iowait = w;
  irq = x;
  softirq = y;
  steal = z;
})
cpu_times _ = none

read_times : File → Option CpuTimes
unfolding cpu_times scan
read_times none = none
read_times (some file) = cpu_times (scan stat_format file).0

-- A difference in 64 bits.
abbrev minus64 : ℕ → ℕ → ℕ
minus64 a b = (a + 2 ^ 64 - b % 2 ^ 64) % 2 ^ 64

unfoldable pub cpu_pct_of : CpuTimes → CpuTimes → ℕ
cpu_pct_of a b =
    let idle = (minus64 b.idle a.idle + minus64 b.iowait a.iowait) % 2 ^ 64 in
    let total =
      (minus64 b.user a.user
        + minus64 b.nice a.nice
        + minus64 b.system a.system
        + minus64 b.idle a.idle
        + minus64 b.iowait a.iowait
        + minus64 b.irq a.irq
        + minus64 b.softirq a.softirq
        + minus64 b.steal a.steal)
      % 2 ^ 64 in
    if total == 0 then 0 else 100 * minus64 total idle % 2 ^ 64 / total % 2 ^ 8

unfoldable pub read_cpu_pct : Host → ℕ
unfolding read_times cpu_pct_of
read_cpu_pct host = elim (read_times host.stat_before) [
  | none ↦ 0
  | some a ↦ elim (read_times host.stat_after) [ none ↦ 0 | some b ↦ cpu_pct_of a b ]
]

unfoldable pub read_mem_avail_mb : File → ℕ
unfolding find_kb
read_mem_avail_mb none = 0
read_mem_avail_mb (some file) = elim (find_kb (length file + 1) (codes "MemAvailable:") file) [
  | none ↦ 0
  | some val ↦ val / 1024 % 2 ^ 32
]

-- The used share of the root partition, the first half of `read_root_disk`.
unfoldable pub read_root_usage : Option (ℕ × ℕ) → ℕ
read_root_usage none = 0
read_root_usage (some (f_blocks, f_bfree)) =
    if f_blocks == 0 then 0 else minus64 f_blocks f_bfree * 100 % 2 ^ 64 / f_blocks % 2 ^ 8

-- The milliseconds of I/O wait since the last reading, at most the time since then.
unfoldable pub iowait_since : (prev now prev_time time : ℕ) → ℕ
iowait_since prev now prev_time time =
    let delta_iow = (if leb prev now then now - prev else 0) in
    let delta_ms = (if ltb prev_time time then time - prev_time else 1) in
    let ms = delta_iow * 1000 % 2 ^ 64 / 100 % 2 ^ 32 in
    if ltb delta_ms ms then delta_ms % 2 ^ 32 else ms

-- The second half: the I/O wait, `prev_iowait` and `prev_time_ms`.
unfoldable pub read_iowait : Host → StatusCache → ℕ × ℕ × ℕ
unfolding read_times iowait_since
read_iowait host cache = elim (read_times host.stat_disk) [
  | none ↦ (0, cache.prev_iowait, cache.prev_time_ms)
  | some t ↦ (
    iowait_since cache.prev_iowait t.iowait cache.prev_time_ms host.time_disk,
    t.iowait,
    host.time_disk,
  )
]

-- "some avg10=%u.%u"
abbrev pub pressure_format : List Directive
pressure_format =
    lits "some" ++ (white ∷ (lits "avg10=" ++ (number 32 ∷ lit b'.' ∷ number 32 ∷ [])))

unfoldable pub two_numbers : List Value → Option (ℕ × ℕ)
two_numbers (num a ∷ num b ∷ []) = some (a, b)
two_numbers _ = none

unfoldable pub pressure_pct : Option (ℕ × ℕ) → ℕ
pressure_pct none = 0
pressure_pct (some (int, frac)) = if ltb 100 int then 100 else int

unfoldable pub load_pct : (load1_x10 ncpus : ℕ) → ℕ
load_pct load1_x10 ncpus =
    let rpi = load1_x10 * 10 / (ncpus % 2 ^ 32) in if ltb 100 rpi then 100 else rpi

-- `psi_available` and `ncpus`, found out by the first call.
abbrev pub probed : Host → StatusCache → Bool × ℕ
probed host cache = elim cache.psi_available [
  | none ↦ (host.has_pressure, cpus host)
  | some known ↦ (known, cache.ncpus)
]

abbrev pub pressure_or : ℕ → File → ℕ
pressure_or fallback none = fallback
pressure_or fallback (some file) = pressure_pct (two_numbers (scan pressure_format file).0)

-- The index, `psi_available` and `ncpus`.
unfoldable pub read_rpi : Host → ℕ → StatusCache → ℕ × Option Bool × ℕ
unfolding scan two_numbers pressure_pct load_pct
read_rpi host load1_x10 cache =
    let (available, ncpus) = probed host cache in
    let fallback = load_pct load1_x10 ncpus in
    (if available then pressure_or fallback host.pressure else fallback, some available, ncpus)
