-- ===== src/Handlers/SysStatus/Ranges.antt =====
-- The values of the SYS_STATUS report and their bytes: src/asyd/handlers/sys_status.c.
use asys.Base.{
  length, get_or, get_u16, get_u32, drop, refl, ℕ, ◌^◌, ◌≤◌, ◌<◌, ◌≡◌, false, Option, none, some,
  List, [], ◌∷◌, ltb, Bool-cases, Option-cases, inl, inr, arith,
}
use asys.Scan.{scan}
use asys.Reports.{File, Host, StatusSnap, StatusCache}
use asys.Handlers.{Io, World, Request}
use asys.Handlers.SysStatus.{refresh_snapshot, is_stale, current, status_report, handler_sys_status}
use asys.Handlers.SysStatus.Net.{read_net_mbps, rate, mbps}
use asys.Handlers.SysStatus.Readers.{
  load_x10, loads, four_numbers, two_numbers, loadavg_format, pressure_format, pressure_or, probed,
  read_loadavg, read_cpu_pct, cpu_pct_of, read_mem_avail_mb, read_root_usage, read_iowait,
  iowait_since, pressure_pct, load_pct, read_rpi,
}

-- Every value fits its field, and the index is a percentage.
pub record IsSnap (s : StatusSnap) : Type 0 where
  pub load1 : s.load1_x10 < 256
  pub load5 : s.load5_x10 < 256
  pub cpu : s.cpu_pct < 256
  pub mem : s.mem_avail_mb < 2 ^ 32
  pub disk : s.root_usage_pct < 256
  pub iowait : s.iowait_ms < 2 ^ 32
  pub net_in : s.in_mbps < 65536
  pub net_out : s.out_mbps < 65536
  pub pressure : s.rpi ≤ 100

load_x10_small : (int frac : ℕ) → load_x10 int frac < 256
unfolding load_x10
load_x10_small int frac = omega arith

loads_small : (o : Option (ℕ × ℕ × ℕ × ℕ)) → ((loads o).0 < 256) × ((loads o).1 < 256)
unfolding loads
loads_small none = (omega arith, omega arith)
loads_small (some (i1, f1, i5, f5)) = (load_x10_small i1 f1, load_x10_small i5 f5)

loadavg_small : (file : File) → ((read_loadavg file).0 < 256) × ((read_loadavg file).1 < 256)
unfolding read_loadavg
loadavg_small none = (omega arith, omega arith)
loadavg_small (some file) = loads_small (four_numbers (scan loadavg_format file).0)

cpu_small : (host : Host) → read_cpu_pct host < 256
unfolding read_cpu_pct cpu_pct_of
cpu_small host = ground arith

mem_small : (file : File) → read_mem_avail_mb file < 2 ^ 32
unfolding read_mem_avail_mb
mem_small file = ground arith

usage_small : (answer : Option (ℕ × ℕ)) → read_root_usage answer < 256
unfolding read_root_usage
usage_small answer = ground arith

iowait_small : (host : Host) (cache : StatusCache) → (read_iowait host cache).0 < 2 ^ 32
unfolding read_iowait iowait_since
iowait_small host cache = ground arith

rate_small : (a b prev now : ℕ) → rate a b prev now < 65536
unfolding rate mbps
rate_small a b prev now = ground arith

net_small :
    (host : Host) (cache : StatusCache)
    → ((read_net_mbps host cache).0 < 65536) × ((read_net_mbps host cache).1 < 65536)
unfolding read_net_mbps
net_small host cache = elim (Option-cases host.net_dev) [
  | inl e ↦ rw e (omega arith, omega arith)
  | inr (file, e) ↦ rw e (search rate_small, search rate_small)
]

pressure_small : (o : Option (ℕ × ℕ)) → pressure_pct o ≤ 100
unfolding pressure_pct
pressure_small o = ground arith

load_pct_small : (load ncpus : ℕ) → load_pct load ncpus ≤ 100
unfolding load_pct
load_pct_small load ncpus = ground arith

pressure_or_small : (fallback : ℕ) (file : File) → fallback ≤ 100 → pressure_or fallback file ≤ 100
pressure_or_small fallback none h = h
pressure_or_small fallback (some file) h =
    pressure_small (two_numbers (scan pressure_format file).0)

rpi_small : (host : Host) (load : ℕ) (cache : StatusCache) → (read_rpi host load cache).0 ≤ 100
unfolding read_rpi
rpi_small host load cache =
    let (available, ncpus) = probed host cache in
    let low = load_pct_small load ncpus in
    ground (arith, low, pressure_or_small (load_pct load ncpus) host.pressure low)

refresh_snapshot-IsSnap :
    (host : Host) (cache : StatusCache) → IsSnap (refresh_snapshot host cache).snap
unfolding refresh_snapshot
refresh_snapshot-IsSnap host cache = record {
  load1 = (loadavg_small host.loadavg).0;
  load5 = (loadavg_small host.loadavg).1;
  cpu = cpu_small host;
  mem = mem_small host.meminfo;
  disk = usage_small host.statvfs;
  iowait = iowait_small host cache;
  net_in = (net_small host cache).0;
  net_out = (net_small host cache).1;
  pressure = rpi_small host (read_loadavg host.loadavg).0 cache;
}

current-IsSnap :
    (host : Host) (cache : StatusCache) → IsSnap cache.snap → IsSnap (current host cache).snap
unfolding current
current-IsSnap host cache v = elim (Bool-cases (is_stale host.time_check cache)) [
  | inl e ↦ rw e (refresh_snapshot-IsSnap host cache)
  | inr e ↦ rw e v
]

-- The reply as the specification lays it out.
abbrev pub LaidOut : StatusSnap → List ℕ → Type 0
LaidOut s r =
    (length r ≡ 23)
    × (get_or r 0 0 ≡ s.load1_x10)
    × (get_or r 1 0 ≡ s.load5_x10)
    × (get_or r 2 0 ≡ s.cpu_pct)
    × (get_u32 (get_or r 3 0) (get_or r 4 0) (get_or r 5 0) (get_or r 6 0) ≡ s.mem_avail_mb)
    × (get_or r 7 0 ≡ s.root_usage_pct)
    × (get_u32 (get_or r 8 0) (get_or r 9 0) (get_or r 10 0) (get_or r 11 0) ≡ s.iowait_ms)
    × (get_u16 (get_or r 12 0) (get_or r 13 0) ≡ s.in_mbps)
    × (get_u16 (get_or r 14 0) (get_or r 15 0) ≡ s.out_mbps)
    × (get_or r 16 0 ≡ s.rpi)
    × (drop 17 r ≡ 0 ∷ 0 ∷ 0 ∷ 0 ∷ 0x90 ∷ 0x00 ∷ [])

status_report_layout : (s : StatusSnap) → IsSnap s → LaidOut s (status_report s)
unfolding status_report
status_report_layout s v = (
  refl,
  refl,
  refl,
  refl,
  omega (arith, v.mem),
  refl,
  omega (arith, v.iowait),
  omega (arith, v.net_in),
  omega (arith, v.net_out),
  refl,
  refl,
)

-- If the snapshot that is kept has values that fit their fields and an index of at most 100, then
-- so it has after a request, whatever the files of /proc contain; and a buffer of 23 bytes or more
-- gets the 23 bytes of the specification's layout, from which each value is read back unchanged.
pub handler_sys_status-LaidOut :
    (io : Io) (w : World) (req : Request) (sz session_id : ℕ)
    → 23 ≤ sz
    → IsSnap w.status.snap
    → let (reply, w') = handler_sys_status io w req sz session_id in
      IsSnap w'.status.snap
      × ((bytes : List ℕ) × (reply ≡ some bytes) × LaidOut w'.status.snap bytes)
unfolding handler_sys_status
handler_sys_status-LaidOut io w req sz session_id room v =
    let enough : ltb sz 23 ≡ false = ground arith in
    let v' = current-IsSnap io.host w.status v in
    let s = (current io.host w.status).snap in
    rw enough (v', (status_report s, refl, status_report_layout s v'))
