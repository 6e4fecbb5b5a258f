-- ===== src/Handlers/SysStatus.antt =====
-- The 0x02 SYS_STATUS handler: src/asyd/handlers/sys_status.c.
pub mod Readers
pub mod Net
pub mod Ranges
pub mod Caching
use asys.Base.{
  ℕ, zero, suc, ◌+◌, ◌-◌, ◌*◌, ◌/◌, ◌%◌, ◌^◌, Bool, true, false, ◌||◌, Option, none, some, List, [],
  ◌∷◌, ◌++◌, ltb, leb, ◌==◌, if◌then◌else◌, replicate, put_u16, put_u32,
}
use asys.Reports.{Host, StatusSnap, StatusCache}
use asys.Handlers.SysStatus.Net.{read_net_mbps}
use asys.Handlers.{Io, World, HandlerFn, sw_write, sw_sys_err}
use asys.Handlers.SysStatus.Readers.{
  read_loadavg, read_cpu_pct, read_mem_avail_mb, read_root_usage, read_iowait, read_rpi,
}

abbrev pub status_resp_len : ℕ
status_resp_len = 23

abbrev pub refresh_interval_ms : ℕ
refresh_interval_ms = 500

unfoldable pub refresh_snapshot : Host → StatusCache → StatusCache
unfolding read_loadavg read_cpu_pct read_mem_avail_mb read_root_usage read_iowait read_net_mbps
    read_rpi
refresh_snapshot host cache =
    let (load1, load5) = read_loadavg host.loadavg in
    let (iowait, prev_iowait, prev_time) = read_iowait host cache in
    let (in_mbps, out_mbps, cache') = read_net_mbps host cache in
    let (rpi, psi, ncpus) = read_rpi host load1 cache in
    record {
      snap = record {
        load1_x10 = load1;
        load5_x10 = load5;
        cpu_pct = read_cpu_pct host;
        mem_avail_mb = read_mem_avail_mb host.meminfo;
        root_usage_pct = read_root_usage host.statvfs;
        iowait_ms = iowait;
        in_mbps = in_mbps;
        out_mbps = out_mbps;
        rpi = rpi;
      };
      snap_time_ms = host.time_snap;
      prev_iowait = prev_iowait;
      prev_time_ms = prev_time;
      prev_rx = cache'.rx;
      prev_tx = cache'.tx;
      prev_net_ms = cache'.net_ms;
      psi_available = psi;
      ncpus = ncpus;
    }

-- Whether the snapshot is to be sampled again; the difference is in 64 bits.
unfoldable pub is_stale : ℕ → StatusCache → Bool
is_stale now cache =
    cache.snap_time_ms == 0
    || leb refresh_interval_ms ((now + 2 ^ 64 - cache.snap_time_ms) % 2 ^ 64)

unfoldable pub current : Host → StatusCache → StatusCache
unfolding is_stale refresh_snapshot
current host cache =
    let fresh = refresh_snapshot host cache in
    if is_stale host.time_check cache then fresh else cache

unfoldable pub status_report : StatusSnap → List ℕ
status_report snap =
    snap.load1_x10
    ∷ snap.load5_x10
    ∷ snap.cpu_pct
    ∷ (put_u32 snap.mem_avail_mb
        ++ (snap.root_usage_pct
            ∷ (put_u32 snap.iowait_ms
                ++ (put_u16 snap.in_mbps
                    ++ (put_u16 snap.out_mbps ++ (snap.rpi ∷ 0 ∷ 0 ∷ 0 ∷ 0 ∷ 0x90 ∷ 0x00 ∷ []))))))

unfoldable pub handler_sys_status : HandlerFn
unfolding current status_report
handler_sys_status io w req sz session_id =
    let cache = current io.host w.status in
    if ltb sz status_resp_len then (some (sw_write sw_sys_err), w) else (
      some (status_report cache.snap),
      record { pool = w.pool; status = cache; procs = w.procs; effects = w.effects },
    )
