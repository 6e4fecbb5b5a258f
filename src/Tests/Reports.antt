-- ===== src/Tests/Reports.antt =====
-- Examples for the reporting handlers: src/asyd/handlers/sys_status.c and sys_procs.c.
use asys.Base.{ℕ, ◌≡◌, refl, some, List, [], ◌∷◌, codes, arith}
use asys.Reports.{ProcSnap}
use asys.Handlers.{Io}
use asys.Handlers.SysStatus.{handler_sys_status, current, is_stale, refresh_snapshot}
use asys.Handlers.SysStatus.Ranges.{IsSnap, LaidOut, handler_sys_status-LaidOut}
use asys.Handlers.SysStatus.Caching.{status_repeats}
use asys.Apdu.Codec.{frame_of}
use asys.Dispatcher.Locality.{request}
use asys.Startup.Main.{never_sampled}
use asys.Tests.Frames.{query}
use asys.Tests.Requests.{io, world}

abbrev proc : ℕ → ℕ → ProcSnap
proc pid jiffies = record { pid = pid; jiffies = jiffies; mem_pct = 1; status_flag = 0 }

abbrev before : List ProcSnap
before = proc 1 10 ∷ proc 2 5 ∷ proc 3 7 ∷ proc 4 1 ∷ proc 5 1 ∷ proc 6 1 ∷ proc 7 0 ∷ []

abbrev now : List ProcSnap
now = proc 7 9 ∷ proc 6 2 ∷ proc 5 3 ∷ proc 4 1 ∷ proc 2 50 ∷ proc 1 11 ∷ []

never_sampled-IsSnap : IsSnap never_sampled.snap
never_sampled-IsSnap = record {
  load1 = omega arith;
  load5 = omega arith;
  cpu = omega arith;
  mem = omega arith;
  disk = omega arith;
  iowait = omega arith;
  net_in = omega arith;
  net_out = omega arith;
  pressure = omega arith;
}

handler_sys_status-LaidOut_example :
    let (reply, w) = handler_sys_status io world (request [] (frame_of query)) 256 5 in
    IsSnap w.status.snap × ((bytes : List ℕ) × (reply ≡ some bytes) × LaidOut w.status.snap bytes)
handler_sys_status-LaidOut_example =
    handler_sys_status-LaidOut io world (request [] (frame_of query)) 256 5 (omega arith)
      never_sampled-IsSnap

-- 300 ms later, with a load average that was not read.
abbrev later : Io
later = record io { host = record io.host { time_check = 450; loadavg = some (codes "3.10 2.00") } }

sampled_at :
    (handler_sys_status io world (request [] (frame_of query)) 256 5).1.status.snap_time_ms ≡ 150
unfolding handler_sys_status current is_stale refresh_snapshot
sampled_at = refl

status_repeats_example :
    handler_sys_status later
      (handler_sys_status io world (request [] (frame_of query)) 256 5).1
      (request [] (frame_of query))
      256
      5
    ≡ handler_sys_status io world (request [] (frame_of query)) 256 5
status_repeats_example =
    status_repeats io later world (request [] (frame_of query)) (request [] (frame_of query)) 256
      256 5 5 (omega arith) (omega arith) (λ e. omega (arith, sampled_at, e))
      (omega (arith, sampled_at)) (omega (arith, sampled_at)) (omega arith)
