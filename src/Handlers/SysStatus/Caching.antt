-- ===== src/Handlers/SysStatus/Caching.antt =====
-- How often the SYS_STATUS handler samples the system: src/asyd/handlers/sys_status.c.
use asys.Base.{ℕ, ◌+◌, ◌^◌, ◌≤◌, ◌<◌, ◌≡◌, ◌≢◌, ◌∙◌, refl, ltb, some, false, arith}
use asys.Reports.{StatusCache, Host}
use asys.Handlers.{Reply, Io, World, Request}
use asys.Handlers.SysStatus.{is_stale, current, status_report, handler_sys_status}

is_fresh :
    (now : ℕ) (cache : StatusCache)
    → cache.snap_time_ms ≢ 0
    → cache.snap_time_ms ≤ now
    → now < cache.snap_time_ms + 500
    → now < 2 ^ 64
    → is_stale now cache ≡ false
unfolding is_stale
is_fresh now cache sampled after soon small = ground arith

abbrev with_status : World → StatusCache → World
with_status w cache = record w { status = cache }

reports :
    (io : Io) (w : World) (req : Request) (sz session_id : ℕ)
    → 23 ≤ sz
    → let cache = current io.host w.status in
      handler_sys_status io w req sz session_id
      ≡ (some (status_report cache.snap), with_status w cache)
unfolding handler_sys_status
reports io w req sz sid room = let enough : ltb sz 23 ≡ false = ground arith in rw enough refl

keeps :
    (host : Host) (cache : StatusCache)
    → is_stale host.time_check cache ≡ false
    → current host cache ≡ cache
unfolding current
keeps host cache fresh = rw fresh refl

reports_again :
    (io : Io) (w : World) (cache : StatusCache) (out : Reply × World) (req : Request)
    (sz session_id : ℕ)
    → 23 ≤ sz
    → out ≡ (some (status_report cache.snap), with_status w cache)
    → is_stale io.host.time_check out.1.status ≡ false
    → handler_sys_status io out.1 req sz session_id ≡ out
reports_again io w cache out req sz sid room e fresh =
    let kept = keeps io.host out.1.status fresh in
    reports io out.1 req sz sid room ∙ rw kept (rw e refl)

-- After a request that was answered, with the time of the snapshot not 0 and clocks that count less
-- than 2^64 milliseconds: any later request less than 500 ms after the snapshot was taken gets the
-- same bytes, whatever the system's files contain by then, and changes nothing.
pub status_repeats :
    (io io' : Io) (w : World) (req req' : Request) (sz sz' session_id session_id' : ℕ)
    → 23 ≤ sz
    → 23 ≤ sz'
    → (handler_sys_status io w req sz session_id).1.status.snap_time_ms ≢ 0
    → (handler_sys_status io w req sz session_id).1.status.snap_time_ms ≤ io'.host.time_check
    → io'.host.time_check < (handler_sys_status io w req sz session_id).1.status.snap_time_ms + 500
    → io'.host.time_check < 2 ^ 64
    → handler_sys_status io' (handler_sys_status io w req sz session_id).1 req' sz' session_id'
      ≡ handler_sys_status io w req sz session_id
status_repeats io io' w req req' sz sz' sid sid' room room' sampled after soon small =
    let out = handler_sys_status io w req sz sid in
    reports_again io' w (current io.host w.status) out req' sz' sid' room'
      (reports io w req sz sid room)
      (is_fresh io'.host.time_check out.1.status sampled after soon small)
