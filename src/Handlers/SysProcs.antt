-- ===== src/Handlers/SysProcs.antt =====
-- The 0x03 SYS_PROCS handler: src/asyd/handlers/sys_procs.c.
pub mod Proc
pub mod Top
pub mod Ranking
use asys.Base.{
  ℕ, zero, suc, ◌+◌, ◌-◌, ◌*◌, ◌/◌, ◌%◌, ◌^◌, Bool, true, false, not, ◌&&◌, ◌||◌, Option, none,
  some, List, [], ◌∷◌, ◌++◌, ltb, leb, ◌==◌, if◌then◌else◌, length, replicate, put_u16, put_u32,
}
use asys.Reports.{Host, ProcSnap, ProcsCache, cpus}
use asys.Handlers.{Io, World, Request, Reply, HandlerFn, sw_write, sw_sys_err}
use asys.Handlers.SysProcs.Proc.{ProcScan, read_mem_total_kb, scan_proc}
use asys.Handlers.SysProcs.Top.{ProcInfo, top_n, top_of}

abbrev pub procs_resp_len : ℕ
procs_resp_len = 44

abbrev pub slot_size : ℕ
slot_size = 8

-- A share of the processors in hundredths of a percent, in 64 bits.
unfoldable pub cpu_x100 : (ncpus total_delta delta : ℕ) → ℕ
cpu_x100 ncpus total_delta delta =
    let share = delta * 10000 * ncpus % 2 ^ 64 / total_delta in
    let most = 10000 * ncpus % 2 ^ 64 in
    let capped = (if ltb most share then most else share) in
    if ltb 0xFFFF capped then 0xFFFF else capped

unfoldable pub slots : (room ncpus total_delta : ℕ) → List ProcInfo → List ℕ
unfolding cpu_x100
slots zero ncpus total_delta top = []
slots (suc room) ncpus total_delta [] = replicate slot_size 0 ++ slots room ncpus total_delta []
slots (suc room) ncpus total_delta (p ∷ top) =
    let slot =
      put_u32 p.pid
      ++ (put_u16 (cpu_x100 ncpus total_delta p.delta) ++ (p.mem_pct ∷ p.status_flag ∷ [])) in
    (if p.pid == 0 then replicate slot_size 0 else slot) ++ slots room ncpus total_delta top

abbrev pub total_since : ℕ → ℕ → ℕ
total_since prev curr =
    let delta = (curr + 2 ^ 64 - prev) % 2 ^ 64 in if delta == 0 then 1 else delta

-- `g_n_prev == 0`
abbrev starts_cold : ProcsCache → Bool
starts_cold cache = elim cache.prev [ none ↦ false | some [] ↦ true | some (snap ∷ snaps) ↦ false ]

-- The snapshot to compare with: on a cold start, one taken now.
unfoldable pub warm_up : ℕ → Host → ProcsCache → ProcsCache
unfolding scan_proc
warm_up mem_total_kb host cache =
    let t1 = scan_proc mem_total_kb host.listing_before in
    if starts_cold cache then record { prev = t1.snaps; total_prev = t1.total } else cache

-- `g_n_prev < 0`
abbrev pub has_failed : ProcsCache → Bool
has_failed cache = elim cache.prev [ none ↦ true | some _ ↦ false ]

abbrev pub snaps_of : Option (List ProcSnap) → List ProcSnap
snaps_of none = []
snaps_of (some snaps) = snaps

abbrev with_procs : World → ProcsCache → World
with_procs w cache = record { pool = w.pool; status = w.status; procs = cache; effects = w.effects }

-- The reply for the previous snapshot and the current one.
unfoldable pub procs_report : (ncpus total_procs : ℕ) → ProcsCache → ProcsCache → List ℕ
unfolding top_of slots
procs_report ncpus total_procs prev curr =
    let top = top_of (snaps_of curr.prev) [] (snaps_of prev.prev) in
    put_u16 total_procs
    ++ (slots top_n ncpus (total_since prev.total_prev curr.total_prev) top ++ (0x90 ∷ 0x00 ∷ []))

unfoldable pub handler_sys_procs : HandlerFn
unfolding read_mem_total_kb warm_up scan_proc procs_report
handler_sys_procs io w req sz session_id =
    let mem_total_kb = read_mem_total_kb io.host.meminfo in
    let prev = warm_up mem_total_kb io.host w.procs in
    let t2 = scan_proc mem_total_kb io.host.listing in
    let curr : ProcsCache = record { prev = t2.snaps; total_prev = t2.total } in
    if ltb sz procs_resp_len
    then (some (sw_write sw_sys_err), w)
    else if (starts_cold w.procs && has_failed prev) || has_failed curr
    then (some (sw_write sw_sys_err), with_procs w prev)
    else (some (procs_report (cpus io.host) t2.total_procs prev curr), with_procs w curr)
