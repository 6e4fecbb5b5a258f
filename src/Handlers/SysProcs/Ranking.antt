-- ===== src/Handlers/SysProcs/Ranking.antt =====
-- The order of the processes that the SYS_PROCS handler reports: `insert_top` of
-- src/asyd/handlers/sys_procs.c against a sort of the whole list.
use asys.Base.{◌≤◌, Option, none, some, List, [], ◌∷◌, ltb, if◌then◌else◌, All}
use mathlib.Core.List.{Perm}
use mathlib.Core.List.Perm
use asys.Reports.{ProcSnap}
use asys.Handlers.SysProcs.Top.{ProcInfo, delta_of}

-- The process goes before the first that used less time.
insert_desc : List ProcInfo → ProcInfo → List ProcInfo
insert_desc [] p = p ∷ []
insert_desc (q ∷ l) p =
    let rest = insert_desc l p in if ltb q.delta p.delta then p ∷ q ∷ l else q ∷ rest

unfoldable pub insert_all : List ProcInfo → List ProcInfo → List ProcInfo
unfolding insert_desc
insert_all sorted [] = sorted
insert_all sorted (p ∷ ps) = insert_all (insert_desc sorted p) ps

abbrev cons_some : Option ProcInfo → List ProcInfo → List ProcInfo
cons_some none ps = ps
cons_some (some p) ps = p ∷ ps

-- The processes of the previous snapshot that are compared.
unfoldable pub compared : List ProcSnap → List ProcSnap → List ProcInfo
compared curr [] = []
compared curr (prev ∷ prevs) = cons_some (delta_of curr prev) (compared curr prevs)

-- All of them, the busiest first.
unfoldable pub ranking : List ProcSnap → List ProcSnap → List ProcInfo
ranking curr prevs = insert_all [] (compared curr prevs)

pub IsDescending : List ProcInfo → Type 0
IsDescending [] = Unit
IsDescending (p ∷ ps) = All (λ q. q.delta ≤ p.delta) ps × IsDescending ps
