-- ===== src/Handlers/SysProcs/Top.antt =====
-- The five busiest processes: `insert_top` and the loop over the previous snapshot of
-- src/asyd/handlers/sys_procs.c.
--
-- `top` holds the first `*count` entries of the array.
use asys.Base.{
  ℕ, suc, ◌-◌, Option, none, some, List, [], ◌∷◌, ◌++◌, ltb, leb, ◌==◌, if◌then◌else◌, take, drop,
}
use asys.Reports.{ProcSnap}

abbrev pub top_n : ℕ
top_n = 5

pub record ProcInfo : Type 0 where
  pub pid : ℕ
  pub delta : ℕ
  pub mem_pct : ℕ
  pub status_flag : ℕ

-- The loop that finds the place.
unfoldable pub top_pos : ℕ → List ProcInfo → ℕ
top_pos delta [] = 0
top_pos delta (q ∷ top) = if ltb q.delta delta then 0 else suc (top_pos delta top)

-- The entries from `pos` on move up by one, the last of five falls out.
unfoldable pub insert_top : List ProcInfo → ProcInfo → List ProcInfo
unfolding top_pos
insert_top top p =
    let pos = top_pos p.delta top in
    if leb top_n pos then top else take top_n (take pos top ++ (p ∷ drop pos top))

-- The first process with that number.
unfoldable pub find_pid : ℕ → List ProcSnap → Option ProcSnap
find_pid pid [] = none
find_pid pid (snap ∷ snaps) =
    let later = find_pid pid snaps in if snap.pid == pid then some snap else later

-- What is compared of a process of the previous snapshot.
unfoldable pub delta_of : List ProcSnap → ProcSnap → Option ProcInfo
unfolding find_pid
delta_of curr prev = elim (find_pid prev.pid curr) [
  | none ↦ none
  | some now ↦
      if now.jiffies == 0
      then none
      else some (record {
        pid = prev.pid;
        delta = if leb prev.jiffies now.jiffies then now.jiffies - prev.jiffies else 0;
        mem_pct = now.mem_pct;
        status_flag = now.status_flag;
      })
]

abbrev pub insert_some : List ProcInfo → Option ProcInfo → List ProcInfo
insert_some top none = top
insert_some top (some p) = insert_top top p

-- The loop over the previous snapshot.
unfoldable pub top_of : List ProcSnap → List ProcInfo → List ProcSnap → List ProcInfo
unfolding insert_top delta_of
top_of curr top [] = top
top_of curr top (prev ∷ prevs) = top_of curr (insert_some top (delta_of curr prev)) prevs
