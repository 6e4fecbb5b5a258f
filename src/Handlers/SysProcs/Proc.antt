-- ===== src/Handlers/SysProcs/Proc.antt =====
-- The readers of /proc of src/asyd/handlers/sys_procs.c, up to `scan_proc`.
use asys.Base.{
  ℕ, zero, suc, ◌+◌, ◌-◌, ◌*◌, ◌/◌, ◌%◌, ◌^◌, Bool, true, false, not, ◌||◌, Option, none, some,
  List, [], ◌∷◌, ◌++◌, ltb, ◌==◌, if◌then◌else◌, length, codes,
}
use asys.Scan.{
  white, number, lits, Value, num, scan, skip_white, is_digit, scan_number, scan_digits, fgets,
  c_string,
}
use asys.Reports.{File, ProcDir, Listing, ProcSnap}
use asys.Reports.Files.{stat_format, find_kb}

abbrev pub max_procs_scan : ℕ
max_procs_scan = 512

abbrev sum_of_eight : List Value → ℕ
sum_of_eight (num u ∷ num n ∷ num s ∷ num i ∷ num w ∷ num x ∷ num y ∷ num z ∷ []) =
    (u + n + s + i + w + x + y + z) % 2 ^ 64
sum_of_eight _ = 1

unfoldable pub read_total_jiffies : File → ℕ
unfolding scan
read_total_jiffies none = 1
read_total_jiffies (some file) = sum_of_eight (scan stat_format file).0

unfoldable pub read_mem_total_kb : File → ℕ
unfolding find_kb
read_mem_total_kb none = 1
read_mem_total_kb (some file) = elim (find_kb (length file + 1) (codes "MemTotal:") file) [
  | none ↦ 1
  | some val ↦ if val == 0 then 1 else val
]

-- What follows the last ')' of a string, if there is one.
unfoldable pub after_last_paren : List ℕ → Option (List ℕ)
after_last_paren [] = none
after_last_paren (c ∷ s) = elim (after_last_paren s) [
  | some rest ↦ some rest
  | none ↦ if c == b')' then some s else none
]

abbrev skip_spaces : List ℕ → List ℕ
skip_spaces [] = []
skip_spaces (c ∷ s) = if c == b' ' then skip_spaces s else c ∷ s

abbrev skip_field : List ℕ → List ℕ
skip_field [] = []
skip_field (c ∷ s) = if c == b' ' then c ∷ s else skip_field s

-- The loop over the fields before `utime`.
unfoldable pub skip_numbers : ℕ → List ℕ → Option (List ℕ)
unfolding scan_number skip_white
skip_numbers zero s = some s
skip_numbers (suc n) s =
    let rest = skip_numbers n (skip_field (skip_spaces s)) in
    elim (scan_number 64 (skip_white s)) [ none ↦ none | some _ ↦ rest ]

abbrev two_times : List Value → Option ℕ
two_times (num utime ∷ num stime ∷ []) = some ((utime + stime) % 2 ^ 64)
two_times _ = none

-- The state character and `utime + stime`, from the string after the name. At its end the C code
-- takes the terminator for the state and scans what lies behind it in the buffer; here the numbers
-- are missing then.
state_and_times : List ℕ → Option (ℕ × ℕ)
unfolding skip_numbers scan
state_and_times [] = none
state_and_times (state ∷ s) = elim (skip_numbers 10 s) [
  | none ↦ none
  | some rest ↦ elim (two_times (scan (white ∷ number 64 ∷ white ∷ number 64 ∷ []) rest).0) [
    | none ↦ none
    | some jiffies ↦ some (state, jiffies)
  ]
]

unfoldable pub parse_proc_stat : File → Option (ℕ × ℕ)
unfolding after_last_paren state_and_times
parse_proc_stat none = none
parse_proc_stat (some file) = elim (after_last_paren (c_string (fgets 511 file).0)) [
  | none ↦ none
  | some rest ↦ state_and_times (skip_spaces rest)
]

-- What the loop of `parse_proc_status` has read; `none` is a value not read.
pub record ProcStatus : Type 0 where
  pub uid : Option ℕ
  pub vmrss_kb : Option ℕ

abbrev first_number : List Value → Option ℕ
first_number (num n ∷ vs) = some n
first_number _ = none

abbrev keep_or : Option ℕ → Option ℕ → Option ℕ
keep_or old (some n) = some n
keep_or old none = old

note_line : List ℕ → ProcStatus → ProcStatus
unfolding scan
note_line line got = record {
  uid = keep_or got.uid (first_number (scan (lits "Uid:" ++ (white ∷ number 32 ∷ [])) line).0);
  vmrss_kb =
      keep_or got.vmrss_kb (first_number (scan (lits "VmRSS:" ++ (white ∷ number 64 ∷ [])) line).0);
}

abbrev is_complete : ProcStatus → Bool
is_complete got = elim got.uid [
  | none ↦ false
  | some _ ↦ elim got.vmrss_kb [ none ↦ false | some _ ↦ true ]
]

-- The loop over the lines. Each takes a byte at least, so the file's length is fuel enough.
unfoldable pub status_lines : (fuel : ℕ) → ProcStatus → List ℕ → ProcStatus
unfolding note_line fgets
status_lines zero got file = got
status_lines (suc fuel) got file =
    let (line, rest) = fgets 255 file in
    let got' = note_line (c_string line) got in
    let later = status_lines fuel got' rest in
    if length line == 0 then got else if is_complete got' then got' else later

-- Whether the process is root's, and `VmRSS`; without a file, neither.
unfoldable pub parse_proc_status : File → Bool × ℕ
unfolding status_lines
parse_proc_status none = (false, 0)
parse_proc_status (some file) =
    let got = status_lines (length file + 1) (record { uid = none; vmrss_kb = none }) file in
    (
      elim got.uid [ none ↦ false | some uid ↦ uid == 0 ],
      elim got.vmrss_kb [ none ↦ 0 | some kb ↦ kb ],
    )

unfoldable pub mem_percent : ℕ → ℕ → ℕ
mem_percent vmrss_kb mem_total_kb =
    let mp = vmrss_kb * 100 % 2 ^ 64 / mem_total_kb in
    if vmrss_kb == 0 || mem_total_kb == 0 then 0 else if ltb 255 mp then 255 else mp

unfoldable pub status_flags : ℕ → Bool → ℕ
status_flags state privileged =
    (if state == b'Z' then 0x01 else if state == b'D' then 0x02 else 0)
    + (if privileged then 0x04 else 0)

-- `(uint32_t)atoi(name)`, or `none` for a name that does not start with a digit or is 0.
unfoldable pub entry_pid : List ℕ → Option ℕ
unfolding scan_digits
entry_pid [] = none
entry_pid (c ∷ name) =
    let pid = (scan_digits 0 (c ∷ name)).0 % 2 ^ 32 in
    if not (is_digit c) then none else if pid == 0 then none else some pid

-- The process of an entry, if its `stat` can be read.
unfoldable pub snap_of : ℕ → ProcDir → ℕ → Option ProcSnap
unfolding parse_proc_stat parse_proc_status mem_percent status_flags
snap_of mem_total_kb dir pid = elim (parse_proc_stat dir.stat) [
  | none ↦ none
  | some (state, jiffies) ↦
      let (privileged, vmrss_kb) = parse_proc_status dir.status in
      some (record {
        pid = pid;
        jiffies = jiffies;
        mem_pct = mem_percent vmrss_kb mem_total_kb;
        status_flag = status_flags state privileged;
      })
]

-- The loop over the directory with room for so many more processes: their number, modulo 2^16 in
-- the end, and the processes stored.
unfoldable pub scan_entries : ℕ → ℕ → List ProcDir → ℕ × List ProcSnap
unfolding entry_pid snap_of
scan_entries mem_total_kb room [] = (0, [])
scan_entries mem_total_kb room (dir ∷ dirs) =
    let (same, left) = scan_entries mem_total_kb room dirs in
    let (less, tail) = scan_entries mem_total_kb (room - 1) dirs in
    elim (entry_pid dir.name) [
      | none ↦ (same, left)
      | some pid ↦ if room == 0 then (same + 1, left) else elim (snap_of mem_total_kb dir pid) [
        | none ↦ (same + 1, left)
        | some snap ↦ (less + 1, snap ∷ tail)
      ]
    ]

-- The result of `scan_proc`: the jiffies of the whole system, the number of processes, and the
-- processes stored, `none` for -1.
pub record ProcScan : Type 0 where
  pub total : ℕ
  pub total_procs : ℕ
  pub snaps : Option (List ProcSnap)

unfoldable pub scan_proc : ℕ → Listing → ProcScan
unfolding read_total_jiffies scan_entries
scan_proc mem_total_kb seen = elim seen.entries [
  | none ↦ record { total = read_total_jiffies seen.stat; total_procs = 0; snaps = none }
  | some dirs ↦
      let (procs, snaps) = scan_entries mem_total_kb max_procs_scan dirs in
      record {
        total = read_total_jiffies seen.stat;
        total_procs = procs % 2 ^ 16;
        snaps = some snaps;
      }
]
