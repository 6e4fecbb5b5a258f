-- ===== src/Reports/Files.antt =====
-- The formats of /proc/stat and /proc/meminfo that src/asyd/handlers/sys_status.c and sys_procs.c
-- both read with.
use asys.Base.{ℕ, zero, suc, Option, none, some, List, [], ◌∷◌, ◌++◌, bytes_eq, if◌then◌else◌}
use asys.Scan.{Directive, lit, white, word, number, lits, scan, key_and_number}

-- "cpu %llu %llu %llu %llu %llu %llu %llu %llu"
abbrev pub stat_format : List Directive
stat_format =
    lits "cpu"
    ++ (white
        ∷ number 64
        ∷ white
        ∷ number 64
        ∷ white
        ∷ number 64
        ∷ white
        ∷ number 64
        ∷ white
        ∷ number 64
        ∷ white
        ∷ number 64
        ∷ white
        ∷ number 64
        ∷ white
        ∷ number 64
        ∷ [])

-- "%31s %lu kB\n"
abbrev pub kb_format : List Directive
kb_format = word 31 ∷ white ∷ number 64 ∷ white ∷ lit b'k' ∷ lit b'B' ∷ white ∷ []

-- The loop over /proc/meminfo for the first line with the key. Each pass that goes on takes a key,
-- so the file's length is fuel enough.
unfoldable pub find_kb : (fuel : ℕ) → List ℕ → List ℕ → Option ℕ
unfolding scan
find_kb zero wanted file = none
find_kb (suc fuel) wanted file =
    let (values, rest) = scan kb_format file in
    let later = find_kb fuel wanted rest in
    elim (key_and_number values) [
      | none ↦ none
      | some (key, val) ↦ if bytes_eq key wanted then some val else later
    ]
