-- ===== src/Whitelist/Load.antt =====
-- What whitelist_load of src/asyd/core/whitelist.c makes of a file.
use asys.Base.{
  ℕ, zero, suc, ◌+◌, ◌-◌, ◌<◌, ◌≤◌, ◌≡◌, subst, Option, none, some, List, ◌∷◌, ltb, ◌==◌, length,
  drop, length-take, All, IsByte, arith, Bool-cases, inl, inr,
}
use asys.Whitelist.{
  AgentEntry, Whitelist, whitelist_max_agents, whitelist_label_size, hex_decode32, parse_line,
  entry_of, load_lines, whitelist_load, skip_blanks, until_eol, is_skipped, line_size,
}
use asys.Scan.{fgets, c_string}
use asys.Whitelist.Hex.{IsKey, hex_decode-IsKey}

-- An entry fits its struct: a key of 32 bytes, and a label with room for its terminator.
pub record IsEntry (e : AgentEntry) : Type 0 where
  pub size : length e.key ≡ 32
  pub bytes : All IsByte e.key
  pub label : length e.label < whitelist_label_size

abbrev IsLine : Option AgentEntry → Type 0
IsLine none = Unit
IsLine (some e) = IsEntry e

entry_of-IsLine :
    (key : Option (List ℕ)) (label : List ℕ) → IsKey 32 key → IsLine (entry_of key label)
unfolding entry_of
entry_of-IsLine none label k = tt
entry_of-IsLine (some key) label k = record {
  size = k.0;
  bytes = k.1;
  label = omega (arith, length-take (whitelist_label_size - 1) label);
}

parse_line-IsLine : (line : List ℕ) → IsLine (parse_line line)
unfolding parse_line hex_decode32
parse_line-IsLine line =
    let p = skip_blanks (c_string line) in
    let made =
      entry_of-IsLine (hex_decode32 p) (until_eol (skip_blanks (drop 64 p)))
        (hex_decode-IsKey 32 p) in
    elim (Bool-cases (is_skipped p)) [
      | inl e ↦ rw (parse_line, e) tt
      | inr e ↦ elim (Bool-cases (ltb (length p) 64)) [
        | inl short ↦ rw (parse_line, e, short) tt
        | inr long ↦ rw (parse_line, e, long) made
      ]
    ]

-- At most `n` entries, each of them a proper one.
abbrev Fits : ℕ → Whitelist → Type 0
Fits n wl = (length wl ≤ n) × All IsEntry wl

add-Fits :
    (n : ℕ) (line : Option AgentEntry) (skipped more : Whitelist)
    → 0 < n
    → IsLine line
    → Fits n skipped
    → Fits (n - 1) more
    → Fits n (elim line [ none ↦ skipped | some e ↦ e ∷ more ])
add-Fits n none skipped more pos l s m = s
add-Fits n (some e) skipped more pos l s (few, ok) = (omega arith, (l, ok))

load_lines-Fits :
    (fuel count : ℕ) (file : List ℕ)
    → Fits (whitelist_max_agents - count) (load_lines fuel count file)
unfolding load_lines
load_lines-Fits zero count file = (omega arith, tt)
load_lines-Fits (suc fuel) count file =
    let (line, rest) = fgets (line_size - 1) file in
    let skipped = load_lines-Fits fuel count rest in
    let less : whitelist_max_agents - (count + 1) ≡ whitelist_max_agents - count - 1 =
      omega arith in
    let more =
      subst (λ n. Fits n (load_lines fuel (count + 1) rest)) less
        (load_lines-Fits fuel (count + 1) rest) in
    elim (Bool-cases (length line == 0)) [
      | inl e ↦ rw (load_lines, e) (omega arith, tt)
      | inr e ↦ elim (Bool-cases (ltb count whitelist_max_agents)) [
        | inr full ↦ rw (load_lines, e, full) (omega arith, tt)
        | inl room ↦
            rw (load_lines, e, room)
              (add-Fits (whitelist_max_agents - count) (parse_line line)
                (load_lines fuel count rest) (load_lines fuel (count + 1) rest) (ground arith)
                (parse_line-IsLine line) skipped more)
      ]
    ]

-- Whatever the file holds, at most 64 entries are loaded, and each has a key of 32 bytes and a
-- label of at most 31, as its struct has room for.
pub whitelist_load-IsEntry :
    (file : Option (List ℕ))
    → (length (whitelist_load file) ≤ whitelist_max_agents) × All IsEntry (whitelist_load file)
unfolding whitelist_load
whitelist_load-IsEntry none = (omega arith, tt)
whitelist_load-IsEntry (some file) = load_lines-Fits (length file + 1) 0 file
