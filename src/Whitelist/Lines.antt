-- ===== src/Whitelist/Lines.antt =====
-- The loop of whitelist_load in src/asyd/core/whitelist.c reads the whole file.
use asys.Base.{
  ℕ, zero, suc, ◌+◌, ◌-◌, ◌<◌, ◌≡◌, refl, ap, ap₂, false, not, none, some, List, [], ◌∷◌, ◌++◌, ltb,
  ◌==◌, if◌then◌else◌, length, length-append, arith, Bool-cases, inl, inr,
}
use asys.Whitelist.{
  parse_line, load_lines, line_size, whitelist_load, whitelist_max_agents, Whitelist,
}
use asys.Scan.{fgets}

-- `fgets` splits the file, and takes a byte at least if there is one and room for it.
fgets-append : (room : ℕ) (file : List ℕ) → (fgets room file).0 ++ (fgets room file).1 ≡ file
unfolding fgets
fgets-append zero file = refl
fgets-append (suc room) [] = refl
fgets-append (suc room) (x ∷ file) = ground (arith, fgets-append room file)

positive : (n : ℕ) → (n == 0) ≡ false → 0 < n
positive n e = ground arith

-- Two amounts of fuel above the file's length give the same entries.
pub load_lines_fuel :
    (fuel fuel' count : ℕ) (file : List ℕ)
    → length file < fuel
    → length file < fuel'
    → load_lines fuel count file ≡ load_lines fuel' count file
unfolding load_lines
load_lines_fuel zero fuel' count file h h' = absurd (omega arith)
load_lines_fuel (suc fuel) zero count file h h' = absurd (omega arith)
load_lines_fuel (suc fuel) (suc fuel') count file h h' =
    let (line, rest) = fgets (line_size - 1) file in
    let split = fgets-append (line_size - 1) file in
    let sizes : length line + length rest ≡ length file =
      omega (arith, length-append line rest, ap length split) in
    elim (Bool-cases (length line == 0)) [
      | inl e ↦ rw (load_lines, e) refl
      | inr e ↦
          let some_read = positive (length line) e in
          let less : length rest < fuel = omega arith in
          let less' : length rest < fuel' = omega arith in
          let skip = load_lines_fuel fuel fuel' count rest less less' in
          let more = load_lines_fuel fuel fuel' (count + 1) rest less less' in
          ap₂
            (λ (skipped : Whitelist) (loaded : Whitelist).
              if length line == 0
              then []
              else if not (ltb count whitelist_max_agents)
              then []
              else elim (parse_line line) [ none ↦ skipped | some e ↦ e ∷ loaded ])
            skip more
    ]

-- The fuel of `whitelist_load` is enough: with any larger amount the loop loads the same entries.
pub whitelist_load_fuel :
    (file : List ℕ) (fuel : ℕ)
    → length file < fuel
    → whitelist_load (some file) ≡ load_lines fuel 0 file
unfolding whitelist_load
whitelist_load_fuel file fuel h = load_lines_fuel (length file + 1) fuel 0 file (omega arith) h
