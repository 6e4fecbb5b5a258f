-- ===== src/Whitelist/Printed.antt =====
-- Files as an administrator writes them, and what whitelist_load of src/asyd/core/whitelist.c makes
-- of them.
use asys.Base.{
  ℕ, zero, suc, ◌+◌, ◌-◌, ◌<◌, ◌≤◌, ◌≡◌, refl, sym, ap, ◌∙◌, true, false, not, none, some, Option,
  List, [], ◌∷◌, ◌++◌, ltb, ◌==◌, if◌then◌else◌, length, length-append, take, All, Any, ◌↔◌, arith,
  Bool-cases, inl, inr,
}
use asys.Whitelist.{
  whitelist_check, AgentEntry, Whitelist, parse_line, load_lines, line_size, whitelist_load,
  whitelist_max_agents,
}
use asys.Scan.{fgets}
use asys.Crypto.{Crypto, Laws}
use asys.Whitelist.Check.{whitelist_check_iff}
use asys.Whitelist.Text.{
  Line, comment, entry, blank, text_of, file_of, entries_of, IsLine, made, parse_text, text_fits,
  one_line, ends_in_newline, fgets_line,
}

abbrev one_pass : ℕ → ℕ → List ℕ × List ℕ → Whitelist
one_pass fuel count (line, rest) =
    if length line == 0
    then []
    else if not (ltb count whitelist_max_agents)
    then []
    else elim (parse_line line) [
      | none ↦ load_lines fuel count rest
      | some e ↦ e ∷ load_lines fuel (count + 1) rest
    ]

abbrev with_made : ℕ → ℕ → List ℕ → Option AgentEntry → Whitelist
with_made fuel count rest none = load_lines fuel count rest
with_made fuel count rest (some e) = e ∷ load_lines fuel (count + 1) rest

with_made_is :
    (fuel count : ℕ) (rest : List ℕ) (m : Option AgentEntry)
    → elim m [ none ↦ load_lines fuel count rest | some e ↦ e ∷ load_lines fuel (count + 1) rest ]
      ≡ with_made fuel count rest m
with_made_is fuel count rest none = refl
with_made_is fuel count rest (some e) = refl

load_line :
    (fuel count : ℕ) (line : Line) (rest : List ℕ)
    → IsLine line
    → ltb count whitelist_max_agents ≡ true
    → load_lines (suc fuel) count (text_of line ++ b'\n' ∷ rest)
      ≡ with_made fuel count rest (made line)
unfolding load_lines
load_line fuel count line rest ok room =
    let read =
      fgets_line (line_size - 1) (text_of line) rest (text_fits line ok) (one_line line ok) in
    let more : length (text_of line ++ b'\n' ∷ []) == 0 ≡ false = ends_in_newline (text_of line) in
    let pass : one_pass fuel count (text_of line ++ b'\n' ∷ [], rest)
        ≡ with_made fuel count rest (made line) =
      rw (more, room, parse_text line ok) (with_made_is fuel count rest (made line)) in
    ap (one_pass fuel count) read ∙ pass

full_up :
    (count : ℕ) (fuel : ℕ) (file : List ℕ)
    → ltb count whitelist_max_agents ≡ false
    → load_lines fuel count file ≡ []
unfolding load_lines
full_up count zero file full = refl
full_up count (suc fuel) file full =
    elim (Bool-cases (length (fgets (line_size - 1) file).0 == 0)) [
      | inl e ↦ rw (load_lines, e) refl
      | inr e ↦ rw (load_lines, e, full) refl
    ]

no_more : (wl : Whitelist) → length wl ≡ 0 → wl ≡ []
no_more [] h = refl
no_more (e ∷ wl) h = absurd (omega (arith, h))

Loads : ℕ → List Line → Type 0
Loads fuel lines =
    (count : ℕ)
    → count + length (entries_of lines) ≤ whitelist_max_agents
    → load_lines fuel count (file_of lines) ≡ entries_of lines

after_line :
    (line : Line) (lines : List Line) (fuel count : ℕ)
    → Loads fuel lines
    → count + length (entries_of (line ∷ lines)) ≤ whitelist_max_agents
    → with_made fuel count (file_of lines) (made line) ≡ entries_of (line ∷ lines)
unfolding entries_of Loads
after_line (comment text) lines fuel count loads few = loads count few
after_line blank lines fuel count loads few = loads count few
after_line (entry e) lines fuel count loads few =
    ap (◌∷◌ e) (loads (count + 1) (omega (arith, few)))

load_printed :
    (lines : List Line) (fuel : ℕ)
    → All IsLine lines
    → length (file_of lines) < fuel
    → Loads fuel lines
unfolding load_lines file_of entries_of Loads
load_printed lines zero ok h count few = absurd (omega (arith, h))
load_printed [] (suc fuel) ok h count few = refl
load_printed (line ∷ lines) (suc fuel) ok h count few =
    let size = length-append (text_of line) (b'\n' ∷ file_of lines) in
    let loads = load_printed lines fuel ok.1 (omega (arith, h, size)) in
    elim (Bool-cases (ltb count whitelist_max_agents)) [
      | inr full ↦
          full_up count (suc fuel) (file_of (line ∷ lines)) full
          ∙ sym (no_more (entries_of (line ∷ lines)) (ground (arith, few, full)))
      | inl room ↦
          load_line fuel count line (file_of lines) ok.0 room
          ∙ after_line line lines fuel count loads few
    ]

pub load_file_of :
    (lines : List Line)
    → All IsLine lines
    → length (entries_of lines) ≤ whitelist_max_agents
    → whitelist_load (some (file_of lines)) ≡ entries_of lines
unfolding whitelist_load Loads
load_file_of lines ok few =
    load_printed lines (length (file_of lines) + 1) ok (omega arith) 0 (omega (arith, few))

module _ (c : Crypto) (laws : Laws c) where
  -- Let a file consist of comments of at most 125 characters, blank lines and at most 64 entries,
  -- each a printed key of 32 bytes, two blanks and a label of at most 31 characters, none of them a
  -- NUL, a newline or a return, that does not start with a blank. Then exactly its entries are
  -- loaded, in order, and a key passes the whitelist exactly if an entry has its first 32 bytes.
  pub whitelist_load-file_of :
      (lines : List Line)
      → All IsLine lines
      → length (entries_of lines) ≤ whitelist_max_agents
      → let wl = whitelist_load (some (file_of lines)) in
        (wl ≡ entries_of lines)
        × ((key : List ℕ)
            → (whitelist_check c wl key ≡ true)
              ↔ Any (λ e. take 32 e.key ≡ take 32 key) (entries_of lines))
  whitelist_load-file_of lines ok few =
      let loaded = load_file_of lines ok few in
      (loaded, λ key. rw loaded (whitelist_check_iff c laws (entries_of lines) key))
