-- ===== src/Tests/Whitelists.antt =====
-- Examples for the whitelist file: src/asyd/core/whitelist.c.
use asys.Base.{
  ℕ, ◌≡◌, ◌↔◌, ◌≤◌, refl, true, some, List, [], ◌∷◌, take, replicate, All, Any, IsByte, codes, zero,
  suc, arith,
}
use asys.Whitelist.{AgentEntry, whitelist_load, whitelist_check}
use asys.Whitelist.Text.{Line, comment, entry, blank, IsLine, IsLabelChar, file_of, entries_of}
use asys.Whitelist.Printed.{whitelist_load-file_of}
use asys.Tests.Toy.{toy, toy_laws}

abbrev agent : AgentEntry
agent = record { key = replicate 32 0xAB; label = codes "me" }

abbrev lines : List Line
lines = comment (codes " x") ∷ blank ∷ entry agent ∷ comment [] ∷ []

same_bytes : (n : ℕ) → All IsByte (replicate n 0xAB)
unfolding replicate
same_bytes zero = tt
same_bytes (suc n) = (omega arith, same_bytes n)

plain : (x : ℕ) → 33 ≤ x → IsLabelChar x
plain x h = record {
  no_nul = λ e. omega (arith, h, e);
  no_newline = λ e. omega (arith, h, e);
  no_return = λ e. omega (arith, h, e);
}

agent-IsLine : IsLine (entry agent)
unfolding replicate
agent-IsLine = (
  refl,
  same_bytes 32,
  omega arith,
  (plain b'm' (omega arith), (plain b'e' (omega arith), tt)),
  refl,
)

whitelist_load-file_of_example :
    let wl = whitelist_load (some (file_of lines)) in
    (wl ≡ entries_of lines)
    × ((key : List ℕ)
        → (whitelist_check toy wl key ≡ true)
          ↔ Any (λ e. take 32 e.key ≡ take 32 key) (entries_of lines))
unfolding entries_of
whitelist_load-file_of_example =
    whitelist_load-file_of toy toy_laws lines
      (
        (omega arith, ((λ e. omega (arith, e)), ((λ e. omega (arith, e)), tt))),
        (tt, (agent-IsLine, ((omega arith, tt), tt))),
      )
      (omega arith)
