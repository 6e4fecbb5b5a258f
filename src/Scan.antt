-- ===== src/Scan.antt =====
-- `scanf` and `fgets`, as src/asyd/handlers and src/asyd/core/whitelist.c use them on text files.
--
-- A format is the list of its directives. The result is the list of the values assigned (its length
-- is the returned count; -1, at the end of the input, counts as no value, which no caller tells
-- apart) and the input that is left. A number out of its type's range has no defined value in C; it
-- is taken modulo the type's size, as a negative one is.
use asys.Base.{
  ℕ, zero, suc, ◌+◌, ◌-◌, ◌*◌, ◌%◌, ◌^◌, Bool, false, ◌&&◌, ◌||◌, Option, none, some, List, [], ◌∷◌,
  leb, ◌==◌, if◌then◌else◌, codes, String, map,
}

-- A character that must be there, white space, "%<n>s", "%u" of that many bits, "%<n>[^<stop>]".
pub data Directive : Type 0 where
  lit : (char : ℕ) → Directive
  white : Directive
  word : (room : ℕ) → Directive
  number : (bits : ℕ) → Directive
  until : (stop room : ℕ) → Directive

pub data Value : Type 0 where
  str : List ℕ → Value
  num : ℕ → Value

-- `isspace`
abbrev is_space : ℕ → Bool
is_space c = c == b' ' || (leb 9 c && leb c 13)

abbrev pub is_digit : ℕ → Bool
is_digit c = leb b'0' c && leb c b'9'

unfoldable pub skip_white : List ℕ → List ℕ
skip_white [] = []
skip_white (c ∷ s) = if is_space c then skip_white s else c ∷ s

-- At most `room` characters up to one that `stops` holds of, and the rest.
span : (ℕ → Bool) → ℕ → List ℕ → List ℕ × List ℕ
span stops zero s = ([], s)
span stops (suc room) [] = ([], [])
span stops (suc room) (c ∷ s) =
    let (taken, rest) = span stops room s in if stops c then ([], c ∷ s) else (c ∷ taken, rest)

-- The digits at the start, after the value read so far.
unfoldable pub scan_digits : ℕ → List ℕ → ℕ × List ℕ
scan_digits n [] = (n, [])
scan_digits n (c ∷ s) = if is_digit c then scan_digits (n * 10 + (c - b'0')) s else (n, c ∷ s)

abbrev starts_with_digit : List ℕ → Bool
starts_with_digit [] = false
starts_with_digit (c ∷ s) = is_digit c

unfoldable pub scan_nat : List ℕ → Option (ℕ × List ℕ)
unfolding scan_digits
scan_nat s = if starts_with_digit s then some (scan_digits 0 s) else none

abbrev negate : ℕ → ℕ → ℕ
negate bits n = (2 ^ bits - n % 2 ^ bits) % 2 ^ bits

-- A number with an optional sign.
unfoldable pub scan_number : ℕ → List ℕ → Option (ℕ × List ℕ)
unfolding scan_nat
scan_number bits [] = none
scan_number bits (c ∷ s) =
    if c == b'-'
    then elim (scan_nat s) [ none ↦ none | some (n, r) ↦ some (negate bits n, r) ]
    else elim (scan_nat (if c == b'+' then s else c ∷ s)) [
      | none ↦ none
      | some (n, r) ↦ some (n % 2 ^ bits, r)
    ]

-- A nonempty piece of text and what the other directives make of the rest.
abbrev assign : List ℕ × List ℕ → List Value × List ℕ → List Value × List ℕ
assign ([], rest) more = ([], rest)
assign (c ∷ taken, rest) (values, left) = (str (c ∷ taken) ∷ values, left)

unfoldable pub scan : List Directive → List ℕ → List Value × List ℕ
unfolding skip_white span scan_number
scan [] s = ([], s)
scan (lit char ∷ ds) [] = ([], [])
scan (lit char ∷ ds) (c ∷ s) = if c == char then scan ds s else ([], c ∷ s)
scan (white ∷ ds) s = scan ds (skip_white s)
scan (word room ∷ ds) s =
    let piece = span is_space room (skip_white s) in assign piece (scan ds piece.1)
scan (until stop room ∷ ds) s =
    let piece = span (λ c. c == stop) room s in assign piece (scan ds piece.1)
scan (number bits ∷ ds) s = elim (scan_number bits (skip_white s)) [
  | none ↦ ([], skip_white s)
  | some (n, rest) ↦ let (values, left) = scan ds rest in (num n ∷ values, left)
]

-- Characters that must be there, one by one.
abbrev pub lits : String → List Directive
lits text = map lit (codes text)

-- A key and a number, if two values at least were assigned.
abbrev pub key_and_number : List Value → Option (List ℕ × ℕ)
key_and_number (str key ∷ num val ∷ vs) = some (key, val)
key_and_number _ = none

-- The line that `fgets` reads, at most `room` bytes of it, and the rest of the file.
unfoldable pub fgets : ℕ → List ℕ → List ℕ × List ℕ
fgets zero file = ([], file)
fgets (suc room) [] = ([], [])
fgets (suc room) (c ∷ file) =
    let (line, rest) = fgets room file in if c == b'\n' then (c ∷ [], file) else (c ∷ line, rest)

-- A `char` array as a string: up to the first NUL.
unfoldable pub c_string : List ℕ → List ℕ
c_string [] = []
c_string (c ∷ s) = if c == 0 then [] else c ∷ c_string s
