-- ===== src/Whitelist/Text.antt =====
-- The lines of a file as an administrator writes them, and what the body of whitelist_load's loop
-- in src/asyd/core/whitelist.c makes of each.
use asys.Base.{
  ℕ, zero, suc, ◌-◌, ◌*◌, ◌<◌, ◌≤◌, ◌≡◌, ◌≢◌, refl, ap, subst, ◌∙◌, false, none, some, Option, List,
  [], ◌∷◌, ◌++◌, ltb, ◌==◌, length, length-append, drop, take, take_all, drop-append_eq,
  append_assoc, All, IsByte, arith,
}
use asys.Whitelist.{
  AgentEntry, Whitelist, is_blank, entry_of, is_skipped, skip_blanks, until_eol, hex_decode,
  hex_decode32, parse_line, line_size, whitelist_label_size,
}
use asys.Whitelist.Hex.{hex_print, hex_decode-hex_print}
use asys.Scan.{fgets, c_string}

pub data Line : Type 0 where
  comment : (text : List ℕ) → Line
  entry : (e : AgentEntry) → Line
  blank : Line

-- A line without its end: "#<text>", or "<64-char hex pubkey>  <label>".
unfoldable pub text_of : Line → List ℕ
text_of (comment text) = b'#' ∷ text
text_of (entry e) = hex_print e.key ++ b' ' ∷ b' ' ∷ e.label
text_of blank = []

unfoldable pub file_of : List Line → List ℕ
unfolding text_of
file_of [] = []
file_of (line ∷ lines) = text_of line ++ b'\n' ∷ file_of lines

unfoldable pub entries_of : List Line → Whitelist
entries_of [] = []
entries_of (entry e ∷ lines) = e ∷ entries_of lines
entries_of (_ ∷ lines) = entries_of lines

abbrev StartsPlain : List ℕ → Type 0
StartsPlain [] = Unit
StartsPlain (x ∷ label) = is_blank x ≡ false

-- A character of a label: no end of a string or of a line.
pub record IsLabelChar (x : ℕ) : Type 0 where
  pub no_nul : x ≢ 0
  pub no_newline : x ≢ b'\n'
  pub no_return : x ≢ b'\r'

-- Comments of at most 125 characters, and entries that fit their struct.
abbrev pub IsLine : Line → Type 0
IsLine (comment text) = (length text ≤ 125) × All (λ x. x ≢ b'\n') text
IsLine (entry e) =
    (length e.key ≡ 32)
    × All IsByte e.key
    × (length e.label < whitelist_label_size)
    × All IsLabelChar e.label
    × StartsPlain e.label
IsLine blank = Unit {0}

pub fgets_line :
    (room : ℕ) (text rest : List ℕ)
    → length text < room
    → All (λ x. x ≢ b'\n') text
    → fgets room (text ++ b'\n' ∷ rest) ≡ (text ++ b'\n' ∷ [], rest)
unfolding fgets
fgets_line zero text rest h a = absurd (omega arith)
fgets_line (suc room) [] rest h a = refl
fgets_line (suc room) (x ∷ text) rest h a =
    ground (arith, a.0, fgets_line room text rest (omega arith) a.1)

c_string_all : (s : List ℕ) → All (λ x. x ≢ 0) s → c_string s ≡ s
unfolding c_string
c_string_all [] a = refl
c_string_all (x ∷ s) a = ground (arith, a.0, c_string_all s a.1)

until_eol_label : (label : List ℕ) → All IsLabelChar label → until_eol (label ++ b'\n' ∷ []) ≡ label
unfolding until_eol
until_eol_label [] a = refl
until_eol_label (x ∷ label) a =
    ground (arith, a.0.no_newline, a.0.no_return, until_eol_label label a.1)

skip_blanks_label :
    (label : List ℕ)
    → StartsPlain label
    → skip_blanks (b' ' ∷ b' ' ∷ label ++ b'\n' ∷ []) ≡ label ++ b'\n' ∷ []
unfolding skip_blanks
skip_blanks_label [] h = refl
skip_blanks_label (x ∷ label) h = rw h refl

length-hex_print : (bs : List ℕ) → length (hex_print bs) ≡ 2 * length bs
unfolding hex_print
length-hex_print [] = refl
length-hex_print (b ∷ bs) = omega (arith, length-hex_print bs)

-- A hexadecimal digit, and none of the characters that the loader looks for.
abbrev IsDigit : ℕ → Type 0
IsDigit x = b'0' ≤ x

hex_print-IsDigit : (bs : List ℕ) → All IsDigit (hex_print bs)
unfolding hex_print
hex_print-IsDigit [] = tt
hex_print-IsDigit (b ∷ bs) = (ground arith, (ground arith, hex_print-IsDigit bs))

All-both : (P : ℕ → Type 0) (xs ys : List ℕ) → All P xs → All P ys → All P (xs ++ ys)
All-both P [] ys a b = b
All-both P (x ∷ xs) ys a b = (a.0, All-both P xs ys a.1 b)

All-weaken : (P Q : ℕ → Type 0) → ((x : ℕ) → P x → Q x) → (xs : List ℕ) → All P xs → All Q xs
All-weaken P Q h [] a = tt
All-weaken P Q h (x ∷ xs) a = (h x a.0, All-weaken P Q h xs a.1)

-- A text that starts with a digit is neither blank nor skipped.
plain_start :
    (hex tail : List ℕ)
    → All IsDigit hex
    → 0 < length hex
    → (skip_blanks (hex ++ tail) ≡ hex ++ tail) × (is_skipped (hex ++ tail) ≡ false)
unfolding skip_blanks
plain_start [] tail a h = absurd (omega arith)
plain_start (x ∷ hex) tail a h = (ground arith, ground arith)

parse_comment : (text : List ℕ) → parse_line (b'#' ∷ text) ≡ none
unfolding parse_line c_string skip_blanks
parse_comment text = refl

parse_blank : parse_line (b'\n' ∷ []) ≡ none
unfolding parse_line c_string skip_blanks
parse_blank = refl

not_below : (n m : ℕ) → m ≤ n → ltb n m ≡ false
not_below n m h = ground arith

module _ (e : AgentEntry) (line : IsLine (entry e)) where
  abbrev tail : List ℕ
  tail = b' ' ∷ b' ' ∷ e.label ++ b'\n' ∷ []

  abbrev printed : List ℕ
  printed = hex_print e.key ++ tail

  no_nul : All (λ x. x ≢ 0) printed
  no_nul =
      All-both _ (hex_print e.key) tail
        (All-weaken IsDigit _ (λ x d z. omega (arith, d, z)) (hex_print e.key)
          (hex_print-IsDigit e.key))
        (
          (λ z. omega (arith, z)),
          (
            (λ z. omega (arith, z)),
            All-both _ e.label (b'\n' ∷ [])
                (All-weaken IsLabelChar _ (λ x c. c.no_nul) e.label line.3)
                ((λ z. omega (arith, z)), tt),
          ),
        )

  parse_entry : parse_line printed ≡ some e
  unfolding parse_line hex_decode32 entry_of
  parse_entry =
      let size : length (hex_print e.key) ≡ 64 = omega (arith, length-hex_print e.key, line.0) in
      let (same, kept) =
        plain_start (hex_print e.key) tail (hex_print-IsDigit e.key) (omega (arith, size)) in
      let behind : drop 64 printed ≡ tail = drop-append_eq 64 (hex_print e.key) tail size in
      let label : until_eol (skip_blanks tail) ≡ e.label =
        ap until_eol (skip_blanks_label e.label line.4) ∙ until_eol_label e.label line.3 in
      let start : skip_blanks (c_string printed) ≡ printed =
        ap skip_blanks (c_string_all printed no_nul) ∙ same in
      let long : ltb (length printed) 64 ≡ false =
        not_below (length printed) 64 (omega (arith, size, length-append (hex_print e.key) tail)) in
      let key : hex_decode32 printed ≡ some e.key =
        subst (λ n. hex_decode n printed ≡ some e.key) line.0
          (hex_decode-hex_print e.key tail line.1) in
      let short : take (whitelist_label_size - 1) e.label ≡ e.label =
        take_all (whitelist_label_size - 1) e.label (omega (arith, line.2)) in
      rw (parse_line, start, kept, long, key, behind, label, entry_of, short) refl

pub ends_in_newline : (text : List ℕ) → length (text ++ b'\n' ∷ []) == 0 ≡ false
ends_in_newline [] = refl
ends_in_newline (x ∷ text) = ground arith

abbrev pub made : Line → Option AgentEntry
made (entry e) = some e
made _ = none

pub parse_text : (line : Line) → IsLine line → parse_line (text_of line ++ b'\n' ∷ []) ≡ made line
unfolding text_of
parse_text (comment text) ok = parse_comment (text ++ b'\n' ∷ [])
parse_text (entry e) ok =
    ap parse_line (append_assoc (hex_print e.key) (b' ' ∷ b' ' ∷ e.label) (b'\n' ∷ []))
    ∙ parse_entry e ok
parse_text blank ok = parse_blank

pub text_fits : (line : Line) → IsLine line → length (text_of line) < line_size - 1
unfolding text_of
text_fits (comment text) ok = omega (arith, ok.0)
text_fits (entry e) ok = omega (
  arith,
  ok.0,
  ok.2,
  length-hex_print e.key,
  length-append (hex_print e.key) (b' ' ∷ b' ' ∷ e.label),
)
text_fits blank ok = omega arith

pub one_line : (line : Line) → IsLine line → All (λ x. x ≢ b'\n') (text_of line)
unfolding text_of
one_line (comment text) ok = ((λ z. omega (arith, z)), ok.1)
one_line (entry e) ok =
    All-both _ (hex_print e.key) (b' ' ∷ b' ' ∷ e.label)
      (All-weaken IsDigit _ (λ x d z. omega (arith, d, z)) (hex_print e.key)
        (hex_print-IsDigit e.key))
      (
        (λ z. omega (arith, z)),
        ((λ z. omega (arith, z)), All-weaken IsLabelChar _ (λ x c. c.no_newline) e.label ok.3),
      )
one_line blank ok = tt
