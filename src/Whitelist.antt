-- ===== src/Whitelist.antt =====
-- The agents' whitelist: src/asyd/core/whitelist.c and whitelist.h.
--
-- The file is the list of its bytes, or `none` if it cannot be opened (`file_after` is what is
-- there after the call). `entries` holds the entries that are counted.
pub mod Hex
pub mod Load
pub mod Check
pub mod Lines
pub mod Text
pub mod Printed
pub mod Example
use asys.Base.{
  ℕ, zero, suc, ◌+◌, ◌-◌, ◌*◌, Bool, true, false, not, ◌&&◌, ◌||◌, Option, none, some, List, [],
  ◌∷◌, ◌++◌, ltb, leb, ◌==◌, if◌then◌else◌, length, take, drop, codes,
}
use asys.Crypto.{Crypto}
use asys.Scan.{fgets, c_string}

abbrev pub whitelist_max_agents : ℕ
whitelist_max_agents = 64

abbrev pub whitelist_label_size : ℕ
whitelist_label_size = 32

-- `sizeof(line)`
abbrev pub line_size : ℕ
line_size = 128

pub record AgentEntry : Type 0 where
  pub key : List ℕ
  pub label : List ℕ

abbrev pub Whitelist : Type 0
Whitelist = List AgentEntry

-- `none` for -1.
unfoldable pub hex_nibble : ℕ → Option ℕ
hex_nibble c =
    if leb b'0' c && leb c b'9'
    then some (c - b'0')
    else if leb b'a' c && leb c b'f'
    then some (c - b'a' + 10)
    else if leb b'A' c && leb c b'F'
    then some (c - b'A' + 10)
    else none

abbrev pub join_nibbles : Option ℕ → Option ℕ → Option (List ℕ) → Option (List ℕ)
join_nibbles (some hi) (some lo) (some rest) = some ((hi * 16 + lo) ∷ rest)
join_nibbles _ _ _ = none

-- `hex_decode32` for the `n` bytes that are left.
unfoldable pub hex_decode : ℕ → List ℕ → Option (List ℕ)
unfolding hex_nibble
hex_decode zero hex = some []
hex_decode (suc n) (a ∷ b ∷ hex) = join_nibbles (hex_nibble a) (hex_nibble b) (hex_decode n hex)
hex_decode (suc n) _ = none

unfoldable pub hex_decode32 : List ℕ → Option (List ℕ)
unfolding hex_decode
hex_decode32 hex = hex_decode 32 hex

abbrev pub is_blank : ℕ → Bool
is_blank c = c == b' ' || c == b'\t'

unfoldable pub skip_blanks : List ℕ → List ℕ
skip_blanks [] = []
skip_blanks (c ∷ s) = if is_blank c then skip_blanks s else c ∷ s

unfoldable pub until_eol : List ℕ → List ℕ
until_eol [] = []
until_eol (c ∷ s) = if c == b'\n' || c == b'\r' then [] else c ∷ until_eol s

abbrev pub is_skipped : List ℕ → Bool
is_skipped [] = true
is_skipped (c ∷ s) = c == b'#' || c == b'\n'

-- The entry that a decoded key and a label make.
unfoldable pub entry_of : Option (List ℕ) → List ℕ → Option AgentEntry
entry_of none label = none
entry_of (some key) label =
    some (record { key = key; label = take (whitelist_label_size - 1) label })

-- The body of the loop: the entry of a line, if it has one.
unfoldable pub parse_line : List ℕ → Option AgentEntry
unfolding skip_blanks until_eol hex_decode32 c_string entry_of
parse_line line =
    let p = skip_blanks (c_string line) in
    let label = until_eol (skip_blanks (drop 64 p)) in
    if is_skipped p
    then none
    else if ltb (length p) 64
    then none
    else entry_of (hex_decode32 p) label

-- The loop of `whitelist_load`: a line is read before the count is tested.
unfoldable pub load_lines : (fuel : ℕ) → ℕ → List ℕ → Whitelist
unfolding fgets parse_line
load_lines zero count file = []
load_lines (suc fuel) count file =
    let (line, rest) = fgets (line_size - 1) file in
    let skipped = load_lines fuel count rest in
    let more = load_lines fuel (count + 1) rest in
    if length line == 0
    then []
    else if not (ltb count whitelist_max_agents)
    then []
    else elim (parse_line line) [ none ↦ skipped | some e ↦ e ∷ more ]

-- Each line takes at least one byte of the file, so its length is fuel enough.
unfoldable pub whitelist_load : Option (List ℕ) → Whitelist
unfolding load_lines
whitelist_load none = []
whitelist_load (some file) = load_lines (length file + 1) 0 file

-- The text that a missing file is created with: comments that say what to add. The dash is three
-- bytes.
unfoldable pub example_file : List ℕ
example_file =
    codes "# /etc/asyd/authorized_agents "
    ++ 0xE2
      ∷ 0x80
      ∷ 0x94
      ∷ codes
          " authorized agent public keys\n#\n# One entry per line:\n#   <64-char hex Curve25519 pubkey>  [optional-label]\n#\n# Example:\n#   9d0c10df7237b1cf77380ae676ee500fe4da9873476c2e46378cad5e3cc2ba52  my-agent\n#\n# To add an agent, run asys_keygen.py on the client, then copy\n# the printed Fingerprint hex to this file:\n#   echo \"<pubkey_hex>  <label>\" >> /etc/asyd/authorized_agents\n"

-- The file after the call, and whether a missing one can be created.
unfoldable pub file_after : (created : Bool) → Option (List ℕ) → Option (List ℕ)
file_after created (some file) = some file
file_after created none = if created then some example_file else none

module _ (c : Crypto) where
  -- `true` for WL_OK.
  unfoldable pub whitelist_check : Whitelist → List ℕ → Bool
  whitelist_check [] key = false
  whitelist_check (e ∷ wl) key = if c.verify32 e.key key then true else whitelist_check wl key

unfoldable pub whitelist_wipe : Whitelist → Whitelist
whitelist_wipe wl = []
