-- ===== src/Base/Bytes.antt =====
-- Bytes, 16- and 32-bit words in network order, and bit tests over a byte.
use Prim.Native.Nat.{ℕ, zero, suc, ◌+◌, ◌*◌, ◌/◌, ◌%◌, ◌^◌, ◌<◌}
use mathlib.Core.Path.{◌≡◌}
use mathlib.Core.Bool.{Bool, true, ◌&&◌}
use mathlib.Core.List.{List, [], ◌∷◌}
use Prim.Native.Char.{code}
pub use Prim.Native.String.{String}
use native.Mathlib.Omega.{arith}

abbrev pub IsByte : ℕ → Type 0
IsByte x = x < 256

-- `(uint8_t)(v >> k)`
abbrev pub byte_at : ℕ → ℕ → ℕ
byte_at v k = v / 2 ^ k % 256

-- `put_u16`, `put_u32`, `put_u64`: big-endian bytes of a word.
abbrev pub put_u16 : ℕ → List ℕ
put_u16 v = byte_at v 8 ∷ byte_at v 0 ∷ []

abbrev pub put_u32 : ℕ → List ℕ
put_u32 v = byte_at v 24 ∷ byte_at v 16 ∷ byte_at v 8 ∷ byte_at v 0 ∷ []

abbrev pub put_u64 : ℕ → List ℕ
put_u64 v =
    byte_at v 56
    ∷ byte_at v 48
    ∷ byte_at v 40
    ∷ byte_at v 32
    ∷ byte_at v 24
    ∷ byte_at v 16
    ∷ byte_at v 8
    ∷ byte_at v 0
    ∷ []

-- `(b0 << 8) | b1` and `(b0 << 24) | (b1 << 16) | (b2 << 8) | b3`: the shifted bytes are disjoint.
abbrev pub get_u16 : ℕ → ℕ → ℕ
get_u16 b0 b1 = b0 * 256 + b1

abbrev pub get_u32 : ℕ → ℕ → ℕ → ℕ → ℕ
get_u32 b0 b1 b2 b3 = b0 * 2 ^ 24 + b1 * 2 ^ 16 + b2 * 2 ^ 8 + b3

-- Check every value below a bound by evaluation.
unfoldable pub holds_below : (ℕ → Bool) → ℕ → Bool
holds_below test zero = true
holds_below test (suc bound) = holds_below test bound && test bound

pub holds_below_at :
    (test : ℕ → Bool) (bound : ℕ)
    → holds_below test bound ≡ true
    → (i : ℕ) → i < bound
    → test i ≡ true
unfolding holds_below
holds_below_at test zero all i inside = absurd (omega arith)
holds_below_at test (suc bound) all i inside =
    let earlier = holds_below_at test bound in ground (arith, earlier (ground arith) i)

-- The bytes of an ASCII text.
abbrev pub codes : String → List ℕ
codes String.[] = []
codes (String.◌∷◌ c s) = code c ∷ codes s
