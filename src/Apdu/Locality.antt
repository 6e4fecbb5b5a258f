-- ===== src/Apdu/Locality.antt =====
-- What the parser reads: only the first `filled` bytes of the buffer.
use asys.Base.{
  ℕ, zero, suc, ◌+◌, ◌*◌, ◌≤◌, ◌<◌, ◌≡◌, refl, sym, List, Bool, true, false, get_or-take, arith,
  if◌then◌else◌,
}
use asys.Apdu.{byte, parse_buf, parse_sized, try_parse, ApduParser, pending}

-- Two buffers agree below `n`.
abbrev Agree : ℕ → List ℕ → List ℕ → Type 0
Agree n a b = (i : ℕ) → i < n → byte a i ≡ byte b i

module _ (a b : List ℕ) (n : ℕ) (agree : Agree n a b) where
  parse_sized-agree :
      (ext : Bool) (dl : ℕ)
      → (if ext then 7 else 5) ≤ n
      → parse_sized a n ext (if ext then 7 else 5) dl
        ≡ parse_sized b n ext (if ext then 7 else 5) dl
  unfolding parse_sized
  parse_sized-agree true dl h = ground (
    arith,
    agree 0 (omega arith),
    agree 1 (omega arith),
    agree 2 (omega arith),
    agree 3 (omega arith),
    agree (7 + dl),
    agree (7 + dl + 1),
  )
  parse_sized-agree false dl h = ground (
    arith,
    agree 0 (omega arith),
    agree 1 (omega arith),
    agree 2 (omega arith),
    agree 3 (omega arith),
    agree (5 + dl),
  )

pub parse_buf-Agree : (a b : List ℕ) (n : ℕ) → Agree n a b → parse_buf a n ≡ parse_buf b n
unfolding parse_buf
parse_buf-Agree a b zero agree = refl
parse_buf-Agree a b (suc n) agree = ground (
  arith,
  agree 0 (omega arith),
  agree 4,
  agree 5,
  agree 6,
  parse_sized-agree a b (suc n) agree true (byte a 5 * 256 + byte a 6),
  parse_sized-agree a b (suc n) agree false (byte a 4),
)

-- The outcome depends on the pending bytes alone: what else lies in the buffer is never read.
pub try_parse_local : (p : ApduParser) → try_parse p ≡ parse_buf (pending p) p.filled
unfolding try_parse
try_parse_local p =
    parse_buf-Agree p.buf (pending p) p.filled (λ i h. sym (get_or-take i p.filled p.buf 0 h))
