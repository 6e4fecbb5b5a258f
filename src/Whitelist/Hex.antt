-- ===== src/Whitelist/Hex.antt =====
-- Keys in hexadecimal: hex_decode32 of src/asyd/core/whitelist.c reads what hex8 of
-- src/asyd/asyd.c and the key tools print.
use asys.Base.{
  ℕ, zero, suc, ◌+◌, ◌-◌, ◌*◌, ◌/◌, ◌%◌, ◌<◌, ◌≡◌, refl, ap, Option, none, some, List, [], ◌∷◌,
  ◌++◌, ltb, if◌then◌else◌, length, All, IsByte, arith,
}
use asys.Whitelist.{hex_nibble, hex_decode, join_nibbles}

-- One digit of "%02x".
abbrev hex_digit : ℕ → ℕ
hex_digit n = if ltb n 10 then b'0' + n else b'a' + (n - 10)

-- `snprintf(out + i*2, 3, "%02x", b[i])` for each byte.
unfoldable pub hex_print : List ℕ → List ℕ
hex_print [] = []
hex_print (b ∷ bs) = hex_digit (b / 16) ∷ hex_digit (b % 16) ∷ hex_print bs

digit_read : (n : ℕ) → n < 16 → hex_nibble (hex_digit n) ≡ some n
unfolding hex_nibble
digit_read n h = ground arith

-- Printed bytes are decoded to themselves, whatever follows them.
pub hex_decode-hex_print :
    (bs tail : List ℕ) → All IsByte bs → hex_decode (length bs) (hex_print bs ++ tail) ≡ some bs
unfolding hex_decode hex_print
hex_decode-hex_print [] tail v = refl
hex_decode-hex_print (b ∷ bs) tail (h, v) =
    let hi = digit_read (b / 16) (omega arith) in
    let lo = digit_read (b % 16) (omega arith) in
    let e : b / 16 * 16 + b % 16 ≡ b = omega arith in
    rw (hi, lo, hex_decode-hex_print bs tail v, e) refl

-- What a digit and a decoded string are, when they are there.
abbrev IsNibble : Option ℕ → Type 0
IsNibble none = Unit
IsNibble (some n) = n < 16

abbrev pub IsKey : ℕ → Option (List ℕ) → Type 0
IsKey n none = Unit
IsKey n (some key) = (length key ≡ n) × All IsByte key

hex_nibble-IsNibble : (x : ℕ) → IsNibble (hex_nibble x)
unfolding hex_nibble
hex_nibble-IsNibble x = ground arith

join-IsKey :
    (n : ℕ) (hi lo : Option ℕ) (rest : Option (List ℕ))
    → IsNibble hi
    → IsNibble lo
    → IsKey n rest
    → IsKey (suc n) (join_nibbles hi lo rest)
join-IsKey n none lo rest h l r = tt
join-IsKey n (some hi) none rest h l r = tt
join-IsKey n (some hi) (some lo) none h l r = tt
join-IsKey n (some hi) (some lo) (some key) h l (size, bytes) = (ap suc size, (omega arith, bytes))

-- What is decoded has the length asked for and consists of bytes.
pub hex_decode-IsKey : (n : ℕ) (hex : List ℕ) → IsKey n (hex_decode n hex)
unfolding hex_decode
hex_decode-IsKey zero hex = (refl, tt)
hex_decode-IsKey (suc n) [] = tt
hex_decode-IsKey (suc n) (x ∷ []) = tt
hex_decode-IsKey (suc n) (x ∷ y ∷ hex) =
    join-IsKey n (hex_nibble x) (hex_nibble y) (hex_decode n hex) (hex_nibble-IsNibble x)
      (hex_nibble-IsNibble y) (hex_decode-IsKey n hex)
