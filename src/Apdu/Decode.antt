-- ===== src/Apdu/Decode.antt =====
-- Reading a message back from the bytes of a frame that the parser has accepted.
use asys.Base.{
  ℕ, zero, suc, ◌+◌, ◌*◌, ◌/◌, ◌%◌, ◌≤◌, ◌<◌, ◌≡◌, refl, Bool, true, false, not, List, [], ◌∷◌,
  ◌++◌, ◌==◌, if◌then◌else◌, take, drop, length, length-take, take-append-drop, append_assoc,
  byte_at, get_u16, All, IsByte, arith, length-drop, ap₂,
}
use asys.Apdu.{ApduFrame, ready, byte, parse_buf, parse_sized}
use asys.Apdu.Cla.{cla_masks}
use asys.Apdu.Codec.{Message, IsMessage, encode}

byte-split : (k : ℕ) (r : List ℕ) → k < length r → drop k r ≡ byte r k ∷ drop (k + 1) r
byte-split k [] h = absurd (omega arith)
byte-split zero (x ∷ r) h = refl
byte-split (suc k) (x ∷ r) h =
    let e : suc k + 1 ≡ suc (k + 1) = omega arith in rw e (byte-split k r (omega arith))

-- A standard tail: `l` bytes, one byte of Le, `t` bytes of tag, and the rest.
std_tail :
    (r : List ℕ) (l t : ℕ)
    → l + 1 + t ≤ length r
    → take l r ++ (byte r l ∷ (take t (drop (l + 1) r) ++ drop t (drop (l + 1) r))) ≡ r
std_tail r l t h =
    rw (take-append-drop t (drop (l + 1) r), ← byte-split l r (omega arith)) (take-append-drop l r)

-- The same with two bytes of Le.
ext_tail :
    (r : List ℕ) (l t : ℕ)
    → l + 2 + t ≤ length r
    → take l r ++ (byte r l ∷ byte r (l + 1) ∷ (take t (drop (l + 2) r) ++ drop t (drop (l + 2) r)))
      ≡ r
ext_tail r l t h =
    let e : l + 1 + 1 ≡ l + 2 = omega arith in
    rw
      (
        take-append-drop t (drop (l + 2) r),
        ← e,
        ← byte-split (l + 1) r (omega arith),
        ← byte-split l r (omega arith),
      )
      (take-append-drop l r)

byte_of_All : (r : List ℕ) (k : ℕ) → All IsByte r → byte r k < 256
byte_of_All [] k h = omega arith
byte_of_All (x ∷ r) zero h = h.0
byte_of_All (x ∷ r) (suc k) h = byte_of_All r k h.1

-- The message at the start of the bytes `c ∷ i ∷ p ∷ q ∷ …`, by its extent.
message_at : Bool → ℕ → ℕ → ℕ → ℕ → ℕ → ℕ → List ℕ → Message
message_at ext c i p q l t r = record {
  ins = i;
  p1 = p;
  p2 = q;
  m_bit = not (c / 16 % 2 == 0);
  sec = c / 4 % 4;
  ext = ext;
  body = take l r;
  le = if ext then get_u16 (byte r l) (byte r (l + 1)) else byte r l;
  tag = take t (drop (l + (if ext then 2 else 1)) r);
}

-- The bytes are those of the message and a rest.
abbrev pub Starts : Message → List ℕ → Type 0
Starts m bytes = IsMessage m × ((rest : List ℕ) × (encode m ++ rest ≡ bytes))

module _ (c i p q l t : ℕ) (r : List ℕ) (version : c < 32) (rfu : c % 2 ≡ 0) (bytes : All IsByte r)
    (tag : t ≡ (if c / 4 % 4 == 0 then 0 else 16)) where
  message_std :
      c / 2 % 2 ≡ 0
      → l < 256
      → l + 1 + t ≤ length r
      → Starts (message_at false c i p q l t r) (c ∷ i ∷ p ∷ q ∷ l ∷ r)
  unfolding message_at encode
  message_std ext small h = (
    record {
      sec_range = omega arith;
      body_size = omega (arith, length-take l r);
      le_size = byte_of_All r l bytes;
      tag_size = omega (arith, length-take t (drop (l + 1) r), length-drop (l + 1) r);
    },
    (
      drop t (drop (l + 1) r),
      ap₂ (λ x y. x ∷ i ∷ p ∷ q ∷ y) (ground arith)
          (ap₂ ◌∷◌ (omega (arith, length-take l r)) (rw append_assoc (std_tail r l t h))),
    ),
  )

  message_ext :
      c / 2 % 2 ≡ 1
      → (a b : ℕ) → a < 256
      → b < 256
      → l ≡ a * 256 + b
      → l + 2 + t ≤ length r
      → Starts (message_at true c i p q l t r) (c ∷ i ∷ p ∷ q ∷ 0 ∷ a ∷ b ∷ r)
  unfolding message_at encode
  message_ext ext a b ha hb e h =
      let v = get_u16 (byte r l) (byte r (l + 1)) in
      let hi : byte_at v 8 ≡ byte r l =
        omega (arith, byte_of_All r l bytes, byte_of_All r (l + 1) bytes) in
      let lo : byte_at v 0 ≡ byte r (l + 1) =
        omega (arith, byte_of_All r l bytes, byte_of_All r (l + 1) bytes) in
      let len : length (take l r) ≡ a * 256 + b = omega (arith, length-take l r) in
      let lc : byte_at (length (take l r)) 8 ≡ a = omega arith in
      let lc' : byte_at (length (take l r)) 0 ≡ b = omega arith in
      (
        record {
          sec_range = omega arith;
          body_size = omega (arith, length-take l r);
          le_size = omega (arith, byte_of_All r l bytes, byte_of_All r (l + 1) bytes);
          tag_size = omega (arith, length-take t (drop (l + 2) r), length-drop (l + 2) r);
        },
        (
          drop t (drop (l + 2) r),
          ap₂ (λ x y. x ∷ i ∷ p ∷ q ∷ 0 ∷ y) (ground arith)
              (ap₂ ◌∷◌ lc (ap₂ ◌∷◌ lc' (rw (hi, lo, append_assoc) (ext_tail r l t h)))),
        ),
      )

-- The pending bytes are the bytes of a message and a rest.
abbrev pub IsEncoded : List ℕ → Type 0
IsEncoded bytes = (m : Message) × Starts m bytes

pub tag_of : ℕ → ℕ
tag_of c = if c / 4 % 4 == 0 then 0 else 16

module _ (c i p q l : ℕ) (r : List ℕ) {f : ApduFrame}
    (ready_f : parse_buf (c ∷ i ∷ p ∷ q ∷ l ∷ r) (length (c ∷ i ∷ p ∷ q ∷ l ∷ r)) ≡ ready f)
    (small : c < 256) where
  pub ready_std : c / 2 % 2 ≡ 0 → (c < 32) × (c % 2 ≡ 0) × (l + 1 + tag_of c ≤ length r)
  unfolding parse_buf parse_sized tag_of
  ready_std ext = ground (arith, cla_masks c small)

  pub ready_ext :
      c / 2 % 2 ≡ 1
      → (c < 32) × (c % 2 ≡ 0) × (l ≡ 0) × (byte r 0 * 256 + byte r 1 + 4 + tag_of c ≤ length r)
  unfolding parse_buf parse_sized tag_of
  ready_ext ext = ground (arith, cla_masks c small)

pub starts_std :
    (c i p q l : ℕ) (r : List ℕ)
    → All IsByte (c ∷ i ∷ p ∷ q ∷ l ∷ r)
    → c / 2 % 2 ≡ 0
    → (c < 32) × (c % 2 ≡ 0) × (l + 1 + tag_of c ≤ length r)
    → IsEncoded (c ∷ i ∷ p ∷ q ∷ l ∷ r)
unfolding tag_of
starts_std c i p q l r h ext (version, rfu, room) = (
  message_at false c i p q l (tag_of c) r,
  message_std c i p q l (tag_of c) r version rfu h.1.1.1.1.1 refl ext h.1.1.1.1.0 room,
)

pub starts_ext :
    (c i p q l : ℕ) (r : List ℕ)
    → All IsByte (c ∷ i ∷ p ∷ q ∷ l ∷ r)
    → c / 2 % 2 ≡ 1
    → (c < 32) × (c % 2 ≡ 0) × (l ≡ 0) × (byte r 0 * 256 + byte r 1 + 4 + tag_of c ≤ length r)
    → IsEncoded (c ∷ i ∷ p ∷ q ∷ l ∷ r)
unfolding tag_of
starts_ext c i p q l [] h ext (version, rfu, zero_lc, room) = absurd (omega arith)
starts_ext c i p q l (a ∷ []) h ext (version, rfu, zero_lc, room) = absurd (omega arith)
starts_ext c i p q l (a ∷ b ∷ r) h ext (version, rfu, zero_lc, room) =
    let rest = h.1.1.1.1.1 in
    (
      message_at true c i p q (a * 256 + b) (tag_of c) r,
      rw zero_lc (
          message_ext c i p q (a * 256 + b) (tag_of c) r version rfu rest.1.1 refl ext a b rest.0
            rest.1.0 refl (omega arith)),
    )
