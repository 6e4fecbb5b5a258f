-- ===== src/Apdu/Codec.antt =====
-- The wire format of a frame (apdu_parser.h, layouts of spec 3.1 and 3.2), written out
-- independently of the parser, and the parser against it.
use asys.Base.{
  ℕ, suc, ◌+◌, ◌*◌, ◌/◌, ◌%◌, ◌^◌, ◌<◌, ◌≡◌, refl, ap, ◌∙◌, Bool, true, none, some, List, [], ◌∷◌,
  ◌++◌, ltb, leb, ◌==◌, Bool-cases, inl, inr, if◌then◌else◌, length, length-append, slice_behind,
  lt→ltb, List-cases, nil_of_length, sym, append_assoc, put_u16, bit_and, arith,
}
use asys.Apdu.{ApduFrame, ready, need_more, byte, parse_buf, parse_sized, data_bytes, tag_bytes}
use asys.Apdu.Cla.{cla_masks}

-- What a frame says.
pub record Message : Type 0 where
  pub ins : ℕ
  pub p1 : ℕ
  pub p2 : ℕ
  pub m_bit : Bool
  pub sec : ℕ
  pub ext : Bool
  pub body : List ℕ
  pub le : ℕ
  pub tag : List ℕ

-- The fields fit the layout that `ext` and `sec` select.
pub record IsMessage (m : Message) : Type 0 where
  pub sec_range : m.sec < 4
  pub body_size : length m.body < (if m.ext then 65536 else 256)
  pub le_size : m.le < (if m.ext then 65536 else 256)
  pub tag_size : length m.tag ≡ (if m.sec == 0 then 0 else 16)

abbrev pub cla_of : Message → ℕ
cla_of m = (if m.m_bit then 16 else 0) + m.sec * 4 + (if m.ext then 2 else 0)

abbrev lc_bytes : Message → List ℕ
lc_bytes m = if m.ext then 0 ∷ put_u16 (length m.body) else length m.body ∷ []

abbrev le_bytes : Message → List ℕ
le_bytes m = if m.ext then put_u16 m.le else m.le ∷ []

unfoldable pub encode : Message → List ℕ
encode m = cla_of m ∷ m.ins ∷ m.p1 ∷ m.p2 ∷ (lc_bytes m ++ (m.body ++ (le_bytes m ++ m.tag)))

abbrev header_size : Message → ℕ
header_size m = if m.ext then 7 else 5

-- The frame that the parser is to make of a message at the start of its buffer.
abbrev pub frame_of : Message → ApduFrame
frame_of m = record {
  cla = cla_of m;
  ins = m.ins;
  p1 = m.p1;
  p2 = m.p2;
  ver = 0;
  m_bit = m.m_bit;
  sec = m.sec;
  ext = m.ext;
  data_len = length m.body;
  data_at = if ltb 0 (length m.body) then some (header_size m) else none;
  le = m.le;
  auth_tag =
      if m.sec == 0 then none else some (header_size m + length m.body + (if m.ext then 2 else 1));
  total_size = length (encode m);
}

get_or-append : (xs ys : List ℕ) (k : ℕ) → byte (xs ++ ys) (length xs + k) ≡ byte ys k
get_or-append [] ys k = ap (byte ys) (omega arith)
get_or-append (x ∷ xs) ys k =
    let e : suc (length xs) + k ≡ suc (length xs + k) = omega arith in rw e (get_or-append xs ys k)

pub length-encode :
    (m : Message)
    → length (encode m) ≡ header_size m + length m.body + (if m.ext then 2 else 1) + length m.tag
unfolding encode
length-encode m = elim (Bool-cases m.ext) [
  | inl e ↦ rw e (omega (arith, length-append m.body (put_u16 m.le ++ m.tag)))
  | inr e ↦ rw e (omega (arith, length-append m.body (m.le ∷ m.tag)))
]

abbrev HeaderBytes : List ℕ → Message → Type 0
HeaderBytes buf m =
    (byte buf 0 ≡ cla_of m)
    × (byte buf 1 ≡ m.ins)
    × (byte buf 2 ≡ m.p1)
    × (byte buf 3 ≡ m.p2)
    × (byte buf 4 ≡ (if m.ext then 0 else length m.body))
    × (m.ext ≡ true → byte buf 5 ≡ length m.body / 256 % 256)
    × (m.ext ≡ true → byte buf 6 ≡ length m.body % 256)

abbrev LeBytes : List ℕ → Message → Type 0
LeBytes buf m =
    (byte buf (header_size m + length m.body) ≡ (if m.ext then m.le / 256 % 256 else m.le))
    × (m.ext ≡ true → byte buf (header_size m + length m.body + 1) ≡ m.le % 256)

encode_header : (m : Message) (rest : List ℕ) → HeaderBytes (encode m ++ rest) m
unfolding encode
encode_header m rest = elim (Bool-cases m.ext) [
  | inl e ↦ rw e (refl, refl, refl, refl, refl, (λ _. refl), (λ _. omega arith))
  | inr e ↦ rw e (refl, refl, refl, refl, refl, (λ h. cc), (λ h. cc))
]

-- A byte behind a prefix and a body.
byte_behind :
    (pre body tail : List ℕ) (at j : ℕ)
    → at ≡ length pre + (length body + j)
    → byte (pre ++ (body ++ tail)) at ≡ byte tail j
byte_behind pre body tail at j h =
    rw h (get_or-append pre (body ++ tail) (length body + j) ∙ get_or-append body tail j)

header_bytes : Message → List ℕ
header_bytes m = cla_of m ∷ m.ins ∷ m.p1 ∷ m.p2 ∷ lc_bytes m

length-header : (m : Message) → length (header_bytes m) ≡ header_size m
unfolding header_bytes
length-header m = ground arith

encode_parts :
    (m : Message) (rest : List ℕ)
    → encode m ++ rest ≡ header_bytes m ++ (m.body ++ (le_bytes m ++ (m.tag ++ rest)))
unfolding encode header_bytes
encode_parts m rest = simp append_assoc

encode_le : (m : Message) (rest : List ℕ) → LeBytes (encode m ++ rest) m
encode_le m rest = rw encode_parts (
  byte_behind (header_bytes m) m.body (le_bytes m ++ (m.tag ++ rest))
        (header_size m + length m.body) 0 (omega (arith, length-header m))
      ∙ ground arith,
  λ e.
      byte_behind (header_bytes m) m.body (le_bytes m ++ (m.tag ++ rest))
        (header_size m + length m.body + 1) 1 (omega (arith, length-header m))
      ∙ rw e (omega arith),
)

-- What the parser reads off the CLA byte of a message.
cla_of_masks :
    (m : Message)
    → m.sec < 4
    → (bit_and (cla_of m) 0xE0 ≡ 0)
      × (bit_and (cla_of m) 0x01 ≡ 0)
      × (bit_and (cla_of m) 0x02 ≡ (if m.ext then 2 else 0))
      × (bit_and (cla_of m) 0x0C / 2 ^ 2 ≡ m.sec)
      × (bit_and (cla_of m) 0x10 ≡ (if m.m_bit then 16 else 0))
cla_of_masks m h = ground (arith, cla_masks (cla_of m))

parse_sized-encode :
    (m : Message) (rest : List ℕ) (n : ℕ)
    → IsMessage m
    → parse_sized (encode m ++ rest) n m.ext (header_size m) (length m.body)
      ≡ (if leb (length (encode m)) n then ready (frame_of m) else need_more)
unfolding parse_sized
parse_sized-encode m rest n v =
    ground
      (arith, cla_of_masks m v.sec_range, encode_header m rest, encode_le m rest, length-encode m)

-- Parsing the first `n` bytes of an encoded message and whatever follows it: the frame if the
-- message is there in full, and otherwise a request for more bytes.
pub parse-encode :
    (m : Message) (rest : List ℕ) (n : ℕ)
    → IsMessage m
    → parse_buf (encode m ++ rest) n
      ≡ (if leb (length (encode m)) n then ready (frame_of m) else need_more)
unfolding parse_buf
parse-encode m rest n v = ground (
  arith,
  cla_of_masks m v.sec_range,
  encode_header m rest,
  length-encode m,
  parse_sized-encode m rest n v,
)

-- The data pointer of a message's frame selects its body, and the tag pointer its tag.
pub encode_body :
    (m : Message) (rest : List ℕ)
    → data_bytes (encode m ++ rest) (frame_of m) 0 (length m.body) ≡ m.body
encode_body m rest = elim (List-cases m.body) [
  | inl e ↦ rw e refl
  | inr pos ↦
      let e : header_size m + 0 ≡ header_size m = omega arith in
      rw (lt→ltb _ _ pos, e, encode_parts)
        (slice_behind (header_bytes m) m.body (le_bytes m ++ (m.tag ++ rest)) (header_size m)
          (length m.body) (length-header m) refl)
]

pub encode_tag :
    (m : Message) (rest : List ℕ) → IsMessage m → tag_bytes (encode m ++ rest) (frame_of m) ≡ m.tag
encode_tag m rest v =
    let pre = header_bytes m ++ (m.body ++ le_bytes m) in
    let split : encode m ++ rest ≡ pre ++ (m.tag ++ rest) =
      encode_parts m rest ∙ simp append_assoc in
    let size : length pre ≡ header_size m + length m.body + (if m.ext then 2 else 1) = ground (
      arith,
      length-append (header_bytes m) (m.body ++ le_bytes m),
      length-append m.body (le_bytes m),
      length-header m,
    ) in
    elim (Bool-cases (m.sec == 0)) [
      | inl e ↦ rw e (sym (nil_of_length m.tag (ground arith)))
      | inr e ↦ rw (e, split) (slice_behind pre m.tag rest _ 16 size (ground arith))
    ]
