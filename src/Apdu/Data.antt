-- ===== src/Apdu/Data.antt =====
-- The data that a frame's pointer selects in two buffers (src/asyd/core/apdu_parser.h, ApduFrame).
use asys.Base.{
  ℕ, zero, suc, ◌+◌, ◌-◌, ◌≤◌, ◌<◌, ◌≡◌, refl, sym, ap, ◌∙◌, none, some, List, take, drop, slice,
  take-take, drop-take, drop-drop, get_or-take, get_or-drop, arith, Option, [],
}
use asys.Apdu.{ApduFrame, byte, data_byte, data_bytes}

-- The buffers hold the same data for the frame.
abbrev pub SameData : ApduFrame → List ℕ → List ℕ → Type 0
SameData f a b = data_bytes a f 0 f.data_len ≡ data_bytes b f 0 f.data_len

byte-slice : (off i n : ℕ) (a : List ℕ) → i < n → byte (slice (off + 0) n a) i ≡ byte a (off + i)
byte-slice off i n a h =
    get_or-take i n (drop (off + 0) a) 0 h
    ∙ (get_or-drop (off + 0) i a 0 ∙ ap (byte a) (omega arith))

slice-slice :
    (off i k n : ℕ) (a : List ℕ) → i + k ≤ n → slice i k (slice (off + 0) n a) ≡ slice (off + i) k a
slice-slice off i k n a h =
    ap (take k) (drop-take i n (drop (off + 0) a))
    ∙ (take-take k (n - i) (drop i (drop (off + 0) a)) (omega arith)
        ∙ (ap (take k) (drop-drop i (off + 0) a) ∙ ap (λ j. take k (drop j a)) (omega arith)))

data_byte_at :
    (at : Option ℕ) (a b : List ℕ) (n i : ℕ)
    → elim at [ none ↦ [] | some off ↦ slice (off + 0) n a ]
      ≡ elim at [ none ↦ [] | some off ↦ slice (off + 0) n b ]
    → i < n
    → elim at as (λ o. ℕ) [ none ↦ 0 | some off ↦ byte a (off + i) ]
      ≡ elim at as (λ o. ℕ) [ none ↦ 0 | some off ↦ byte b (off + i) ]
data_byte_at none a b n i same h = refl
data_byte_at (some off) a b n i same h =
    sym (byte-slice off i n a h) ∙ (ap (λ s. byte s i) same ∙ byte-slice off i n b h)

data_bytes_at :
    (at : Option ℕ) (a b : List ℕ) (n i k : ℕ)
    → elim at [ none ↦ [] | some off ↦ slice (off + 0) n a ]
      ≡ elim at [ none ↦ [] | some off ↦ slice (off + 0) n b ]
    → i + k ≤ n
    → elim at [ none ↦ [] | some off ↦ slice (off + i) k a ]
      ≡ elim at [ none ↦ [] | some off ↦ slice (off + i) k b ]
data_bytes_at none a b n i k same h = refl
data_bytes_at (some off) a b n i k same h =
    sym (slice-slice off i k n a h) ∙ (ap (slice i k) same ∙ slice-slice off i k n b h)

module _ (f : ApduFrame) (a b : List ℕ) (same : SameData f a b) where
  pub data_byte-SameData : (i : ℕ) → i < f.data_len → data_byte a f i ≡ data_byte b f i
  data_byte-SameData i h = data_byte_at f.data_at a b f.data_len i same h

  pub data_bytes-SameData : (i k : ℕ) → i + k ≤ f.data_len → data_bytes a f i k ≡ data_bytes b f i k
  data_bytes-SameData i k h = data_bytes_at f.data_at a b f.data_len i k same h

byte_at_slice :
    (at : Option ℕ) (a : List ℕ) (i n k : ℕ)
    → k < n
    → elim at as (λ o. ℕ) [ none ↦ 0 | some off ↦ byte a (off + (i + k)) ]
      ≡ byte (elim at [ none ↦ [] | some off ↦ slice (off + i) n a ]) k
byte_at_slice none a i n k h = refl
byte_at_slice (some off) a i n k h = sym (
    get_or-take k n (drop (off + i) a) 0 h
    ∙ (get_or-drop (off + i) k a 0 ∙ ap (byte a) (omega arith)))

-- A byte of the data, by a piece of the data that it is in.
pub data_byte-bytes :
    (f : ApduFrame) (a : List ℕ) (i n k : ℕ)
    → k < n
    → data_byte a f (i + k) ≡ byte (data_bytes a f i n) k
data_byte-bytes f a i n k h = byte_at_slice f.data_at a i n k h

drop_nil : (i : ℕ) → drop {A = ℕ} i [] ≡ []
drop_nil zero = refl
drop_nil (suc i) = refl

take_nil : (k : ℕ) → take {A = ℕ} k [] ≡ []
take_nil zero = refl
take_nil (suc k) = refl

part_at :
    (at : Option ℕ) (a : List ℕ) (n i k : ℕ)
    → i + k ≤ n
    → elim at [ none ↦ [] | some off ↦ slice (off + i) k a ]
      ≡ slice i k (elim at [ none ↦ [] | some off ↦ slice (off + 0) n a ])
part_at none a n i k h = sym (ap (take k) (drop_nil i) ∙ take_nil k)
part_at (some off) a n i k h = sym (slice-slice off i k n a h)

-- A piece of the data, by the whole of it.
pub data_bytes-part :
    (f : ApduFrame) (a : List ℕ) (n i k : ℕ)
    → i + k ≤ n
    → data_bytes a f i k ≡ slice i k (data_bytes a f 0 n)
data_bytes-part f a n i k h = part_at f.data_at a n i k h
