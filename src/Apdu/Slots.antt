-- ===== src/Apdu/Slots.antt =====
-- The static pool of parser slots: apdu_pool_acquire and apdu_pool_release.
use asys.Base.{
  ℕ, suc, ◌+◌, ◌<◌, ◌≡◌, refl, ap, ◌∙◌, true, false, none, some, List, [], ◌∷◌, get_or, set, length,
  All, arith, Option-cases, inl, inr, Bool-cases, ◌↔◌, zero, ◌≢◌, sym, length-set, get_or-set_self,
}
use asys.Apdu.{ApduParser, acquire_from, pool_acquire, pool_release, zero_parser}

abbrev pub slot : List ApduParser → ℕ → ApduParser
slot pool i = get_or pool i zero_parser

abbrev pub taken : ApduParser
taken = record zero_parser { in_use = true }

-- The slot `j` was the first free one from index `i` on, and it alone has changed.
record Acquired (i : ℕ) (pool : List ApduParser) (j : ℕ) (pool' : List ApduParser) : Type 0 where
  offset : ℕ
  place : j ≡ i + offset
  in_range : offset < length pool
  was_free : (slot pool offset).in_use ≡ false
  changed : pool' ≡ set pool offset taken
  first : (k : ℕ) → k < offset → (slot pool k).in_use ≡ true

acquire_from-Acquired :
    (i : ℕ) (pool : List ApduParser) {j : ℕ} {pool' : List ApduParser}
    → acquire_from i pool ≡ some (j, pool')
    → Acquired i pool j pool'
unfolding acquire_from
acquire_from-Acquired i [] e = cc
acquire_from-Acquired i (s ∷ ss) e = elim (Bool-cases s.in_use) [
  | inr free ↦ record {
    offset = 0;
    place = ground arith;
    in_range = omega arith;
    was_free = free;
    changed = ground arith;
    first = λ k h. absurd (omega arith);
  }
  | inl busy ↦ elim (Option-cases (acquire_from (i + 1) ss)) [
    | inl full ↦ ground arith
    | inr ((j', ss'), found) ↦
        let r = acquire_from-Acquired (i + 1) ss found in
        record {
          offset = suc r.offset;
          place = ground (arith, r.place);
          in_range = omega (arith, r.in_range);
          was_free = r.was_free;
          changed = ground (arith, r.changed);
          first = below s ss busy r.offset r.first;
        }
  ]
]
  where
    below :
        (s : ApduParser) (ss : List ApduParser)
        → s.in_use ≡ true
        → (n : ℕ) → ((k : ℕ) → k < n → (slot ss k).in_use ≡ true)
        → (k : ℕ) → k < suc n
        → (slot (s ∷ ss) k).in_use ≡ true
    below s ss busy n h zero lt = busy
    below s ss busy n h (suc k) lt = h k (omega arith)

acquire_from-none :
    (i : ℕ) (pool : List ApduParser)
    → (acquire_from i pool ≡ none) ↔ All (λ s. s.in_use ≡ true) pool
unfolding acquire_from
acquire_from-none i [] = ((λ e. tt), (λ h. refl))
acquire_from-none i (s ∷ ss) = (
  (λ e. ground (arith, acquire_from-none (i + 1) ss)),
  (λ h. ground (arith, (acquire_from-none (i + 1) ss).1 h.1)),
)

-- `apdu_pool_acquire` takes the first slot that is not in use, zeroed and marked, and leaves every
-- other slot as it was.
pub acquire-first :
    (pool : List ApduParser) (i : ℕ) (pool' : List ApduParser)
    → pool_acquire pool ≡ some (i, pool')
    → (i < length pool)
      × ((slot pool i).in_use ≡ false)
      × (pool' ≡ set pool i taken)
      × ((k : ℕ) → k < i → (slot pool k).in_use ≡ true)
unfolding pool_acquire
acquire-first pool i pool' e =
    let r = acquire_from-Acquired 0 pool e in
    let same : r.offset ≡ i = omega (arith, r.place) in
    rw (← same) (r.in_range, r.was_free, r.changed, r.first)

-- It fails exactly when every slot is in use.
acquire_exhausted :
    (pool : List ApduParser) → (pool_acquire pool ≡ none) ↔ All (λ s. s.in_use ≡ true) pool
unfolding pool_acquire
acquire_exhausted pool = acquire_from-none 0 pool

All-slot :
    (pool : List ApduParser) (i : ℕ)
    → All (λ s. s.in_use ≡ true) pool
    → i < length pool
    → (slot pool i).in_use ≡ true
All-slot [] i h lt = absurd (omega arith)
All-slot (s ∷ ss) zero h lt = h.0
All-slot (s ∷ ss) (suc i) h lt = All-slot ss i h.1 (omega arith)

zero_parser_free : zero_parser.in_use ≢ true
unfolding zero_parser
zero_parser_free h = cc

pub set-set :
    (pool : List ApduParser) (i : ℕ) (a b : ApduParser) → set (set pool i a) i b ≡ set pool i b
set-set [] i a b = refl
set-set (x ∷ pool) zero a b = refl
set-set (x ∷ pool) (suc i) a b = ap (◌∷◌ x) (set-set pool i a b)

-- Releasing the slot that was acquired leaves the pool as before, with that slot's bytes zeroed
-- and the slot free for the next connection.
pub release-acquire :
    (pool : List ApduParser) (i : ℕ) (pool' : List ApduParser)
    → pool_acquire pool ≡ some (i, pool')
    → (pool_release pool' i ≡ set pool i zero_parser) × (pool_acquire (pool_release pool' i) ≢ none)
unfolding pool_release
release-acquire pool i pool' e =
    let (lt, free, changed, first) = acquire-first pool i pool' e in
    let back : set pool' i zero_parser ≡ set pool i zero_parser =
      rw changed (set-set pool i taken zero_parser) in
    let size : length (set pool i zero_parser) ≡ length pool = length-set pool i zero_parser in
    let free_again : slot (set pool i zero_parser) i ≡ zero_parser =
      get_or-set_self pool i zero_parser zero_parser lt in
    let released : pool_acquire (set pool' i zero_parser) ≢ none = λ h. zero_parser_free (
      ap (λ s. s.in_use) (sym free_again)
      ∙ All-slot (set pool i zero_parser) i
          ((acquire_exhausted (set pool i zero_parser)).0 (ap pool_acquire (sym back) ∙ h))
          (omega (arith, size))) in
    (back, released)
