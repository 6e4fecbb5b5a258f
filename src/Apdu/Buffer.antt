-- ===== src/Apdu/Buffer.antt =====
-- The receive buffer as a queue of bytes: apdu_parser_recv_ptr, recv_commit, consume and reset.
use asys.Base.{
  ℕ, ◌+◌, ◌-◌, ◌%◌, ◌^◌, ◌≤◌, ◌≡◌, refl, sym, ap, ◌∙◌, List, [], ◌++◌, leb, take, drop, slice,
  length, write_at, length-append, length-take, length-drop, length-replicate, take-append_ge,
  take-append_eq, drop_past, drop-take, Bool-cases, inl, inr, arith,
}
use asys.Apdu.{
  ApduParser, ApduFrame, IsValid, pending, recv_ptr, recv_commit, write_received, consume, reset,
  zero_parser, max_frame_size,
}

-- One `recv` into the pointer and the `commit` that follows it.
abbrev pub receive : ApduParser → List ℕ → ApduParser
receive p bytes = recv_commit (write_received p bytes) (length bytes)

pub length-write_at :
    (buf : List ℕ) (i : ℕ) (src : List ℕ)
    → i + length src ≤ length buf
    → length (write_at buf i src) ≡ length buf
length-write_at buf i src h = omega (
  arith,
  length-append (take i buf) (src ++ drop (i + length src) buf),
  length-append src (drop (i + length src) buf),
  length-take i buf,
  length-drop (i + length src) buf,
)

take-write_at :
    (buf : List ℕ) (i : ℕ) (src : List ℕ)
    → i ≤ length buf
    → take (i + length src) (write_at buf i src) ≡ take i buf ++ src
take-write_at buf i src h =
    let e : i + length src ≡ length (take i buf) + length src = omega (arith, length-take i buf) in
    rw e (
      take-append_ge (length src) (take i buf) (src ++ drop (length (take i buf) + length src) buf)
      ∙ ap (◌++◌ (take i buf)) (take-append_eq (length src) src _ refl))

pub length-pending : (p : ApduParser) → p.filled ≤ length p.buf → length (pending p) ≡ p.filled
length-pending p h = omega (arith, length-take p.filled p.buf)

-- The room that is offered is the rest of the buffer, without wrap-around.
pub recv_ptr_room :
    {p : ApduParser} → IsValid p → recv_ptr p ≡ (p.filled, max_frame_size - p.filled)
unfolding recv_ptr
recv_ptr_room {p} v = ap (λ k. (p.filled, k)) (omega arith)

-- Bytes that fit the room are appended to the pending bytes, and the slot stays valid.
pub receive_lem :
    {p : ApduParser} (bytes : List ℕ)
    → IsValid p
    → length bytes ≤ (recv_ptr p).1
    → (pending (receive p bytes) ≡ pending p ++ bytes) × IsValid (receive p bytes)
unfolding recv_ptr recv_commit write_received
receive_lem {p} bytes v h =
    let n : (p.filled + length bytes) % 2 ^ 64 ≡ p.filled + length bytes = omega arith in
    (
      rw n (take-write_at p.buf p.filled bytes (omega arith)),
      omega (arith, length-write_at p.buf p.filled bytes),
    )

-- Consuming a frame drops its bytes, and no others, from the pending ones; the slot stays valid.
pub consume_lem :
    {p : ApduParser} (f : ApduFrame)
    → IsValid p
    → (pending (consume p f) ≡ drop f.total_size (pending p)) × IsValid (consume p f)
unfolding consume
consume_lem {p} f v = elim (Bool-cases (leb p.filled f.total_size)) [
  | inl all ↦
      rw all
        (sym (drop_past f.total_size (pending p) (ground (arith, length-pending p))), omega arith)
  | inr part ↦
      let n = p.filled - f.total_size in
      let src = slice f.total_size n p.buf in
      let len : length src ≡ n =
        ground (arith, length-take n (drop f.total_size p.buf), length-drop f.total_size p.buf) in
      rw part (
        take-append_eq n src (drop (0 + length src) p.buf) len
            ∙ sym (drop-take f.total_size p.filled p.buf),
        ground (arith, length-write_at p.buf 0 src),
      )
]

-- A slot after `reset`, or fresh from the pool, is valid and holds no bytes.
pub reset_lem : (p : ApduParser) → (pending (reset p) ≡ []) × IsValid (reset p)
unfolding reset
reset_lem p = (refl, omega (arith, length-replicate {A = ℕ} max_frame_size 0))

pub zero_parser_lem : (pending zero_parser ≡ []) × IsValid zero_parser
unfolding zero_parser
zero_parser_lem = (refl, omega (arith, length-replicate {A = ℕ} max_frame_size 0))
