-- ===== src/Apdu/Errors.antt =====
-- What apdu_parser_try_parse refuses.
use asys.Base.{
  ℕ, ◌%◌, ◌≤◌, ◌<◌, ◌≡◌, ◌≢◌, ◌↔◌, ◌⊎◌, Bool, true, false, List, if◌then◌else◌, get_u16, arith,
}
use asys.Apdu.{
  ApduFrame, ApduParser, IsValid, recv_ptr, ready, need_more, err_version, err_rfu, err_ext_lc,
  err_length, byte, try_parse, parse_buf, parse_sized,
}
use asys.Apdu.Cla.{cla_masks}

-- From the total size on, no error is left.
parse_sized_ok :
    (buf : List ℕ) (n : ℕ) (ext : Bool) (dl : ℕ)
    → dl < 65536
    → (parse_sized buf n ext (if ext then 7 else 5) dl ≡ need_more)
      ⊎ ((f : ApduFrame) × (parse_sized buf n ext (if ext then 7 else 5) dl ≡ ready f))
unfolding parse_sized
parse_sized_ok buf n true dl h = ground arith
parse_sized_ok buf n false dl h = ground arith

module _ (buf : List ℕ) (n : ℕ) (small : byte buf 0 < 256) where
  refused_version : (0 < n) × (32 ≤ byte buf 0) → parse_buf buf n ≡ err_version
  unfolding parse_buf
  refused_version h = ground (arith, cla_masks (byte buf 0) small)

  refused_rfu : (0 < n) × (byte buf 0 < 32) × (byte buf 0 % 2 ≡ 1) → parse_buf buf n ≡ err_rfu
  unfolding parse_buf
  refused_rfu h = ground (arith, cla_masks (byte buf 0) small)

  refused_ext_lc :
      (7 ≤ n) × (byte buf 0 < 32) × (byte buf 0 % 4 ≡ 2) × (0 < byte buf 4)
      → parse_buf buf n ≡ err_ext_lc
  unfolding parse_buf
  refused_ext_lc h = ground (arith, cla_masks (byte buf 0) small)

  module _ (b4 : byte buf 4 < 256) (b5 : byte buf 5 < 256) (b6 : byte buf 6 < 256) where
    version_refused : parse_buf buf n ≡ err_version → (0 < n) × (32 ≤ byte buf 0)
    unfolding parse_buf
    version_refused e = ground (
      arith,
      cla_masks (byte buf 0) small,
      parse_sized_ok buf n false (byte buf 4) (omega arith),
      parse_sized_ok buf n true (get_u16 (byte buf 5) (byte buf 6)) (omega arith),
    )

    rfu_refused : parse_buf buf n ≡ err_rfu → (0 < n) × (byte buf 0 < 32) × (byte buf 0 % 2 ≡ 1)
    unfolding parse_buf
    rfu_refused e = ground (
      arith,
      cla_masks (byte buf 0) small,
      parse_sized_ok buf n false (byte buf 4) (omega arith),
      parse_sized_ok buf n true (get_u16 (byte buf 5) (byte buf 6)) (omega arith),
    )

    ext_lc_refused :
        parse_buf buf n ≡ err_ext_lc
        → (7 ≤ n) × (byte buf 0 < 32) × (byte buf 0 % 4 ≡ 2) × (0 < byte buf 4)
    unfolding parse_buf
    ext_lc_refused e = ground (
      arith,
      cla_masks (byte buf 0) small,
      parse_sized_ok buf n false (byte buf 4) (omega arith),
      parse_sized_ok buf n true (get_u16 (byte buf 5) (byte buf 6)) (omega arith),
    )

    length_not_refused : parse_buf buf n ≢ err_length
    unfolding parse_buf
    length_not_refused e = ground (
      arith,
      parse_sized_ok buf n false (byte buf 4) (omega arith),
      parse_sized_ok buf n true (get_u16 (byte buf 5) (byte buf 6)) (omega arith),
    )

-- Which bytes are refused, and how: exactly when the first byte has a version or the reserved bit,
-- or an extended header has a placeholder that is not zero. The length error does not occur.
pub try_parse_errors :
    (p : ApduParser)
    → byte p.buf 0 < 256
    → byte p.buf 4 < 256
    → byte p.buf 5 < 256
    → byte p.buf 6 < 256
    → ((try_parse p ≡ err_version) ↔ ((0 < p.filled) × (32 ≤ byte p.buf 0)))
      × ((try_parse p ≡ err_rfu) ↔ ((0 < p.filled) × (byte p.buf 0 < 32) × (byte p.buf 0 % 2 ≡ 1)))
      × ((try_parse p ≡ err_ext_lc)
          ↔ ((7 ≤ p.filled) × (byte p.buf 0 < 32) × (byte p.buf 0 % 4 ≡ 2) × (0 < byte p.buf 4)))
      × (try_parse p ≢ err_length)
unfolding try_parse
try_parse_errors p h0 h4 h5 h6 = (
  (version_refused p.buf p.filled h0 h4 h5 h6, refused_version p.buf p.filled h0),
  (rfu_refused p.buf p.filled h0 h4 h5 h6, refused_rfu p.buf p.filled h0),
  (ext_lc_refused p.buf p.filled h0 h4 h5 h6, refused_ext_lc p.buf p.filled h0),
  length_not_refused p.buf p.filled h0 h4 h5 h6,
)

parse_need_more :
    (buf : List ℕ) (n : ℕ)
    → byte buf 4 < 256
    → byte buf 5 < 256
    → byte buf 6 < 256
    → parse_buf buf n ≡ need_more
    → n < 65560
unfolding parse_buf parse_sized
parse_need_more buf n b4 b5 b6 e = ground arith

-- A slot that waits for more bytes has room for them: no connection is stuck with a full buffer.
pub need_more_room :
    {p : ApduParser}
    → IsValid p
    → byte p.buf 4 < 256
    → byte p.buf 5 < 256
    → byte p.buf 6 < 256
    → try_parse p ≡ need_more
    → 0 < (recv_ptr p).1
unfolding try_parse recv_ptr
need_more_room {p} v b4 b5 b6 e = omega (arith, parse_need_more p.buf p.filled b4 b5 b6 e)
