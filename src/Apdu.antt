-- ===== src/Apdu.antt =====
-- The APDU frame parser: src/asyd/core/apdu_parser.c and apdu_parser.h.
--
-- A parser slot is a record with its receive buffer as a list of bytes. A pointer into the
-- buffer (`data`, `auth_tag`) is its offset, and `none` is NULL. The callers in asyd.c pass no
-- NULL parser and no NULL frame, so the NULL tests have no counterpart here. `size_t` is taken to
-- have 64 bits.
pub mod Locality
mod Cla
pub mod Decode
pub mod Codec
pub mod Sync
pub mod Errors
pub mod Buffer
pub mod Data
pub mod Queue
pub mod Slots
use asys.Base.{
  ℕ, ◌+◌, ◌-◌, ◌/◌, ◌%◌, ◌^◌, ◌≤◌, ◌≡◌, Bool, true, false, not, ◌&&◌, Option, none, some, List, [],
  ◌∷◌, ltb, leb, ◌==◌, if◌then◌else◌, get_or, drop, take, slice, write_at, length, set, replicate,
  get_u16, bit_and,
}

abbrev std_hdr_size : ℕ
std_hdr_size = 5

abbrev ext_hdr_size : ℕ
ext_hdr_size = 7

abbrev std_le_size : ℕ
std_le_size = 1

abbrev ext_le_size : ℕ
ext_le_size = 2

abbrev auth_tag_size : ℕ
auth_tag_size = 16

abbrev max_data_len : ℕ
max_data_len = 65535

-- 65560
abbrev pub max_frame_size : ℕ
max_frame_size = ext_hdr_size + max_data_len + ext_le_size + auth_tag_size

abbrev pub sec_plain : ℕ
sec_plain = 0

abbrev pub sec_signed : ℕ
sec_signed = 1

abbrev pub pool_size : ℕ
pool_size = 8

pub record ApduFrame : Type 0 where
  pub cla : ℕ
  pub ins : ℕ
  pub p1 : ℕ
  pub p2 : ℕ
  pub ver : ℕ
  pub m_bit : Bool
  pub sec : ℕ
  pub ext : Bool
  pub data_len : ℕ
  pub data_at : Option ℕ
  pub le : ℕ
  pub auth_tag : Option ℕ
  pub total_size : ℕ

pub record ApduParser : Type 0 where
  pub buf : List ℕ
  pub filled : ℕ
  pub in_use : Bool

-- The return codes of `apdu_parser_try_parse`; `ready` carries `*out`.
pub data ParseResult : Type 0 where
  ready : ApduFrame → ParseResult
  need_more err_version err_rfu err_ext_lc err_length : ParseResult

abbrev pub byte : List ℕ → ℕ → ℕ
byte buf i = get_or buf i 0

-- The part of `apdu_parser_try_parse` from the total size on.
unfoldable pub parse_sized : List ℕ → ℕ → Bool → ℕ → ℕ → ParseResult
parse_sized buf filled ext hdr_size data_len =
    let cla = byte buf 0 in
    let sec = bit_and cla 0x0C / 2 ^ 2 in
    let le_size = (if ext then ext_le_size else std_le_size) in
    let tag_size = (if sec == sec_plain then 0 else auth_tag_size) in
    let total = hdr_size + data_len + le_size + tag_size in
    let le_offset = hdr_size + data_len in
    if ltb max_frame_size total
    then err_length
    else if ltb filled total
    then need_more
    else ready (record {
      cla = cla;
      ins = byte buf 1;
      p1 = byte buf 2;
      p2 = byte buf 3;
      ver = 0;
      m_bit = not (bit_and cla 0x10 == 0);
      sec = sec;
      ext = ext;
      data_len = data_len;
      data_at = if ltb 0 data_len then some hdr_size else none;
      le =
          if ext
          then get_u16 (byte buf le_offset) (byte buf (le_offset + 1))
          else byte buf le_offset;
      auth_tag = if ltb 0 tag_size then some (le_offset + le_size) else none;
      total_size = total;
    })

-- `apdu_parser_try_parse` on the fields `buf` and `filled`.
unfoldable pub parse_buf : List ℕ → ℕ → ParseResult
parse_buf buf filled =
    let cla = byte buf 0 in
    let ext = not (bit_and cla 0x02 == 0) in
    let hdr_size = (if ext then ext_hdr_size else std_hdr_size) in
    if ltb filled 1
    then need_more
    else if not (bit_and cla 0xE0 == 0)
    then err_version
    else if not (bit_and cla 0x01 == 0)
    then err_rfu
    else if ltb filled hdr_size
    then need_more
    else if not ext
    then parse_sized buf filled ext hdr_size (byte buf 4)
    else if not (byte buf 4 == 0)
    then err_ext_lc
    else parse_sized buf filled ext hdr_size (get_u16 (byte buf 5) (byte buf 6))

unfoldable pub try_parse : ApduParser → ParseResult
try_parse p = parse_buf p.buf p.filled

-- `apdu_parser_recv_ptr`: the offset to write at, and the room there (`size_t` subtraction).
unfoldable pub recv_ptr : ApduParser → ℕ × ℕ
recv_ptr p = (p.filled, (2 ^ 64 + max_frame_size - p.filled) % 2 ^ 64)

unfoldable pub recv_commit : ApduParser → ℕ → ApduParser
recv_commit p n_received = record p { filled = (p.filled + n_received) % 2 ^ 64 }

-- What a receiver does with the pair above: write bytes at the pointer.
unfoldable pub write_received : ApduParser → List ℕ → ApduParser
write_received p bytes = record p { buf = write_at p.buf (recv_ptr p).0 bytes }

unfoldable pub consume : ApduParser → ApduFrame → ApduParser
consume p frame =
    let remaining = p.filled - frame.total_size in
    if leb p.filled frame.total_size then record p { filled = 0 } else record p {
      buf = write_at p.buf 0 (slice frame.total_size remaining p.buf);
      filled = remaining;
    }

unfoldable pub reset : ApduParser → ApduParser
reset p = record p { filled = 0; buf = replicate max_frame_size 0 }

-- A slot whose bytes are all zero.
unfoldable pub zero_parser : ApduParser
zero_parser = record { buf = replicate max_frame_size 0; filled = 0; in_use = false }

-- `apdu_pool_acquire` over the slots from index `i` on: the index of the slot taken.
unfoldable pub acquire_from : ℕ → List ApduParser → Option (ℕ × List ApduParser)
unfolding zero_parser
acquire_from i [] = none
acquire_from i (s ∷ ss) =
    let rest = acquire_from (i + 1) ss in
    if not s.in_use
    then some (i, record zero_parser { in_use = true } ∷ ss)
    else elim rest [ none ↦ none | some (j, ss') ↦ some (j, s ∷ ss') ]

unfoldable pub pool_acquire : List ApduParser → Option (ℕ × List ApduParser)
unfolding acquire_from
pool_acquire pool = acquire_from 0 pool

-- `apdu_pool_release` of the slot at index `i`.
unfoldable pub pool_release : List ApduParser → ℕ → List ApduParser
unfolding zero_parser
pool_release pool i = set pool i zero_parser

-- The bytes received and not yet consumed.
abbrev pub pending : ApduParser → List ℕ
pending p = take p.filled p.buf

-- `frame->data[i]`, read from the buffer of the parser that made the frame. A read through NULL
-- has no meaning in C; the handlers test `data_len` first.
abbrev pub data_byte : List ℕ → ApduFrame → ℕ → ℕ
data_byte buf f i = elim f.data_at [ none ↦ 0 | some off ↦ byte buf (off + i) ]

-- `n` bytes at `frame->data + i`, and the tag's bytes.
abbrev pub data_bytes : List ℕ → ApduFrame → ℕ → ℕ → List ℕ
data_bytes buf f i n = elim f.data_at [ none ↦ [] | some off ↦ slice (off + i) n buf ]

abbrev pub tag_bytes : List ℕ → ApduFrame → List ℕ
tag_bytes buf f = elim f.auth_tag [ none ↦ [] | some off ↦ slice off auth_tag_size buf ]

-- Every slot keeps its buffer's size and its count within it.
pub record IsValid (p : ApduParser) : Type 0 where
  pub size : length p.buf ≡ max_frame_size
  pub within : p.filled ≤ max_frame_size
