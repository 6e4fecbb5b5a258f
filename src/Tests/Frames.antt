-- ===== src/Tests/Frames.antt =====
-- Examples for the frame parser (src/asyd/core/apdu_parser.c) and the tag (auth_verify.c).
use asys.Base.{
  ℕ, ◌%◌, ◌≤◌, ◌<◌, ◌≡◌, ◌≢◌, ◌↔◌, refl, ap, true, false, some, List, [], ◌∷◌, ◌++◌, leb,
  if◌then◌else◌, length, set, All, IsByte, arith,
}
use asys.Apdu.{
  ApduParser, ready, need_more, err_version, err_rfu, err_ext_lc, err_length, IsValid, byte,
  parse_buf, try_parse, recv_ptr, recv_commit, write_received, acquire_from, consume, pending,
  data_bytes, tag_bytes, pool_acquire, zero_parser,
}
use asys.Apdu.Queue.{
  Op, receives, takes, without, run_queue, run_slot, Fits, Refines, run_slot-Refines,
}
use asys.Apdu.Codec.{Message, IsMessage, encode, frame_of, parse-encode}
use asys.Apdu.Sync.{try_parse-pieces, try_parse-ready}
use asys.Apdu.Errors.{try_parse_errors}
use asys.Apdu.Buffer.{receive, receive_lem, zero_parser_lem}
use asys.Apdu.Slots.{slot, taken, acquire-first}

-- A TASK_QUERY for handle 0x00010002.
abbrev pub query : Message
query = record {
  ins = 0x11;
  p1 = 0;
  p2 = 0;
  m_bit = false;
  sec = 0;
  ext = false;
  body = 0 ∷ 1 ∷ 0 ∷ 2 ∷ [];
  le = 3;
  tag = [];
}

pub query-IsMessage : IsMessage query
query-IsMessage = record {
  sec_range = omega arith;
  body_size = omega arith;
  le_size = omega arith;
  tag_size = refl;
}

parse-encode_example :
    parse_buf (encode query ++ 0xFF ∷ []) 9
    ≡ (if leb (length (encode query)) 9 then ready (frame_of query) else need_more)
parse-encode_example = parse-encode query (0xFF ∷ []) 9 query-IsMessage

-- A slot that holds a byte with a version, another with the request in full.
abbrev small : List ℕ → ApduParser
small bytes = record { buf = bytes; filled = length bytes; in_use = true }

try_parse_errors_example :
    let p = small (0x20 ∷ []) in
    ((try_parse p ≡ err_version) ↔ ((0 < p.filled) × (32 ≤ byte p.buf 0)))
    × ((try_parse p ≡ err_rfu) ↔ ((0 < p.filled) × (byte p.buf 0 < 32) × (byte p.buf 0 % 2 ≡ 1)))
    × ((try_parse p ≡ err_ext_lc)
        ↔ ((7 ≤ p.filled) × (byte p.buf 0 < 32) × (byte p.buf 0 % 4 ≡ 2) × (0 < byte p.buf 4)))
    × (try_parse p ≢ err_length)
try_parse_errors_example =
    try_parse_errors (small (0x20 ∷ [])) (omega arith) (omega arith) (omega arith) (omega arith)

query_bytes :
    pending (small (0 ∷ 0x11 ∷ 0 ∷ [])) ++ 0 ∷ 4 ∷ 0 ∷ 1 ∷ 0 ∷ 2 ∷ 3 ∷ [] ≡ encode query ++ []
unfolding encode
query_bytes = refl

try_parse-pieces_example :
    try_parse (small (0 ∷ 0x11 ∷ 0 ∷ []))
    ≡ (if leb (length (encode query)) 3 then ready (frame_of query) else need_more)
try_parse-pieces_example =
    try_parse-pieces (small (0 ∷ 0x11 ∷ 0 ∷ [])) query (0 ∷ 4 ∷ 0 ∷ 1 ∷ 0 ∷ 2 ∷ 3 ∷ []) []
      query-IsMessage query_bytes (omega arith)

-- The request received by a fresh slot.
received_slot : ApduParser
received_slot = receive zero_parser (encode query)

room : length (encode query) ≤ (recv_ptr zero_parser).1
unfolding encode recv_ptr zero_parser
room = omega arith

received_slot_lem : (pending received_slot ≡ encode query) × IsValid received_slot
unfolding received_slot zero_parser
received_slot_lem = receive_lem (encode query) zero_parser_lem.1 room

receive_lem_example :
    (pending (receive zero_parser (encode query)) ≡ pending zero_parser ++ encode query)
    × IsValid (receive zero_parser (encode query))
receive_lem_example = receive_lem (encode query) zero_parser_lem.1 room

query_small : All IsByte (encode query)
unfolding encode
query_small = omega arith

received_bytes : All IsByte (pending received_slot)
received_bytes = rw received_slot_lem.0 query_small

received_query : try_parse received_slot ≡ ready (frame_of query)
unfolding encode received_slot recv_commit write_received zero_parser
received_query =
    try_parse-pieces received_slot query [] [] query-IsMessage
      (ap (λ l. l ++ []) received_slot_lem.0) (omega (arith, received_slot_lem.1.size))

try_parse-ready_example :
    (m : Message) × IsMessage m
    × ((pending received_slot ≡ encode m ++ pending (consume received_slot (frame_of query)))
        × (frame_of query ≡ frame_of m)
        × (data_bytes received_slot.buf (frame_of query) 0 4 ≡ m.body)
        × (tag_bytes received_slot.buf (frame_of query) ≡ m.tag))
try_parse-ready_example =
    try_parse-ready received_slot received_slot_lem.1 received_bytes received_query

-- One slot is busy, one is free.
abbrev busy : ApduParser
busy = record zero_parser { in_use = true }

second_slot : pool_acquire (busy ∷ zero_parser ∷ []) ≡ some (1, busy ∷ taken ∷ [])
unfolding pool_acquire acquire_from zero_parser
second_slot = refl

acquire-first_example :
    (1 < length (busy ∷ zero_parser ∷ []))
    × ((slot (busy ∷ zero_parser ∷ []) 1).in_use ≡ false)
    × (busy ∷ taken ∷ [] ≡ set (busy ∷ zero_parser ∷ []) 1 taken)
    × ((k : ℕ) → k < 1 → (slot (busy ∷ zero_parser ∷ []) k).in_use ≡ true)
acquire-first_example = acquire-first (busy ∷ zero_parser ∷ []) 1 (busy ∷ taken ∷ []) second_slot

-- The request in two pieces, with a parse after each.
abbrev ops : List Op
ops = receives (0 ∷ 0x11 ∷ 0 ∷ []) ∷ takes ∷ receives (0 ∷ 0 ∷ 7 ∷ []) ∷ takes ∷ []

ops-Fits : Fits ops (pending zero_parser)
unfolding Fits without parse_buf zero_parser
ops-Fits = (omega arith, (omega arith, tt))

run_slot-Refines_example : Refines (run_slot ops zero_parser) (run_queue ops (pending zero_parser))
run_slot-Refines_example = run_slot-Refines ops zero_parser zero_parser_lem.1 ops-Fits
