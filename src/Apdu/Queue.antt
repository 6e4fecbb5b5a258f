-- ===== src/Apdu/Queue.antt =====
-- The parser slot as a queue of bytes: src/asyd/core/apdu_parser.c against an abstract machine that
-- has no buffer, no offsets and no counts.
use asys.Base.{
  ℕ, ◌+◌, ◌≤◌, ◌≡◌, refl, sym, ap, ap₂, subst, ◌∙◌, List, [], ◌∷◌, ◌++◌, drop, length, arith,
}
use asys.Apdu.{
  ApduParser, ParseResult, ready, need_more, err_version, err_rfu, err_ext_lc, err_length, IsValid,
  pending, parse_buf, try_parse, recv_ptr, consume, max_frame_size,
}
use asys.Apdu.Locality.{try_parse_local}
use asys.Apdu.Buffer.{receive, receive_lem, consume_lem, recv_ptr_room, length-pending}

-- Bytes are received, or a frame is asked for and taken if there is one.
pub data Op : Type 0 where
  receives : (bytes : List ℕ) → Op
  takes : Op

-- The queue without the frame that was found at its front.
unfoldable pub without : ParseResult → List ℕ → List ℕ
without (ready f) q = drop f.total_size q
without _ q = q

unfoldable pub consumed : ParseResult → ApduParser → ApduParser
consumed (ready f) p = consume p f
consumed _ p = p

-- The outcomes of the parses, and the queue in the end.
unfoldable pub run_queue : List Op → List ℕ → List ParseResult × List ℕ
unfolding without
run_queue [] q = ([], q)
run_queue (receives bytes ∷ ops) q = run_queue ops (q ++ bytes)
run_queue (takes ∷ ops) q =
    let result = parse_buf q (length q) in
    let (results, q') = run_queue ops (without result q) in (result ∷ results, q')

-- The same operations on a slot.
unfoldable pub run_slot : List Op → ApduParser → List ParseResult × ApduParser
unfolding consumed
run_slot [] p = ([], p)
run_slot (receives bytes ∷ ops) p = run_slot ops (receive p bytes)
run_slot (takes ∷ ops) p =
    let result = try_parse p in
    let (results, p') = run_slot ops (consumed result p) in (result ∷ results, p')

-- No more is received than the queue's bytes leave room for.
unfoldable pub Fits : List Op → List ℕ → Type 0
unfolding without
Fits [] q = Unit
Fits (receives bytes ∷ ops) q = (length q + length bytes ≤ max_frame_size) × Fits ops (q ++ bytes)
Fits (takes ∷ ops) q = Fits ops (without (parse_buf q (length q)) q)

consumed_lem :
    (result : ParseResult) (p : ApduParser)
    → IsValid p
    → (pending (consumed result p) ≡ without result (pending p)) × IsValid (consumed result p)
unfolding consumed without
consumed_lem (ready f) p v = consume_lem f v
consumed_lem need_more p v = (refl, v)
consumed_lem err_version p v = (refl, v)
consumed_lem err_rfu p v = (refl, v)
consumed_lem err_ext_lc p v = (refl, v)
consumed_lem err_length p v = (refl, v)

length-pending_valid : (p : ApduParser) → IsValid p → length (pending p) ≡ p.filled
length-pending_valid p v = length-pending p (omega (arith, v.size, v.within))

try_parse_queue :
    (p : ApduParser) → IsValid p → try_parse p ≡ parse_buf (pending p) (length (pending p))
try_parse_queue p v =
    try_parse_local p ∙ ap (parse_buf (pending p)) (sym (length-pending_valid p v))

-- What a slot gives is what the queue gives.
abbrev pub Refines : List ParseResult × ApduParser → List ParseResult × List ℕ → Type 0
Refines (results, p) (results', q) = (results ≡ results') × (pending p ≡ q) × IsValid p

run_queue-Refines :
    (ops : List Op) (p : ApduParser) (q : List ℕ)
    → IsValid p
    → pending p ≡ q
    → Fits ops q
    → Refines (run_slot ops p) (run_queue ops q)
unfolding run_slot run_queue Fits
run_queue-Refines [] p q v e ok = (refl, e, v)
run_queue-Refines (receives bytes ∷ ops) p q v e (room, ok) =
    let size = length-pending_valid p v in
    let fits : length bytes ≤ (recv_ptr p).1 =
      subst (λ r. length bytes ≤ r.1) (sym (recv_ptr_room v))
        (omega (arith, room, size, ap length e)) in
    let (same, v') = receive_lem bytes v fits in
    run_queue-Refines ops (receive p bytes) (q ++ bytes) v' (same ∙ ap (λ l. l ++ bytes) e) ok
run_queue-Refines (takes ∷ ops) p q v e ok =
    let same = try_parse_queue p v ∙ ap (λ l. parse_buf l (length l)) e in
    let (left, v') = consumed_lem (try_parse p) p v in
    let (results, queue, valid) =
      run_queue-Refines ops (consumed (try_parse p) p) (without (parse_buf q (length q)) q) v'
        (left ∙ ap₂ without same e) ok in
    (ap₂ ◌∷◌ same results, queue, valid)

-- A valid slot refines the queue of its pending bytes: whatever bytes are received, in whatever
-- pieces that fit the room, and whenever frames are asked for and taken, the outcomes are those of
-- the queue, which knows no buffer, and the slot's pending bytes are the queue's.
pub run_slot-Refines :
    (ops : List Op) (p : ApduParser)
    → IsValid p
    → Fits ops (pending p)
    → Refines (run_slot ops p) (run_queue ops (pending p))
run_slot-Refines ops p v = run_queue-Refines ops p (pending p) v refl
