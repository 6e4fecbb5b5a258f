-- ===== src/Apdu/Sync.antt =====
-- Frame synchronisation: the parser's outcome on any pending bytes, both ways.
use asys.Base.{
  ℕ, ◌/◌, ◌%◌, ◌≤◌, ◌<◌, ◌≡◌, refl, sym, ap, ◌∙◌, List, [], ◌∷◌, ◌++◌, ◌==◌, leb, if◌then◌else◌,
  length, length-append, Bool-cases, inl, inr, All, IsByte, arith, drop, append_assoc,
  take-append-drop, drop-append_eq, get_or-take, get_or-append_lt,
}
use asys.Apdu.{ApduFrame, ready, need_more, byte, try_parse, parse_buf, pending}
use asys.Apdu.{ApduParser, IsValid, consume, data_bytes, tag_bytes}
use asys.Apdu.Locality.{parse_buf-Agree, try_parse_local}
use asys.Apdu.Codec.{Message, IsMessage, encode, frame_of, parse-encode, encode_body, encode_tag}
use asys.Apdu.Buffer.{length-pending, consume_lem}
use asys.Apdu.Decode.{IsEncoded, ready_std, ready_ext, starts_std, starts_ext}

byte-pending :
    (p : ApduParser) (more : List ℕ) (i : ℕ)
    → i < p.filled
    → p.filled ≤ length p.buf
    → byte (pending p ++ more) i ≡ byte p.buf i
byte-pending p more i lt h =
    get_or-append_lt (pending p) more i 0 (rw (length-pending p h) lt)
    ∙ get_or-take i p.filled p.buf 0 lt

-- Whenever the parser reports a frame, the pending bytes start with a well-formed message.
starts_with_message :
    (bytes : List ℕ) {f : ApduFrame}
    → All IsByte bytes
    → parse_buf bytes (length bytes) ≡ ready f
    → IsEncoded bytes
unfolding parse_buf
starts_with_message [] h e = ground arith
starts_with_message (c ∷ []) h e = ground arith
starts_with_message (c ∷ i ∷ []) h e = ground arith
starts_with_message (c ∷ i ∷ p ∷ []) h e = ground arith
starts_with_message (c ∷ i ∷ p ∷ q ∷ []) h e = ground arith
starts_with_message (c ∷ i ∷ p ∷ q ∷ l ∷ r) h e = elim (Bool-cases (c / 2 % 2 == 0)) [
  | inl std ↦
      let ext : c / 2 % 2 ≡ 0 = ground arith in
      starts_std c i p q l r h ext (ready_std c i p q l r e h.0 ext)
  | inr not_std ↦
      let ext : c / 2 % 2 ≡ 1 = ground arith in
      starts_ext c i p q l r h ext (ready_ext c i p q l r e h.0 ext)
]

-- The frame that is reported is that message's frame.
parse_ready :
    (bytes : List ℕ) {f : ApduFrame}
    → All IsByte bytes
    → parse_buf bytes (length bytes) ≡ ready f
    → (m : Message) × (rest : List ℕ) × IsMessage m × (encode m ++ rest ≡ bytes) × (f ≡ frame_of m)
parse_ready bytes h e =
    let (m, (v, (rest, split))) = starts_with_message bytes h e in
    (
      m,
      rest,
      v,
      split,
      ground (
        arith,
        split,
        parse-encode m rest (length bytes) v,
        ap length split,
        length-append (encode m) rest,
      ),
    )

-- An encoded message is delivered in any pieces: while the pending bytes are a proper part of it
-- the parser asks for more, and as soon as they hold it in full it reports the message's frame.
pub try_parse-pieces :
    (p : ApduParser) (m : Message) (more rest : List ℕ)
    → IsMessage m
    → pending p ++ more ≡ encode m ++ rest
    → p.filled ≤ length p.buf
    → try_parse p ≡ (if leb (length (encode m)) p.filled then ready (frame_of m) else need_more)
unfolding try_parse
try_parse-pieces p m more rest v split h =
    parse_buf-Agree p.buf (pending p ++ more) p.filled (λ i lt. sym (byte-pending p more i lt h))
    ∙ rw split (parse-encode m rest p.filled v)

-- What is at hand once the pending bytes are known to start with the message of a frame.
frame_view :
    (p : ApduParser) {f : ApduFrame} (m : Message) (rest : List ℕ)
    → IsValid p
    → IsMessage m
    → encode m ++ rest ≡ pending p
    → f ≡ frame_of m
    → (pending p ≡ encode m ++ pending (consume p f))
      × (f ≡ frame_of m)
      × (data_bytes p.buf f 0 f.data_len ≡ m.body)
      × (tag_bytes p.buf f ≡ m.tag)
frame_view p m rest v ok split same =
    let tail = drop p.filled p.buf in
    let whole : p.buf ≡ encode m ++ (rest ++ tail) =
      sym (take-append-drop p.filled p.buf)
      ∙ ap (λ s. s ++ tail) (sym split)
      ∙ append_assoc (encode m) rest tail in
    let left : pending (consume p (frame_of m)) ≡ rest =
      (consume_lem (frame_of m) v).0
      ∙ (ap (drop (length (encode m))) (sym split)
          ∙ drop-append_eq (length (encode m)) (encode m) rest refl) in
    (
      rw same (sym split ∙ ap (λ s. encode m ++ s) (sym left)),
      same,
      rw same (
          ap (λ b. data_bytes b (frame_of m) 0 (length m.body)) whole
          ∙ encode_body m (rest ++ tail)),
      rw same (ap (λ b. tag_bytes b (frame_of m)) whole ∙ encode_tag m (rest ++ tail) ok),
    )

-- A reported frame is the frame of a well-formed message with which the pending bytes start; its
-- data and tag pointers select that message's bytes, and consuming it leaves the rest.
pub try_parse-ready :
    (p : ApduParser) {f : ApduFrame}
    → IsValid p
    → All IsByte (pending p)
    → try_parse p ≡ ready f
    → (m : Message) × IsMessage m
      × ((pending p ≡ encode m ++ pending (consume p f))
          × (f ≡ frame_of m)
          × (data_bytes p.buf f 0 f.data_len ≡ m.body)
          × (tag_bytes p.buf f ≡ m.tag))
try_parse-ready p {f} v h e =
    let n : length (pending p) ≡ p.filled = length-pending p (omega arith) in
    let e' : parse_buf (pending p) (length (pending p)) ≡ ready f =
      rw n (sym (try_parse_local p) ∙ e) in
    let (m, rest, ok, split, same) = parse_ready (pending p) h e' in
    (m, ok, frame_view p m rest v ok split same)
