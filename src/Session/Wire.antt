-- ===== src/Session/Wire.antt =====
-- Packets with their lengths before them on a socket: the framing of the packet loop in
-- src/asyd/asyd.c.
use asys.Base.{
  ℕ, ◌+◌, ◌≤◌, ◌<◌, ◌≡◌, ◌||◌, refl, ap, ◌∙◌, false, some, List, [], ◌∷◌, ◌++◌, take, drop,
  take-append_eq, drop-append_eq, length, length-append, ltb, get_or, get_u16, put_u16, arith,
}
use asys.Crypto.{Crypto}
use asys.Apdu.{max_frame_size}
use asys.Noise.{mac_size}
use asys.Dispatcher.{Handlers}
use asys.Session.{Conn, recv_exact}
use asys.Session.Receive.{IsOpen, Delivers, joined, recv_exact_lem}
use asys.Session.Packet.{PassIo, handle_cipher, handle_packet}

-- The bytes that carry a list of packets.
unfoldable pub wire : List (List ℕ) → List ℕ
wire [] = []
wire (p ∷ ps) = put_u16 (length p) ++ (p ++ wire ps)

-- `recv_exact` for the first part of what the socket brings.
pub recv_exact_part :
    (n : ℕ) (part rest : List ℕ) (socket : List (List ℕ))
    → length part ≡ n
    → IsOpen socket
    → joined socket ≡ part ++ rest
    → let (got, socket') = recv_exact n socket in
      (got ≡ some part) × IsOpen socket' × (joined socket' ≡ rest)
unfolding Delivers
recv_exact_part n part rest socket size ok e =
    let (ok', enough, short) = recv_exact_lem n socket ok in
    let (value, left) = enough (omega (arith, size, ap length e, length-append part rest)) in
    (
      value ∙ ap some (ap (take n) e ∙ take-append_eq n part rest size),
      ok',
      left ∙ (ap (drop n) e ∙ drop-append_eq n part rest size),
    )

get-put : (n : ℕ) → n < 65536 → get_u16 (get_or (put_u16 n) 0 0) (get_or (put_u16 n) 1 0) ≡ n
get-put n h = omega arith

module _ (c : Crypto) (h : Handlers) where
  -- The pass reads the next packet, in however many chunks it comes, and hands it on.
  pub handle_packet_reads :
      (pass : PassIo) (conn : Conn) (packet rest : List ℕ)
      → IsOpen conn.socket
      → joined conn.socket ≡ put_u16 (length packet) ++ (packet ++ rest)
      → mac_size ≤ length packet
      → length packet < 65536
      → (socket : List (List ℕ)) × (handle_packet c h pass conn
          ≡ handle_cipher c h pass (record conn { socket = socket }) packet)
        × IsOpen socket
        × (joined socket ≡ rest)
  unfolding handle_packet
  handle_packet_reads pass conn packet rest ok e low high =
      let (value1, ok1, left1) =
        recv_exact_part 2 (put_u16 (length packet)) (packet ++ rest) conn.socket refl ok e in
      let socket1 = (recv_exact 2 conn.socket).1 in
      let (value2, ok2, left2) =
        recv_exact_part (length packet) packet rest socket1 refl ok1 left1 in
      let bounds : (ltb (length packet) mac_size || ltb (max_frame_size + mac_size) (length packet))
          ≡ false =
        ground arith in
      (
        (recv_exact (length packet) socket1).1,
        rw (handle_packet, value1, get-put (length packet) high, bounds, value2)
            (ap
              (λ n.
                handle_cipher c h pass (record conn { socket = (recv_exact n socket1).1 }) packet)
              (get-put (length packet) high)),
        ok2,
        left2,
      )
