-- ===== src/Session/Passes.antt =====
-- The ways through a pass of the packet loop: src/asyd/asyd.c.
use asys.Base.{
  ℕ, ◌+◌, ◌≡◌, ◌⊎◌, inl, inr, refl, ◌||◌, List, ltb, Bool-cases, Option-cases, get_or, get_u16,
}
use asys.Crypto.{Crypto}
use asys.Apdu.{max_frame_size}
use asys.Noise.{mac_size}
use asys.Dispatcher.{Handlers}
use asys.Session.{Conn, recv_exact}
use asys.Session.Packet.{PassIo, stops, handle_cipher, handle_packet}

module _ (c : Crypto) (h : Handlers) (pass : PassIo) (conn : Conn) where
  abbrev IsPass : Type 0
  IsPass =
      ((socket : List (List ℕ)) × (handle_packet c h pass conn
          ≡ (stops, record conn { socket = socket })))
      ⊎ ((socket : List (List ℕ)) × (cipher : List ℕ) × (handle_packet c h pass conn
            ≡ handle_cipher c h pass (record conn { socket = socket }) cipher))

  -- A pass ends with nothing done, or hands one packet's cipher text on.
  pub handle_packet-cases : IsPass
  unfolding handle_packet
  handle_packet-cases =
      let (len_buf, socket) = recv_exact 2 conn.socket in
      elim (Option-cases (recv_exact 2 conn.socket).0) [
        | inl e ↦ inl (socket, rw (handle_packet, e) refl)
        | inr (b, e) ↦
            let len = get_u16 (get_or b 0 0) (get_or b 1 0) in
            let (got, socket') = recv_exact len socket in
            elim (Bool-cases (ltb len mac_size || ltb (max_frame_size + mac_size) len)) [
              | inl bad ↦ inl (socket, rw (handle_packet, e, bad) refl)
              | inr fine ↦ elim (Option-cases (recv_exact len socket).0) [
                | inl e' ↦ inl (socket', rw (handle_packet, e, fine, e') refl)
                | inr (cipher, e') ↦ inr (socket', cipher, rw (handle_packet, e, fine, e') refl)
              ]
            ]
      ]
