-- ===== src/Session/Packet.antt =====
-- The packet loop of handle_client in src/asyd/asyd.c, send_sw, and the clean-up at its end.
--
-- One pass of `for (;;)` is `handle_packet`; its `break` and `goto cleanup` are `stops`. The system's
-- answers during a pass come with it.
use asys.Base.{
  ℕ, ◌+◌, ◌-◌, Bool, not, ◌||◌, Option, none, some, List, [], ◌∷◌, ltb, leb, ◌==◌, if◌then◌else◌,
  length, get_or, get_u16, get_u32, put_u16,
}
use asys.Crypto.{Crypto}
use asys.Apdu.{
  ApduFrame, ApduParser, ParseResult, ready, need_more, err_version, err_rfu, err_ext_lc,
  err_length, try_parse, recv_ptr, recv_commit, write_received, consume, pool_release, data_byte,
  max_frame_size, sec_plain,
}
use asys.Noise.{NoiseIkState, ok, mac_size}
use asys.Noise.Transport.{encrypt, decrypt, wipe}
use asys.Auth.{verify_auth_tag}
use asys.Handlers.{
  Request, Io, World, sw_access_denied, sw_replay_detected, sw_wrong_len, sw_write, disp_resp_max,
}
use asys.Dispatcher.{Handlers, dispatch}
use asys.Tasks.{task_pool_release_session}
use asys.Session.{SessionCtx, Conn, recv_exact}

-- What a pass of the loop meets: the answers to a handler's calls, and whether the two `send` calls
-- of the reply take all bytes.
pub record PassIo : Type 0 where
  pub io : Io
  pub prefix_sent : Bool
  pub reply_sent : Bool

pub data Next : Type 0 where
  continues stops : Next

abbrev pub with_noise : Conn → NoiseIkState → Conn
with_noise conn st = record conn { ctx = record conn.ctx { noise = st } }

abbrev pub seq_of : List ℕ → ApduFrame → ℕ
seq_of buf f =
    get_u32 (data_byte buf f 0) (data_byte buf f 1) (data_byte buf f 2) (data_byte buf f 3)

abbrev pub sw_version : ℕ
sw_version = 0x6E00

module _ (c : Crypto) (h : Handlers) where
  unfoldable pub send_sw : Conn → ℕ → Conn
  unfolding encrypt
  send_sw conn sw =
      let (status, st, enc) = encrypt c conn.ctx.noise (sw_write sw) in
      let sent = record (with_noise conn st) { sends = enc ∷ put_u16 (length enc) ∷ conn.sends } in
      elim status [ ok ↦ sent | _ ↦ conn ]

  -- From `noise_ik_encrypt` on.
  unfoldable pub send_reply : PassIo → Conn → List ℕ → Next × Conn
  unfolding encrypt
  send_reply pass conn resp =
      let (status, st, enc) = encrypt c conn.ctx.noise resp in
      let prefixed = record (with_noise conn st) {
        sends = put_u16 (length resp + mac_size) ∷ conn.sends;
      } in
      let sent = record prefixed { sends = enc ∷ prefixed.sends } in
      elim status [
        | ok ↦
            if not pass.prefix_sent
            then (stops, prefixed)
            else (if not pass.reply_sent then stops else continues, sent)
        | _ ↦ (stops, conn)
      ]

  -- From `dispatch` on.
  unfoldable pub run_frame : PassIo → Conn → ApduFrame → Next × Conn
  unfolding send_reply
  run_frame pass conn f =
      let (resp, world) =
        dispatch h pass.io conn.world (record { buf = conn.parser.buf; frame = f }) disp_resp_max
          conn.ctx.session_id in
      send_reply pass (record conn { world = world; parser = consume conn.parser f }) resp

  -- A frame is complete: the tag and the sequence number first.
  unfoldable pub handle_frame : PassIo → Conn → ApduFrame → Next × Conn
  handle_frame pass conn f =
      let req : Request = record { buf = conn.parser.buf; frame = f } in
      let seq = seq_of conn.parser.buf f in
      if f.sec == sec_plain
      then run_frame pass conn f
      else if not (verify_auth_tag c conn.ctx.noise.recv_key req conn.ctx.epoch_id)
      then (stops, send_sw conn sw_access_denied)
      else if leb seq conn.ctx.last_seen_seq
      then (stops, send_sw conn sw_replay_detected)
      else run_frame pass (record conn { ctx = record conn.ctx { last_seen_seq = seq } }) f

  -- From `apdu_parser_try_parse` on.
  unfoldable pub handle_parsed : PassIo → Conn → ParseResult → Next × Conn
  handle_parsed pass conn need_more = (continues, conn)
  handle_parsed pass conn err_version = (stops, send_sw conn sw_version)
  handle_parsed pass conn err_rfu = (stops, send_sw conn sw_wrong_len)
  handle_parsed pass conn err_ext_lc = (stops, send_sw conn sw_wrong_len)
  handle_parsed pass conn err_length = (stops, send_sw conn sw_wrong_len)
  handle_parsed pass conn (ready f) = handle_frame pass conn f

  -- A packet's cipher text: decrypted into the parser's buffer.
  unfoldable pub handle_cipher : PassIo → Conn → List ℕ → Next × Conn
  handle_cipher pass conn cipher =
      let plain_len = length cipher - mac_size in
      let (status, st, plain) = decrypt c conn.ctx.noise cipher in
      let parser = recv_commit (write_received conn.parser plain) plain_len in
      let filled = record (with_noise conn st) { parser = parser } in
      if ltb (recv_ptr conn.parser).1 plain_len
      then (stops, conn)
      else elim status [ ok ↦ handle_parsed pass filled (try_parse parser) | _ ↦ (stops, conn) ]

  unfoldable pub handle_packet : PassIo → Conn → Next × Conn
  handle_packet pass conn =
      let (len_buf, socket) = recv_exact 2 conn.socket in
      elim len_buf [
        | none ↦ (stops, record conn { socket = socket })
        | some b ↦
            let ciphertext_len = get_u16 (get_or b 0 0) (get_or b 1 0) in
            let (got, socket') = recv_exact ciphertext_len socket in
            if ltb ciphertext_len mac_size || ltb (max_frame_size + mac_size) ciphertext_len
            then (stops, record conn { socket = socket })
            else elim got [
              | none ↦ (stops, record conn { socket = socket' })
              | some cipher ↦ handle_cipher pass (record conn { socket = socket' }) cipher
            ]
      ]

  -- The loop, for as many passes as there are answers.
  unfoldable pub packet_loop : List PassIo → Conn → Next × Conn
  packet_loop [] conn = (continues, conn)
  packet_loop (pass ∷ passes) conn =
      let (next, conn') = handle_packet pass conn in
      let rest = packet_loop passes conn' in elim next [ stops ↦ (stops, conn') | continues ↦ rest ]

-- `cleanup`: the context, the parser pool (slot `i` is the connection's, if it has one), the tasks.
unfoldable pub cleanup :
    SessionCtx → List ApduParser → Option ℕ → World → SessionCtx × List ApduParser × World
unfolding wipe pool_release task_pool_release_session
cleanup ctx pool slot world = (
  record ctx { noise = wipe ctx.noise },
  elim slot [ none ↦ pool | some i ↦ pool_release pool i ],
  record world { pool = task_pool_release_session world.pool ctx.session_id },
)
