-- ===== src/Session/Refusals.antt =====
-- What the agent reads for a frame that is refused, by the packet loop in src/asyd/asyd.c. That the
-- session then ends is what the code does for each of them; docs/en/asys-spec.md says it of a wrong
-- tag only (2.2.3), and lets a session go on after an old number (2.2.4).
use asys.Base.{ℕ, ◌≤◌, ◌≡◌, ◌≢◌, refl, true, false, leb, ◌==◌, arith}
use asys.Crypto.{Crypto, Laws}
use asys.Apdu.{
  ApduFrame, ParseResult, ready, err_version, err_rfu, err_ext_lc, err_length, sec_plain,
}
use asys.Noise.{NoiseIkState}
use asys.Noise.Stream.{Paired}
use asys.Auth.{verify_auth_tag}
use asys.Handlers.{sw_write, sw_access_denied, sw_replay_detected, sw_wrong_len}
use asys.Dispatcher.{Handlers}
use asys.Session.{Conn}
use asys.Session.Packet.{PassIo, stops, seq_of, handle_frame, handle_parsed, sw_version}
use asys.Session.Replies.{Answers, send_sw-Answers}

module _ (c : Crypto) (laws : Laws c) (h : Handlers) (client : NoiseIkState) where
  -- The status word for a frame that is refused.
  pub data Refuses (conn : Conn) : ParseResult → ℕ → Type 0 where
    version : Refuses conn err_version sw_version
    rfu : Refuses conn err_rfu sw_wrong_len
    ext_lc : Refuses conn err_ext_lc sw_wrong_len
    too_long : Refuses conn err_length sw_wrong_len
    bad_tag :
        {f : ApduFrame}
        → f.sec ≢ sec_plain
        → verify_auth_tag c conn.ctx.noise.recv_key
            (record { buf = conn.parser.buf; frame = f })
            conn.ctx.epoch_id
          ≡ false
        → Refuses conn (ready f) sw_access_denied
    old_seq :
        {f : ApduFrame}
        → f.sec ≢ sec_plain
        → verify_auth_tag c conn.ctx.noise.recv_key
            (record { buf = conn.parser.buf; frame = f })
            conn.ctx.epoch_id
          ≡ true
        → seq_of conn.parser.buf f ≤ conn.ctx.last_seen_seq
        → Refuses conn (ready f) sw_replay_detected

  -- A refused frame ends the session, and an agent whose state is paired with the daemon's reads
  -- the status word that belongs to it: 0x6E00 for a version, 0x6700 for the other parse errors,
  -- 0x6982 for a wrong tag, 0x6985 for a number that is not above the last one.
  pub handle_parsed-Refuses :
      (pass : PassIo) (conn : Conn) (result : ParseResult) (sw : ℕ)
      → Paired c conn.ctx.noise client
      → Refuses conn result sw
      → ((handle_parsed c h pass conn result).0 ≡ stops)
        × Answers c client conn (handle_parsed c h pass conn result).1 (sw_write sw)
  unfolding handle_parsed handle_frame
  handle_parsed-Refuses pass conn _ _ p version =
      (refl, send_sw-Answers c laws h client conn sw_version p)
  handle_parsed-Refuses pass conn _ _ p rfu =
      (refl, send_sw-Answers c laws h client conn sw_wrong_len p)
  handle_parsed-Refuses pass conn _ _ p ext_lc =
      (refl, send_sw-Answers c laws h client conn sw_wrong_len p)
  handle_parsed-Refuses pass conn _ _ p too_long =
      (refl, send_sw-Answers c laws h client conn sw_wrong_len p)
  handle_parsed-Refuses pass conn _ _ p (bad_tag {f} not_plain bad) =
      let test : (f.sec == sec_plain) ≡ false = ground arith in
      rw (handle_frame, test, bad) (refl, send_sw-Answers c laws h client conn sw_access_denied p)
  handle_parsed-Refuses pass conn _ _ p (old_seq {f} not_plain good old) =
      let test : (f.sec == sec_plain) ≡ false = ground arith in
      let below : leb (seq_of conn.parser.buf f) conn.ctx.last_seen_seq ≡ true = ground arith in
      rw (handle_frame, test, good, below)
        (refl, send_sw-Answers c laws h client conn sw_replay_detected p)
