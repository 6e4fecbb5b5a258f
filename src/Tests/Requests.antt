-- ===== src/Tests/Requests.antt =====
-- Examples for the handlers, the dispatcher, the tag and the whitelist (src/asyd).
use asys.Base.{
  length-replicate, ℕ, ◌%◌, ◌^◌, ◌-◌, ◌≤◌, ◌≡◌, ◌≢◌, ◌↔◌, ◌⊎◌, refl, true, false, none, some, List,
  [], ◌∷◌, ◌++◌, length, take, All, arith, replicate,
}
use asys.Apdu.{data_bytes, sec_signed}
use asys.Auth.{verify_auth_tag, auth_message-injective}
use asys.Auth.Received.{hmac_32, signed_bytes, verify_auth_tag_iff}
use asys.Apdu.Codec.{Message, IsMessage, encode, frame_of}
use asys.Tests.Frames.{query}
use asys.Handlers.{Request, Io, World, kills, ℤ, sigstop, sigcont, forked}
use asys.Handlers.ProcThrottle.{handler_proc_throttle}
use asys.Handlers.Signals.{Reaches, proc_throttle_ok}
use asys.Dispatcher.{dispatch}
use asys.Dispatcher.Guarded.{dispatch_unsigned}
use asys.Whitelist.{whitelist_load}
use asys.Whitelist.Load.{IsEntry, whitelist_load-IsEntry}
use asys.Tests.Toy.{world_of, mute, toy, toy_laws, handlers, installed, count_up}
use asys.Tests.Pools.{pool1, cups}

-- A signed PROC_THROTTLE frame with the sequence number 1 and the given process number.
abbrev throttle : List ℕ → Request
throttle pid = record {
  buf = 4 ∷ 0x20 ∷ 0 ∷ 0 ∷ 8 ∷ 0 ∷ 0 ∷ 0 ∷ 1 ∷ pid;
  frame = record {
    cla = 4;
    ins = 0x20;
    p1 = 0;
    p2 = 0;
    ver = 0;
    m_bit = false;
    sec = 1;
    ext = false;
    data_len = 8;
    data_at = some 5;
    le = 0;
    auth_tag = some 14;
    total_size = 30;
  };
}

abbrev pub io : Io
io = record {
  sweep_time = 100;
  alloc_time = 100;
  kill_result = none;
  fork_result = forked 42;
  machine_id = none;
  realtime = none;
  host = mute;
}

abbrev pub world : World
world = world_of pool1

-- The PID 2^32 - 1, which is -1 as a `pid_t`.
proc_throttle_ok_example :
    let req = throttle (255 ∷ 255 ∷ 255 ∷ 255 ∷ []) in
    let w' = (handler_proc_throttle io world req 256 5).1 in
    (req.frame.sec ≡ sec_signed)
    × (8 ≤ req.frame.data_len)
    × (2 ^ 32 - 1 ≢ 0)
    × (io.kill_result ≡ none)
    × ((target : ℤ) × Reaches (2 ^ 32 - 1) target
        × (((req.frame.p1 ≡ 0) × (w'.effects ≡ kills target sigstop ∷ world.effects))
            ⊎ ((req.frame.p1 ≡ 1) × (w'.effects ≡ kills target sigcont ∷ world.effects))))
unfolding handler_proc_throttle
proc_throttle_ok_example =
    proc_throttle_ok io world (throttle (255 ∷ 255 ∷ 255 ∷ 255 ∷ [])) 256 5 (2 ^ 32 - 1)
      (omega arith) refl refl

-- A signed SVC_RESTART frame for "cups", and a TASK_QUERY for the handle of its task.
abbrev restart : Request
restart = record {
  buf = 4 ∷ 0x22 ∷ 0 ∷ 0 ∷ 8 ∷ 0 ∷ 0 ∷ 0 ∷ 1 ∷ cups;
  frame = record (throttle []).frame { ins = 0x22 };
}

-- A TASK_QUERY for the task of session 5.
abbrev poll : Request
poll = record {
  buf = 0 ∷ 0x11 ∷ 0 ∷ 0 ∷ 4 ∷ 0 ∷ 5 ∷ 0 ∷ 100 ∷ [];
  frame = record (throttle []).frame { cla = 0; ins = 0x11; sec = 0; data_len = 4 };
}

-- SYS_CAPS, and later a PROC_THROTTLE of another session.
abbrev caps : Request
caps = record { buf = []; frame = record (throttle []).frame { ins = 0x00; sec = 0; data_len = 0 } }

-- The same request without security.
abbrev unsigned : Request
unsigned = record (throttle (0 ∷ 0 ∷ 0 ∷ 9 ∷ [])) { frame = record (throttle []).frame { sec = 0 } }

dispatch_unsigned_example : (dispatch handlers io world unsigned 256 5).1.effects ≡ []
dispatch_unsigned_example =
    dispatch_unsigned count_up handlers installed io world unsigned 256 5 (λ e. omega (arith, e))

-- PROC_THROTTLE as a message, with a tag of zeros.
abbrev tagged : Message
tagged = record query {
  ins = 0x20;
  sec = 1;
  body = 0 ∷ 0 ∷ 0 ∷ 1 ∷ 0 ∷ 0 ∷ 0 ∷ 9 ∷ [];
  tag = replicate 16 0;
}

tagged-IsMessage : IsMessage tagged
unfolding replicate
tagged-IsMessage = record {
  sec_range = omega arith;
  body_size = omega arith;
  le_size = omega arith;
  tag_size = refl;
}

verify_auth_tag_iff_example :
    let req : Request = record { buf = encode tagged ++ 0xFF ∷ []; frame = frame_of tagged } in
    (verify_auth_tag toy (replicate 32 7) req (1 ∷ 2 ∷ 3 ∷ 4 ∷ []) ≡ true) ↔ (
      (4 ≤ 8)
      × (8 ≤ 259)
      × (take 16 (hmac_32 toy.blake2b (replicate 32 7) (signed_bytes tagged (1 ∷ 2 ∷ 3 ∷ 4 ∷ [])))
          ≡ replicate 16 0))
verify_auth_tag_iff_example =
    verify_auth_tag_iff toy tagged (0xFF ∷ []) tagged-IsMessage toy_laws (replicate 32 7)
      (1 ∷ 2 ∷ 3 ∷ 4 ∷ []) (length-replicate 32 7) refl (λ e. omega (arith, e))

abbrev epoch : List ℕ
epoch = 1 ∷ 2 ∷ 3 ∷ 4 ∷ []

auth_message-injective_example :
    let req = throttle (0 ∷ 0 ∷ 0 ∷ 9 ∷ []) in
    (req.frame.cla ≡ req.frame.cla)
    × (req.frame.ins ≡ req.frame.ins)
    × (req.frame.p1 ≡ req.frame.p1)
    × (req.frame.p2 ≡ req.frame.p2)
    × (req.frame.data_len % 256 ≡ req.frame.data_len % 256)
    × (epoch ≡ epoch)
    × (data_bytes req.buf req.frame 0 4 ≡ data_bytes req.buf req.frame 0 4)
    × (data_bytes req.buf req.frame 4 4 ≡ data_bytes req.buf req.frame 4 4)
auth_message-injective_example =
    auth_message-injective (throttle (0 ∷ 0 ∷ 0 ∷ 9 ∷ [])) (throttle (0 ∷ 0 ∷ 0 ∷ 9 ∷ [])) epoch
      epoch refl refl refl refl refl

-- "# x\n", "00\n"
abbrev key_file : List ℕ
key_file = b'#' ∷ b' ' ∷ b'x' ∷ b'\n' ∷ b'0' ∷ b'0' ∷ b'\n' ∷ []

whitelist_load-IsEntry_example :
    (length (whitelist_load (some key_file)) ≤ 64) × All IsEntry (whitelist_load (some key_file))
whitelist_load-IsEntry_example = whitelist_load-IsEntry (some key_file)
