-- ===== src/System.antt =====
-- The running daemon: the sessions of src/asyd/asyd.c in their threads, over the state that they share.
--
-- An event is what one thread does without another in between: the opening of a connection, a pass of
-- the packet loop, a request of the thread that keeps the status warm, the reaping of a child, the
-- reload of the whitelist. A list of events is an interleaving.
pub mod Passes
pub mod Step
pub mod Validity
pub mod Isolation
pub mod Numbers
pub mod Authority
pub mod Answers
pub mod Agents
use asys.Base.{ℕ, Bool, false, Option, none, some, List, [], ◌∷◌, ◌==◌, if◌then◌else◌, set}
use asys.Crypto.{Crypto}
use asys.Apdu.{ApduParser, ApduFrame}
use asys.Tasks.{task_pool_update_by_pid, success, failed}
use asys.Handlers.{Request, Io, World, disp_resp_max}
use asys.Dispatcher.{Handlers, dispatch}
use asys.Whitelist.{whitelist_load}
use asys.Session.{Conn, next_session_id}
use asys.Session.Packet.{PassIo, continues, stops, handle_packet, cleanup}
use asys.Session.Handshake.{OpeningIo, dropped, ended, opened, Daemon, open_session}

-- A session in its packet loop, with the index of its parser's slot. The slot's content is
-- `conn.parser`, and `conn.world` is the shared state as the session has last left it.
pub record Running : Type 0 where
  pub slot : ℕ
  pub conn : Conn

-- `parsers` is the pool of parser slots, and `next_id` is `g_next_session_id`.
pub record System : Type 0 where
  pub globals : Daemon
  pub world : World
  pub parsers : List ApduParser
  pub next_id : ℕ
  pub threads : ℕ → Option Running

pub data Event : Type 0 where
  connects : (thread : ℕ) → OpeningIo → (socket : List (List ℕ)) → Event
  serves : (thread : ℕ) → PassIo → Event
  warms : Io → Event
  reaps : (pid : ℕ) → (exit_ok : Bool) → Event
  reloads : (file : Option (List ℕ)) → Event

abbrev pub put : (ℕ → Option Running) → ℕ → Option Running → ℕ → Option Running
put f i r k = if k == i then r else f k

-- The zero frame with the instruction SYS_STATUS.
abbrev pub warm : Request
warm = record {
  buf = [];
  frame = record {
    cla = 0;
    ins = 0x02;
    p1 = 0;
    p2 = 0;
    ver = 0;
    m_bit = false;
    sec = 0;
    ext = false;
    data_len = 0;
    data_at = none;
    le = 0;
    auth_tag = none;
    total_size = 0;
  };
}

module _ (c : Crypto) (h : Handlers) where
  -- `handle_client` up to the packet loop, in thread `i`.
  unfoldable pub connect : ℕ → OpeningIo → List (List ℕ) → System → System
  connect i os socket s =
      let (id, next) = next_session_id s.next_id in
      elim (open_session c h s.globals os s.parsers s.world id socket) [
        | dropped ↦ record s { next_id = next }
        | ended ctx sends ↦
            let (ctx', parsers, world) = cleanup ctx s.parsers none s.world in
            record s { next_id = next; parsers = parsers; world = world }
        | opened slot parsers conn ↦ record s {
          next_id = next;
          parsers = parsers;
          threads = put s.threads i (some (record { slot = slot; conn = conn }));
        }
      ]

  -- A pass of thread `i`, and `cleanup` if it is the last.
  unfoldable pub serve : ℕ → PassIo → Running → System → System
  serve i pass r s =
      let (next, conn) = handle_packet c h pass (record r.conn { world = s.world }) in
      elim next [
        | continues ↦ record s {
          world = conn.world;
          threads = put s.threads i (some (record r { conn = conn }));
        }
        | stops ↦
            let used = set s.parsers r.slot conn.parser in
            let (ctx, parsers, world) = cleanup conn.ctx used (some r.slot) conn.world in
            record s { world = world; parsers = parsers; threads = put s.threads i none }
      ]

  -- A round of `status_warm_thread`.
  unfoldable pub status_warm : Io → System → System
  status_warm io s = record s { world = (dispatch h io s.world warm disp_resp_max 0).1 }

  -- A thread in its packet loop opens no connection, and one that is not in it serves no packet.
  unfoldable pub step : Event → System → System
  unfolding connect serve status_warm
  step (connects i os socket) s = elim (s.threads i) [ none ↦ connect i os socket s | some r ↦ s ]
  step (serves i pass) s = elim (s.threads i) [ none ↦ s | some r ↦ serve i pass r s ]
  step (warms io) s = status_warm io s
  step (reaps pid ok) s = record s {
    world = record s.world {
      pool = task_pool_update_by_pid s.world.pool pid (if ok then success else failed);
    };
  }
  step (reloads file) s = record s {
    globals = record s.globals { whitelist = whitelist_load file };
  }

  unfoldable pub run : List Event → System → System
  unfolding step
  run [] s = s
  run (e ∷ es) s = run es (step e s)
