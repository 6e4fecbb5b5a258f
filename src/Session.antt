-- ===== src/Session.antt =====
-- A connection of the daemon: src/asyd/asyd.c, what handle_client and its helpers share.
--
-- A socket's input is the list of the chunks that `recv` is offered one after the other; an empty
-- chunk is a return value of 0 and the end of the list an error. What the code passes to `send` is
-- kept, latest first.
pub mod Receive
pub mod Ids
pub mod Packet
pub mod Step
pub mod Wire
pub mod Admissible
pub mod Service
pub mod Greeting
pub mod Opening
pub mod Conversation
pub mod EndToEnd
pub mod Handshake
pub mod Passes
pub mod Guard
pub mod Replay
pub mod Cleanup
pub mod Clients
pub mod Replies
pub mod Refusals
pub mod Admission
pub mod Outcomes
pub mod Validity
use asys.Base.{
  ℕ, zero, suc, ◌+◌, ◌-◌, ◌%◌, ◌^◌, Bool, true, false, Option, none, some, List, [], ◌∷◌, ◌++◌, leb,
  ◌==◌, if◌then◌else◌, length, take, drop, get_or, get_u32, put_u16,
}
use asys.Apdu.{ApduParser}
use asys.Noise.{NoiseIkState}
use asys.Handlers.{World}

-- `fd` is `Conn.socket` below, and `peer_ip` is only printed.
pub record SessionCtx : Type 0 where
  pub session_id : ℕ
  pub noise : NoiseIkState
  pub agent_pub : List ℕ
  pub epoch_id : List ℕ
  pub last_seen_seq : ℕ

-- A connection in the packet loop: its context, its parser slot, and the shared state.
pub record Conn : Type 0 where
  pub ctx : SessionCtx
  pub parser : ApduParser
  pub world : World
  pub socket : List (List ℕ)
  pub sends : List (List ℕ)

-- `recv` for at most `n` bytes.
unfoldable pub recv : ℕ → List (List ℕ) → List ℕ × List (List ℕ)
recv n [] = ([], [])
recv n (chunk ∷ socket) =
    if leb (length chunk) n then (chunk, socket) else (take n chunk, drop n chunk ∷ socket)

-- The loop of `recv_exact` with `n` bytes to go; `none` for a return value that is not the number
-- asked for. A pass gets a byte at least, so the number is fuel enough.
unfoldable pub recv_loop : (fuel : ℕ) → ℕ → List (List ℕ) → Option (List ℕ) × List (List ℕ)
unfolding recv
recv_loop zero n socket = (if n == 0 then some [] else none, socket)
recv_loop (suc fuel) n socket =
    let (got, socket') = recv n socket in
    let (rest, socket'') = recv_loop fuel (n - length got) socket' in
    if n == 0
    then (some [], socket)
    else if length got == 0
    then (none, socket')
    else (elim rest [ none ↦ none | some bytes ↦ some (got ++ bytes) ], socket'')

unfoldable pub recv_exact : ℕ → List (List ℕ) → Option (List ℕ) × List (List ℕ)
unfolding recv_loop
recv_exact n socket = recv_loop n n socket

-- `true` for a return value of 0.
unfoldable pub wait_for_client_magic : List (List ℕ) → Bool × List (List ℕ)
unfolding recv_exact
wait_for_client_magic socket =
    let (got, socket') = recv_exact 4 socket in
    (
      elim got [
        | none ↦ false
        | some b ↦ get_u32 (get_or b 0 0) (get_or b 1 0) (get_or b 2 0) (get_or b 3 0) == 0x41535953
      ],
      socket',
    )

-- The identifier given, and `g_next_session_id`; 0 is skipped.
unfoldable pub next_session_id : ℕ → ℕ × ℕ
next_session_id next = let next' = (next + 1) % 2 ^ 16 in (next, if next' == 0 then 1 else next')
