-- ===== src/Server.antt =====
-- The accept loop of main in src/asyd/asyd.c, with the signals and the client threads around it.
--
-- A step is a signal, the end of a client's thread, or a pass of the loop. A signal that arrives while
-- the loop waits in accept comes after the pass whose accept it interrupts.
pub mod Accounts
pub mod Runs
use asys.Base.{
  ℕ, zero, suc, ◌+◌, Bool, true, false, not, Option, none, some, List, [], ◌∷◌, ◌++◌, if◌then◌else◌,
  get_or,
}
use asys.Whitelist.{Whitelist, whitelist_load}
use asys.Session.Clients.{ClientSlot, acquire_client, release_client}

-- `g_stop`, `g_reload_whitelist`, `g_whitelist` and `g_cslots`
pub record ServerState : Type 0 where
  pub stop : Bool
  pub reload : Bool
  pub whitelist : Whitelist
  pub slots : List ClientSlot

-- What a pass meets: the whitelist's file if it is read, the descriptor that accept gives, `none`
-- for a failure, and whether the thread can be created.
pub record AcceptIo : Type 0 where
  pub file : Option (List ℕ)
  pub accepted : Option ℕ
  pub thread_starts : Bool

pub data Event : Type 0 where
  sighup sigterm : Event
  passes : AcceptIo → Event
  ends : (slot : ℕ) → Event

-- What is done with descriptors.
pub data Action : Type 0 where
  closes : (fd : ℕ) → Action
  starts : (slot fd : ℕ) → Action

unfoldable pub reload_whitelist : Option (List ℕ) → ServerState → ServerState
reload_whitelist file s =
    if s.reload then record s { reload = false; whitelist = whitelist_load file } else s

-- From the choice of a slot on.
unfoldable pub admit_client : Bool → ℕ → ServerState → ServerState × List Action
admit_client thread_starts cfd s = elim (acquire_client cfd 0 s.slots) [
  | none ↦ (s, closes cfd ∷ [])
  | some (slot, slots) ↦
      if thread_starts
      then (record s { slots = slots }, starts slot cfd ∷ [])
      else (record s { slots = release_client slot slots }, closes cfd ∷ [])
]

unfoldable pub accept_pass : AcceptIo → ServerState → ServerState × List Action
unfolding reload_whitelist admit_client
accept_pass io s =
    let s' = reload_whitelist io.file s in
    if s.stop
    then (s, [])
    else elim io.accepted [ none ↦ (s', []) | some cfd ↦ admit_client io.thread_starts cfd s' ]

-- `handle_signal` closes the descriptors of the slots in use.
unfoldable pub close_all : List ClientSlot → List Action
close_all [] = []
close_all (s ∷ ss) = if s.in_use then closes s.fd ∷ close_all ss else close_all ss

abbrev pub no_slot : ClientSlot
no_slot = record { fd = 0; in_use = false }

unfoldable pub step : Event → ServerState → ServerState × List Action
unfolding accept_pass close_all
step sighup s = (record s { reload = true }, [])
step sigterm s = (record s { stop = true }, close_all s.slots)
step (passes io) s = accept_pass io s
step (ends slot) s =
    (record s { slots = release_client slot s.slots }, closes (get_or s.slots slot no_slot).fd ∷ [])

unfoldable pub run : List Event → ServerState → ServerState × List Action
unfolding step
run [] s = (s, [])
run (e ∷ es) s = let (s', done) = step e s in let (s'', more) = run es s' in (s'', done ++ more)
