-- ===== src/Server/Runs.antt =====
-- Any sequence of signals, connections and ends of clients: the daemon of src/asyd/asyd.c as a
-- transition system.
use asys.Base.{
  subst, ℕ, ◌+◌, ◌≤◌, ◌≡◌, inl, inr, refl, sym, ap, ◌∙◌, true, false, none, List, [], ◌∷◌, ◌++◌,
  length, get_or, Option-cases, Bool-cases, arith,
}
use asys.Session.Clients.{ClientSlot, clients, clients_bound}
use asys.Server.{
  ServerState, AcceptIo, Event, sighup, sigterm, passes, ends, Action, closes, starts, no_slot,
  close_all, accept_pass, step, run, reload_whitelist,
}
use asys.Server.Accounts.{Accounted, accept_pass-Accounted, reload_keeps, release_one}

-- A thread ends that has a slot in use.
abbrev IsPossible : Event → ServerState → Type 0
IsPossible (ends slot) s = (get_or s.slots slot no_slot).in_use ≡ true
IsPossible _ s = Unit

unfoldable pub IsRun : List Event → ServerState → Type 0
IsRun [] s = Unit
IsRun (e ∷ es) s = IsPossible e s × IsRun es (step e s).0

-- The threads that are started, and those that end.
unfoldable pub started : List Action → ℕ
started [] = 0
started (closes fd ∷ done) = started done
started (starts slot fd ∷ done) = started done + 1

unfoldable pub ended : List Event → ℕ
ended [] = 0
ended (ends slot ∷ es) = ended es + 1
ended (sighup ∷ es) = ended es
ended (sigterm ∷ es) = ended es
ended (passes io ∷ es) = ended es

ended-cons : (e : Event) (es : List Event) → ended (e ∷ es) ≡ ended (e ∷ []) + ended es
unfolding ended
ended-cons sighup es = omega arith
ended-cons sigterm es = omega arith
ended-cons (passes io) es = omega arith
ended-cons (ends slot) es = omega arith

started-append : (a b : List Action) → started (a ++ b) ≡ started a + started b
unfolding started
started-append [] b = omega arith
started-append (closes fd ∷ a) b = started-append a b
started-append (starts slot fd ∷ a) b = omega (arith, started-append a b)

started-close_all : (ss : List ClientSlot) → started (close_all ss) ≡ 0
unfolding started close_all
started-close_all [] = refl
started-close_all (s ∷ ss) = ground (arith, started-close_all ss)

abbrev Balanced : ServerState → ℕ → ServerState × List Action → Type 0
Balanced s ends_now (s', done) =
    (clients s'.slots + ends_now ≡ clients s.slots + started done)
    × (length s'.slots ≡ length s.slots)

pass_stops : (io : AcceptIo) (s : ServerState) → s.stop ≡ true → accept_pass io s ≡ (s, [])
unfolding accept_pass
pass_stops io s e = ground (arith, e)

pass_idles :
    (io : AcceptIo) (s : ServerState)
    → s.stop ≡ false
    → io.accepted ≡ none
    → accept_pass io s ≡ (reload_whitelist io.file s, [])
unfolding accept_pass
pass_idles io s goes e = ground (arith, goes, e)

pass_accepts :
    (io : AcceptIo) (s : ServerState) (cfd : ℕ)
    → Accounted cfd io.thread_starts s.slots (accept_pass io s)
    → Balanced s 0 (accept_pass io s)
unfolding started
pass_accepts io s cfd (size, inl (did, same)) = (omega (arith, same, ap started did), size)
pass_accepts io s cfd (size, inr (slot, did, ok, now, more)) =
    (omega (arith, more, ap started did), size)

pass-Balanced : (io : AcceptIo) (s : ServerState) → Balanced s 0 (accept_pass io s)
unfolding started
pass-Balanced io s = elim (Bool-cases s.stop) [
  | inl e ↦ subst (Balanced s 0) (sym (pass_stops io s e)) (omega arith, refl)
  | inr goes ↦ elim (Option-cases io.accepted) [
    | inl e ↦
        let same = reload_keeps io.file s in
        subst (Balanced s 0) (sym (pass_idles io s goes e))
          (omega (arith, ap clients same), ap length same)
    | inr (cfd, e) ↦ pass_accepts io s cfd (accept_pass-Accounted io s cfd goes e)
  ]
]

step-Balanced :
    (e : Event) (s : ServerState) → IsPossible e s → Balanced s (ended (e ∷ [])) (step e s)
unfolding step ended started
step-Balanced sighup s ok = (omega arith, refl)
step-Balanced sigterm s ok = (omega (arith, started-close_all s.slots), refl)
step-Balanced (passes io) s ok = pass-Balanced io s
step-Balanced (ends slot) s ok =
    let (less, size) = release_one slot s.slots ok in (omega (arith, less), size)

-- From any state, after any signals, connections and ends of running clients' threads: the slots in
-- use are those that were in use and one for every thread started since, less one for every thread
-- that has ended; the number of slots is the same, so there are never more clients than slots.
pub run-clients :
    (es : List Event) (s : ServerState)
    → IsRun es s
    → let (s', done) = run es s in
      (clients s'.slots + ended es ≡ clients s.slots + started done)
      × (length s'.slots ≡ length s.slots)
      × (clients s'.slots ≤ length s.slots)
unfolding run IsRun ended started
run-clients [] s ok = (omega arith, refl, clients_bound s.slots)
run-clients (e ∷ es) s (now, later) =
    let (s', done) = step e s in
    let (s'', more) = run es s' in
    let (count1, size1) = step-Balanced e s now in
    let (count2, size2, few) = run-clients es s' later in
    (
      omega (arith, count1, count2, started-append done more, ended-cons e es),
      size2 ∙ size1,
      omega (arith, few, size1),
    )
