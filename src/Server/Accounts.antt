-- ===== src/Server/Accounts.antt =====
-- Where a connection goes: the accept loop of main in src/asyd/asyd.c.
use asys.Base.{
  subst, sym, ℕ, zero, suc, ◌+◌, ◌≡◌, ◌⊎◌, inl, inr, refl, ap, ◌∙◌, Bool, true, false, Option, some,
  List, [], ◌∷◌, length, get_or, Option-cases, Bool-cases, arith,
}
use asys.Session.Clients.{ClientSlot, acquire_client, release_client, clients, acquire_client_lem}
use asys.Server.{
  ServerState, AcceptIo, Action, closes, starts, no_slot, reload_whitelist, admit_client,
  accept_pass,
}

-- A slot in use is given back.
pub release_one :
    (i : ℕ) (ss : List ClientSlot)
    → (get_or ss i no_slot).in_use ≡ true
    → (clients (release_client i ss) + 1 ≡ clients ss) × (length (release_client i ss) ≡ length ss)
unfolding release_client clients
release_one i [] e = absurd (ground arith)
release_one zero (s ∷ ss) e = ground (arith, e)
release_one (suc i) (s ∷ ss) e = ground (arith, release_one i ss e)

-- The slot that is taken: it was free, and is in use for the descriptor.
record Taken (cfd i k : ℕ) (ss ss' : List ClientSlot) : Type 0 where
  j : ℕ
  at : k ≡ i + j
  now : get_or ss' j no_slot ≡ record { fd = cfd; in_use = true }

first_free :
    (cfd i k : ℕ) (s : ClientSlot) (ss ss' : List ClientSlot)
    → s.in_use ≡ false
    → acquire_client cfd i (s ∷ ss) ≡ some (k, ss')
    → (k ≡ i) × (ss' ≡ record { fd = cfd; in_use = true } ∷ ss)
unfolding acquire_client
first_free cfd i k s ss ss' free e = ground (arith, e, free)

next_free :
    (cfd i k k' : ℕ) (s : ClientSlot) (ss rest ss' : List ClientSlot)
    → s.in_use ≡ true
    → acquire_client cfd (i + 1) ss ≡ some (k', rest)
    → acquire_client cfd i (s ∷ ss) ≡ some (k, ss')
    → (k ≡ k') × (ss' ≡ s ∷ rest)
unfolding acquire_client
next_free cfd i k k' s ss rest ss' busy found e = ground (arith, e, busy, found)

acquire-Taken :
    (cfd i k : ℕ) (ss ss' : List ClientSlot)
    → acquire_client cfd i ss ≡ some (k, ss')
    → Taken cfd i k ss ss'
unfolding acquire_client
acquire-Taken cfd i k [] ss' e = cc
acquire-Taken cfd i k (s ∷ ss) ss' e = elim (Bool-cases s.in_use) [
  | inr free ↦
      let (at, now) = first_free cfd i k s ss ss' free e in
      record { j = 0; at = omega (arith, at); now = ap (λ l. get_or l 0 no_slot) now }
  | inl busy ↦ elim (Option-cases (acquire_client cfd (i + 1) ss)) [
    | inl full ↦ absurd (ground (arith, e, busy, full))
    | inr ((k', rest), found) ↦
        let later = acquire-Taken cfd (i + 1) k' ss rest found in
        let (at, now) = next_free cfd i k k' s ss rest ss' busy found e in
        record {
          j = suc later.j;
          at = omega (arith, later.at, at);
          now = ap (λ l. get_or l (suc later.j) no_slot) now ∙ later.now;
        }
  ]
]

-- A connection was either closed, and as many slots are in use as before, or handed to a new thread
-- with a slot that is in use for it, and one more is in use.
abbrev pub Accounted : ℕ → Bool → List ClientSlot → ServerState × List Action → Type 0
Accounted cfd thread_starts slots (s', actions) =
    (length s'.slots ≡ length slots)
    × (((actions ≡ closes cfd ∷ []) × (clients s'.slots ≡ clients slots))
        ⊎ ((slot : ℕ) × (actions ≡ starts slot cfd ∷ [])
            × (thread_starts ≡ true)
            × (get_or s'.slots slot no_slot ≡ record { fd = cfd; in_use = true })
            × (clients s'.slots ≡ clients slots + 1)))

admit_client-Accounted :
    (thread_starts : Bool) (cfd : ℕ) (s : ServerState)
    → Accounted cfd thread_starts s.slots (admit_client thread_starts cfd s)
unfolding admit_client
admit_client-Accounted thread_starts cfd s = elim (Option-cases (acquire_client cfd 0 s.slots)) [
  | inl full ↦ rw (admit_client, full) (refl, inl (refl, refl))
  | inr ((slot, slots), found) ↦
      let (more, size) = (acquire_client_lem cfd s.slots).1 slot slots found in
      let taken = acquire-Taken cfd 0 slot s.slots slots found in
      let at_zero : slot ≡ taken.j = omega (arith, taken.at) in
      let now : get_or slots slot no_slot ≡ record { fd = cfd; in_use = true } =
        ap (λ i. get_or slots i no_slot) at_zero ∙ taken.now in
      elim (Bool-cases thread_starts) [
        | inl ok ↦ rw (admit_client, found, ok) (size, inr (slot, refl, refl, now, more))
        | inr fails ↦
            let (less, size') = release_one slot slots (ap (λ q. q.in_use) now) in
            rw (admit_client, found, fails) (size' ∙ size, inl (refl, omega (arith, more, less)))
      ]
]

pass_admits :
    (io : AcceptIo) (s : ServerState) (cfd : ℕ)
    → s.stop ≡ false
    → io.accepted ≡ some cfd
    → accept_pass io s ≡ admit_client io.thread_starts cfd (reload_whitelist io.file s)
unfolding accept_pass
pass_admits io s cfd goes e = ground (arith, goes, e)

pub reload_keeps :
    (file : Option (List ℕ)) (s : ServerState) → (reload_whitelist file s).slots ≡ s.slots
unfolding reload_whitelist
reload_keeps file s = ground arith

-- While the daemon is not stopping, a connection that is accepted is either closed, and as many
-- slots are in use as before, or a thread is started for it with a slot that is now in use for its
-- descriptor, and one more slot is in use; the number of slots does not change.
pub accept_pass-Accounted :
    (io : AcceptIo) (s : ServerState) (cfd : ℕ)
    → s.stop ≡ false
    → io.accepted ≡ some cfd
    → Accounted cfd io.thread_starts s.slots (accept_pass io s)
accept_pass-Accounted io s cfd goes e =
    let s' = reload_whitelist io.file s in
    let same = reload_keeps io.file s in
    subst (Accounted cfd io.thread_starts s.slots) (sym (pass_admits io s cfd goes e)) (
      subst (λ slots. Accounted cfd io.thread_starts slots (admit_client io.thread_starts cfd s'))
        same (admit_client-Accounted io.thread_starts cfd s'))
