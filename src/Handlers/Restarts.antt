-- ===== src/Handlers/Restarts.antt =====
-- What SVC_RESTART executes, and when: src/asyd/handlers/svc_restart.c.
use asys.Base.{
  ℕ, ◌+◌, ◌-◌, ◌≤◌, ◌<◌, ◌≡◌, ◌≢◌, ◌⊎◌, inl, inr, refl, ap, ◌∙◌, true, false, List, [], ◌∷◌, ◌++◌,
  length, length-append, drop, drop-append_eq, bytes_eq, bytes_eq_refl, All, arith,
}
use asys.Apdu.{data_bytes, sec_signed}
use asys.Handlers.{Request, Io, World, restarts}
use asys.Tasks.{TaskPool, task_pool_find_pending, task_pool_sweep_timeouts}
use asys.Handlers.SvcRestart.{
  handler_svc_restart, start_restart, svc_name_valid, svc_char_valid, svc_chars_valid,
  service_suffix, requested_name,
}

-- A character that a service's name may have.
abbrev IsNameChar : ℕ → Type 0
IsNameChar x =
    ((b'a' ≤ x) × (x ≤ b'z')) ⊎ ((b'0' ≤ x) × (x ≤ b'9')) ⊎ (x ≡ b'_') ⊎ (x ≡ b'-') ⊎ (x ≡ b'.')

-- A service's name without the suffix ".service" after at least one character.
pub record IsServiceName (name : List ℕ) : Type 0 where
  pub some_chars : 1 ≤ length name
  pub fits : length name ≤ 64
  pub chars : All IsNameChar name
  pub no_suffix : (stem : List ℕ) → stem ≢ [] → name ≢ stem ++ service_suffix

IsNameChar-valid : (x : ℕ) → svc_char_valid x ≡ true → IsNameChar x
unfolding svc_char_valid
IsNameChar-valid x h = ground (arith, h)

chars_valid : (name : List ℕ) → svc_chars_valid name ≡ true → All IsNameChar name
unfolding svc_chars_valid
chars_valid [] h = tt
chars_valid (x ∷ name) h =
    (IsNameChar-valid x (ground (arith, h)), chars_valid name (ground (arith, h)))

-- The tests of the code, one by one.
valid_tests :
    (name : List ℕ)
    → svc_name_valid name ≡ true
    → (1 ≤ length name)
      × (length name ≤ 64)
      × (svc_chars_valid name ≡ true)
      × (8 < length name → bytes_eq (drop (length name - 8) name) service_suffix ≡ false)
unfolding svc_name_valid
valid_tests name h = ground (arith, h)

suffix_found :
    (stem name : List ℕ)
    → stem ≢ []
    → name ≡ stem ++ service_suffix
    → (8 < length name) × (bytes_eq (drop (length name - 8) name) service_suffix ≡ true)
suffix_found [] name ne is = absurd (ne refl)
suffix_found (x ∷ stem) name ne is =
    let size : length name ≡ length (x ∷ stem) + 8 =
      ap (λ l. length l) is ∙ length-append (x ∷ stem) service_suffix in
    let last : drop (length name - 8) name ≡ service_suffix =
      ap (drop (length name - 8)) is
      ∙ drop-append_eq (length name - 8) (x ∷ stem) service_suffix (omega (arith, size)) in
    (omega (arith, size), rw (last, bytes_eq_refl service_suffix) refl)

name-IsServiceName : (name : List ℕ) → svc_name_valid name ≡ true → IsServiceName name
name-IsServiceName name h =
    let (low, high, chars, tested) = valid_tests name h in
    record {
      some_chars = low;
      fits = high;
      chars = chars_valid name chars;
      no_suffix = λ stem ne is.
          let (long, found) = suffix_found stem name ne is in
          absurd (ground (arith, found, tested long));
    }

module _ (rand_r : ℕ → ℕ × ℕ) where
  start_effects :
      (io : Io) (w : World) (p : TaskPool) (session_id : ℕ) (name : List ℕ)
      → let w' = (start_restart rand_r io w p session_id name).1 in
        (w'.effects ≡ w.effects) ⊎ (w'.effects ≡ restarts (name ++ service_suffix) ∷ w.effects)
  unfolding start_restart
  start_effects io w p session_id name = ground arith

  restart_tested :
      (io : Io) (w : World) (req : Request) (sz session_id : ℕ)
      → let w' = (handler_svc_restart rand_r io w req sz session_id).1 in
        let name = requested_name req in
        (w'.effects ≡ w.effects)
        ⊎ ((w'.effects ≡ restarts (name ++ service_suffix) ∷ w.effects)
            × (req.frame.sec ≡ sec_signed)
            × (svc_name_valid name ≡ true)
            × (task_pool_find_pending
                  (task_pool_sweep_timeouts io.sweep_time w.pool)
                  session_id
                  name
                ≡ 0))
  unfolding handler_svc_restart
  restart_tested io w req sz session_id = ground (
    arith,
    start_effects io w (task_pool_sweep_timeouts io.sweep_time w.pool) session_id
        (requested_name req),
  )

  pub svc_restart_effect :
      (io : Io) (w : World) (req : Request) (sz session_id : ℕ)
      → let w' = (handler_svc_restart rand_r io w req sz session_id).1 in
        let name = data_bytes req.buf req.frame 4 (req.frame.data_len - 4) in
        (w'.effects ≡ w.effects)
        ⊎ ((w'.effects ≡ restarts (name ++ service_suffix) ∷ w.effects)
            × (req.frame.sec ≡ sec_signed)
            × IsServiceName name
            × (task_pool_find_pending
                  (task_pool_sweep_timeouts io.sweep_time w.pool)
                  session_id
                  name
                ≡ 0))
  svc_restart_effect io w req sz session_id = elim (restart_tested io w req sz session_id) [
    | inl same ↦ inl same
    | inr (did, signed, valid, fresh) ↦
        inr (did, signed, name-IsServiceName (requested_name req) valid, fresh)
  ]
