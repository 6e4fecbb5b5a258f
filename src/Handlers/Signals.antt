-- ===== src/Handlers/Signals.antt =====
-- Whom PROC_THROTTLE signals: src/asyd/handlers/proc_throttle.c.
use asys.Base.{
  ℕ, ◌+◌, ◌^◌, ◌-◌, ◌≤◌, ◌<◌, ◌≡◌, ◌≢◌, ◌⊎◌, inl, inr, ap, sym, subst, ◌∙◌, none, some, ◌∷◌, ltb,
  Bool-cases, put_u32, get_u32, arith,
}
use asys.Apdu.{byte, data_byte, data_bytes, sec_signed}
use asys.Apdu.Data.{data_byte-bytes}
use asys.Handlers.{
  Request, Io, World, ℤ, pos, negsuc, kills, to_pid_t, sw_write, sw_ok, sigstop, sigcont,
}
use asys.Handlers.ProcThrottle.{handler_proc_throttle, throttle_pid}

-- Whom a signal to a PID of 32 bits reaches: a process, or from 2^31 on, where the PID is negative
-- as a `pid_t`, a process group or every process.
pub data Reaches (pid : ℕ) : ℤ → Type 0 where
  process : pid < 2 ^ 31 → Reaches pid (pos pid)
  group : (n : ℕ) → 2 ^ 31 ≤ pid → pid + n + 1 ≡ 2 ^ 32 → Reaches pid (negsuc n)

to_pid_t-Reaches : (pid : ℕ) → pid < 2 ^ 32 → Reaches pid (to_pid_t pid)
unfolding to_pid_t
to_pid_t-Reaches pid h = elim (Bool-cases (ltb pid (2 ^ 31))) [
  | inl low ↦ rw low (process (ground (arith, low)))
  | inr high ↦ rw high (group (2 ^ 32 - (pid + 1)) (ground (arith, high)) (ground (arith, high)))
]

get_u32-put_u32 :
    (v : ℕ)
    → v < 2 ^ 32
    → get_u32 (byte (put_u32 v) 0) (byte (put_u32 v) 1) (byte (put_u32 v) 2) (byte (put_u32 v) 3)
      ≡ v
get_u32-put_u32 v h = omega arith

throttle_pid_at :
    (req : Request) (pid : ℕ)
    → pid < 2 ^ 32
    → data_bytes req.buf req.frame 4 4 ≡ put_u32 pid
    → throttle_pid req ≡ pid
throttle_pid_at req pid h carries =
    let f = req.frame in
    let at : (k : ℕ) → k < 4 → data_byte req.buf f (4 + k) ≡ byte (put_u32 pid) k =
      λ k lt. data_byte-bytes f req.buf 4 4 k lt ∙ ap (λ l. byte l k) carries in
    rw (at 0 (omega arith), at 1 (omega arith), at 2 (omega arith), at 3 (omega arith))
      (get_u32-put_u32 pid h)

ok_effects :
    (io : Io) (w : World) (req : Request) (sz session_id : ℕ)
    → (handler_proc_throttle io w req sz session_id).0 ≡ some (sw_write sw_ok)
    → let w' = (handler_proc_throttle io w req sz session_id).1 in
      (req.frame.sec ≡ sec_signed)
      × (8 ≤ req.frame.data_len)
      × (throttle_pid req ≢ 0)
      × (io.kill_result ≡ none)
      × (((req.frame.p1 ≡ 0)
            × (w'.effects ≡ kills (to_pid_t (throttle_pid req)) sigstop ∷ w.effects))
          ⊎ ((req.frame.p1 ≡ 1)
              × (w'.effects ≡ kills (to_pid_t (throttle_pid req)) sigcont ∷ w.effects)))
unfolding handler_proc_throttle
ok_effects io w req sz session_id e = ground arith

-- Let the bytes 4 to 7 of a request's data be a PID. A reply of 0x9000 means that the frame was
-- signed and carried at least eight bytes, that P1 was 0 or 1 and the PID not 0, and that exactly
-- one signal was sent, successfully: SIGSTOP for P1 = 0 and SIGCONT for P1 = 1, to the process with
-- that PID if it is below 2^31, and otherwise to the negative number that it is as a `pid_t`, which
-- stands for a process group or for every process.
pub proc_throttle_ok :
    (io : Io) (w : World) (req : Request) (sz session_id pid : ℕ)
    → pid < 2 ^ 32
    → data_bytes req.buf req.frame 4 4 ≡ put_u32 pid
    → (handler_proc_throttle io w req sz session_id).0 ≡ some (sw_write sw_ok)
    → let w' = (handler_proc_throttle io w req sz session_id).1 in
      (req.frame.sec ≡ sec_signed)
      × (8 ≤ req.frame.data_len)
      × (pid ≢ 0)
      × (io.kill_result ≡ none)
      × ((target : ℤ) × Reaches pid target
          × (((req.frame.p1 ≡ 0) × (w'.effects ≡ kills target sigstop ∷ w.effects))
              ⊎ ((req.frame.p1 ≡ 1) × (w'.effects ≡ kills target sigcont ∷ w.effects))))
proc_throttle_ok io w req sz session_id pid h carries e =
    let same = throttle_pid_at req pid h carries in
    let (signed, long, nonzero, killed, did) = ok_effects io w req sz session_id e in
    (
      signed,
      long,
      (λ z. nonzero (same ∙ z)),
      killed,
      (
        to_pid_t (throttle_pid req),
        subst (λ v. Reaches pid (to_pid_t v)) (sym same) (to_pid_t-Reaches pid h),
        did,
      ),
    )
