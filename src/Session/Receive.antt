-- ===== src/Session/Receive.antt =====
-- Reading from the socket: recv_exact in src/asyd/asyd.c.
use asys.Base.{
  ℕ, zero, suc, ◌+◌, ◌-◌, ◌<◌, ◌≤◌, ◌≡◌, inl, inr, refl, sym, ap, ◌∙◌, false, Option, none, some,
  List, [], ◌∷◌, ◌++◌, append_assoc, leb, ◌==◌, length, take, drop, All, length-append, length-take,
  length-drop, take-append-drop, take-append_ge, drop-append_ge, Bool-cases, arith,
}
use asys.Session.{recv, recv_loop, recv_exact}

-- The bytes that the chunks bring.
unfoldable pub joined : List (List ℕ) → List ℕ
joined [] = []
joined (chunk ∷ socket) = chunk ++ joined socket

-- No chunk is empty: the peer has not closed the connection.
abbrev pub IsOpen : List (List ℕ) → Type 0
IsOpen socket = All (λ chunk. 0 < length chunk) socket

recv_lem :
    (n : ℕ) (socket : List (List ℕ))
    → 0 < n
    → IsOpen socket
    → let (got, rest) = recv n socket in
      (got ++ joined rest ≡ joined socket)
      × IsOpen rest
      × (length got ≤ n)
      × (length got ≡ 0 → length (joined socket) ≡ 0)
unfolding recv joined
recv_lem n [] pos ok = (refl, ok, omega arith, (λ _. refl))
recv_lem n (chunk ∷ socket) pos (here, there) = elim (Bool-cases (leb (length chunk) n)) [
  | inl all ↦ rw all (refl, there, ground arith, (λ e. absurd (omega arith)))
  | inr part ↦ rw part (
    sym (append_assoc (take n chunk) (drop n chunk) (joined socket))
        ∙ ap (λ l. l ++ joined socket) (take-append-drop n chunk),
    (ground (arith, length-drop n chunk), there),
    ground (arith, length-take n chunk),
    (λ e. absurd (ground (arith, length-take n chunk))),
  )
]

module _ (n : ℕ) (socket : List (List ℕ)) where
  -- The outcome for `n` bytes.
  unfoldable pub Delivers : Option (List ℕ) × List (List ℕ) → Type 0
  Delivers (got, rest) =
      IsOpen rest
      × (n ≤ length (joined socket)
          → (got ≡ some (take n (joined socket))) × (joined rest ≡ drop n (joined socket)))
      × (length (joined socket) < n → got ≡ none)

-- Bytes received before the rest.
Delivers-prepend :
    (got : List ℕ) (rest socket : List (List ℕ)) (k m : ℕ) (out : Option (List ℕ) × List (List ℕ))
    → got ++ joined rest ≡ joined socket
    → length got + k ≡ m
    → Delivers k rest out
    → Delivers m socket (elim out.0 [ none ↦ none | some bytes ↦ some (got ++ bytes) ], out.1)
unfolding Delivers
Delivers-prepend got rest socket k m out whole count d =
    let size = length-append got (joined rest) in
    rw (← whole, ← count)
      (
        d.0,
        (λ enough.
            let (value, left) = d.1 (omega (arith, size)) in
            (
              rw value (ap some (sym (take-append_ge k got (joined rest)))),
              left ∙ sym (drop-append_ge k got (joined rest)),
            )),
        (λ short. let lost = d.2 (omega (arith, size)) in rw lost refl),
      )

recv_loop_lem :
    (fuel n : ℕ) (socket : List (List ℕ))
    → n ≤ fuel
    → IsOpen socket
    → Delivers n socket (recv_loop fuel n socket)
unfolding recv_loop Delivers
recv_loop_lem zero zero socket h ok = (ok, (λ _. (refl, refl)), (λ lt. absurd (omega arith)))
recv_loop_lem zero (suc n) socket h ok = absurd (omega arith)
recv_loop_lem (suc fuel) zero socket h ok = (ok, (λ _. (refl, refl)), (λ lt. absurd (omega arith)))
recv_loop_lem (suc fuel) (suc n) socket h ok =
    let (got, rest) = recv (suc n) socket in
    let (whole, rest_open, fits, stuck) = recv_lem (suc n) socket (omega arith) ok in
    let more : (suc n == 0) ≡ false = ground arith in
    elim (Bool-cases (length got == 0)) [
      | inl e ↦
          let nothing = stuck (ground arith) in
          rw (more, e) (rest_open, (λ enough. absurd (omega arith)), (λ _. refl))
      | inr e ↦
          let ih = recv_loop_lem fuel (suc n - length got) rest (ground arith) rest_open in
          rw (more, e)
            (Delivers-prepend got rest socket (suc n - length got) (suc n)
              (recv_loop fuel (suc n - length got) rest) whole (omega arith) ih)
    ]

-- However the peer's bytes are split into chunks, `recv_exact` returns the next `n` of them and
-- leaves the others; if fewer will come, it fails. It does not run out of fuel.
pub recv_exact_lem :
    (n : ℕ) (socket : List (List ℕ)) → IsOpen socket → Delivers n socket (recv_exact n socket)
unfolding recv_exact
recv_exact_lem n socket ok = recv_loop_lem n n socket (omega arith) ok
