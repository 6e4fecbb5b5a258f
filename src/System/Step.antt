-- ===== src/System/Step.antt =====
-- The outcomes of an event, one by one: a connection and a pass of the packet loop.
use asys.Base.{
  sym, Option-cases, ℕ, ◌≡◌, ◌≢◌, ◌⊎◌, inl, inr, refl, ap, ◌∙◌, Option, none, some, List, ◌==◌,
  Bool-cases, arith, set,
}
use asys.Crypto.{Crypto}
use asys.Apdu.{ApduParser, pool_release}
use asys.Tasks.{task_pool_release_session}
use asys.Dispatcher.{Handlers}
use asys.Session.{SessionCtx, Conn, next_session_id}
use asys.Session.Packet.{PassIo, Next, continues, stops, handle_packet, cleanup}
use asys.Session.Handshake.{OpeningIo, Opening, dropped, ended, opened, open_session}
use asys.System.{Running, System, connects, serves, put, connect, serve, step}

-- What a change at one thread leaves at another.
pub put_cases :
    (f : ℕ → Option Running) (i : ℕ) (v : Option Running) (k : ℕ) (r : Running)
    → put f i v k ≡ some r
    → ((k ≡ i) × (v ≡ some r)) ⊎ ((k ≢ i) × (f k ≡ some r))
put_cases f i v k r e = elim (Bool-cases (k == i)) [
  | inl same ↦ inl (ground (arith, same), ground (arith, same, e))
  | inr other ↦ inr ((λ p. ground (arith, other, p)), ground (arith, other, e))
]

pub put_other :
    (f : ℕ → Option Running) (i : ℕ) (v : Option Running) (k : ℕ) → k ≢ i → put f i v k ≡ f k
put_other f i v k ne = ground (arith, ne)

pub put_self : (f : ℕ → Option Running) (i : ℕ) (r : Running) → put f i (some r) i ≡ some r
put_self f i r = ground arith

pub some-injective : {a b : Running} → some a ≡ some b → a ≡ b
some-injective {a} e = ap (λ o. elim o [ none ↦ a | some x ↦ x ]) e

pub none-some : {a : Running} → none ≡ some a → ⊥
none-some e = cc

-- A thread's session after a change at thread `i` that keeps a number of the session.
pub still :
    (g : Running → ℕ) (f : ℕ → Option Running) (i : ℕ) (r new : Running)
    → f i ≡ some r
    → g r ≡ g new
    → (j : ℕ) (q : Running) → put f i (some new) j ≡ some q
    → (q' : Running) × (f j ≡ some q') × (g q' ≡ g q)
still g f i r new e same j q ej = elim (put_cases f i (some new) j q ej) [
  | inl (here, is_new) ↦ (r, ap f here ∙ e, same ∙ ap g (some-injective is_new))
  | inr (other, old) ↦ (q, old, refl)
]

-- The sessions that are left when that of thread `i` is gone.
pub without_one :
    (f : ℕ → Option Running) (i j : ℕ) (q : Running)
    → put f i none j ≡ some q
    → (i ≢ j) × (f j ≡ some q)
without_one f i j q e = elim (put_cases f i none j q e) [
  | inl (same, gone) ↦ absurd (none-some gone)
  | inr (other, old) ↦ ((λ p. other (sym p)), old)
]

next_cases : (next : Next) → (next ≡ continues) ⊎ (next ≡ stops)
next_cases continues = inl refl
next_cases stops = inr refl

opening_cases :
    (o : Opening)
    → (o ≡ dropped)
      ⊎ ((ctx : SessionCtx) × (sends : List (List ℕ)) × (o ≡ ended ctx sends))
      ⊎ ((slot : ℕ) × (parsers : List ApduParser) × (conn : Conn) × (o ≡ opened slot parsers conn))
opening_cases dropped = inl refl
opening_cases (ended ctx sends) = inr (inl (ctx, sends, refl))
opening_cases (opened slot parsers conn) = inr (inr (slot, parsers, conn, refl))

module _ (c : Crypto) (h : Handlers) (s : System) where
  -- The system without the tasks of a session.
  abbrev pub without : ℕ → System
  without id = record s {
    world = record s.world { pool = task_pool_release_session s.world.pool id };
  }

  module _ (i : ℕ) (os : OpeningIo) (socket : List (List ℕ)) where
    abbrev opening : Opening
    opening = open_session c h s.globals os s.parsers s.world (next_session_id s.next_id).0 socket

    -- A connection that ends before the packet loop, and one that gets there.
    abbrev pub turned_away : SessionCtx → System
    turned_away ctx = record (without ctx.session_id) { next_id = (next_session_id s.next_id).1 }

    abbrev pub admitted : ℕ → List ApduParser → Conn → System
    admitted slot parsers conn = record s {
      next_id = (next_session_id s.next_id).1;
      parsers = parsers;
      threads = put s.threads i (some (record { slot = slot; conn = conn }));
    }

    pub connect_cases :
        (P : System → Type 0)
        → P (record s { next_id = (next_session_id s.next_id).1 })
        → ((ctx : SessionCtx) (sends : List (List ℕ))
            → opening ≡ ended ctx sends
            → P (turned_away ctx))
        → ((slot : ℕ) (parsers : List ApduParser) (conn : Conn)
            → opening ≡ opened slot parsers conn
            → P (admitted slot parsers conn))
        → P (connect c h i os socket s)
    unfolding connect cleanup
    connect_cases P left away in_loop = elim (opening_cases opening) [
      | inl e ↦ rw (connect, e) left
      | inr (inl (ctx, sends, e)) ↦ rw (connect, e) (away ctx sends e)
      | inr (inr (slot, parsers, conn, e)) ↦ rw (connect, e) (in_loop slot parsers conn e)
    ]

  module _ (i : ℕ) (pass : PassIo) (r : Running) where
    abbrev pub before : Conn
    before = record r.conn { world = s.world }

    abbrev after : Conn
    after = (handle_packet c h pass before).1

    abbrev pub went_on : System
    went_on = record s {
      world = after.world;
      threads = put s.threads i (some (record r { conn = after }));
    }

    abbrev pub left_loop : System
    left_loop = record s {
      world = record after.world {
        pool = task_pool_release_session after.world.pool after.ctx.session_id;
      };
      parsers = pool_release (set s.parsers r.slot after.parser) r.slot;
      threads = put s.threads i none;
    }

    pub serve_cases : (P : System → Type 0) → P went_on → P left_loop → P (serve c h i pass r s)
    unfolding serve cleanup
    serve_cases P goes ends = elim (next_cases (handle_packet c h pass before).0) [
      | inl e ↦ rw (serve, e) goes
      | inr e ↦ rw (serve, e) ends
    ]

  pub connects_cases :
      (i : ℕ) (os : OpeningIo) (socket : List (List ℕ)) (P : System → Type 0)
      → P s
      → (s.threads i ≡ none → P (connect c h i os socket s))
      → P (step c h (connects i os socket) s)
  unfolding step
  connects_cases i os socket P busy idle = elim (Option-cases (s.threads i)) [
    | inl e ↦ rw (step, e) (idle e)
    | inr (r, e) ↦ rw (step, e) busy
  ]

  pub serves_cases :
      (i : ℕ) (pass : PassIo) (P : System → Type 0)
      → P s
      → ((r : Running) → s.threads i ≡ some r → P (serve c h i pass r s))
      → P (step c h (serves i pass) s)
  unfolding step
  serves_cases i pass P idle busy = elim (Option-cases (s.threads i)) [
    | inl e ↦ rw (step, e) idle
    | inr (r, e) ↦ rw (step, e) (busy r e)
  ]
