-- ===== src/Session/Ids.antt =====
-- Session identifiers over many connections: the counter of src/asyd/asyd.c.
use asys.Base.{ℕ, zero, suc, ◌+◌, ◌%◌, ◌^◌, ◌<◌, ◌≡◌, ◌≢◌, refl, arith}
use asys.Session.{next_session_id}

-- `g_next_session_id` after `k` connections, from its start at 1.
unfoldable pub counter_after : ℕ → ℕ
unfolding next_session_id
counter_after zero = 1
counter_after (suc k) = (next_session_id (counter_after k)).1

-- The identifier of connection `k`.
unfoldable pub session_id_of : ℕ → ℕ
session_id_of k = (next_session_id (counter_after k)).0

counter_after_lem : (k : ℕ) → counter_after k ≡ k % 65535 + 1
unfolding counter_after next_session_id
counter_after_lem zero = refl
counter_after_lem (suc k) = ground (arith, counter_after_lem k)

-- Connection `k` gets an identifier that is not 0 and has 16 bits, and each of
-- the next 65534 connections gets another.
pub session_ids :
    (k j : ℕ)
    → (0 < session_id_of k)
      × (session_id_of k < 2 ^ 16)
      × (0 < j → j < 65535 → session_id_of (k + j) ≢ session_id_of k)
unfolding next_session_id session_id_of
session_ids k j = ground (arith, counter_after_lem k, counter_after_lem (k + j))
