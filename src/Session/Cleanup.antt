-- ===== src/Session/Cleanup.antt =====
-- What is left of a session after its clean-up: src/asyd/asyd.c.
use asys.Base.{ℕ, ◌<◌, ◌≡◌, ◌≢◌, refl, none, some, List, length, get_or, get_or-set_self}
use asys.Apdu.{ApduParser, pool_release, zero_parser}
use asys.Handlers.{World}
use asys.Noise.{zero_state}
use asys.Noise.Transport.{wipe}
use asys.Tasks.{task_pool_find_handle}
use asys.Tasks.Validity.{IsPool}
use asys.Tasks.Handles.{find_handle-release}
use asys.Session.{SessionCtx}
use asys.Session.Packet.{cleanup}

-- For a slot of the pool and a valid task pool: after the clean-up the handshake and transport state
-- of the context is zero, and the agent's public key stays in it; nothing was asked of the system;
-- the session's parser slot is free and zero, its task handles find nothing, and the handles of every
-- other session find what they found before.
pub cleanup_lem :
    (ctx : SessionCtx) (pool : List ApduParser) (i : ℕ) (world : World)
    → i < length pool
    → IsPool world.pool
    → let (ctx', pool', world') = cleanup ctx pool (some i) world in
      (ctx'.noise ≡ zero_state)
      × (ctx'.agent_pub ≡ ctx.agent_pub)
      × (get_or pool' i zero_parser ≡ zero_parser)
      × (world'.effects ≡ world.effects)
      × ((handle : ℕ)
          → (task_pool_find_handle world'.pool handle ctx.session_id ≡ none)
            × ((other : ℕ)
                → other ≢ ctx.session_id
                → task_pool_find_handle world'.pool handle other
                  ≡ task_pool_find_handle world.pool handle other))
unfolding cleanup wipe pool_release
cleanup_lem ctx pool i world inside v = (
  refl,
  refl,
  get_or-set_self pool i zero_parser zero_parser inside,
  refl,
  (λ handle. find_handle-release world.pool ctx.session_id handle v),
)
