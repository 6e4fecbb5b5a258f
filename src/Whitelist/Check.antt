-- ===== src/Whitelist/Check.antt =====
-- Who passes whitelist_check of src/asyd/core/whitelist.c.
use asys.Base.{ℕ, ◌≡◌, ◌↔◌, true, List, [], ◌∷◌, take, Any, arith}
use asys.Crypto.{Crypto, Laws}
use asys.Whitelist.{Whitelist, whitelist_check}

module _ (c : Crypto) (laws : Laws c) where
  -- A key passes exactly if some entry has its 32 bytes.
  pub whitelist_check_iff :
      (wl : Whitelist) (key : List ℕ)
      → (whitelist_check c wl key ≡ true) ↔ Any (λ e. take 32 e.key ≡ take 32 key) wl
  unfolding whitelist_check
  whitelist_check_iff [] key = ((λ e. absurd (ground (arith, e))), (λ no. absurd no))
  whitelist_check_iff (e ∷ wl) key =
      ground (arith, whitelist_check_iff wl key, laws.key_verified e.key key)
