-- ===== src/Dispatcher/Capabilities.antt =====
-- What SYS_CAPS announces (src/asyd/handlers/sys_caps.c) against what the dispatcher runs
-- (src/asyd/core/dispatcher.c).
use asys.Base.{ℕ, ◌-◌, ◌/◌, ◌%◌, ◌^◌, Bool, false, List, ◌∷◌, leb, ◌==◌, if◌then◌else◌, get_u32}
use asys.Dispatcher.{Handlers}

-- What an agent reads of a reply to SYS_CAPS: bit `ins` of the word in the first four bytes for the
-- instructions below 0x20, and of the word in the next four for those from 0x20 to 0x3F.
unfoldable pub announced : List ℕ → ℕ → Bool
announced (a ∷ b ∷ c ∷ d ∷ e ∷ f ∷ g ∷ h ∷ rest) ins =
    if leb ins 0x1F
    then get_u32 a b c d / 2 ^ ins % 2 == 1
    else if leb ins 0x3F
    then get_u32 e f g h / 2 ^ (ins - 0x20) % 2 == 1
    else false
announced _ ins = false
