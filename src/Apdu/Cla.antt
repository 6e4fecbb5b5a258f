-- ===== src/Apdu/Cla.antt =====
-- The CLA byte (apdu_parser.h, spec 3.1.2): what its masks select, for every byte.
use asys.Base.{
  ℕ, ◌*◌, ◌/◌, ◌%◌, ◌<◌, ◌≡◌, refl, Bool, true, ◌&&◌, ◌==◌, holds_below, holds_below_at, bit_and,
  arith,
}

-- The masks of apdu_parser.h against division and remainder.
masks_hold : ℕ → Bool
masks_hold x =
    bit_and x 0xE0 == x / 32 * 32
    && bit_and x 0x01 == x % 2
    && bit_and x 0x02 == x / 2 % 2 * 2
    && bit_and x 0x0C == x / 4 % 4 * 4
    && bit_and x 0x10 == x / 16 % 2 * 16

masks_table : holds_below masks_hold 256 ≡ true
unfolding holds_below masks_hold
masks_table = refl

pub cla_masks :
    (x : ℕ)
    → x < 256
    → (bit_and x 0xE0 ≡ x / 32 * 32)
      × (bit_and x 0x01 ≡ x % 2)
      × (bit_and x 0x02 ≡ x / 2 % 2 * 2)
      × (bit_and x 0x0C ≡ x / 4 % 4 * 4)
      × (bit_and x 0x10 ≡ x / 16 % 2 * 16)
unfolding masks_hold
cla_masks x h = ground (arith, holds_below_at masks_hold 256 masks_table x h)
