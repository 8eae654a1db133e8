-- ===== src/Keymap/Chord/Masks.antt =====
-- The modifier masks of a chord, which are set in any order.
use termherd.Prelude.{ℕ, ◌≡◌, ◌⊎◌, arith}
use termherd.Keymap.Chord.{set_bit}

unfoldable pub IsMask : ℕ → Type 0
IsMask b = (b ≡ 1) ⊎ ((b ≡ 2) ⊎ ((b ≡ 4) ⊎ (b ≡ 8)))

pub set_bit_comm :
    (m a b : ℕ) → IsMask a → IsMask b → set_bit (set_bit m a) b ≡ set_bit (set_bit m b) a
unfolding set_bit IsMask
set_bit_comm m a b h k = ground arith
