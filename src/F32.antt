-- ===== src/F32.antt =====
-- Single-precision floats, as far as crates/core/src/workspace.rs computes with them: a finite one
-- is a sign and a magnitude in units of 2^-149, of which every finite `f32` is a whole multiple.
use termherd.Prelude.{ℕ, ◌*◌, ◌^◌, ◌≤◌, ◌≡◌, Bool, true, false, arith, ltb, if◌then◌else◌}

pub data F32 : Type 0 where
  nan : F32
  -- The sign: `true` is negative.
  infinite : Bool → F32
  finite : Bool → ℕ → F32

pub is_finite : F32 → Bool
is_finite nan = false
is_finite (infinite _) = false
is_finite (finite _ _) = true

-- The literals 0.5, 0.1 and 0.9: 13421773 / 2^27 and 15099494 / 2^24 are the nearest floats.
abbrev pub half : ℕ
half = 2 ^ 148

abbrev pub tenth : ℕ
tenth = 13421773 * 2 ^ 122

abbrev pub nine_tenths : ℕ
nine_tenths = 15099494 * 2 ^ 125

-- `f32::clamp(lo, hi)` for bounds that are positive: NaN stays, the rest ends within.
pub clamp : ℕ → ℕ → F32 → F32
clamp lo hi nan = nan
clamp lo hi (infinite true) = finite false lo
clamp lo hi (infinite false) = finite false hi
clamp lo hi (finite true m) = finite false lo
clamp lo hi (finite false m) =
    if ltb m lo then finite false lo else if ltb hi m then finite false hi else finite false m

-- A finite float from `lo` to `hi`.
abbrev pub Within : ℕ → ℕ → F32 → Type 0
Within lo hi (finite false m) = (lo ≤ m) × (m ≤ hi)
Within lo hi _ = ⊥

pub clamp-Within :
    (lo hi : ℕ) (x : F32) → lo ≤ hi → is_finite x ≡ true → Within lo hi (clamp lo hi x)
unfolding clamp is_finite
clamp-Within lo hi nan h f = cc
clamp-Within lo hi (infinite s) h f = cc
clamp-Within lo hi (finite true m) h f = omega arith
clamp-Within lo hi (finite false m) h f = ground arith
