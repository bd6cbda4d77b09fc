-- ===== src/Word.antt =====
-- Machine words as numbers.
use Prim.Native.Nat.{bit_xor}
use anomstream.Prelude.{ℕ, ◌+◌, ◌-◌, ◌*◌, ◌/◌, ◌%◌, ◌^◌, min}

-- `wrapping_add` and `fetch_add` of a `u64`
abbrev pub wrapping_add64 : ℕ → ℕ → ℕ
wrapping_add64 a b = (a + b) % 2 ^ 64

-- `wrapping_sub` of a `u64`
abbrev pub wrapping_sub64 : ℕ → ℕ → ℕ
wrapping_sub64 a b = (a + 2 ^ 64 - b) % 2 ^ 64

abbrev pub wrapping_add32 : ℕ → ℕ → ℕ
wrapping_add32 a b = (a + b) % 2 ^ 32

-- `fetch_sub` of a `u32`
abbrev pub wrapping_sub32 : ℕ → ℕ → ℕ
wrapping_sub32 a b = (a + 2 ^ 32 - b) % 2 ^ 32

-- `saturating_add` of a `u64`; `saturating_sub` is `-`
abbrev pub saturating_add64 : ℕ → ℕ → ℕ
saturating_add64 a b = min (a + b) (2 ^ 64 - 1)

-- `rotate_left` of a `u64`, at `0 < k < 64`
abbrev pub rotate_left : ℕ → ℕ → ℕ
rotate_left x k = x * 2 ^ k % 2 ^ 64 + x / 2 ^ (64 - k)

infixl 60 ◌^^◌
abbrev pub ◌^^◌ : ℕ → ℕ → ℕ
a ^^ b = bit_xor a b
