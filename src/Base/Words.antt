-- ===== src/Base/Words.antt =====
-- Bytes and the little-endian words of the source: `from_le_bytes`, `to_le_bytes`, and the
-- subtraction of a release build, which wraps.
use Prim.Native.Nat.{ℕ, zero, suc, ◌+◌, ◌-◌, ◌*◌, ◌/◌, ◌%◌, ◌^◌, ◌≤◌, ◌<◌}
use mathlib.Core.Path.{◌≡◌}
use mathlib.Core.List.{List, [], ◌∷◌}
use native.Mathlib.Omega.{arith}
use fls.Base.Tests.{leb, if◌then◌else◌}
use fls.Base.Lists.{get_or}

abbrev pub Bytes : Type 0
Bytes = List ℕ

abbrev pub u16_mod : ℕ
u16_mod = 2 ^ 16

abbrev pub u32_mod : ℕ
u32_mod = 2 ^ 32

abbrev pub u32_max : ℕ
u32_max = 2 ^ 32 - 1

abbrev pub u64_mod : ℕ
u64_mod = 2 ^ 64

abbrev pub u16_from_le_bytes : ℕ → ℕ → ℕ
u16_from_le_bytes a b = a + 256 * b

abbrev pub u32_from_le_bytes : ℕ → ℕ → ℕ → ℕ → ℕ
u32_from_le_bytes a b c d = a + 256 * b + 65536 * c + 16777216 * d

abbrev pub u16_to_le_bytes : ℕ → Bytes
u16_to_le_bytes n = n % 256 ∷ n / 256 % 256 ∷ []

abbrev pub u32_to_le_bytes : ℕ → Bytes
u32_to_le_bytes n = n % 256 ∷ n / 256 % 256 ∷ n / 65536 % 256 ∷ n / 16777216 % 256 ∷ []

pub u32_le_roundtrip :
    (n : ℕ)
    → n < u32_mod
    → u32_from_le_bytes (n % 256) (n / 256 % 256) (n / 65536 % 256) (n / 16777216 % 256) ≡ n
u32_le_roundtrip n h = omega arith

-- `a - b` on `usize` and `u64`.
unfoldable pub wrapping_sub : ℕ → ℕ → ℕ
wrapping_sub a b = if leb b a then a - b else a + u64_mod - b

pub wrapping_sub-eq : (a b : ℕ) → b ≤ a → wrapping_sub a b ≡ a - b
unfolding wrapping_sub
wrapping_sub-eq a b h = ground arith

-- Every element is a `u8`.
abbrev pub AreBytes : Bytes → Type 0
AreBytes [] = Unit
AreBytes (b ∷ bs) = (b < 256) × AreBytes bs

pub get_or-lt : (d : Bytes) (i : ℕ) → AreBytes d → get_or d i 0 < 256
get_or-lt [] i b = omega arith
get_or-lt (x ∷ d) zero b = b.0
get_or-lt (x ∷ d) (suc i) b = get_or-lt d i b.1
