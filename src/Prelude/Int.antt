-- ===== src/Prelude/Int.antt =====
-- C's `int`: signed numbers, the reduction to 32 bits, and shifts. A conversion or a left shift that
-- leaves the range wraps, as gcc and clang compile it.
use Prim.Native.Nat.{ℕ, zero, suc, ◌+◌, ◌-◌, ◌*◌, ◌/◌, ◌%◌, ◌^◌, ◌<◌}
use mathlib.Core.Path.{◌≡◌}
use mathlib.Core.Logic.{◌↔◌}
use mathlib.Core.Bool.{Bool, true, false}
use native.Mathlib.Omega.{arith}
use ndnfs_port.Prelude.Tests.{ltb, ◌==◌, if◌then◌else◌}

-- `negsuc n` is -(n + 1).
pub data ℤ : Type 0 where
  pos : ℕ → ℤ
  negsuc : ℕ → ℤ

-- -n
abbrev pub neg : ℕ → ℤ
neg zero = pos 0
neg (suc n) = negsuc n

abbrev pub eqb_ℤ : ℤ → ℤ → Bool
eqb_ℤ (pos a) (pos b) = a == b
eqb_ℤ (pos a) (negsuc b) = false
eqb_ℤ (negsuc a) (pos b) = false
eqb_ℤ (negsuc a) (negsuc b) = a == b

pub eqb_ℤ_iff : (a b : ℤ) → (eqb_ℤ a b ≡ true) ↔ (a ≡ b)
eqb_ℤ_iff a b = ground arith

-- The value of the low 32 bits.
unfoldable pub to_int : ℕ → ℤ
to_int n =
    if ltb (n % 4294967296) 2147483648
    then pos (n % 4294967296)
    else negsuc (4294967295 - n % 4294967296)

-- The bit pattern of an `int`.
unfoldable pub to_word : ℤ → ℕ
to_word (pos n) = n % 4294967296
to_word (negsuc n) = 4294967295 - n % 4294967296

-- a << k
unfoldable pub shl_int : ℤ → ℕ → ℤ
unfolding to_int to_word
shl_int a k = to_int (to_word a * 2 ^ k)

-- a >> k, which keeps the sign.
unfoldable pub shr_int : ℤ → ℕ → ℤ
shr_int (pos n) k = pos (n / 2 ^ k)
shr_int (negsuc n) k = negsuc (n / 2 ^ k)

pub to_int-of_lt : (n : ℕ) → n < 2147483648 → to_int n ≡ pos n
unfolding to_int
to_int-of_lt n h = ground arith

-- The conversion to `size_t` or `uint64_t`.
unfoldable pub to_u64 : ℤ → ℕ
to_u64 (pos n) = n % 2 ^ 64
to_u64 (negsuc n) = 2 ^ 64 - 1 - n % 2 ^ 64

-- (int) (a - b) for 64-bit `a` and `b`.
unfoldable pub sub_int : ℤ → ℤ → ℤ
unfolding to_int to_u64
sub_int a b = to_int (to_u64 a + 2 ^ 64 - to_u64 b)

pub to_u64-pos : (n : ℕ) → n < 2 ^ 64 → to_u64 (pos n) ≡ n
unfolding to_u64
to_u64-pos n h = omega arith
