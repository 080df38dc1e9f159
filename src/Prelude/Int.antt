-- ===== src/Prelude/Int.antt =====
-- Rust's signed integers: an integer in the range of its type, with the wrap-around written out.
use Prim.Native.Nat.{ℕ, zero, suc, ◌+◌, ◌-◌, ◌%◌, ◌^◌, ◌<◌}
use mathlib.Core.Bool.{Bool, false}
use mathlib.Core.Option.{Option, none, some}
use codex_sdk_rs.Prelude.Tests.{ltb, eqb, if◌then◌else◌}

-- `negsuc n` is -(n + 1).
pub data ℤ : Type 0 where
  pos : ℕ → ℤ
  negsuc : ℕ → ℤ

abbrev pub pos_part : ℤ → ℕ
pos_part (pos n) = n
pos_part (negsuc n) = 0

abbrev pub neg_part : ℤ → ℕ
neg_part (pos n) = 0
neg_part (negsuc n) = suc n

abbrev pub ◌<ℤ◌ : ℤ → ℤ → Type 0
◌<ℤ◌ a b = pos_part a + neg_part b < pos_part b + neg_part a

abbrev pub ltb_ℤ : ℤ → ℤ → Bool
ltb_ℤ a b = ltb (pos_part a + neg_part b) (pos_part b + neg_part a)

abbrev pub eqb_ℤ : ℤ → ℤ → Bool
eqb_ℤ (pos m) (pos n) = eqb m n
eqb_ℤ (negsuc m) (negsuc n) = eqb m n
eqb_ℤ (pos m) (negsuc n) = false
eqb_ℤ (negsuc m) (pos n) = false

-- `fetch_add(1)` on an `AtomicI64`: the successor, wrapping at the largest value.
abbrev pub wrapping_suc : ℤ → ℤ
wrapping_suc (pos n) = if ltb (n + 1) (2 ^ 63) then pos (n + 1) else negsuc (2 ^ 63 - 1)
wrapping_suc (negsuc zero) = pos 0
wrapping_suc (negsuc (suc n)) = negsuc n

-- `value as i32`: the low 32 bits, read as a signed number.
abbrev pub low_bits : ℤ → ℕ
low_bits (pos n) = n % 2 ^ 32
low_bits (negsuc n) = 2 ^ 32 - 1 - n % 2 ^ 32

unfoldable pub as_i32 : ℤ → ℤ
as_i32 z = if ltb (low_bits z) (2 ^ 31) then pos (low_bits z) else negsuc (2 ^ 32 - 1 - low_bits z)

-- `i64::try_from` on a `u64`.
abbrev pub i64_try_from : ℕ → Option ℤ
i64_try_from n = if ltb n (2 ^ 63) then some (pos n) else none
