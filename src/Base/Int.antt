-- ===== src/Base/Int.antt =====
-- Signed machine integers: the casts of unsigned ones, and the order.
use Prim.Native.Nat.{ℕ, ◌-◌, ◌<◌}
use mathlib.Core.Path.{◌≡◌}
use mathlib.Core.Bool.{Bool, true, false}
use native.Mathlib.Omega.{arith}
use v2ray_rs.Base.Tests.{ltb, leb, if◌then◌else◌}

-- `negsuc n` is -(n + 1)
pub data ℤ : Type 0 where
  pos : ℕ → ℤ
  negsuc : ℕ → ℤ

-- `n as i32` of a `u32`
abbrev pub as_i32 : ℕ → ℤ
as_i32 n = if ltb n 0x80000000 then pos n else negsuc (0xffffffff - n)

-- `n as i64` of a `u64`
abbrev pub as_i64 : ℕ → ℤ
as_i64 n = if ltb n 0x8000000000000000 then pos n else negsuc (0xffffffffffffffff - n)

-- the test `a <= b`
abbrev pub leb_ℤ : ℤ → ℤ → Bool
leb_ℤ (pos a) (pos b) = leb a b
leb_ℤ (pos a) (negsuc b) = false
leb_ℤ (negsuc a) (pos b) = true
leb_ℤ (negsuc a) (negsuc b) = leb b a

pub as_i32-pos : (n : ℕ) → n < 0x80000000 → as_i32 n ≡ pos n
as_i32-pos n h = ground arith

pub as_i64-pos : (n : ℕ) → n < 0x8000000000000000 → as_i64 n ≡ pos n
as_i64-pos n h = ground arith
