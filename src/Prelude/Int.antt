-- ===== src/Prelude/Int.antt =====
-- Python's integers, where the code tests their sign.
use Prim.Native.Nat.{ℕ, zero, suc}
use mathlib.Core.Bool.{Bool, true, false}
use mathlib.Core.Option.{Option, none, some}
use mathlib.Core.Logic.{◌↔◌}
use mathlib.Core.Path.{◌≡◌}
use native.Mathlib.Omega.{arith}
use jev_frame.Prelude.Tests.{nat_beq}
use jev_frame.Prelude.Keys.{Eq}

-- `negsuc n` is -(n + 1)
pub data ℤ : Type 0 where
  pos : ℕ → ℤ
  negsuc : ℕ → ℤ

abbrev pub is_negative : ℤ → Bool
is_negative (pos n) = false
is_negative (negsuc n) = true

abbrev pub int_beq : ℤ → ℤ → Bool
int_beq (pos a) (pos b) = nat_beq a b
int_beq (negsuc a) (negsuc b) = nat_beq a b
int_beq _ _ = false

pub int_beq_iff : (a b : ℤ) → (int_beq a b ≡ true) ↔ (a ≡ b)
int_beq_iff (pos a) (pos b) = ground arith
int_beq_iff (negsuc a) (negsuc b) = ground arith
int_beq_iff a b = ground arith

instance abbrev pub int_eq : Eq ℤ
int_eq = record { equal = int_beq; equal_iff = int_beq_iff }

-- An integer that is at least 1, as a natural number.
abbrev pub positive? : ℤ → Option ℕ
positive? (pos zero) = none
positive? (pos (suc n)) = some (suc n)
positive? (negsuc n) = none
