-- ===== src/Prelude/Keys.antt =====
-- The equality test `==` of the values that the program uses as dictionary keys and set members.
use Prim.Native.Nat.{ℕ}
use Prim.Native.String.{String, ◌++◌ as str_append}
use mathlib.Core.Path.{◌≡◌, refl}
use mathlib.Core.Logic.{◌↔◌}
use mathlib.Core.Bool.{Bool, true}
use native.Mathlib.Omega.{arith}
use text.Mathlib.Text.{◌==◌ as str_eq}
use mathlib.Core.List.{List, [], ◌∷◌}
use text.Mathlib.TextEquality.{eq_iff}
use jev_frame.Prelude.Tests.{nat_beq}

-- What `==` answers for the values of a type, which are equal exactly when it says so.
pub record Eq {ℓ} (A : Type ℓ) : Type ℓ where
  pub equal : A → A → Bool
  pub equal_iff : (x y : A) → (equal x y ≡ true) ↔ (x ≡ y)

module _ {ℓ} {A : Type ℓ} ⦃e : Eq A⦄ where
  infix 50 ◌==◌
  abbrev pub ◌==◌ : A → A → Bool
  x == y = e.equal x y

  pub ==_iff : (x y : A) → ((x == y) ≡ true) ↔ (x ≡ y)
  ==_iff x y = e.equal_iff x y

  pub ==_refl : (x : A) → (x == x) ≡ true
  ==_refl x = (e.equal_iff x x).1 refl

instance abbrev pub string_eq : Eq String
string_eq = record { equal = str_eq; equal_iff = eq_iff }

pub nat_beq_iff : (a b : ℕ) → (nat_beq a b ≡ true) ↔ (a ≡ b)
nat_beq_iff a b = ground arith

instance abbrev pub nat_eq : Eq ℕ
nat_eq = record { equal = nat_beq; equal_iff = nat_beq_iff }

-- an f-string, as the list of its parts
abbrev pub concat : List String → String
concat [] = ""
concat (s ∷ ss) = str_append s (concat ss)
