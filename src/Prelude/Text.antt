-- ===== src/Prelude/Text.antt =====
-- What the program calls of Python's `str`: `rstrip`, `join` and the decimal form of an integer.
use Prim.Native.Nat.{ℕ, zero, suc, ◌+◌, ◌/◌, ◌%◌}
use Prim.Native.Char.{Char, code}
use Prim.Native.String.{String}
use mathlib.Core.Bool.{Bool, ◌&&◌, ◌||◌}
use mathlib.Core.List.{List, [], ◌∷◌}
use jev_frame.Prelude.Tests.{ltb, leb, nat_beq, if◌then◌else◌}
use jev_frame.Prelude.Keys.{◌==◌, string_eq, concat}
use jev_frame.Prelude.Int.{ℤ, pos, negsuc}

within : ℕ → ℕ → ℕ → Bool
within lo hi n = leb lo n && leb n hi

-- `str.isspace` for one character
unfoldable pub is_space : Char → Bool
unfolding within
is_space c =
    let n = code c in
    within 9 13 n
    || within 28 32 n
    || nat_beq n 0x85
    || nat_beq n 0xa0
    || nat_beq n 0x1680
    || within 0x2000 0x200a n
    || within 0x2028 0x2029 n
    || nat_beq n 0x202f
    || nat_beq n 0x205f
    || nat_beq n 0x3000

unfoldable pub rstrip : String → String
unfolding is_space
rstrip String.[] = ""
rstrip (String.◌∷◌ c s) =
    let rest = rstrip s in if is_space c && rest == "" then "" else String.◌∷◌ c rest

unfoldable pub join : String → List String → String
join separator [] = ""
join separator (s ∷ []) = s
join separator (s ∷ t ∷ rest) = concat (s ∷ separator ∷ join separator (t ∷ rest) ∷ [])

nth : List String → ℕ → String
nth [] n = ""
nth (s ∷ rest) zero = s
nth (s ∷ rest) (suc n) = nth rest n

digit : ℕ → String
unfolding nth
digit = nth ("0" ∷ "1" ∷ "2" ∷ "3" ∷ "4" ∷ "5" ∷ "6" ∷ "7" ∷ "8" ∷ "9" ∷ [])

-- A number has at most as many digits as its value, so that the rounds suffice.
digits : (rounds n : ℕ) → String
unfolding digit
digits zero n = digit n
digits (suc rounds) n =
    let front = digits rounds (n / 10) in
    if ltb n 10 then digit n else concat (front ∷ digit (n % 10) ∷ [])

-- `str(n)`
unfoldable pub decimal : ℤ → String
unfolding digits
decimal (pos n) = digits n n
decimal (negsuc n) = concat ("-" ∷ digits n (n + 1) ∷ [])
