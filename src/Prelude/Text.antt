-- ===== src/Prelude/Text.antt =====
-- JavaScript strings: as `String` where the code only compares them, and as their UTF-16 code units
-- where it measures or cuts them. Doubles as their 64-bit patterns.
use Prim.Native.Nat.{ℕ, zero, suc, ◌/◌, ◌%◌, ◌^◌}
use Prim.Native.Char.{code}
use Prim.Native.String
use Prim.Native.String.{String}
use mathlib.Core.Path.{◌≡◌, refl}
use mathlib.Core.Logic.{◌↔◌}
use mathlib.Core.Bool.{Bool, true, false, not, ◌&&◌, ◌||◌}
use mathlib.Core.List.{List, [], ◌∷◌}
use native.Mathlib.Omega.{arith}
use text.Mathlib.Text.{◌==◌ as string_beq}
use text.Mathlib.TextEquality.{eq_iff}
use backit_on_stellar.Prelude.Tests.{leb, ltb, ◌==◌, if◌then◌else◌}

abbrev pub str_eq : String → String → Bool
str_eq = string_beq

pub str_eq_iff : (a b : String) → (str_eq a b ≡ true) ↔ (a ≡ b)
str_eq_iff = eq_iff

-- The code units of a text; a caller gives ASCII literals.
abbrev pub units : String → List ℕ
units String.[] = []
units (String.◌∷◌ c s) = code c ∷ units s

-- `===` on strings given by their code units.
abbrev pub units_eq : List ℕ → List ℕ → Bool
units_eq [] [] = true
units_eq [] (b ∷ bs) = false
units_eq (a ∷ xs) [] = false
units_eq (a ∷ xs) (b ∷ bs) = a == b && units_eq xs bs

pub units_eq_refl : (s : List ℕ) → units_eq s s ≡ true
units_eq_refl [] = refl
units_eq_refl (a ∷ s) = ground (arith, units_eq_refl s)

-- An IEEE 754 double as its bit pattern: sign, 11 bits of exponent, 52 bits of fraction.
abbrev pub exponent : ℕ → ℕ
exponent x = x / 2 ^ 52 % 2048

unfoldable pub is_finite : ℕ → Bool
is_finite x = not (exponent x == 2047)

unfoldable pub is_nan : ℕ → Bool
is_nan x = exponent x == 2047 && not (x % 2 ^ 52 == 0)

-- `x <= 0`: false of NaN; true of both zeros and of every number with the sign bit.
unfoldable pub le_zero : ℕ → Bool
unfolding is_nan
le_zero x = not (is_nan x) && (x == 0 || leb (2 ^ 63) x)

-- The decimal key of an array index, as `Object.entries` gives it.
digit : ℕ → String
digit d =
    if d == 0
    then "0"
    else if d == 1
    then "1"
    else if d == 2
    then "2"
    else if d == 3
    then "3"
    else if d == 4
    then "4"
    else if d == 5
    then "5"
    else if d == 6
    then "6"
    else if d == 7
    then "7"
    else if d == 8
    then "8"
    else "9"

decimal : ℕ → ℕ → String
decimal zero n = ""
decimal (suc fuel) n =
    let higher = String.◌++◌ (decimal fuel (n / 10)) (digit (n % 10)) in
    if ltb n 10 then digit n else higher

unfoldable pub index_key : ℕ → String
unfolding digit decimal
index_key n = decimal (suc n) n

index_key_12 : index_key 12 ≡ "12"
unfolding index_key
index_key_12 = refl
