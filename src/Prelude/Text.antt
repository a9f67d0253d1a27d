-- ===== src/Prelude/Text.antt =====
-- Text as Go's `fmt` and map keys use it.
use Prim.Native.Nat.{ℕ, zero, suc, ◌+◌, ◌/◌, ◌%◌}
use Prim.Native.String.{String, ◌++◌ as append}
use text.Mathlib.Text.{◌==◌ as str_eq}
use mathlib.Core.Bool.{Bool, false, ◌||◌}
use mathlib.Core.List.{List, [], ◌∷◌}
use gateway_controllers.Prelude.Int.{ℤ, pos, negsuc}
use gateway_controllers.Prelude.Tests.{ltb, ◌==◌, if◌then◌else◌}

digit : ℕ → String
digit d =
    if d == 0
    then "0"
    else if d == 1
    then "1"
    else if d == 2
    then "2"
    else if d == 3
    then "3"
    else if d == 4
    then "4"
    else if d == 5
    then "5"
    else if d == 6
    then "6"
    else if d == 7
    then "7"
    else if d == 8
    then "8"
    else "9"

-- One digit is written for each unit of fuel, so `n + 1` is more than enough.
print_decimal : ℕ → ℕ → String
unfolding digit
print_decimal zero n = ""
print_decimal (suc fuel) n =
    let rest = print_decimal fuel (n / 10) in
    if ltb n 10 then digit n else append rest (digit (n % 10))

-- `%d` of a number that is not negative.
unfoldable pub format_int : ℕ → String
unfolding print_decimal
format_int n = print_decimal (n + 1) n

-- `%d` of an int64.
unfoldable pub format_int64 : ℤ → String
format_int64 (pos n) = format_int n
format_int64 (negsuc n) = append "-" (format_int (suc n))

-- slices.Contains(xs, s), and the set of the keys of a Go map to bool.
unfoldable pub has_text : String → List String → Bool
has_text s [] = false
has_text s (x ∷ xs) = str_eq x s || has_text s xs
