-- ===== src/Prelude/Decimal.antt =====
-- Decimal numbers as the bytes that printf writes for %d and atoi reads, and texts as bytes.
use Prim.Native.Nat.{ℕ, zero, suc, ◌+◌, ◌-◌, ◌*◌, ◌/◌, ◌%◌, ◌<◌}
use Prim.Native.Char.{code}
use Prim.Native.String.{String}
use mathlib.Core.Path.{◌≡◌}
use mathlib.Core.Bool.{Bool, ◌&&◌}
use mathlib.Core.List.{List, [], ◌∷◌}
use native.Mathlib.Omega.{arith}
use operating_system_project.Prelude.Tests.{leb, ◌==◌, if◌then◌else◌}

-- The bytes of an ASCII text
abbrev pub codes : String → List ℕ
codes String.[] = []
codes (String.◌∷◌ c s) = code c ∷ codes s

-- The digits of a number, on fuel, in front of a text
unfoldable pub digits_onto : ℕ → ℕ → List ℕ → List ℕ
digits_onto zero n rest = rest
digits_onto (suc fuel) n rest =
    let more = digits_onto fuel (n / 10) ((48 + n % 10) ∷ rest) in
    if n / 10 == 0 then (48 + n) ∷ rest else more

-- "%d" of a number that is not negative, in front of a text
unfoldable pub decimal_onto : ℕ → List ℕ → List ℕ
decimal_onto n rest = digits_onto (n + 1) n rest

abbrev pub is_digit : ℕ → Bool
is_digit c = leb 48 c && leb c 57

-- The digits at the front of a text, behind a number that is already read
unfoldable pub read_digits : ℕ → List ℕ → ℕ
read_digits n [] = n
read_digits n (c ∷ cs) = if is_digit c then read_digits (n * 10 + (c - 48)) cs else n

read_digits-digits_onto :
    (fuel n : ℕ) (rest : List ℕ)
    → n < fuel
    → read_digits 0 (digits_onto fuel n rest) ≡ read_digits n rest
unfolding digits_onto read_digits
read_digits-digits_onto zero n rest h = elim h [ ]
read_digits-digits_onto (suc fuel) n rest h =
    ground (arith, read_digits-digits_onto fuel (n / 10) ((48 + n % 10) ∷ rest))

-- A number that was written is read again, up to what stands behind it.
pub read_digits-decimal_onto :
    (n : ℕ) (rest : List ℕ) → read_digits 0 (decimal_onto n rest) ≡ read_digits n rest
unfolding decimal_onto
read_digits-decimal_onto n rest = read_digits-digits_onto (n + 1) n rest (omega arith)
