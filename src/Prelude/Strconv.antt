-- ===== src/Prelude/Strconv.antt =====
-- `strconv.ParseInt` in base 10, and `strconv.ParseBool`: `none` is an error.
use Prim.Native.Nat.{ℕ, zero, suc, ◌+◌, ◌-◌, ◌*◌, ◌^◌, ◌<◌}
use Prim.Native.Char.{Char, code}
use Prim.Native.String.{String}
use mathlib.Core.Path.{◌≡◌, refl}
use mathlib.Core.Bool.{Bool, true, false, ◌&&◌, ◌||◌}
use mathlib.Core.Option.{Option, none, some}
use native.Mathlib.Omega.{arith}
use text.Mathlib.Text.{◌==◌}
use cryostat_operator.Prelude.Int.{ℤ, pos, negsuc}
use mathlib.Core.Logic.{inl, inr}
use cryostat_operator.Prelude.Tests.{ltb, leb, nat_eq, if◌then◌else◌, Bool-cases}

digit_value : Char → Option ℕ
digit_value c = if leb 48 (code c) && leb (code c) 57 then some (code c - 48) else none

parse_digits : ℕ → String → Option ℕ
unfolding digit_value
parse_digits acc String.[] = some acc
parse_digits acc (String.◌∷◌ c s) = elim (digit_value c) [
  | none ↦ none
  | some d ↦ parse_digits (acc * 10 + d) s
]

parse_uint : String → Option ℕ
unfolding parse_digits
parse_uint String.[] = none
parse_uint (String.◌∷◌ c s) = parse_digits 0 (String.◌∷◌ c s)

positive : ℕ → Option ℕ → Option ℤ
positive bits none = none
positive bits (some n) = if ltb n (2 ^ (bits - 1)) then some (pos n) else none

negative : ℕ → Option ℕ → Option ℤ
negative bits none = none
negative bits (some zero) = some (pos 0)
negative bits (some (suc n)) = if ltb n (2 ^ (bits - 1)) then some (negsuc n) else none

-- A sign or none, and decimal digits, whose value has that many bits.
unfoldable pub parse_int : ℕ → String → Option ℤ
unfolding parse_uint positive negative
parse_int bits String.[] = none
parse_int bits (String.◌∷◌ c s) =
    if nat_eq (code c) 45
    then negative bits (parse_uint s)
    else if nat_eq (code c) 43
    then positive bits (parse_uint s)
    else positive bits (parse_uint (String.◌∷◌ c s))

-- The value has that many bits, with its sign.
abbrev pub Fits : ℕ → ℤ → Type 0
Fits bits (pos n) = n < 2 ^ (bits - 1)
Fits bits (negsuc n) = n < 2 ^ (bits - 1)

positive-Fits : (o : Option ℕ) (i : ℤ) → positive 32 o ≡ some i → Fits 32 i
unfolding positive
positive-Fits none i h = cc
positive-Fits (some n) (pos m) h = ground arith
positive-Fits (some n) (negsuc m) h = ground arith

negative-Fits : (o : Option ℕ) (i : ℤ) → negative 32 o ≡ some i → Fits 32 i
unfolding negative
negative-Fits none i h = cc
negative-Fits (some zero) (pos m) h = ground arith
negative-Fits (some zero) (negsuc m) h = cc
negative-Fits (some (suc n)) (pos m) h = ground arith
negative-Fits (some (suc n)) (negsuc m) h = ground arith

pub parse_int-Fits : (s : String) (i : ℤ) → parse_int 32 s ≡ some i → Fits 32 i
unfolding parse_int
parse_int-Fits String.[] i h = cc
parse_int-Fits (String.◌∷◌ c s) i h = elim (Bool-cases (nat_eq (code c) 45)) [
  | inl minus ↦ negative-Fits (parse_uint s) i (rw minus at h)
  | inr unsigned ↦ elim (Bool-cases (nat_eq (code c) 43)) [
    | inl plus ↦ positive-Fits (parse_uint s) i (rw plus at (rw unsigned at h))
    | inr digit ↦ positive-Fits (parse_uint (String.◌∷◌ c s)) i (rw digit at (rw unsigned at h))
  ]
]

positive-bounds :
    (bits : ℕ) (o : Option ℕ) (i : ℤ)
    → positive bits o ≡ some i
    → (n : ℕ) × (i ≡ pos n) × (n < 2 ^ (bits - 1))
unfolding positive
positive-bounds bits none i h = cc
positive-bounds bits (some n) (pos m) h = (m, refl, ground arith)
positive-bounds bits (some n) (negsuc m) h = ground arith

-- A text that starts with a digit has no sign, so that its value is not negative.
pub parse_int-digit :
    (bits : ℕ) (c : Char) (s : String) (i : ℤ)
    → leb 48 (code c) ≡ true
    → parse_int bits (String.◌∷◌ c s) ≡ some i
    → (n : ℕ) × (i ≡ pos n) × (n < 2 ^ (bits - 1))
unfolding parse_int
parse_int-digit bits c s i digit h =
    let minus : nat_eq (code c) 45 ≡ false = ground arith in
    let plus : nat_eq (code c) 43 ≡ false = ground arith in
    positive-bounds bits (parse_uint (String.◌∷◌ c s)) i (rw plus at (rw minus at h))

unfoldable pub parse_bool : String → Option Bool
parse_bool s =
    if s == "1" || (s == "t" || (s == "T" || (s == "TRUE" || (s == "true" || s == "True"))))
    then some true
    else if s == "0" || (s == "f" || (s == "F" || (s == "FALSE" || (s == "false" || s == "False"))))
    then some false
    else none
