-- ===== src/Wire/Numbers.antt =====
-- The text of a decimal, `str(Decimal)`: plain, or with an exponent where it is far below one.
use Prim.Native.Char.{Char}
use wallet_ledger_assesment.Base.{
  ℕ, zero, suc, ◌+◌, ◌-◌, ◌/◌, ◌%◌, ◌≡◌, refl, String, List, [], ◌∷◌, ◌++◌, ltb, ◌==◌,
  if◌then◌else◌,
}
use wallet_ledger_assesment.Base.Int.{pos, negsuc}
use wallet_ledger_assesment.Base.Lists.{length}
use wallet_ledger_assesment.Base.Text.{letter_at}
use wallet_ledger_assesment.Domain.Decimals.{Decimal}
use wallet_ledger_assesment.Wire.Numerals.{codes}

-- The digits of a number, the last one first into the rest; `fuel` is at least the number.
unfoldable pub show_digits : ℕ → ℕ → List ℕ → List ℕ
show_digits zero n rest = rest
show_digits (suc fuel) n rest =
    let more = show_digits fuel (n / 10) ((b'0' + n % 10) ∷ rest) in
    if ltb n 10 then (b'0' + n) ∷ rest else more

unfoldable pub show_nat : ℕ → List ℕ
unfolding show_digits
show_nat n = show_digits (suc n) n []

abbrev pub zeros : ℕ → List ℕ
zeros zero = []
zeros (suc n) = b'0' ∷ zeros n

-- The point stands before the last `scale` digits.
abbrev pub insert_point : ℕ → List ℕ → List ℕ
insert_point n [] = []
insert_point zero cs = b'.' ∷ cs
insert_point (suc n) (c ∷ cs) = c ∷ insert_point n cs

-- One digit before the point, where there are more.
abbrev pub first_point : List ℕ → List ℕ
first_point [] = []
first_point (c ∷ []) = c ∷ []
first_point (c ∷ d ∷ ds) = c ∷ b'.' ∷ d ∷ ds

unfoldable pub show_magnitude : ℕ → ℕ → List ℕ
show_magnitude n scale =
    let digits = show_nat n in
    let count = length digits in
    if scale == 0
    then digits
    else if ltb scale count
    then insert_point (count - scale) digits
    else if ltb scale (count + 6)
    then b'0' ∷ b'.' ∷ (zeros (scale - count) ++ digits)
    else first_point digits ++ (b'E' ∷ b'-' ∷ show_nat (scale + 1 - count))

unfoldable pub show_decimal : Decimal → List ℕ
unfolding show_magnitude show_nat
show_decimal d = elim d.coefficient [
  | pos n ↦ show_magnitude n d.scale
  | negsuc n ↦ b'-' ∷ show_magnitude (suc n) d.scale
]

show_test :
    (show_decimal (record { coefficient = pos 3_000_000_000; scale = 8 }) ≡ codes "30.00000000")
    × (show_decimal (record { coefficient = negsuc 4; scale = 2 }) ≡ codes "-0.05")
    × (show_decimal (record { coefficient = pos 0; scale = 8 }) ≡ codes "0E-8")
    × (show_decimal (record { coefficient = pos 0; scale = 2 }) ≡ codes "0.00")
    × (show_decimal (record { coefficient = pos 700; scale = 0 }) ≡ codes "700")
    × (show_decimal (record { coefficient = pos 15; scale = 9 }) ≡ codes "1.5E-8")
unfolding show_decimal
show_test = (refl, refl, refl, refl, refl, refl)

-- The text of such codes, which are digits, a sign, a point and the letter of an exponent.
unfoldable pub character : ℕ → Char
character c =
    if c == b'-'
    then "-"
    else if c == b'.'
    then "."
    else if c == b'E'
    then "E"
    else letter_at (c - b'0') "0123456789" "0"

unfoldable pub text_of_codes : List ℕ → String
unfolding character
text_of_codes [] = String.[]
text_of_codes (c ∷ cs) = String.◌∷◌ (character c) (text_of_codes cs)

unfoldable pub decimal_text : Decimal → String
unfolding show_decimal text_of_codes
decimal_text d = text_of_codes (show_decimal d)

decimal_text_test : decimal_text (record { coefficient = negsuc 1_249; scale = 2 }) ≡ "-12.50"
unfolding decimal_text
decimal_text_test = refl
