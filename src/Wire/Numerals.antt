-- ===== src/Wire/Numerals.antt =====
-- `Decimal` at a text: a sign, digits with at most one point, and an exponent.
use Prim.Native.Char.{code}
use wallet_ledger_assesment.Base.{
  ℕ, suc, ◌+◌, ◌-◌, ◌*◌, ◌^◌, ◌≡◌, refl, Bool, true, false, ◌&&◌, ◌||◌, String, Option, none, some,
  List, [], ◌∷◌, leb, ◌==◌, if◌then◌else◌,
}
use wallet_ledger_assesment.Base.Int.{ℤ, pos, negsuc, neg, ◌*ℤ◌}
use wallet_ledger_assesment.Domain.Decimals.{Decimal}

abbrev pub codes : String → List ℕ
codes String.[] = []
codes (String.◌∷◌ c s) = code c ∷ codes s

abbrev pub is_digit : ℕ → Bool
is_digit c = leb b'0' c && leb c b'9'

-- What was read so far, how many digits of it, and what follows.
unfoldable pub digits : List ℕ → ℕ → ℕ → ℕ × ℕ × List ℕ
digits [] n k = (n, k, [])
digits (c ∷ cs) n k =
    let rest = digits cs (n * 10 + (c - b'0')) (suc k) in
    if is_digit c then rest else (n, k, c ∷ cs)

-- The digits after a point, if there is one.
unfoldable pub fraction : List ℕ → ℕ → ℕ × ℕ × List ℕ
fraction [] n = (n, 0, [])
fraction (c ∷ cs) n = if c == b'.' then digits cs n 0 else (n, 0, c ∷ cs)

-- Whether there is a minus, and what follows the sign.
unfoldable pub sign : List ℕ → Bool × List ℕ
sign [] = (false, [])
sign (c ∷ cs) = if c == b'-' then (true, cs) else if c == b'+' then (false, cs) else (false, c ∷ cs)

abbrev pub signed : Bool → ℕ → ℤ
signed minus n = if minus then neg (pos n) else pos n

-- The exponent of ten; `none` is a text that is no number.
unfoldable pub exponent_end : Bool → ℕ × ℕ × List ℕ → Option ℤ
exponent_end minus (n, suc k, []) = some (signed minus n)
exponent_end minus (n, k, cs) = none

unfoldable pub exponent : List ℕ → Option ℤ
unfolding exponent_end
exponent [] = some (pos 0)
exponent (c ∷ cs) =
    let (minus, rest) = sign cs in
    if c == b'e' || c == b'E' then exponent_end minus (digits rest 0 0) else none

-- A number of so many decimals, times a power of ten.
unfoldable pub shifted : Option ℤ → ℤ → ℕ → Option Decimal
shifted none n scale = none
shifted (some (negsuc k)) n scale = some (record { coefficient = n; scale = scale + suc k })
shifted (some (pos k)) n scale =
    if leb k scale
    then some (record { coefficient = n; scale = scale - k })
    else some (record { coefficient = n *ℤ pos (10 ^ (k - scale)); scale = 0 })

unfoldable pub decimal_of_codes : List ℕ → Option Decimal
unfolding digits fraction sign exponent shifted
decimal_of_codes cs =
    let (minus, cs1) = sign cs in
    let (whole, count, cs2) = digits cs1 0 0 in
    let (n, scale, cs3) = fraction cs2 whole in
    if count + scale == 0 then none else shifted (exponent cs3) (signed minus n) scale

unfoldable pub decimal_of_text : String → Option Decimal
unfolding decimal_of_codes
decimal_of_text s = decimal_of_codes (codes s)

decimal_test :
    (decimal_of_text "-12.50" ≡ some (record { coefficient = negsuc 1249; scale = 2 }))
    × (decimal_of_text "1.5e3" ≡ some (record { coefficient = pos 1500; scale = 0 }))
    × (decimal_of_text "+.5E-1" ≡ some (record { coefficient = pos 5; scale = 2 }))
    × (decimal_of_text "12x" ≡ none)
    × (decimal_of_text "." ≡ none)
unfolding decimal_of_text ◌*ℤ◌ neg
decimal_test = (refl, refl, refl, refl, refl)
