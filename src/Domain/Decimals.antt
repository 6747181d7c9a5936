-- ===== src/Domain/Decimals.antt =====
-- The part of Python's `decimal` that the program uses: finite numbers `coefficient / 10 ^ scale`
-- and `quantize` with ROUND_HALF_EVEN. The 28-digit limit of the context is not modelled: below it
-- the arithmetic is exact.
use wallet_ledger_assesment.Base.{ℕ, ◌+◌, ◌-◌, ◌*◌, ◌/◌, ◌%◌, ◌^◌, ltb, leb, ◌==◌, if◌then◌else◌}
use wallet_ledger_assesment.Base.Int.{ℤ, pos, negsuc, magnitude, sub_ℕ}

pub record Decimal : Type 0 where
  pub coefficient : ℤ
  pub scale : ℕ

-- A quotient and its remainder by `b`, rounded to the nearest whole number, a tie to the even one.
unfoldable pub nearest : ℕ → ℕ → ℕ → ℕ
nearest q r b =
    if ltb (r + r) b then q else if ltb b (r + r) then q + 1 else if q % 2 == 0 then q else q + 1

-- ROUND_HALF_EVEN on a / b.
unfoldable pub round_half_even : ℕ → ℕ → ℕ
round_half_even a b = nearest (a / b) (a % b) b

-- The sign of a number with another magnitude.
unfoldable pub with_magnitude : ℤ → ℕ → ℤ
with_magnitude (pos _) n = pos n
with_magnitude (negsuc _) n = sub_ℕ 0 n

-- `value.quantize(Decimal(1).scaleb(-digits))`: the coefficient of the result.
unfoldable pub quantize : ℕ → Decimal → ℤ
unfolding with_magnitude
quantize digits d =
    if leb d.scale digits
    then with_magnitude d.coefficient (magnitude d.coefficient * 10 ^ (digits - d.scale))
    else with_magnitude d.coefficient
        (round_half_even (magnitude d.coefficient) (10 ^ (d.scale - digits)))
