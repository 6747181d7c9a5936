-- ===== src/Domain/Money.antt =====
-- The value object `Money` (wallet_ledger/domain/money.py). An amount is a whole number of units of
-- 10 ^ -8, the scale at which the database stores it (MONEY_NUMERIC); `money` rounds it to the
-- decimals of its currency, so it is a multiple of the currency's quantum.
pub mod Laws
use wallet_ledger_assesment.Base.{ℕ, ◌-◌, ◌*◌, ◌^◌, Bool, String, if◌then◌else◌}
use wallet_ledger_assesment.Base.Int.{ℤ, pos, ◌+ℤ◌, ◌-ℤ◌, ◌*ℤ◌, neg, ltb_ℤ, leb_ℤ, eqb_ℤ}
use wallet_ledger_assesment.Base.Text.{upper, str_eq}
use wallet_ledger_assesment.Domain.Errors.{
  Result, ok, err, currency_mismatch, type_error, guard, ◌>>◌,
}
use wallet_ledger_assesment.Domain.Decimals.{Decimal, quantize}

-- `_CURRENCY_DECIMALS` and `_DEFAULT_DECIMALS`, on an upper-case code.
decimals_of : String → ℕ
decimals_of c =
    if str_eq c "EUR"
    then 2
    else if str_eq c "USD"
    then 2
    else if str_eq c "JPY"
    then 0
    else if str_eq c "XAF"
    then 0
    else if str_eq c "XOF"
    then 0
    else 2

unfoldable pub decimals_for : String → ℕ
unfolding decimals_of
decimals_for currency = decimals_of (upper currency)

-- The scale of `MONEY_NUMERIC` in wallet_ledger/models/base.py.
abbrev pub money_scale : ℕ
money_scale = 8

-- The smallest amount of a currency, in units of 10 ^ -8.
unfoldable pub quantum : String → ℕ
quantum currency = 10 ^ (money_scale - decimals_for currency)

pub record Money : Type 0 where
  pub amount : ℤ
  pub currency : String

-- `Money(amount, currency)` at a `Decimal`: rounded half-even, the currency in upper case.
unfoldable pub money : Decimal → String → Money
unfolding quantize quantum
money d currency =
    let code = upper currency in
    record { amount = quantize (decimals_for code) d *ℤ pos (quantum code); currency = code }

-- What a caller may hand over as an amount.
pub data Number : Type 0 where
  decimal : Decimal → Number
  float : Number

-- `__post_init__`: a float is refused.
unfoldable pub post_init : Number → String → Result Money
post_init float currency = err type_error
post_init (decimal d) currency = ok (money d currency)

-- `Money(value, currency)` at a value read from the database or computed from such values.
unfoldable pub of_amount : ℤ → String → Money
of_amount value = money (record { coefficient = value; scale = money_scale })

same_currency : Money → Money → Result (Unit {0})
same_currency a b = guard (str_eq a.currency b.currency) currency_mismatch

-- `__add__`, `__sub__`, `__neg__`
unfoldable pub add : Money → Money → Result Money
unfolding same_currency
add a b = do same_currency a b; ok (of_amount (a.amount +ℤ b.amount) a.currency)

unfoldable pub sub : Money → Money → Result Money
unfolding same_currency
sub a b = do same_currency a b; ok (of_amount (a.amount -ℤ b.amount) a.currency)

unfoldable pub negate : Money → Money
negate a = of_amount (neg a.amount) a.currency

-- `__lt__`, `__le__`, `__gt__`, `__ge__`
unfoldable pub lt : Money → Money → Result Bool
unfolding same_currency
lt a b = do same_currency a b; ok (ltb_ℤ a.amount b.amount)

unfoldable pub le : Money → Money → Result Bool
unfolding same_currency
le a b = do same_currency a b; ok (leb_ℤ a.amount b.amount)

unfoldable pub gt : Money → Money → Result Bool
unfolding same_currency
gt a b = do same_currency a b; ok (ltb_ℤ b.amount a.amount)

unfoldable pub ge : Money → Money → Result Bool
unfolding same_currency
ge a b = do same_currency a b; ok (leb_ℤ b.amount a.amount)

-- Equality of the dataclass: the same amount and the same currency.
unfoldable pub eq : Money → Money → Bool
eq a b = if str_eq a.currency b.currency then eqb_ℤ a.amount b.amount else Bool.false

unfoldable pub is_positive : Money → Bool
is_positive a = ltb_ℤ (pos 0) a.amount

unfoldable pub is_negative : Money → Bool
is_negative a = ltb_ℤ a.amount (pos 0)

unfoldable pub is_zero : Money → Bool
is_zero a = eqb_ℤ a.amount (pos 0)

unfoldable pub zero_money : String → Money
zero_money currency = of_amount (pos 0) currency
