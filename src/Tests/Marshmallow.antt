-- ===== src/Tests/Marshmallow.antt =====
-- The behaviour that marshmallow documents, for runs of the schemas of wallet_ledger/api/schemas.py.
use wallet_ledger_assesment.Base.{
  Bool, true, ◌&&◌, String, Option, none, some, List, ◌==◌, leb, if◌then◌else◌,
}
use wallet_ledger_assesment.Base.Lists.{length, any}
use wallet_ledger_assesment.Base.Text.{str_eq}
use wallet_ledger_assesment.Domain.Decimals.{Decimal}
use wallet_ledger_assesment.Wire.{Json, Fields}
use wallet_ledger_assesment.Wire.Numerals.{codes, decimal_of_text}
use wallet_ledger_assesment.Api.Schemas.{Marshmallow}

-- A field that no schema names is refused.
abbrev known : List String → Fields → Bool
known names Fields.end = true
known names (Fields.field k v fs) = let rest = known names fs in any (str_eq k) names && rest

abbrev fields_of : List String → Json → Option Fields
fields_of names (Json.object fs) = if known names fs then some fs else none
fields_of names _ = none

abbrev as_text : Option Json → Option String
as_text (some (Json.text s)) = some s
as_text _ = none

abbrev as_optional_text : Option Json → Option (Option String)
as_optional_text none = some none
as_optional_text (some (Json.text s)) = some (some s)
as_optional_text (some v) = none

-- `Decimal(str(value))`, where a truth value is no number.
abbrev as_decimal : Option Json → Option Decimal
as_decimal (some (Json.integer n)) = some (record { coefficient = n; scale = 0 })
as_decimal (some (Json.float exact shown)) = some shown
as_decimal (some (Json.text s)) = decimal_of_text s
as_decimal _ = none

abbrev pub documented : Marshmallow
documented = record {
  read_fields = fields_of;
  string = as_text;
  optional_string = as_optional_text;
  decimal = as_decimal;
  min_length = λ n s. leb n (length (codes s));
  equal_length = λ n s. length (codes s) == n;
}
