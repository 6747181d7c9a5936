-- ===== src/Wire.antt =====
-- What travels in requests and webhooks: JSON values as Python reads them, the questions that the
-- program asks of them (`get`, truthiness, `or`), and `Decimal` of such a value. A float stands
-- with its exact value and the one that `str` shows. Of the texts that `Decimal` reads, those with surrounding blanks or underscores and
-- the special values are refused here.
pub mod Numerals
pub mod Numbers
pub mod Reading
pub mod Points
pub mod RoundTrip
pub mod Texts
use wallet_ledger_assesment.Base.{Bool, true, false, not, String, Option, none, some, if◌then◌else◌}
use wallet_ledger_assesment.Base.Int.{ℤ, pos, eqb_ℤ}
use wallet_ledger_assesment.Base.Text.{str_eq, upper}
use wallet_ledger_assesment.Domain.Errors.{
  Result, ok, err, ◌>>=◌, attribute_error, type_error, decimal_error,
}
use wallet_ledger_assesment.Domain.Decimals.{Decimal}
use wallet_ledger_assesment.Wire.Numerals.{decimal_of_text}

-- A dictionary is the list of its fields, a list that of its items.
mutual
  pub data Json : Type 0 where
    null : Json
    truth : Bool → Json
    integer : ℤ → Json
    float : (exact shown : Decimal) → Json
    text : String → Json
    array : Items → Json
    object : Fields → Json

  pub data Items : Type 0 where
    nil : Items
    cons : Json → Items → Items

  pub data Fields : Type 0 where
    end : Fields
    field : String → Json → Fields → Fields

abbrev pub empty_object : Json
empty_object = Json.object Fields.end

abbrev pub get_field : String → Fields → Option Json
get_field k Fields.end = none
get_field k (Fields.field j v fs) = let rest = get_field k fs in if str_eq j k then some v else rest

-- `value.get(key)`: only a dictionary has the method.
abbrev pub get : String → Json → Result (Option Json)
get k (Json.object fs) = ok (get_field k fs)
get k _ = err attribute_error

-- `value.get(key, default)`
abbrev pub or_default : Json → Option Json → Json
or_default d none = d
or_default d (some v) = v

-- `None` stands for a missing field and for null.
abbrev pub some_value : Option Json → Option Json
some_value (some Json.null) = none
some_value o = o

abbrev pub truthy : Json → Bool
truthy Json.null = false
truthy (Json.truth b) = b
truthy (Json.integer n) = not (eqb_ℤ n (pos 0))
truthy (Json.float d shown) = not (eqb_ℤ d.coefficient (pos 0))
truthy (Json.text s) = not (str_eq s "")
truthy (Json.array Items.nil) = false
truthy (Json.array (Items.cons v vs)) = true
truthy (Json.object Fields.end) = false
truthy (Json.object (Fields.field k v fs)) = true

abbrev pub is_truthy : Option Json → Bool
is_truthy none = false
is_truthy (some v) = truthy v

-- `request.get_json(silent=True) or {}`
abbrev pub payload_of : Option Json → Json
payload_of none = empty_object
payload_of (some v) = if truthy v then v else empty_object

-- Whether a value is a text, and which.
abbrev pub is_text : String → Option Json → Bool
is_text s (some (Json.text t)) = str_eq t s
is_text s _ = false

-- `Decimal(value)`
abbrev pub or_decimal_error : Option Decimal → Result Decimal
or_decimal_error none = err decimal_error
or_decimal_error (some d) = ok d

abbrev pub decimal_of : Json → Result Decimal
decimal_of (Json.integer n) = ok (record { coefficient = n; scale = 0 })
decimal_of (Json.float d shown) = ok d
decimal_of (Json.text s) = or_decimal_error (decimal_of_text s)
decimal_of (Json.truth b) = ok (record { coefficient = pos (if b then 1 else 0); scale = 0 })
decimal_of _ = err type_error

-- `(value or "").upper()`
abbrev pub upper_of : Option Json → Result String
upper_of none = ok ""
upper_of (some (Json.text s)) = ok (upper s)
upper_of (some v) = if truthy v then err attribute_error else ok ""
