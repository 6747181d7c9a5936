-- ===== src/Payments/Callback.antt =====
-- `parse_callback` of the three providers: what a webhook's body says, before it is believed.
use wallet_ledger_assesment.Base.{◌+◌, Bool, String, Option, none, some, if◌then◌else◌}
use wallet_ledger_assesment.Base.Text.{str_eq}
use wallet_ledger_assesment.Domain.Errors.{Result, ok, ◌>>=◌}
use wallet_ledger_assesment.Domain.Decimals.{Decimal}
use wallet_ledger_assesment.Wire.{
  Json, empty_object, get, or_default, some_value, truthy, is_text, decimal_of, upper_of,
}
use wallet_ledger_assesment.Payments.{PaymentProvider, zero_decimal}

-- The reference and the currency are whatever values the body holds.
pub record CallbackResult : Type 0 where
  pub reference : Json
  pub is_success : Bool
  pub amount : Option Decimal
  pub currency : Option Json

-- `Decimal(value) if value else None`
abbrev pub decimal_if_truthy : Option Json → Result (Option Decimal)
decimal_if_truthy none = ok none
decimal_if_truthy (some v) = if truthy v then decimal_of v >>= (λ d. ok (some d)) else ok none

-- `Decimal(obj["amount"]) / divisor`, which is 100 but for currencies without a smaller unit.
abbrev pub minor_amount : Option Json → String → Result (Option Decimal)
minor_amount none currency = ok none
minor_amount (some v) currency = do
  d ← decimal_of v
  ok (some (record d { scale = if zero_decimal currency then d.scale else d.scale + 2 }))

-- `text or None`
abbrev pub text_or_none : String → Option Json
text_or_none s = if str_eq s "" then none else some (Json.text s)

unfoldable pub parse_pawapay : Json → Result CallbackResult
parse_pawapay payload = do
  value ← get "amount" payload
  amount ← decimal_if_truthy value
  reference ← get "depositId" payload
  status ← get "status" payload
  currency ← get "currency" payload
  ok (record {
    reference = or_default (Json.text "") reference;
    is_success = is_text "COMPLETED" status;
    amount = amount;
    currency = some_value currency;
  })

unfoldable pub parse_paypal : Json → Result CallbackResult
parse_paypal payload = do
  resource ← get "resource" payload
  amount_obj ← get "amount" (or_default empty_object resource)
  value ← get "value" (or_default empty_object amount_obj)
  reference ← get "custom_id" (or_default empty_object resource)
  event_type ← get "event_type" payload
  amount ← decimal_if_truthy value
  currency ← get "currency_code" (or_default empty_object amount_obj)
  ok (record {
    reference = or_default (Json.text "") reference;
    is_success = is_text "PAYMENT.CAPTURE.COMPLETED" event_type;
    amount = amount;
    currency = some_value currency;
  })

unfoldable pub parse_stripe : Json → Result CallbackResult
parse_stripe payload = do
  data_ ← get "data" payload
  object ← get "object" (or_default empty_object data_)
  let obj = or_default empty_object object
  metadata ← get "metadata" obj
  reference ← get "transaction_id" (or_default empty_object metadata)
  type_ ← get "type" payload
  value ← get "amount" obj
  code ← get "currency" obj
  currency ← upper_of code
  amount ← minor_amount (some_value value) currency
  ok (record {
    reference = or_default (Json.text "") reference;
    is_success = is_text "payment_intent.succeeded" type_;
    amount = amount;
    currency = text_or_none currency;
  })

unfoldable pub parse_callback : PaymentProvider → Json → Result CallbackResult
unfolding parse_stripe parse_pawapay parse_paypal
parse_callback (PaymentProvider.stripe _ _) payload = parse_stripe payload
parse_callback (PaymentProvider.pawapay _ _ _) payload = parse_pawapay payload
parse_callback (PaymentProvider.paypal _ _ _ _) payload = parse_paypal payload
