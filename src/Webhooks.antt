-- ===== src/Webhooks.antt =====
-- The webhook endpoints (wallet_ledger/api/webhooks.py): a body whose signature proves its origin is
-- parsed, and a success in it settles the deposit that it names. Parameters are the digest
-- HMAC-SHA256, the JSON parser of the framework, and `adapt`, the text that the
-- database driver casts a value that is no text to, or its error.
pub mod Processing
pub mod Settling
use wallet_ledger_assesment.Base.{
  ℕ, Bool, true, false, String, Option, none, some, List, [], ◌∷◌, if◌then◌else◌,
}
use wallet_ledger_assesment.Domain.Errors.{
  Result, ok, err, guard, ◌>>=◌, ◌>>◌, webhook_verification, unsupported_provider, attribute_error,
  type_error,
}
use wallet_ledger_assesment.Domain.Decimals.{Decimal}
use wallet_ledger_assesment.Domain.Events.{DomainEvent}
use wallet_ledger_assesment.Store.{Db}
use wallet_ledger_assesment.Store.Models.{Transaction, Reference}
use wallet_ledger_assesment.Wire.{Json, payload_of, get, truthy}
use wallet_ledger_assesment.Payments.{Config, PaymentProvider, get_payment_provider}
use wallet_ledger_assesment.Payments.Signature.{Codes, is_empty, verify_webhook}
use wallet_ledger_assesment.Payments.Callback.{CallbackResult, parse_callback}
use wallet_ledger_assesment.Deposits.{pending_deposit, settle}

-- The parts of a request that are read.
pub record WebhookRequest : Type 0 where
  pub body : Codes
  pub stripe_signature : Option Codes
  pub x_signature : Option Codes
  pub x_provider : Option String

-- `headers.get("Stripe-Signature") or headers.get("X-Signature", "")`
abbrev pub or_nothing : Option Codes → Codes
or_nothing none = []
or_nothing (some s) = s

abbrev pub signature_of : WebhookRequest → Codes
signature_of r =
    if is_empty (or_nothing r.stripe_signature)
    then or_nothing r.x_signature
    else or_nothing r.stripe_signature

-- What the endpoint answers: nothing was credited, or this transaction was settled.
pub data Processed : Type 0 where
  ignored : Processed
  settled : Transaction → DomainEvent → Processed

-- The reference that is looked for: null, a text, or what the database driver makes of another value.
abbrev pub reference_of : (Json → Result String) → Json → Result Reference
reference_of adapt Json.null = ok none
reference_of adapt (Json.text s) = ok (some s)
reference_of adapt v = adapt v >>= λ s. ok (some s)

-- `confirmed_currency.upper()` comes after the deposit has been found.
abbrev pub settle_with_currency :
    ℕ → ℕ → Reference → Option Decimal → Option Json → Db → Result (Transaction × DomainEvent × Db)
settle_with_currency threshold drawn reference amount none db =
    settle threshold drawn reference amount none db
settle_with_currency threshold drawn reference amount (some (Json.text c)) db =
    settle threshold drawn reference amount (some c) db
settle_with_currency threshold drawn reference amount (some v) db = do
  txn ← pending_deposit reference db
  err attribute_error

module _ (hmac : String → Codes → Codes) (parse_json : Codes → Option Json)
    (adapt : Json → Result String) where
  unfoldable pub confirm : ℕ → ℕ → CallbackResult → Db → Result (Processed × Db)
  confirm threshold drawn result db = do
    reference ← reference_of adapt result.reference
    (txn, event, db') ←
        settle_with_currency threshold drawn reference result.amount result.currency db
    ok (settled txn event, db')

  -- `_process`
  unfoldable pub process : Config → ℕ → ℕ → String → WebhookRequest → Db → Result (Processed × Db)
  unfolding confirm
  process config threshold drawn provider_name r db = do
    adapter ← get_payment_provider config provider_name
    accepted ← verify_webhook hmac adapter r.body (signature_of r)
    guard accepted webhook_verification
    result ← parse_callback adapter (payload_of (parse_json r.body))
    if result.is_success then confirm threshold drawn result db else ok (ignored, db)

  -- `payment_webhook_alias`: the provider comes from the header X-Provider or from the body.
  abbrev pub provider_in_body : Option Json → Result String
  provider_in_body (some (Json.text s)) =
      if truthy (Json.text s) then ok s else err unsupported_provider
  provider_in_body none = err unsupported_provider
  provider_in_body (some v) = if truthy v then err attribute_error else err unsupported_provider

  abbrev pub named_provider : Option String → Json → Result String
  named_provider none payload = get "provider" payload >>= provider_in_body
  named_provider (some s) payload =
      if truthy (Json.text s) then ok s else get "provider" payload >>= provider_in_body

  unfoldable pub process_alias : Config → ℕ → ℕ → WebhookRequest → Db → Result (Processed × Db)
  unfolding process
  process_alias config threshold drawn r db = do
    provider_name ← named_provider r.x_provider (payload_of (parse_json r.body))
    process config threshold drawn provider_name r db
