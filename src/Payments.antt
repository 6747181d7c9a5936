-- ===== src/Payments.antt =====
-- The payment providers (wallet_ledger/infrastructure/payments): the factory, the request for a
-- charge, and the proof of authenticity of a webhook. The services behind them are parameters.
pub mod Signature
pub mod Authenticity
pub mod Callback
use wallet_ledger_assesment.Base.{
  ℕ, ◌*◌, ◌/◌, ◌^◌, Bool, true, false, ◌||◌, ◌&&◌, String, Option, none, some, List, [], ◌∷◌, ◌++◌,
  ◌==◌, if◌then◌else◌,
}
use wallet_ledger_assesment.Base.Int.{ℤ, pos, negsuc, neg, ◌*ℤ◌}
use wallet_ledger_assesment.Base.Text.{add_text, str_eq, upper, lower}
use wallet_ledger_assesment.Domain.Errors.{Result, ok, err, ◌>>=◌, unsupported_provider}

-- The settings that the factory reads.
pub record Config : Type 0 where
  pub stripe_api_key : String
  pub stripe_webhook_secret : String
  pub pawapay_base_url : String
  pub pawapay_api_token : String
  pub pawapay_webhook_secret : String
  pub paypal_api_base : String
  pub paypal_client_id : String
  pub paypal_secret : String
  pub paypal_webhook_secret : String

pub data PaymentProvider : Type 0 where
  stripe : (api_key webhook_secret : String) → PaymentProvider
  pawapay : (base_url api_token webhook_secret : String) → PaymentProvider
  paypal : (api_base client_id secret webhook_secret : String) → PaymentProvider

unfoldable pub get_payment_provider : Config → String → Result PaymentProvider
get_payment_provider config name =
    let key = lower name in
    if str_eq key "stripe"
    then ok (PaymentProvider.stripe config.stripe_api_key config.stripe_webhook_secret)
    else if str_eq key "pawapay"
    then ok (
        PaymentProvider.pawapay config.pawapay_base_url config.pawapay_api_token
          config.pawapay_webhook_secret)
    else if str_eq key "paypal"
    then ok (
        PaymentProvider.paypal config.paypal_api_base config.paypal_client_id config.paypal_secret
          config.paypal_webhook_secret)
    else err unsupported_provider

-- The context of a deposit: what the request gives of the mobile money fields.
pub record Context : Type 0 where
  pub operator : Option String
  pub phone_number : Option String

-- The remote calls. Stripe answers with its own identifier; the two others answer, or fail.
pub record Remote : Type 0 where
  pub id_text : ℕ → String
  pub stripe_charge :
      (api_key : String) (minor_units : ℤ) (currency : String) (transaction_id : ℕ) → Result String
  pub pawapay_charge :
      (base_url api_token : String) (deposit_id : ℕ) (amount : ℤ)
      (currency correspondent phone_number : String)
      → Result (Unit {0})
  pub paypal_charge :
      (api_base client_id secret : String) (custom_id : ℕ) (amount : ℤ) (currency : String)
      → Result (Unit {0})

-- `_ZERO_DECIMAL`
abbrev pub zero_decimal : String → Bool
zero_decimal c = str_eq c "JPY" || (str_eq c "XAF" || str_eq c "XOF")

-- `int(...)` of a quotient rounds towards zero.
abbrev truncate : ℤ → ℕ → ℤ
truncate (pos n) k = pos (n / k)
truncate (negsuc n) k = neg (pos (ℕ.suc n / k))

-- The amount in the smallest unit of the currency, from units of 10 ^ -8.
unfoldable pub minor_units : ℤ → String → ℤ
minor_units amount currency =
    if zero_decimal (upper currency)
    then truncate amount (10 ^ 8)
    else truncate (amount *ℤ pos 100) (10 ^ 8)

-- `_CORRESPONDENTS`
unfoldable pub correspondent : String → String → Option String
correspondent operator currency =
    if str_eq operator "mtn" && str_eq currency "XAF"
    then some "MTN_MOMO_CMR"
    else if str_eq operator "orange" && str_eq currency "XAF"
    then some "ORANGE_CMR"
    else if str_eq operator "mtn" && str_eq currency "XOF"
    then some "MTN_MOMO_CIV"
    else if str_eq operator "orange" && str_eq currency "XOF"
    then some "ORANGE_CIV"
    else none

abbrev pub or_empty : Option String → String
or_empty none = ""
or_empty (some s) = s

abbrev pub or_unsupported : Option String → Result String
or_unsupported none = err unsupported_provider
or_unsupported (some c) = ok c

-- Each provider's `create_deposit`; without keys it runs offline.
unfoldable pub charge_stripe : Remote → String → ℤ → String → ℕ → Result String
charge_stripe remote api_key amount currency reference =
    if str_eq api_key ""
    then ok (add_text "pi_stub_" (remote.id_text reference))
    else remote.stripe_charge api_key (minor_units amount currency) (lower currency) reference

unfoldable pub charge_pawapay : Remote → String → String → ℤ → String → ℕ → Context → Result String
charge_pawapay remote base_url api_token amount currency reference context = do
  provider ← or_unsupported (correspondent (lower (or_empty context.operator)) (upper currency))
  if str_eq api_token ""
      then ok (remote.id_text reference)
      else remote.pawapay_charge base_url api_token reference amount (upper currency) provider
          (or_empty context.phone_number)
        >>= λ _. ok (remote.id_text reference)

unfoldable pub charge_paypal : Remote → String → String → String → ℤ → String → ℕ → Result String
charge_paypal remote api_base client_id secret amount currency reference =
    if str_eq client_id "" || str_eq secret ""
    then ok (remote.id_text reference)
    else remote.paypal_charge api_base client_id secret reference amount (upper currency) >>= λ _.
        ok (remote.id_text reference)

unfoldable pub create_deposit : Remote → PaymentProvider → ℤ → String → ℕ → Context → Result String
unfolding charge_stripe charge_pawapay charge_paypal
create_deposit remote (PaymentProvider.stripe api_key _) amount currency reference context =
    charge_stripe remote api_key amount currency reference
create_deposit remote (PaymentProvider.pawapay base_url api_token _) amount currency reference
      context =
    charge_pawapay remote base_url api_token amount currency reference context
create_deposit remote (PaymentProvider.paypal api_base client_id secret _) amount currency reference
      context =
    charge_paypal remote api_base client_id secret amount currency reference
