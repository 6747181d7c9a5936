-- ===== src/Tests/WebhookRuns.antt =====
-- Webhooks at concrete inputs: PayPal confirms the deposit that waits, and Stripe one of its own.
use wallet_ledger_assesment.Base.{◌≡◌, refl, String, Option, none, some, [], ◌∷◌}
use wallet_ledger_assesment.Base.Int.{◌+ℤ◌, ◌*ℤ◌, neg, abs}
use wallet_ledger_assesment.Base.Text.{upper, lower}
use wallet_ledger_assesment.Domain.Decimals.{round_half_even, nearest}
use wallet_ledger_assesment.Domain.Errors.{Result, type_error, ok, err}
use wallet_ledger_assesment.Domain.Money.{money, of_amount, decimals_for, is_positive, eq}
use wallet_ledger_assesment.Domain.Aggregates.{assert_balanced, credit, debit}
use wallet_ledger_assesment.Domain.Events.{DomainEvent}
use wallet_ledger_assesment.Store.{Db}
use wallet_ledger_assesment.Store.Models.{Transaction, generate_account_number}
use wallet_ledger_assesment.Ledger.{
  latest_snapshot, post, snapshot_all, maybe_snapshot, order_by_seq, add_snapshot, add_amounts,
}
use wallet_ledger_assesment.Accounts
use wallet_ledger_assesment.Wire.{Json, Fields}
use wallet_ledger_assesment.Wire.Numerals.{decimal_of_text}
use wallet_ledger_assesment.Payments.{Config, get_payment_provider, create_deposit}
use wallet_ledger_assesment.Payments.Signature.{Codes, verify_webhook}
use wallet_ledger_assesment.Payments.Callback.{parse_callback}
use wallet_ledger_assesment.Deposits
use wallet_ledger_assesment.Deposits.{
  has_reference, eqb_reference, settle, pending_deposit, credit_deposit,
}
use wallet_ledger_assesment.Webhooks.{WebhookRequest, Processed, ignored, settled, process}
use wallet_ledger_assesment.Tests.Fixtures.{funded, or_else, returned, nothing}
use wallet_ledger_assesment.Tests.ServiceRuns.{offline, started}

abbrev pub keyed : Config
keyed = record offline { stripe_webhook_secret = "s"; paypal_webhook_secret = "s" }

-- A digest that can be read off its message.
abbrev pub prefix_hmac : String → Codes → Codes
prefix_hmac secret body = 7 ∷ body

-- A driver that casts nothing.
abbrev pub named : Json → Result String
named v = err type_error

abbrev paypal_event : Json
paypal_event = Json.object (
    Fields.field "event_type" (Json.text "PAYMENT.CAPTURE.COMPLETED") (
      Fields.field "resource"
        (Json.object (
          Fields.field "custom_id" (Json.text "deposit") (
            Fields.field "amount"
              (Json.object (
                Fields.field "value" (Json.text "20.00")
                  (Fields.field "currency_code" (Json.text "USD") Fields.end)))
              Fields.end)))
        Fields.end))

abbrev pub paypal_json : Codes → Option Json
paypal_json body = some paypal_event

abbrev pub delivery : WebhookRequest
delivery = record {
  body = 1 ∷ [];
  stripe_signature = none;
  x_signature = some (7 ∷ 1 ∷ []);
  x_provider = none;
}

abbrev pub processed : Processed × Db
processed =
    or_else (ignored, funded)
      (process prefix_hmac paypal_json named keyed 100 7 "paypal" delivery started)

processed_returns :
    process prefix_hmac paypal_json named keyed 100 7 "paypal" delivery started ≡ ok processed
unfolding process verify_webhook parse_callback decimal_of_text settle pending_deposit eq
    credit_deposit Deposits.initiate Deposits.new_deposit get_payment_provider create_deposit
    is_positive Accounts.lock Accounts.get Accounts.get_or_create_internal generate_account_number
    post assert_balanced credit debit snapshot_all maybe_snapshot order_by_seq add_snapshot
    add_amounts latest_snapshot money of_amount decimals_for upper lower round_half_even nearest
    ◌+ℤ◌ ◌*ℤ◌ neg abs
processed_returns =
    returned (ignored, funded)
      (process prefix_hmac paypal_json named keyed 100 7 "paypal" delivery started) refl

abbrev pub confirmation : Processed → Transaction × DomainEvent
confirmation ignored = (nothing.0, nothing.1)
confirmation (settled txn event) = (txn, event)

pub confirmed_returns :
    process prefix_hmac paypal_json named keyed 100 7 "paypal" delivery started
    ≡ ok (settled (confirmation processed.0).0 (confirmation processed.0).1, processed.1)
unfolding process verify_webhook parse_callback decimal_of_text settle pending_deposit eq
    credit_deposit Deposits.initiate Deposits.new_deposit get_payment_provider create_deposit
    is_positive Accounts.lock Accounts.get Accounts.get_or_create_internal generate_account_number
    post assert_balanced credit debit snapshot_all maybe_snapshot order_by_seq add_snapshot
    add_amounts latest_snapshot money of_amount decimals_for upper lower round_half_even nearest
    ◌+ℤ◌ ◌*ℤ◌ neg abs
confirmed_returns = processed_returns
