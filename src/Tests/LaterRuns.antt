-- ===== src/Tests/LaterRuns.antt =====
-- What was refused once is refused again after another operation, the opening of an account.
use wallet_ledger_assesment.Base.{◌≡◌, refl, none, some, arith, inr}
use wallet_ledger_assesment.Base.Int.{◌+ℤ◌, ◌*ℤ◌, neg, abs}
use wallet_ledger_assesment.Base.Text.{upper, lower}
use wallet_ledger_assesment.Domain.Decimals.{round_half_even, nearest}
use wallet_ledger_assesment.Domain.Errors.{ok, err, invalid_transaction_state}
use wallet_ledger_assesment.Domain.Money.{
  money, of_amount, decimals_for, is_positive, lt, quantum, eq,
}
use wallet_ledger_assesment.Domain.Aggregates.{ensure_can_debit, assert_balanced, credit, debit}
use wallet_ledger_assesment.Store.{Db}
use wallet_ledger_assesment.Store.Models.{Account, generate_account_number}
use wallet_ledger_assesment.Ledger.{
  available_balance, balance, balance_amount, latest_snapshot, post, snapshot_all, maybe_snapshot,
  order_by_seq, add_snapshot, add_amounts,
}
use wallet_ledger_assesment.Risk.{auto_approval_limit}
use wallet_ledger_assesment.Accounts
use wallet_ledger_assesment.Transfers.{
  validate, ensure_funds, settle_transfer, new_transaction, execute, reserve, initiate,
  pending_transaction, fail,
}
use wallet_ledger_assesment.Tests.Fixtures.{whole, or_else, returned, alice}
use wallet_ledger_assesment.Payments.{get_payment_provider, create_deposit}
use wallet_ledger_assesment.Deposits
use wallet_ledger_assesment.Fx.{reference_per_eur}
use wallet_ledger_assesment.Reversals.{
  reversible_transaction, account_ids, lock_all, snapshot_ids, new_reversal, reverse,
}
use wallet_ledger_assesment.Wire.Numerals.{decimal_of_text}
use wallet_ledger_assesment.Payments.Signature.{verify_webhook}
use wallet_ledger_assesment.Payments.Callback.{parse_callback}
use wallet_ledger_assesment.Webhooks.{process}
use wallet_ledger_assesment.Tests.ServiceRuns.{
  unreachable, offline, started, deposited, deposited_returns, undone, undone_returns,
}
use wallet_ledger_assesment.Transfers.Status.{IsClosed}
use wallet_ledger_assesment.History.{account_opened, here, next}
use wallet_ledger_assesment.History.Ages.{IsNumbered}
use wallet_ledger_assesment.History.Closing.{refused_for_good, settled_for_good, reversed_for_good}
use wallet_ledger_assesment.Webhooks.Settling.{processed_for_good}
use wallet_ledger_assesment.Tests.PhaseRuns.{held, cancelled, cancelled_returns}
use wallet_ledger_assesment.Tests.TransferRuns.{direct}
use wallet_ledger_assesment.Tests.WebhookRuns.{
  prefix_hmac, paypal_json, named, keyed, delivery, processed, confirmation, confirmed_returns,
}
use wallet_ledger_assesment.Deposits.{settle, pending_deposit, credit_deposit}

-- Another account.
abbrev opened_after : Db → Account × Db
opened_after db = or_else (alice, db) (Accounts.create "dave" "usd" 9 db)

held-IsNumbered : IsNumbered held
unfolding fail pending_transaction initiate reserve Accounts.lock Accounts.get validate
    new_transaction ensure_funds ensure_can_debit available_balance balance balance_amount
    latest_snapshot lt is_positive money of_amount decimals_for upper lower round_half_even nearest
    ◌+ℤ◌ ◌*ℤ◌ neg abs
held-IsNumbered = record { drawn = (omega arith, tt); increasing = (tt, tt) }

cancelled_later : Accounts.create "dave" "usd" 9 cancelled.2 ≡ ok (opened_after cancelled.2)
unfolding Accounts.create generate_account_number fail pending_transaction initiate reserve
    Accounts.lock Accounts.get validate new_transaction ensure_funds ensure_can_debit
    available_balance balance balance_amount latest_snapshot lt is_positive money of_amount
    decimals_for upper lower round_half_even nearest ◌+ℤ◌ ◌*ℤ◌ neg abs
cancelled_later = returned (alice, cancelled.2) (Accounts.create "dave" "usd" 9 cancelled.2) refl

refused_for_good_example : IsClosed invalid_transaction_state 11 (opened_after cancelled.2).1
refused_for_good_example =
    refused_for_good offline unreachable reference_per_eur auto_approval_limit 100 11 held cancelled
      held-IsNumbered (inr cancelled_returns) (opened_after cancelled.2).1
      (next here (account_opened "dave" "usd" 9 (opened_after cancelled.2).0 cancelled_later))

started-IsNumbered : IsNumbered started
unfolding Deposits.initiate Deposits.new_deposit get_payment_provider create_deposit is_positive
    Accounts.lock Accounts.get Accounts.get_or_create_internal generate_account_number money
    of_amount decimals_for upper lower round_half_even nearest ◌+ℤ◌ ◌*ℤ◌ neg abs
started-IsNumbered = record { drawn = (omega arith, tt); increasing = (tt, tt) }

deposited_later : Accounts.create "dave" "usd" 9 deposited.2 ≡ ok (opened_after deposited.2)
unfolding Accounts.create generate_account_number settle pending_deposit eq credit_deposit
    Deposits.initiate Deposits.new_deposit get_payment_provider create_deposit is_positive
    Accounts.lock Accounts.get Accounts.get_or_create_internal post assert_balanced credit debit
    snapshot_all maybe_snapshot order_by_seq add_snapshot add_amounts latest_snapshot money
    of_amount decimals_for upper lower round_half_even nearest ◌+ℤ◌ ◌*ℤ◌ neg abs
deposited_later = returned (alice, deposited.2) (Accounts.create "dave" "usd" 9 deposited.2) refl

settled_for_good_example :
    settle 50 8 (some "deposit") none none (opened_after deposited.2).1
    ≡ err invalid_transaction_state
settled_for_good_example =
    settled_for_good offline unreachable reference_per_eur auto_approval_limit 100 7
      (some "deposit") (some (whole 20)) (some "usd") started deposited started-IsNumbered
      deposited_returns (opened_after deposited.2).1
      (next here (account_opened "dave" "usd" 9 (opened_after deposited.2).0 deposited_later)) 50 8
      none none

direct-IsNumbered : IsNumbered direct.2
unfolding quantum execute Accounts.lock Accounts.get validate settle_transfer new_transaction post
    assert_balanced credit debit snapshot_all maybe_snapshot order_by_seq add_snapshot add_amounts
    ensure_funds ensure_can_debit available_balance balance balance_amount latest_snapshot lt
    is_positive money of_amount decimals_for upper lower round_half_even nearest ◌+ℤ◌ ◌*ℤ◌ neg abs
direct-IsNumbered = record { drawn = (omega arith, tt); increasing = (tt, tt) }

undone_later : Accounts.create "dave" "usd" 9 undone.1 ≡ ok (opened_after undone.1)
unfolding Accounts.create generate_account_number reverse reversible_transaction account_ids
    lock_all new_reversal snapshot_ids execute Accounts.lock Accounts.get validate settle_transfer
    new_transaction post assert_balanced credit debit snapshot_all maybe_snapshot order_by_seq
    add_snapshot add_amounts ensure_funds ensure_can_debit available_balance balance balance_amount
    latest_snapshot lt is_positive money of_amount decimals_for upper lower round_half_even nearest
    ◌+ℤ◌ ◌*ℤ◌ neg abs
undone_later = returned (alice, undone.1) (Accounts.create "dave" "usd" 9 undone.1) refl

reversed_for_good_example :
    reverse 50 11 none (opened_after undone.1).1 ≡ err invalid_transaction_state
reversed_for_good_example =
    reversed_for_good offline unreachable reference_per_eur auto_approval_limit 100 11 none direct.2
      undone direct-IsNumbered undone_returns (opened_after undone.1).1
      (next here (account_opened "dave" "usd" 9 (opened_after undone.1).0 undone_later)) 50 none

processed_later : Accounts.create "dave" "usd" 9 processed.1 ≡ ok (opened_after processed.1)
unfolding Accounts.create generate_account_number process verify_webhook parse_callback
    decimal_of_text settle pending_deposit eq credit_deposit Deposits.initiate Deposits.new_deposit
    get_payment_provider create_deposit is_positive Accounts.lock Accounts.get
    Accounts.get_or_create_internal post assert_balanced credit debit snapshot_all maybe_snapshot
    order_by_seq add_snapshot add_amounts latest_snapshot money of_amount decimals_for upper lower
    round_half_even nearest ◌+ℤ◌ ◌*ℤ◌ neg abs
processed_later = returned (alice, processed.1) (Accounts.create "dave" "usd" 9 processed.1) refl

processed_for_good_example :
    process prefix_hmac paypal_json named keyed 50 8 "paypal" delivery (opened_after processed.1).1
    ≡ err invalid_transaction_state
processed_for_good_example =
    processed_for_good prefix_hmac paypal_json named unreachable reference_per_eur
      auto_approval_limit 100 keyed 7 "paypal" delivery started (confirmation processed.0).0
      (confirmation processed.0).1 processed.1 started-IsNumbered confirmed_returns
      (opened_after processed.1).1
      (next here (account_opened "dave" "usd" 9 (opened_after processed.1).0 processed_later)) 50 8
