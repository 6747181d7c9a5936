-- ===== src/Tests/ServiceRuns.antt =====
-- Deposits, exchanges, reversals and the layers around them at concrete inputs.
use wallet_ledger_assesment.Base.{◌≡◌, refl, none, some, arith}
use wallet_ledger_assesment.Base.Int.{◌+ℤ◌, ◌*ℤ◌, neg, abs}
use wallet_ledger_assesment.Base.Lists.{All}
use wallet_ledger_assesment.Base.Text.{upper, lower}
use wallet_ledger_assesment.Domain.Decimals.{round_half_even, nearest}
use wallet_ledger_assesment.Domain.Enums.{TransactionStatus}
use wallet_ledger_assesment.Domain.Errors.{ok, err, http_error}
use wallet_ledger_assesment.Domain.Money.{
  money, of_amount, decimals_for, quantum, is_positive, lt, eq,
}
use wallet_ledger_assesment.Domain.Aggregates.{ensure_can_debit, assert_balanced, credit, debit}
use wallet_ledger_assesment.Store.{Db, get_transaction}
use wallet_ledger_assesment.Store.Models.{Transaction, generate_account_number}
use wallet_ledger_assesment.Ledger.{
  available_balance, balance, balance_amount, latest_snapshot, post, snapshot_all, maybe_snapshot,
  order_by_seq, add_snapshot, add_amounts,
}
use wallet_ledger_assesment.Ledger.Invariant.{IsValid, SameLedger, SameLedger-IsValid}
use wallet_ledger_assesment.Accounts
use wallet_ledger_assesment.Transfers.{
  Outcome, validate, ensure_funds, settle_transfer, new_transaction, execute,
}
use wallet_ledger_assesment.Transfers.Effects.{execute-Transferred}
use wallet_ledger_assesment.Payments.{Config, Remote, Context, get_payment_provider, create_deposit}
use wallet_ledger_assesment.Deposits
use wallet_ledger_assesment.Deposits.{has_reference, settle, pending_deposit, credit_deposit}
use wallet_ledger_assesment.Fx.{reference_per_eur, execute_fx_transfer}
use wallet_ledger_assesment.Reversals.{
  reversible_transaction, account_ids, lock_all, snapshot_ids, new_reversal, reverse,
}
use wallet_ledger_assesment.Reversals.Mirroring.{IsProper}
use wallet_ledger_assesment.Reversals.Reversing.{originals, Reversed, reverse-Reversed}
use wallet_ledger_assesment.Tests.Fixtures.{
  whole, funded, funded-IsValid, or_else, returned, nothing,
}
use wallet_ledger_assesment.Tests.TransferRuns.{direct, direct_returns}

-- A program without keys runs offline, so no remote call is made.
abbrev pub offline : Config
offline = record {
  stripe_api_key = "";
  stripe_webhook_secret = "";
  pawapay_base_url = "";
  pawapay_api_token = "";
  pawapay_webhook_secret = "";
  paypal_api_base = "";
  paypal_client_id = "";
  paypal_secret = "";
  paypal_webhook_secret = "";
}

abbrev pub unreachable : Remote
unreachable = record {
  id_text = λ i. "deposit";
  stripe_charge = λ k m c t. err http_error;
  pawapay_charge = λ u k d m c p n. err http_error;
  paypal_charge = λ u i s d m c. err http_error;
}

abbrev pub no_context : Context
no_context = record { operator = none; phone_number = none }

-- A deposit of 20 dollars waits for its webhook; its transaction has the number 11.
abbrev pub started : Db
started =
    (or_else (nothing.0, funded)
      (Deposits.initiate offline unreachable 1 (whole 20) "PayPal" no_context none funded)).1

started-SameLedger : SameLedger funded started
unfolding Deposits.initiate Deposits.new_deposit get_payment_provider create_deposit is_positive
    Accounts.lock Accounts.get Accounts.get_or_create_internal generate_account_number money
    of_amount decimals_for upper lower round_half_even nearest ◌+ℤ◌ ◌*ℤ◌ neg abs
started-SameLedger = record { entries = refl; snapshots = refl; next_seq = refl }

pub started-IsValid : IsValid started
started-IsValid = SameLedger-IsValid started-SameLedger funded-IsValid

abbrev pub deposited : Outcome
deposited = or_else nothing (settle 100 7 (some "deposit") (some (whole 20)) (some "usd") started)

pub deposited_returns :
    settle 100 7 (some "deposit") (some (whole 20)) (some "usd") started ≡ ok deposited
unfolding settle pending_deposit eq credit_deposit Deposits.initiate Deposits.new_deposit
    get_payment_provider create_deposit is_positive Accounts.lock Accounts.get
    Accounts.get_or_create_internal generate_account_number post assert_balanced credit debit
    snapshot_all maybe_snapshot order_by_seq add_snapshot add_amounts latest_snapshot money
    of_amount decimals_for upper lower round_half_even nearest ◌+ℤ◌ ◌*ℤ◌ neg abs
deposited_returns =
    returned nothing (settle 100 7 (some "deposit") (some (whole 20)) (some "usd") started) refl

-- Ten dollars to an account in EUR.
abbrev swapped : Outcome
swapped =
    or_else nothing (execute_fx_transfer reference_per_eur 100 21 22 1 4 (whole 10) none funded)

-- The direct transfer is reversed; its transaction has the number 11.
pub direct-IsValid : IsValid direct.2
direct-IsValid =
    (execute-Transferred 100 1 2 (whole 30) none funded direct.0 direct.1 direct.2 (omega arith)
      funded-IsValid direct_returns).1.valid

pub direct-IsProper : All IsProper (originals 11 direct.2)
unfolding quantum execute Accounts.lock Accounts.get validate settle_transfer new_transaction post
    assert_balanced credit debit snapshot_all maybe_snapshot order_by_seq add_snapshot add_amounts
    ensure_funds ensure_can_debit available_balance balance balance_amount latest_snapshot lt
    is_positive money of_amount decimals_for upper lower round_half_even nearest ◌+ℤ◌ ◌*ℤ◌ neg abs
direct-IsProper = (record { sign = refl; exact = refl }, (record { sign = refl; exact = refl }, tt))

abbrev pub undone : Transaction × Db
undone = or_else (nothing.0, funded) (reverse 100 11 none direct.2)

pub undone_returns : reverse 100 11 none direct.2 ≡ ok undone
unfolding reverse reversible_transaction account_ids lock_all new_reversal snapshot_ids execute
    Accounts.lock Accounts.get validate settle_transfer new_transaction post assert_balanced credit
    debit snapshot_all maybe_snapshot order_by_seq add_snapshot add_amounts ensure_funds
    ensure_can_debit available_balance balance balance_amount latest_snapshot lt is_positive money
    of_amount decimals_for upper lower round_half_even nearest ◌+ℤ◌ ◌*ℤ◌ neg abs
undone_returns = returned (nothing.0, funded) (reverse 100 11 none direct.2) refl

reverse-Reversed_example :
    (t : Transaction) × (get_transaction 11 direct.2 ≡ some t)
    × (t.status ≡ TransactionStatus.success)
    × Reversed 11 t direct.2 undone.1
reverse-Reversed_example =
    reverse-Reversed 100 11 none direct.2 undone.0 undone.1 direct-IsValid direct-IsProper
      undone_returns
