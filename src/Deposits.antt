-- ===== src/Deposits.antt =====
-- Deposits through a payment provider (wallet_ledger/application/deposits.py): `initiate` remembers
-- the amount that was authorised, `settle` credits it once the provider's webhook has confirmed it.
pub mod Crediting
pub mod Once
use wallet_ledger_assesment.Base.{
  ℕ, Bool, true, false, ◌&&◌, not, String, Option, none, some, List, [], ◌∷◌, ◌==◌, if◌then◌else◌,
}
use wallet_ledger_assesment.Base.Int.{ℤ}
use wallet_ledger_assesment.Base.Lists.{find}
use wallet_ledger_assesment.Base.Text.{str_eq, upper}
use wallet_ledger_assesment.Domain.Enums.{
  TransactionType, TransactionStatus, is_pending_transaction,
}
use wallet_ledger_assesment.Domain.Errors.{
  Result, ok, err, guard, ◌>>=◌, ◌>>◌, invalid_amount, transaction_not_found,
  invalid_transaction_state, deposit_amount_mismatch, key_error,
}
use wallet_ledger_assesment.Domain.Decimals.{Decimal}
use wallet_ledger_assesment.Domain.Money.{Money, money, of_amount, eq, is_positive}
use wallet_ledger_assesment.Domain.Aggregates.{TransactionAggregate, new_aggregate, debit, credit}
use wallet_ledger_assesment.Domain.Events.{DomainEvent, Value, deposit_completed}
use wallet_ledger_assesment.Store.{
  Db, add_transaction, fresh_id, set_transaction_status, set_transaction_reference,
}
use wallet_ledger_assesment.Store.Models.{Account, Transaction, Details, Reference}
use wallet_ledger_assesment.Ledger.{post, snapshot_all}
use wallet_ledger_assesment.Accounts
use wallet_ledger_assesment.Payments.{Config, Remote, Context, get_payment_provider, create_deposit}
use wallet_ledger_assesment.Transfers.{Outcome, or_fresh}

abbrev pub clearing_owner : String
clearing_owner = "PLATFORM_CLEARING"

unfoldable pub new_deposit : Account → Money → String → Context → ℕ → Db → Transaction × Db
new_deposit account m provider_name context correlation_id db =
    let (id, db') = fresh_id db in
    let txn : Transaction = record {
      id = id;
      transaction_type = TransactionType.deposit;
      status = TransactionStatus.pending;
      amount = m.amount;
      currency = m.currency;
      details = Details.deposit_to provider_name account.id context.operator context.phone_number;
      reference = none;
      correlation_id = some correlation_id;
    } in
    (txn, add_transaction txn db')

unfoldable pub initiate :
    Config → Remote → ℕ → Decimal → String → Context → Option ℕ → Db → Result (Transaction × Db)
initiate config remote account_id amount provider_name context correlation_id db = do
  account ← Accounts.get account_id db
  let m = money amount account.currency
  guard (is_positive m) invalid_amount
  let (correlation, db1) = or_fresh correlation_id db
  let (txn, db2) = new_deposit account m provider_name context correlation db1
  provider ← get_payment_provider config provider_name
  reference ← create_deposit remote provider m.amount m.currency txn.id context
  let charged : Transaction = record txn { reference = some reference }
  ok (charged, set_transaction_reference txn.id reference db2)

-- `filter_by(reference=reference)`: equal texts, or `IS NULL` where null is looked for.
abbrev pub eqb_reference : Reference → Reference → Bool
eqb_reference (some s) (some t) = str_eq s t
eqb_reference none none = true
eqb_reference _ _ = false

abbrev pub has_reference : Reference → Transaction → Bool
has_reference reference txn = eqb_reference txn.reference reference

abbrev pub check_deposit : Option Transaction → Result Transaction
check_deposit none = err transaction_not_found
check_deposit (some txn) =
    if is_pending_transaction txn.status then ok txn else err invalid_transaction_state

-- The row is locked, so a second confirmation waits until the first has committed.
unfoldable pub pending_deposit : Reference → Db → Result Transaction
pending_deposit reference db = check_deposit (find (has_reference reference) db.transactions)

-- A currency that the provider confirms is the deposit's.
abbrev pub currency_confirms : Option String → String → Bool
currency_confirms none currency = true
currency_confirms (some c) currency = str_eq (upper c) currency

abbrev pub confirmed_money : Option Decimal → Transaction → Money
confirmed_money none txn = of_amount txn.amount txn.currency
confirmed_money (some amount) txn = money amount txn.currency

-- `txn.details["account_id"]`
abbrev pub account_id_of : Details → Result ℕ
account_id_of (Details.deposit_to _ account_id _ _) = ok account_id
account_id_of _ = err key_error

abbrev pub deposit_lines : ℕ → ℕ → Money → TransactionAggregate
deposit_lines clearing_id account_id m =
    credit account_id m (debit clearing_id m (new_aggregate m.currency))

abbrev pub deposit_event : Transaction → Account → Money → DomainEvent
deposit_event txn account m = record {
  event_type = deposit_completed;
  payload =
      ("transaction_id", Value.id txn.id)
      ∷ ("account_id", Value.id account.id)
      ∷ ("amount", Value.amount m.amount)
      ∷ ("currency", Value.text m.currency)
      ∷ [];
  correlation_id = txn.correlation_id;
}

-- The part of `settle` that moves the money.
unfoldable pub credit_deposit : ℕ → ℕ → Transaction → Db → Result Outcome
credit_deposit threshold drawn txn db = do
  let authorized = of_amount txn.amount txn.currency
  account_id ← account_id_of txn.details
  account ← Accounts.lock account_id db
  opened ← Accounts.get_or_create_internal clearing_owner account.currency drawn db
  db2 ← post (deposit_lines opened.0.id account.id authorized) txn.id opened.1
  let db3 = set_transaction_status txn.id TransactionStatus.success db2
  db4 ← snapshot_all threshold (account ∷ opened.0 ∷ []) db3
  let done : Transaction = record txn { status = TransactionStatus.success }
  ok (done, deposit_event done account authorized, db4)

unfoldable pub settle : ℕ → ℕ → Reference → Option Decimal → Option String → Db → Result Outcome
settle threshold drawn reference confirmed_amount confirmed_currency db = do
  txn ← pending_deposit reference db
  guard (currency_confirms confirmed_currency txn.currency) deposit_amount_mismatch
  guard (eq (confirmed_money confirmed_amount txn) (of_amount txn.amount txn.currency))
      deposit_amount_mismatch
  credit_deposit threshold drawn txn db
