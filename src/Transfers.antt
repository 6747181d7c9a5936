-- ===== src/Transfers.antt =====
-- Transfers between two accounts of one currency (wallet_ledger/application/transfers.py): direct
-- (`execute`), and in two phases (`initiate`, then `commit` or `fail`). Each operation returns the
-- state that it commits and the event that is published after the commit; an error leaves the state
-- as it was.
pub mod Effects
pub mod Phases
pub mod Status
pub mod Commit
pub mod Halves
pub mod Settlement
pub mod Passed
pub mod Race
pub mod Cover
pub mod Success
use wallet_ledger_assesment.Base.{
  ℕ, Bool, ◌&&◌, not, String, Option, none, some, List, [], ◌∷◌, ◌==◌, if◌then◌else◌,
}
use wallet_ledger_assesment.Base.Int.{ℤ}
use wallet_ledger_assesment.Base.Lists.{find, update}
use wallet_ledger_assesment.Base.Text.{str_eq}
use wallet_ledger_assesment.Domain.Enums.{
  EntryStatus, TransactionType, TransactionStatus, is_debit, is_pending, is_pending_transaction,
}
use wallet_ledger_assesment.Domain.Errors.{
  Result, ok, err, guard, ◌>>=◌, ◌>>◌, currency_mismatch, invalid_amount, transaction_not_found,
  invalid_transaction_state, key_error,
}
use wallet_ledger_assesment.Domain.Decimals.{Decimal}
use wallet_ledger_assesment.Domain.Money.{Money, money, of_amount, is_positive}
use wallet_ledger_assesment.Domain.Aggregates.{
  TransactionAggregate, new_aggregate, debit, credit, ensure_can_debit,
}
use wallet_ledger_assesment.Domain.Events.{
  DomainEvent, Payload, Value, funds_reserved, transfer_completed, transfer_failed,
}
use wallet_ledger_assesment.Store.{
  Db, get_transaction, add_transaction, add_entry, fresh_id, update_first, set_transaction_status,
}
use wallet_ledger_assesment.Store.Models.{
  Account, Transaction, LedgerEntry, Details, debit_entry, credit_entry,
}
use wallet_ledger_assesment.Ledger.{post, available_balance, assert_entries_balanced, snapshot_all}
use wallet_ledger_assesment.Accounts
use wallet_ledger_assesment.Risk.{assess}

-- What an operation leaves: the transaction that it returns, the event, and the committed state.
abbrev pub Outcome : Type 0
Outcome = Transaction × DomainEvent × Db

unfoldable pub validate : Account → Account → Decimal → Result Money
validate sender receiver amount = do
  guard (str_eq sender.currency receiver.currency) currency_mismatch
  let m = money amount sender.currency
  guard (is_positive m) invalid_amount
  ok m

unfoldable pub ensure_funds : Account → Money → Db → Result (Unit {0})
ensure_funds sender m db =
    ensure_can_debit (record { account_id = sender.id; currency = sender.currency }) m
      (available_balance sender db)

-- `correlation_id or str(uuid.uuid4())`
abbrev pub or_fresh : Option ℕ → Db → ℕ × Db
or_fresh (some c) db = (c, db)
or_fresh none db = fresh_id db

unfoldable pub new_transaction :
    TransactionType → TransactionStatus → Money → Account → Account → ℕ → Db → Transaction × Db
new_transaction type_ status m sender receiver correlation_id db =
    let (id, db') = fresh_id db in
    let txn : Transaction = record {
      id = id;
      transaction_type = type_;
      status = status;
      amount = m.amount;
      currency = m.currency;
      details = Details.parties sender.id receiver.id;
      reference = none;
      correlation_id = some correlation_id;
    } in
    (txn, add_transaction txn db')

-- `_publish`
abbrev pub transfer_event : String → Transaction → Money → Account → Account → DomainEvent
transfer_event event_type txn m sender receiver = record {
  event_type = event_type;
  payload =
      ("transaction_id", Value.id txn.id)
      ∷ ("sender_id", Value.id sender.id)
      ∷ ("receiver_id", Value.id receiver.id)
      ∷ ("amount", Value.amount m.amount)
      ∷ ("currency", Value.text m.currency)
      ∷ [];
  correlation_id = txn.correlation_id;
}

-- The two lines of a direct transfer.
abbrev pub transfer_lines : ℕ → ℕ → Money → TransactionAggregate
transfer_lines sender_id receiver_id m =
    credit receiver_id m (debit sender_id m (new_aggregate m.currency))

-- `execute` once the transfer has been validated and the funds are there.
unfoldable pub settle_transfer : ℕ → Account → Account → Money → Option ℕ → Db → Result Outcome
settle_transfer threshold sender receiver m correlation_id db = do
  let (correlation, db1) = or_fresh correlation_id db
  let (txn, db2) =
      new_transaction TransactionType.transfer TransactionStatus.success m sender receiver
        correlation db1
  db3 ← post (transfer_lines sender.id receiver.id m) txn.id db2
  db4 ← snapshot_all threshold (sender ∷ receiver ∷ []) db3
  ok (txn, transfer_event transfer_completed txn m sender receiver, db4)

unfoldable pub execute : ℕ → ℕ → ℕ → Decimal → Option ℕ → Db → Result Outcome
execute threshold sender_id receiver_id amount correlation_id db = do
  sender ← Accounts.lock sender_id db
  receiver ← Accounts.get receiver_id db
  m ← validate sender receiver amount
  ensure_funds sender m db
  settle_transfer threshold sender receiver m correlation_id db

-- `initiate` once the transfer has been validated: a reserved debit alone.
unfoldable pub reserve : Account → Account → Money → Option ℕ → Db → Result Outcome
reserve sender receiver m correlation_id db =
    let (correlation, db1) = or_fresh correlation_id db in
    let (txn, db2) =
      new_transaction TransactionType.transfer TransactionStatus.pending m sender receiver
        correlation db1 in
    let db3 =
      add_entry (debit_entry sender.id txn.id m.amount m.currency EntryStatus.pending) db2 in
    ok (txn, transfer_event funds_reserved txn m sender receiver, db3)

unfoldable pub initiate : ℕ → ℕ → Decimal → Option ℕ → Db → Result Outcome
initiate sender_id receiver_id amount correlation_id db = do
  sender ← Accounts.lock sender_id db
  receiver ← Accounts.get receiver_id db
  m ← validate sender receiver amount
  ensure_funds sender m db
  reserve sender receiver m correlation_id db

abbrev pub check_pending : Option Transaction → Result Transaction
check_pending none = err transaction_not_found
check_pending (some txn) =
    if is_pending_transaction txn.status then ok txn else err invalid_transaction_state

unfoldable pub pending_transaction : ℕ → Db → Result Transaction
pending_transaction transaction_id db = check_pending (get_transaction transaction_id db)

-- The condition of the query for the reserved debit.
abbrev pub is_reserved : ℕ → LedgerEntry → Bool
is_reserved transaction_id e =
    e.transaction_id == transaction_id && (is_debit e.entry_type && is_pending e.status)

abbrev pub or_no_debit : Option LedgerEntry → Result LedgerEntry
or_no_debit none = err invalid_transaction_state
or_no_debit (some e) = ok e

-- `txn.details["receiver_id"]`
abbrev pub receiver_id_of : Details → Result ℕ
receiver_id_of (Details.parties _ receiver_id) = ok receiver_id
receiver_id_of (Details.exchange _ receiver_id _ _) = ok receiver_id
receiver_id_of _ = err key_error

-- The first half of `commit`, up to the lock on the sender: nothing is written, and what was read
-- stays in the session.
unfoldable pub commit_read : ℤ → ℕ → Db → Result (Transaction × LedgerEntry)
commit_read limit transaction_id db = do
  txn ← pending_transaction transaction_id db
  assess limit (of_amount txn.amount txn.currency)
  reserved ← or_no_debit (find (is_reserved txn.id) db.entries)
  ok (txn, reserved)

abbrev pub settled_copy : LedgerEntry → LedgerEntry
settled_copy e = record e { status = EntryStatus.success }

-- `debit.status = SUCCESS` and the new credit.
abbrev pub settle_rows : Transaction → LedgerEntry → Account → Money → Db → Db
settle_rows txn reserved receiver m db =
    add_entry (credit_entry receiver.id txn.id m.amount m.currency EntryStatus.success)
      (record db { entries = update_first (λ e. e.seq == reserved.seq) settled_copy db.entries })

-- The second half of `commit`, from the lock on: it trusts what the first half read.
unfoldable pub commit_write : ℕ → Transaction × LedgerEntry → Db → Result Outcome
commit_write threshold (txn, reserved) db = do
  let m = of_amount txn.amount txn.currency
  sender ← Accounts.lock reserved.account_id db
  receiver_id ← receiver_id_of txn.details
  receiver ← Accounts.get receiver_id db
  let credited = credit_entry receiver.id txn.id m.amount m.currency EntryStatus.success
  assert_entries_balanced (settled_copy reserved ∷ credited db.next_seq ∷ [])
  let db1 = settle_rows txn reserved receiver m db
  let db2 = set_transaction_status txn.id TransactionStatus.success db1
  db3 ← snapshot_all threshold (sender ∷ receiver ∷ []) db2
  let done : Transaction = record txn { status = TransactionStatus.success }
  ok (done, transfer_event transfer_completed done m sender receiver, db3)

unfoldable pub commit : ℤ → ℕ → ℕ → Db → Result Outcome
commit limit threshold transaction_id db = do
  read ← commit_read limit transaction_id db
  commit_write threshold read db

abbrev pub failed_copy : LedgerEntry → LedgerEntry
failed_copy e = record e { status = EntryStatus.failed }

-- The condition of the query for the rows to release.
abbrev pub is_held : ℕ → LedgerEntry → Bool
is_held transaction_id e = e.transaction_id == transaction_id && is_pending e.status

abbrev pub release_rows : ℕ → Db → Db
release_rows transaction_id db = record db {
  entries = update (is_held transaction_id) failed_copy db.entries;
}

unfoldable pub fail : ℕ → Db → Result Outcome
fail transaction_id db = do
  txn ← pending_transaction transaction_id db
  let db1 = release_rows txn.id db
  let db2 = set_transaction_status txn.id TransactionStatus.failed db1
  let done : Transaction = record txn { status = TransactionStatus.failed }
  let event : DomainEvent = record {
    event_type = transfer_failed;
    payload = ("transaction_id", Value.id txn.id) ∷ [];
    correlation_id = txn.correlation_id;
  }
  ok (done, event, db2)
