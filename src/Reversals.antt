-- ===== src/Reversals.antt =====
-- Compensating transactions (wallet_ledger/application/reversals.py): the settled rows of a finished
-- transaction are mirrored in a new one, and the old one becomes REVERSED.
pub mod Mirroring
pub mod Reversing
use wallet_ledger_assesment.Base.{
  ℕ, Bool, true, false, ◌&&◌, not, Option, none, some, List, [], ◌∷◌, map, ltb, ◌==◌, if◌then◌else◌,
}
use wallet_ledger_assesment.Base.Int.{ℤ, abs}
use wallet_ledger_assesment.Base.Lists.{filter}
use wallet_ledger_assesment.Domain.Enums.{
  TransactionType, TransactionStatus, is_debit, is_success, is_success_transaction, is_reversal,
}
use wallet_ledger_assesment.Domain.Errors.{
  Result, ok, err, guard, ◌>>=◌, ◌>>◌, transaction_not_found, invalid_transaction_state,
}
use wallet_ledger_assesment.Domain.Money.{Money, of_amount}
use wallet_ledger_assesment.Domain.Aggregates.{TransactionAggregate, new_aggregate, debit, credit}
use wallet_ledger_assesment.Store.{
  Db, get_transaction, add_transaction, fresh_id, set_transaction_status,
}
use wallet_ledger_assesment.Store.Models.{Account, Transaction, LedgerEntry, Details}
use wallet_ledger_assesment.Ledger.{post, maybe_snapshot}
use wallet_ledger_assesment.Accounts
use wallet_ledger_assesment.Transfers.{or_fresh}

abbrev pub check_reversible : Option Transaction → Result Transaction
check_reversible none = err transaction_not_found
check_reversible (some txn) =
    if not (is_success_transaction txn.status)
    then err invalid_transaction_state
    else if is_reversal txn.transaction_type
    then err invalid_transaction_state
    else ok txn

unfoldable pub reversible_transaction : ℕ → Db → Result Transaction
reversible_transaction transaction_id db = check_reversible (get_transaction transaction_id db)

-- The condition of the query for the rows to mirror.
abbrev pub is_original : ℕ → LedgerEntry → Bool
is_original transaction_id e = e.transaction_id == transaction_id && is_success e.status

-- `sorted({...})`: ascending, each once.
insert_once : ℕ → List ℕ → List ℕ
insert_once i [] = i ∷ []
insert_once i (j ∷ js) =
    let rest = insert_once i js in
    if i == j then j ∷ js else if ltb i j then i ∷ j ∷ js else j ∷ rest

unfoldable pub account_ids : List LedgerEntry → List ℕ
unfolding insert_once
account_ids [] = []
account_ids (e ∷ es) = insert_once e.account_id (account_ids es)

unfoldable pub lock_all : List ℕ → Db → Result (Unit {0})
lock_all [] db = ok tt
lock_all (i ∷ is) db = Accounts.lock i db >>= λ _. lock_all is db

-- One row mirrored: a debit becomes a credit and the other way round.
abbrev pub mirror_row : LedgerEntry → TransactionAggregate → TransactionAggregate
mirror_row e t =
    let m = of_amount (abs e.amount) e.currency in
    if is_debit e.entry_type then credit e.account_id m t else debit e.account_id m t

abbrev pub mirror_rows : List LedgerEntry → TransactionAggregate → TransactionAggregate
mirror_rows [] t = t
mirror_rows (e ∷ es) t = mirror_rows es (mirror_row e t)

-- The set of accounts is walked in ascending order here; the source leaves its order open.
unfoldable pub snapshot_ids : ℕ → List ℕ → Db → Result Db
snapshot_ids threshold [] db = ok db
snapshot_ids threshold (i ∷ is) db = do
  account ← Accounts.get i db
  db' ← maybe_snapshot threshold account db
  snapshot_ids threshold is db'

unfoldable pub new_reversal : Transaction → ℕ → Db → Transaction × Db
new_reversal txn correlation_id db =
    let (id, db') = fresh_id db in
    let reversal : Transaction = record {
      id = id;
      transaction_type = TransactionType.reversal;
      status = TransactionStatus.success;
      amount = txn.amount;
      currency = txn.currency;
      details = Details.reverses txn.id;
      reference = none;
      correlation_id = some correlation_id;
    } in
    (reversal, add_transaction reversal db')

unfoldable pub reverse : ℕ → ℕ → Option ℕ → Db → Result (Transaction × Db)
reverse threshold transaction_id correlation_id db = do
  txn ← reversible_transaction transaction_id db
  let originals = filter (is_original txn.id) db.entries
  lock_all (account_ids originals) db
  let (correlation, db1) = or_fresh correlation_id db
  let (reversal, db2) = new_reversal txn correlation db1
  db3 ← post (mirror_rows originals (new_aggregate txn.currency)) reversal.id db2
  let db4 = set_transaction_status txn.id TransactionStatus.reversed db3
  db5 ← snapshot_ids threshold (account_ids originals) db4
  ok (reversal, db5)
