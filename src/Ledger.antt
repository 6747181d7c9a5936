-- ===== src/Ledger.antt =====
-- The general ledger (wallet_ledger/application/ledger.py): posting balanced transactions, balances
-- from snapshots and deltas, and the cutting of snapshots.
pub mod Sorting
pub mod Snapshots
pub mod Cutting
pub mod Keeping
pub mod Numbering
pub mod Posting
pub mod Invariant
pub mod Exact
pub mod Updates
use wallet_ledger_assesment.Base.{
  ℕ, zero, suc, ◌+◌, Bool, true, false, ◌&&◌, String, Option, none, some, List, [], ◌∷◌, ◌++◌, map,
  ltb, leb, ◌==◌, if◌then◌else◌,
}
use wallet_ledger_assesment.Base.Int.{ℤ, pos, ◌+ℤ◌}
use wallet_ledger_assesment.Base.Lists.{length, filter, get_last?}
use wallet_ledger_assesment.Domain.Enums.{EntryStatus, is_debit, is_success, is_pending}
use wallet_ledger_assesment.Domain.Errors.{Result, ok, err, ◌>>=◌, ◌>>◌, index_error}
use wallet_ledger_assesment.Domain.Money.{Money, of_amount}
use wallet_ledger_assesment.Domain.Aggregates.{
  PostingLine, TransactionAggregate, new_aggregate, record_line, assert_balanced,
}
use wallet_ledger_assesment.Store.{Db, add_entries}
use wallet_ledger_assesment.Store.Models.{Account, LedgerEntry, BalanceSnapshot}
use wallet_ledger_assesment.Store.Sums.{sum_where}

-- One line of an aggregate as a row of the transaction.
abbrev pub entry_of_line : ℕ → PostingLine → ℕ → LedgerEntry
entry_of_line transaction_id line seq = record {
  seq = seq;
  account_id = line.account_id;
  transaction_id = transaction_id;
  amount = line.amount;
  entry_type = line.entry_type;
  status = line.status;
  currency = line.currency;
  metadata = line.metadata;
}

unfoldable pub post : TransactionAggregate → ℕ → Db → Result Db
post transaction transaction_id db = do
  assert_balanced transaction
  ok (add_entries (map (entry_of_line transaction_id) transaction.lines) db)

-- `aggregate.record` for each entry.
abbrev pub record_entries : List LedgerEntry → TransactionAggregate → TransactionAggregate
unfolding record_line
record_entries [] t = t
record_entries (e ∷ es) t =
    record_entries es (record_line e.account_id e.amount e.entry_type e.currency e.status none t)

-- The currency of the first entry, or the empty text.
abbrev pub entries_currency : List LedgerEntry → String
entries_currency [] = ""
entries_currency (e ∷ es) = e.currency

-- `LedgerService.assert_balanced`: the invariant on existing entries.
unfoldable pub assert_entries_balanced : List LedgerEntry → Result (Unit {0})
assert_entries_balanced entries =
    assert_balanced (record_entries entries (new_aggregate (entries_currency entries)))

-- An entry that has been built awaits its sequence number: here it is inspected at 0.
abbrev pub preview : List (ℕ → LedgerEntry) → List LedgerEntry
preview = map (λ e. e 0)

unfoldable pub post_entries : List (ℕ → LedgerEntry) → Db → Result Db
post_entries entries db = do assert_entries_balanced (preview entries); ok (add_entries entries db)

-- `_latest_snapshot`: the snapshot of the account with the largest cursor.
abbrev pub later : Option BalanceSnapshot → BalanceSnapshot → Option BalanceSnapshot
later none s = some s
later (some t) s = if ltb t.last_entry_seq s.last_entry_seq then some s else some t

abbrev pub latest_from : ℕ → List BalanceSnapshot → Option BalanceSnapshot → Option BalanceSnapshot
latest_from account_id [] best = best
latest_from account_id (s ∷ ss) best =
    latest_from account_id ss (if s.account_id == account_id then later best s else best)

unfoldable pub latest_snapshot : ℕ → Db → Option BalanceSnapshot
latest_snapshot account_id db = latest_from account_id db.snapshots none

abbrev pub base_of : Option BalanceSnapshot → ℤ
base_of none = pos 0
base_of (some s) = s.balance

abbrev pub cursor_of : Option BalanceSnapshot → ℕ
cursor_of none = 0
cursor_of (some s) = s.last_entry_seq

abbrev pub count_of : Option BalanceSnapshot → ℕ
count_of none = 0
count_of (some s) = s.entry_count

-- The conditions of the queries: settled rows and reserved debits of an account after a cursor.
abbrev pub settled_after : ℕ → ℕ → LedgerEntry → Bool
settled_after account_id cursor e =
    e.account_id == account_id && (is_success e.status && ltb cursor e.seq)

abbrev pub reserved_debit : ℕ → LedgerEntry → Bool
reserved_debit account_id e =
    e.account_id == account_id && (is_pending e.status && (ltb 0 e.seq && is_debit e.entry_type))

-- `balance`: the latest snapshot and the settled entries after its cursor.
unfoldable pub balance_amount : ℕ → Db → ℤ
balance_amount account_id db =
    let snapshot = latest_snapshot account_id db in
    base_of snapshot +ℤ sum_where (settled_after account_id (cursor_of snapshot)) db.entries

unfoldable pub balance : Account → Db → Money
balance account db = of_amount (balance_amount account.id db) account.currency

-- `available_balance`: the settled balance and the reserved debits, which are negative.
unfoldable pub available_balance : Account → Db → Money
available_balance account db =
    of_amount ((balance account db).amount +ℤ sum_where (reserved_debit account.id) db.entries)
      account.currency

-- `order_by(LedgerEntry.seq)`
insert_by_seq : LedgerEntry → List LedgerEntry → List LedgerEntry
insert_by_seq e [] = e ∷ []
insert_by_seq e (x ∷ xs) =
    let rest = insert_by_seq e xs in if leb e.seq x.seq then e ∷ x ∷ xs else x ∷ rest

unfoldable pub order_by_seq : List LedgerEntry → List LedgerEntry
unfolding insert_by_seq
order_by_seq [] = []
order_by_seq (e ∷ es) = insert_by_seq e (order_by_seq es)

-- `sum((row.amount for row in new_entries), Decimal(0))`
unfoldable pub add_amounts : List LedgerEntry → ℤ → ℤ
add_amounts [] total = total
add_amounts (e ∷ es) total = add_amounts es (total +ℤ e.amount)

-- `db.session.add(BalanceSnapshot(...))` at the last of the new entries, `new_entries[-1]`.
unfoldable pub add_snapshot :
    ℕ → Option BalanceSnapshot → List LedgerEntry → Option LedgerEntry → Db → Result Db
add_snapshot account_id snapshot new_entries none db = err index_error
add_snapshot account_id snapshot new_entries (some last) db = ok (record db {
  snapshots =
      db.snapshots
      ++ (record {
        account_id = account_id;
        balance = base_of snapshot +ℤ add_amounts new_entries (pos 0);
        last_entry_seq = last.seq;
        entry_count = count_of snapshot + length new_entries;
      }
          ∷ []);
})

-- `maybe_snapshot`, `threshold` being SNAPSHOT_EVERY_N_ENTRIES.
unfoldable pub maybe_snapshot : ℕ → Account → Db → Result Db
maybe_snapshot threshold account db =
    let snapshot = latest_snapshot account.id db in
    let new_entries =
      order_by_seq (filter (settled_after account.id (cursor_of snapshot)) db.entries) in
    if ltb (length new_entries) threshold
    then ok db
    else add_snapshot account.id snapshot new_entries (get_last? new_entries) db

-- `_snapshot`: each account in turn.
unfoldable pub snapshot_all : ℕ → List Account → Db → Result Db
snapshot_all threshold [] db = ok db
snapshot_all threshold (a ∷ accounts) db = do
  db' ← maybe_snapshot threshold a db
  snapshot_all threshold accounts db'
