-- ===== src/Seeds.antt =====
-- Demonstration data (wallet_ledger/seeds.py). Accounts are funded by rows that are built by hand,
-- without `Money`; amounts are in units of 10 ^ -8, and `draws` gives the random account numbers.
-- The source commits after each account; a load that raises is given without the state that it has
-- committed until then.
pub mod Replaying
use wallet_ledger_assesment.Base.{
  ℕ, ◌*◌, ◌^◌, Bool, true, false, String, Option, none, some, List, [], ◌∷◌,
}
use wallet_ledger_assesment.Base.Int.{ℤ, pos}
use wallet_ledger_assesment.Base.Lists.{find}
use wallet_ledger_assesment.Domain.Enums.{EntryStatus, TransactionType, TransactionStatus}
use wallet_ledger_assesment.Domain.Errors.{Result, ok, ◌>>=◌}
use wallet_ledger_assesment.Store.{Db, add_transaction, fresh_id}
use wallet_ledger_assesment.Store.Models.{Account, Transaction, Details, debit_entry, credit_entry}
use wallet_ledger_assesment.Ledger.{post_entries}
use wallet_ledger_assesment.Accounts
use wallet_ledger_assesment.Accounts.{owned}
use wallet_ledger_assesment.Deposits.{clearing_owner}
use wallet_ledger_assesment.Transfers

unfoldable pub new_funding : Account → ℤ → Db → Transaction × Db
new_funding account amount db =
    let (id, db') = fresh_id db in
    let txn : Transaction = record {
      id = id;
      transaction_type = TransactionType.deposit;
      status = TransactionStatus.success;
      amount = amount;
      currency = account.currency;
      details = Details.no_details;
      reference = none;
      correlation_id = none;
    } in
    (txn, add_transaction txn db')

-- `_fund`
unfoldable pub fund : ℕ → Account → ℤ → Db → Result Db
fund drawn account amount db = do
  opened ← Accounts.get_or_create_internal clearing_owner account.currency drawn db
  let (txn, db1) = new_funding account amount opened.1
  post_entries
      (debit_entry opened.0.id txn.id amount account.currency EntryStatus.success
        ∷ credit_entry account.id txn.id amount account.currency EntryStatus.success
        ∷ [])
      db1

unfoldable pub fund_account : ℕ → ℕ → ℤ → Db → Result (Account × Db)
fund_account drawn number amount db = do
  account ← Accounts.get_by_number number db
  db1 ← fund drawn account amount db
  ok (account, db1)

-- `_ensure`: the account, whether it is new, and the state.
abbrev pub fund_new : ℕ → Option ℤ → Account × Db → Result (Account × Bool × Db)
fund_new drawn none (account, db) = ok (account, true, db)
fund_new drawn (some amount) (account, db) =
    fund drawn account amount db >>= λ db1. ok (account, true, db1)

abbrev pub create_and_fund :
    Option Account → ℕ → ℕ → String → String → Option ℤ → Db → Result (Account × Bool × Db)
create_and_fund (some account) drawn drawn' owner_id currency amount db = ok (account, false, db)
create_and_fund none drawn drawn' owner_id currency amount db =
    Accounts.create owner_id currency drawn db >>= fund_new drawn' amount

unfoldable pub ensure : ℕ → ℕ → String → String → Option ℤ → Db → Result (Account × Bool × Db)
ensure drawn drawn' owner_id currency amount db =
    create_and_fund (find (owned owner_id currency) db.accounts) drawn drawn' owner_id currency
      amount db

abbrev pub units : ℕ → ℤ
units n = pos (n * 10 ^ 8)

-- The demonstration transfer runs only when the first account is new.
unfoldable pub first_transfer : ℕ → Bool → Account → Account → Db → Result Db
first_transfer threshold false alice bob db = ok db
first_transfer threshold true alice bob db =
    Transfers.execute threshold alice.id bob.id (record { coefficient = pos 30; scale = 0 }) none db
    >>= λ o. ok o.2

unfoldable pub seed : ℕ → (ℕ → ℕ) → Db → Result (List (String × ℕ) × Db)
seed threshold draws db = do
  alice ← ensure (draws 0) (draws 1) "alice" "USD" (some (units 200)) db
  bob ← ensure (draws 2) (draws 3) "bob" "USD" none alice.2
  kamga ← ensure (draws 4) (draws 5) "kamga" "XAF" (some (units 5_000)) bob.2
  claire ← ensure (draws 6) (draws 7) "claire" "EUR" (some (units 100)) kamga.2
  db1 ← first_transfer threshold alice.1 alice.0 bob.0 claire.2
  ok (
    ("alice", alice.0.number)
        ∷ ("bob", bob.0.number)
        ∷ ("kamga", kamga.0.number)
        ∷ ("claire", claire.0.number)
        ∷ [],
    db1,
  )
