-- ===== src/Store.antt =====
-- The tables (wallet_ledger/models) and the reads and writes of a database session on them. A state
-- is what one session sees; a service that raises leaves the state it began with (its session is
-- rolled back). Identifiers come from a counter, which stands for the freshness of uuid4, and
-- `next_seq` is the identity column of ledger_entries. Time stamps are not modelled.
pub mod Models
pub mod Sums
use wallet_ledger_assesment.Base.{
  String, ℕ, suc, Bool, Option, none, some, List, [], ◌∷◌, ◌++◌, ◌==◌, if◌then◌else◌,
}
use wallet_ledger_assesment.Base.Lists.{find}
use wallet_ledger_assesment.Domain.Enums.{TransactionStatus}
use wallet_ledger_assesment.Store.Models.{
  Account, Transaction, LedgerEntry, BalanceSnapshot, Notification, Reference,
}

pub record Db : Type 0 where
  pub accounts : List Account
  pub transactions : List Transaction
  pub entries : List LedgerEntry
  pub snapshots : List BalanceSnapshot
  pub notifications : List Notification
  pub next_seq : ℕ
  pub next_id : ℕ

abbrev pub empty_db : Db
empty_db = record {
  accounts = [];
  transactions = [];
  entries = [];
  snapshots = [];
  notifications = [];
  next_seq = 1;
  next_id = 1;
}

-- `db.session.get(Account, id)` and `db.session.get(Transaction, id)`
abbrev pub get_account : ℕ → Db → Option Account
get_account i db = find (λ a. a.id == i) db.accounts

abbrev pub get_transaction : ℕ → Db → Option Transaction
get_transaction i db = find (λ t. t.id == i) db.transactions

-- A row that is added is inserted at the end of its table.
abbrev pub add_account : Account → Db → Db
add_account a db = record db { accounts = db.accounts ++ (a ∷ []) }

abbrev pub add_transaction : Transaction → Db → Db
add_transaction t db = record db { transactions = db.transactions ++ (t ∷ []) }

-- An entry receives its sequence number when it is inserted.
abbrev pub add_entry : (ℕ → LedgerEntry) → Db → Db
add_entry e db = record db {
  entries = db.entries ++ (e db.next_seq ∷ []);
  next_seq = suc db.next_seq;
}

abbrev pub add_entries : List (ℕ → LedgerEntry) → Db → Db
add_entries [] db = db
add_entries (e ∷ es) db = add_entries es (add_entry e db)

-- The value of `str(uuid.uuid4())`, and the state in which it is used up.
abbrev pub fresh_id : Db → ℕ × Db
fresh_id db = (db.next_id, record db { next_id = suc db.next_id })

-- An attribute of the first row that a condition selects is assigned; the rows are objects of the
-- session, so the row that a query returned is the one that changes.
module _ {ℓ} {A : Type ℓ} where
  abbrev pub update_first : (A → Bool) → (A → A) → List A → List A
  update_first p f [] = []
  update_first p f (x ∷ xs) = let rest = update_first p f xs in if p x then f x ∷ xs else x ∷ rest

abbrev pub set_transaction_status : ℕ → TransactionStatus → Db → Db
set_transaction_status i status db = record db {
  transactions = update_first (λ t. t.id == i) (λ t. record t { status = status }) db.transactions;
}

abbrev pub set_transaction_reference : ℕ → String → Db → Db
set_transaction_reference i reference db = record db {
  transactions =
      update_first (λ t. t.id == i) (λ t. record t { reference = some reference }) db.transactions;
}
