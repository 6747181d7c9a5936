-- ===== src/History.antt =====
-- What a run of the program can come to: one operation after another, each on the state that the last
-- one committed. An operation that raises leaves the state, so it is no step. The settings and what
-- is outside the program are parameters; each step chooses its arguments freely, the random numbers
-- of new accounts among them.
pub mod Books
pub mod Bookings
pub mod Writes
pub mod Services
pub mod Mirrors
pub mod Reaching
pub mod Careful
pub mod Bank
pub mod Orders
pub mod Covered
pub mod Deeds
pub mod Settlements
pub mod Refining
pub mod Ages
pub mod Aging
pub mod ServiceAges
pub mod Closing
use wallet_ledger_assesment.Base.{ℕ, ◌≡◌, String, Option}
use wallet_ledger_assesment.Base.Int.{ℤ}
use wallet_ledger_assesment.Domain.Errors.{ok}
use wallet_ledger_assesment.Domain.Decimals.{Decimal}
use wallet_ledger_assesment.Domain.Events.{DomainEvent}
use wallet_ledger_assesment.Store.{Db}
use wallet_ledger_assesment.Store.Models.{Account, Transaction, Reference}
use wallet_ledger_assesment.Accounts
use wallet_ledger_assesment.Transfers
use wallet_ledger_assesment.Payments.{Config, Remote, Context}
use wallet_ledger_assesment.Deposits
use wallet_ledger_assesment.Fx
use wallet_ledger_assesment.Fx.{Rates}
use wallet_ledger_assesment.Reversals

module _ (config : Config) (remote : Remote) (rates : Rates) (limit : ℤ) (threshold : ℕ) where
  -- One operation that returned, in the state `db`, and committed `db'`.
  pub data Step (db db' : Db) : Type 0 where
    account_opened :
        (owner_id currency : String) (drawn : ℕ) (a : Account)
        → Accounts.create owner_id currency drawn db ≡ ok (a, db')
        → Step db db'
    transferred :
        (sender_id receiver_id : ℕ) (amount : Decimal) (c : Option ℕ) (txn : Transaction)
        (event : DomainEvent)
        → Transfers.execute threshold sender_id receiver_id amount c db ≡ ok (txn, event, db')
        → Step db db'
    initiated :
        (sender_id receiver_id : ℕ) (amount : Decimal) (c : Option ℕ) (txn : Transaction)
        (event : DomainEvent)
        → Transfers.initiate sender_id receiver_id amount c db ≡ ok (txn, event, db')
        → Step db db'
    committed :
        (id : ℕ) (txn : Transaction) (event : DomainEvent)
        → Transfers.commit limit threshold id db ≡ ok (txn, event, db')
        → Step db db'
    failed :
        (id : ℕ) (txn : Transaction) (event : DomainEvent)
        → Transfers.fail id db ≡ ok (txn, event, db')
        → Step db db'
    deposit_initiated :
        (account_id : ℕ) (amount : Decimal) (provider_name : String) (context : Context)
        (c : Option ℕ) (txn : Transaction)
        → Deposits.initiate config remote account_id amount provider_name context c db
          ≡ ok (txn, db')
        → Step db db'
    deposit_settled :
        (drawn : ℕ) (reference : Reference) (amount : Option Decimal) (currency : Option String)
        (txn : Transaction) (event : DomainEvent)
        → Deposits.settle threshold drawn reference amount currency db ≡ ok (txn, event, db')
        → Step db db'
    exchanged :
        (drawn_from drawn_to sender_id receiver_id : ℕ) (amount : Decimal) (c : Option ℕ)
        (txn : Transaction) (event : DomainEvent)
        → Fx.execute_fx_transfer rates threshold drawn_from drawn_to sender_id receiver_id amount c
            db
          ≡ ok (txn, event, db')
        → Step db db'
    reversed :
        (id : ℕ) (c : Option ℕ) (reversal : Transaction)
        → Reversals.reverse threshold id c db ≡ ok (reversal, db')
        → Step db db'

  -- The states that a history of steps leads to.
  pub data Reach (db : Db) : Db → Type 0 where
    here : Reach db db
    next : {db1 db2 : Db} → Reach db db1 → Step db1 db2 → Reach db db2
