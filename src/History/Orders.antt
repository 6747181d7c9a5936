-- ===== src/History/Orders.antt =====
-- What the request of an operation orders of the abstract bank: who, whom and how much, read from the
-- request and from the rows that it names, and not from what the operation then writes.
use wallet_ledger_assesment.Base.{ℕ, ◌≡◌, true, ◌&&◌, some, List, [], ◌∷◌}
use wallet_ledger_assesment.Base.Int.{ℤ, neg, abs}
use wallet_ledger_assesment.Base.Lists.{find}
use wallet_ledger_assesment.Base.Text.{upper}
use wallet_ledger_assesment.Domain.Decimals.{Decimal}
use wallet_ledger_assesment.Domain.Errors.{ok}
use wallet_ledger_assesment.Domain.Money.{Money, money, of_amount}
use wallet_ledger_assesment.Store.{Db, get_account, get_transaction}
use wallet_ledger_assesment.Store.Models.{Account, Transaction, LedgerEntry, Reference}
use wallet_ledger_assesment.Store.Sums.{sum_where}
use wallet_ledger_assesment.Ledger.{reserved_debit}
use wallet_ledger_assesment.Accounts
use wallet_ledger_assesment.Transfers.{is_held, is_reserved, receiver_id_of}
use wallet_ledger_assesment.Deposits.{clearing_owner, has_reference, account_id_of}
use wallet_ledger_assesment.Fx.{Rates, convert, pool_owner}
use wallet_ledger_assesment.Reversals.Mirroring.{of_account}
use wallet_ledger_assesment.Reversals.Reversing.{originals}
use wallet_ledger_assesment.Payments.{Config, Remote}
use wallet_ledger_assesment.History.{
  Step, account_opened, transferred, initiated, committed, failed, deposit_initiated,
  deposit_settled, exchanged, reversed,
}
use wallet_ledger_assesment.History.Careful.{Careful, start, after}
use wallet_ledger_assesment.History.Bank.{
  Deed, does_nothing, pays, holds, captures, frees, pays_in, changes, gives_back,
}

-- A transfer: the requested amount, rounded to the sender's currency, between the two accounts.
pub record Pays (sender_id receiver_id : ℕ) (amount : Decimal) (db : Db) (d : Deed) : Type 0 where
  pub sender : Account
  pub receiver : Account
  pub sender_found : get_account sender_id db ≡ some sender
  pub receiver_found : get_account receiver_id db ≡ some receiver
  pub is : d ≡ pays sender.id receiver.id (money amount sender.currency).amount

-- A reservation of the requested amount.
pub record Holds (sender_id : ℕ) (amount : Decimal) (db : Db) (d : Deed) : Type 0 where
  pub sender : Account
  pub sender_found : get_account sender_id db ≡ some sender
  pub is : d ≡ holds sender.id (money amount sender.currency).amount

-- A commit: the amount of the transaction, from the account of its reserved debit to the receiver that
-- its details name.
pub record Captures (id : ℕ) (db : Db) (d : Deed) : Type 0 where
  pub txn : Transaction
  pub held_row : LedgerEntry
  pub receiver_id : ℕ
  pub txn_found : get_transaction id db ≡ some txn
  pub row_found : find (is_reserved txn.id) db.entries ≡ some held_row
  pub receiver_named : receiver_id_of txn.details ≡ ok receiver_id
  pub is :
      d ≡ captures held_row.account_id receiver_id (abs (of_amount txn.amount txn.currency).amount)

-- A failed transfer: what the transaction reserves on every account.
abbrev pub Frees : ℕ → Db → Deed → Type 0
Frees id db d =
    d ≡ frees (λ a. neg (sum_where (λ x. reserved_debit a x && is_held id x) db.entries))

-- A settlement: the authorised amount, to the account that the deposit names.
pub record PaysIn (reference : Reference) (db : Db) (d : Deed) : Type 0 where
  pub txn : Transaction
  pub account : Account
  pub clearing : Account
  pub txn_found : find (has_reference reference) db.transactions ≡ some txn
  pub account_named : account_id_of txn.details ≡ ok account.id
  pub clearing_owned : Accounts.owned clearing_owner (upper account.currency) clearing ≡ true
  pub is : d ≡ pays_in clearing.id account.id (abs (of_amount txn.amount txn.currency).amount)

-- An exchange: the requested amount from the sender, and what it converts to at the rates.
pub record ExchangesFor (rates : Rates) (sender_id receiver_id : ℕ) (amount : Decimal) (db : Db)
    (d : Deed) : Type 0 where
  pub sender : Account
  pub receiver : Account
  pub received : Money
  pub pool_from : Account
  pub pool_to : Account
  pub sender_found : get_account sender_id db ≡ some sender
  pub receiver_found : get_account receiver_id db ≡ some receiver
  pub converted : convert rates (money amount sender.currency) receiver.currency ≡ ok received
  pub from_owned : Accounts.owned pool_owner (upper sender.currency) pool_from ≡ true
  pub to_owned : Accounts.owned pool_owner (upper receiver.currency) pool_to ≡ true
  pub is :
      d
      ≡ changes sender.id pool_from.id pool_to.id receiver.id
          (abs (money amount sender.currency).amount)
          (abs received.amount)

-- A reversal: what the settled rows of the transaction brought every account.
abbrev pub GivesBack : ℕ → Db → Deed → Type 0
GivesBack id db d = d ≡ gives_back (λ a. neg (sum_where (of_account a) (originals id db)))

module _ (config : Config) (remote : Remote) (rates : Rates) (limit : ℤ) (threshold : ℕ) where
  abbrev pub Orders :
      {db db' : Db} → Step config remote rates limit threshold db db' → Deed → Type 0
  Orders (account_opened _ _ _ _ _) d = d ≡ does_nothing
  Orders {db} {db'} (transferred sender_id receiver_id amount _ _ _ _) d =
      Pays sender_id receiver_id amount db d
  Orders {db} {db'} (initiated sender_id _ amount _ _ _ _) d = Holds sender_id amount db d
  Orders {db} {db'} (committed id _ _ _) d = Captures id db d
  Orders {db} {db'} (failed id _ _ _) d = Frees id db d
  Orders (deposit_initiated _ _ _ _ _ _ _) d = d ≡ does_nothing
  Orders {db} {db'} (deposit_settled _ reference _ _ _ _ _) d = PaysIn reference db d
  Orders {db} {db'} (exchanged _ _ sender_id receiver_id amount _ _ _ _) d =
      ExchangesFor rates sender_id receiver_id amount db d
  Orders {db} {db'} (reversed id _ _ _) d = GivesBack id db d

  -- The deeds are those that the operations of a history order, the last one first.
  abbrev pub OrderedBy :
      {db db' : Db} → Careful config remote rates limit threshold db db' → List Deed → Type 0
  OrderedBy start ds = ds ≡ []
  OrderedBy (after r s care) ds =
      (d : Deed) × (before : List Deed) × (ds ≡ d ∷ before) × Orders s d × OrderedBy r before
