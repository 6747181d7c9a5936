-- ===== src/Balances/Announcing.antt =====
-- What the event of a direct transfer announces, and which tables the transfer leaves alone.
use wallet_ledger_assesment.Base.{
  subst, ◌++◌, ℕ, ◌≡◌, refl, sym, ap, ◌∙◌, Option, none, some, List, [], ◌∷◌, map,
}
use wallet_ledger_assesment.Domain.Enums.{TransactionType, TransactionStatus}
use wallet_ledger_assesment.Domain.Errors.{ok, ok-injective, >>=-eq-ok}
use wallet_ledger_assesment.Domain.Money.{Money}
use wallet_ledger_assesment.Domain.Aggregates.{TransactionAggregate}
use wallet_ledger_assesment.Domain.Events.{DomainEvent, transfer_completed}
use wallet_ledger_assesment.Store.{Db, add_entry, add_entries}
use wallet_ledger_assesment.Store.Models.{Details, Account, Transaction, LedgerEntry}
use wallet_ledger_assesment.Ledger.{entry_of_line, post, snapshot_all}
use wallet_ledger_assesment.Ledger.Keeping.{snapshot_all-balance}
use wallet_ledger_assesment.Ledger.Posting.{post-ok, post-accounts, post-transactions}
use wallet_ledger_assesment.Transfers.{
  Outcome, or_fresh, new_transaction, transfer_lines, transfer_event, settle_transfer,
}

add_entries-notifications :
    (es : List (ℕ → LedgerEntry)) (db : Db) → (add_entries es db).notifications ≡ db.notifications
add_entries-notifications [] db = refl
add_entries-notifications (e ∷ es) db = add_entries-notifications es (add_entry e db)

post-notifications :
    (t : TransactionAggregate) (id : ℕ) (db db' : Db)
    → post t id db ≡ ok db'
    → db'.notifications ≡ db.notifications
post-notifications t id db db' e =
    ap (λ (x : Db). x.notifications) (post-ok t id db db' e).0
    ∙ add_entries-notifications (map (entry_of_line id) t.lines) db

new_transaction-accounts :
    (k : TransactionType) (st : TransactionStatus) (m : Money) (s r : Account) (c : Option ℕ)
    (db : Db)
    → let (correlation, db1) = or_fresh c db in
      (new_transaction k st m s r correlation db1).1.accounts ≡ db.accounts
unfolding new_transaction
new_transaction-accounts k st m s r none db = refl
new_transaction-accounts k st m s r (some c) db = refl

new_transaction-notifications :
    (k : TransactionType) (st : TransactionStatus) (m : Money) (s r : Account) (c : Option ℕ)
    (db : Db)
    → let (correlation, db1) = or_fresh c db in
      (new_transaction k st m s r correlation db1).1.notifications ≡ db.notifications
unfolding new_transaction
new_transaction-notifications k st m s r none db = refl
new_transaction-notifications k st m s r (some c) db = refl

pub new_transaction-transactions :
    (k : TransactionType) (st : TransactionStatus) (m : Money) (s r : Account) (c : Option ℕ)
    (db : Db)
    → let (correlation, db1) = or_fresh c db in
      let (txn, db2) = new_transaction k st m s r correlation db1 in
      db2.transactions ≡ db.transactions ++ (txn ∷ [])
unfolding new_transaction
new_transaction-transactions k st m s r none db = refl
new_transaction-transactions k st m s r (some c) db = refl

-- The row of a transfer that is complete.
pub record IsTransfer (sender receiver : Account) (m : Money) (txn : Transaction) : Type 0 where
  pub type_is : txn.transaction_type ≡ TransactionType.transfer
  pub status_is : txn.status ≡ TransactionStatus.success
  pub amount_is : txn.amount ≡ m.amount
  pub currency_is : txn.currency ≡ m.currency
  pub details_is : txn.details ≡ Details.parties sender.id receiver.id

new_transaction-IsTransfer :
    (s r : Account) (m : Money) (correlation : ℕ) (db : Db)
    → IsTransfer s r m
        (new_transaction TransactionType.transfer TransactionStatus.success m s r correlation db).0
unfolding new_transaction
new_transaction-IsTransfer s r m correlation db = record {
  type_is = refl;
  status_is = refl;
  amount_is = refl;
  currency_is = refl;
  details_is = refl;
}

-- What the event of a settled transfer names, and that no row of an account or a notification
-- changes.
pub record Announced (sender receiver : Account) (m : Money) (txn : Transaction)
    (event : DomainEvent) (db db' : Db) : Type 0 where
  pub event_is : event ≡ transfer_event transfer_completed txn m sender receiver
  pub txn_is : IsTransfer sender receiver m txn
  pub recorded : db'.transactions ≡ db.transactions ++ (txn ∷ [])
  pub accounts_kept : db'.accounts ≡ db.accounts
  pub notifications_kept : db'.notifications ≡ db.notifications

pub settle_transfer-Announced :
    (threshold : ℕ) (sender receiver : Account) (m : Money) (c : Option ℕ) (db : Db)
    (txn : Transaction) (event : DomainEvent) (db' : Db)
    → settle_transfer threshold sender receiver m c db ≡ ok (txn, event, db')
    → Announced sender receiver m txn event db db'
unfolding settle_transfer
settle_transfer-Announced threshold sender receiver m c db txn event db' e =
    let (correlation, db1) = or_fresh c db in
    let (new, db2) =
      new_transaction TransactionType.transfer TransactionStatus.success m sender receiver
        correlation db1 in
    let lines = transfer_lines sender.id receiver.id m in
    let (db3, posted, rest) = >>=-eq-ok (post lines new.id db2) _ e in
    let (db4, cut, done) = >>=-eq-ok (snapshot_all threshold (sender ∷ receiver ∷ []) db3) _ rest in
    record {
      event_is =
          sym (ap (λ (o : Outcome). o.1) (ok-injective done))
          ∙ ap (λ (o : Outcome). transfer_event transfer_completed o.0 m sender receiver)
              (ok-injective done);
      txn_is =
          subst (IsTransfer sender receiver m) (ap (λ (o : Outcome). o.0) (ok-injective done))
            (new_transaction-IsTransfer sender receiver m correlation db1);
      recorded =
          ap (λ (x : Db). x.transactions) (sym (ap (λ (o : Outcome). o.2) (ok-injective done)))
          ∙ (snapshot_all-balance threshold (sender ∷ receiver ∷ []) db3 db4 cut).0.transactions
          ∙ post-transactions lines new.id db2 db3 posted
          ∙ new_transaction-transactions TransactionType.transfer TransactionStatus.success m sender
              receiver c db
          ∙ ap (λ (o : Outcome). db.transactions ++ (o.0 ∷ [])) (ok-injective done);
      accounts_kept =
          ap (λ (x : Db). x.accounts) (sym (ap (λ (o : Outcome). o.2) (ok-injective done)))
          ∙ (snapshot_all-balance threshold (sender ∷ receiver ∷ []) db3 db4 cut).0.accounts
          ∙ post-accounts lines new.id db2 db3 posted
          ∙ new_transaction-accounts TransactionType.transfer TransactionStatus.success m sender
              receiver c db;
      notifications_kept =
          ap (λ (x : Db). x.notifications) (sym (ap (λ (o : Outcome). o.2) (ok-injective done)))
          ∙ (snapshot_all-balance threshold (sender ∷ receiver ∷ []) db3 db4 cut).0.notifications
          ∙ post-notifications lines new.id db2 db3 posted
          ∙ new_transaction-notifications TransactionType.transfer TransactionStatus.success m
              sender receiver c db;
    }
