-- ===== src/Transfers/Halves.antt =====
-- The two halves of `commit`: what the first has read, and what the second has found and checked
-- before it wrote.
use wallet_ledger_assesment.Base.{
  ℕ, ◌≡◌, sym, ap, ◌∙◌, true, Option, none, some, [], ◌∷◌, arith, ==_iff, subst,
}
use wallet_ledger_assesment.Base.Int.{ℤ}
use wallet_ledger_assesment.Base.Lists.{find, find-holds}
use wallet_ledger_assesment.Domain.Enums.{EntryStatus, TransactionStatus}
use wallet_ledger_assesment.Domain.Errors.{ok, ok-injective, >>=-eq-ok}
use wallet_ledger_assesment.Domain.Money.{of_amount}
use wallet_ledger_assesment.Domain.Events.{DomainEvent}
use wallet_ledger_assesment.Store.{Db, get_account, get_transaction, set_transaction_status}
use wallet_ledger_assesment.Store.Models.{Account, Transaction, LedgerEntry}
use wallet_ledger_assesment.Ledger.{assert_entries_balanced, snapshot_all}
use wallet_ledger_assesment.Risk.{assess}
use wallet_ledger_assesment.Accounts
use wallet_ledger_assesment.Accounts.Lookup.{get-found}
use wallet_ledger_assesment.Transfers.{
  Outcome, pending_transaction, receiver_id_of, or_no_debit, settled_copy, settle_rows, commit_read,
  commit_write, is_reserved,
}
use wallet_ledger_assesment.Transfers.Commit.{credited}
use wallet_ledger_assesment.Transfers.Status.{pending_transaction-found}

-- What the first half has read.
pub record IsRead (id : ℕ) (db : Db) (txn : Transaction) (d : LedgerEntry) : Type 0 where
  pub txn_found : get_transaction id db ≡ some txn
  pub same_id : txn.id ≡ id
  pub waiting : txn.status ≡ TransactionStatus.pending
  pub debit_found : find (is_reserved txn.id) db.entries ≡ some d
  pub debit_waiting : d.status ≡ EntryStatus.pending

or_no_debit-ok : (o : Option LedgerEntry) (d : LedgerEntry) → or_no_debit o ≡ ok d → o ≡ some d
or_no_debit-ok none d e = cc
or_no_debit-ok (some x) d e = cc

reserved-waiting :
    (id : ℕ) (d : LedgerEntry) → is_reserved id d ≡ true → d.status ≡ EntryStatus.pending
reserved-waiting id d h = ground arith

pub commit_read-IsRead :
    (limit : ℤ) (id : ℕ) (db : Db) (txn : Transaction) (d : LedgerEntry)
    → commit_read limit id db ≡ ok (txn, d)
    → IsRead id db txn d
unfolding commit_read
commit_read-IsRead limit id db txn d e =
    let (t, e0, e1) = >>=-eq-ok (pending_transaction id db) _ e in
    let (u, e2, e3) = >>=-eq-ok (assess limit (of_amount t.amount t.currency)) _ e1 in
    let (x, e4, e5) = >>=-eq-ok (or_no_debit (find (is_reserved t.id) db.entries)) _ e3 in
    let (found, same, waiting) = pending_transaction-found id db t e0 in
    let debit_found = or_no_debit-ok (find (is_reserved t.id) db.entries) x e4 in
    let pair : (t ≡ txn) × (x ≡ d) = (
      ap (λ (p : Transaction × LedgerEntry). p.0) (ok-injective e5),
      ap (λ (p : Transaction × LedgerEntry). p.1) (ok-injective e5),
    ) in
    subst (λ (y : LedgerEntry). IsRead id db txn y) pair.1
      (subst (λ (s : Transaction). IsRead id db s x) pair.0
        (record {
          txn_found = found;
          same_id = same;
          waiting = waiting;
          debit_found = debit_found;
          debit_waiting =
              reserved-waiting t.id x (find-holds (is_reserved t.id) db.entries x debit_found);
        }))

-- What the second half has found and checked before it wrote.
pub record IsWritten (threshold : ℕ) (txn : Transaction) (d : LedgerEntry) (db db' : Db)
    : Type 0 where
  pub receiver : Account
  pub receiver_named : receiver_id_of txn.details ≡ ok receiver.id
  pub receiver_found : get_account receiver.id db ≡ some receiver
  pub sender : Account
  pub checked :
      assert_entries_balanced (
        settled_copy d
        ∷ credited txn d receiver (of_amount txn.amount txn.currency) db db.next_seq
        ∷ [])
      ≡ ok tt
  pub cut :
      snapshot_all threshold (sender ∷ receiver ∷ []) (
        set_transaction_status txn.id TransactionStatus.success
          (settle_rows txn d receiver (of_amount txn.amount txn.currency) db))
      ≡ ok db'

pub commit_write-IsWritten :
    (threshold : ℕ) (t : Transaction) (d : LedgerEntry) (db : Db) (txn : Transaction)
    (event : DomainEvent) (db' : Db)
    → commit_write threshold (t, d) db ≡ ok (txn, event, db')
    → IsWritten threshold t d db db'
unfolding commit_write
commit_write-IsWritten threshold t d db txn event db' e =
    let m = of_amount t.amount t.currency in
    let (sender, found, e1) = >>=-eq-ok (Accounts.lock d.account_id db) _ e in
    let (receiver_id, named, e2) = >>=-eq-ok (receiver_id_of t.details) _ e1 in
    let (receiver, found', e3) = >>=-eq-ok (Accounts.get receiver_id db) _ e2 in
    let (u, checked, e4) =
      >>=-eq-ok
        (assert_entries_balanced (settled_copy d ∷ credited t d receiver m db db.next_seq ∷ [])) _
        e3 in
    let (db3, cut, e5) =
      >>=-eq-ok
        (snapshot_all threshold (sender ∷ receiver ∷ [])
          (set_transaction_status t.id TransactionStatus.success (settle_rows t d receiver m db)))
        _ e4 in
    let there = get-found receiver_id db receiver found' in
    let same : receiver.id ≡ receiver_id =
      (==_iff _ _).0 (find-holds _ db.accounts receiver there) in
    record {
      receiver = receiver;
      receiver_named = named ∙ ap (λ (i : ℕ). ok i) (sym same);
      receiver_found = ap (λ (i : ℕ). get_account i db) same ∙ there;
      sender = sender;
      checked = checked;
      cut = cut ∙ ap (λ (x : Db). ok x) (ap (λ (o : Outcome). o.2) (ok-injective e5));
    }
