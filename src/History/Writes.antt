-- ===== src/History/Writes.antt =====
-- The operations that write rows or other tables without a posting keep the books.
use wallet_ledger_assesment.Base.{
  ℕ, ◌≡◌, refl, sym, ap, String, Option, none, some, [], ◌∷◌, ◌==◌, Bool-cases, inl, inr, subst,
}
use wallet_ledger_assesment.Base.Int.{ℤ}
use wallet_ledger_assesment.Base.Lists.{any, find}
use wallet_ledger_assesment.Domain.Enums.{TransactionType, TransactionStatus, EntryStatus}
use wallet_ledger_assesment.Domain.Errors.{ok, guard, >>=-eq-ok, ok-injective, invalid_amount}
use wallet_ledger_assesment.Domain.Decimals.{Decimal}
use wallet_ledger_assesment.Domain.Money.{Money, money, of_amount, is_positive}
use wallet_ledger_assesment.Store.{Db, set_transaction_status}
use wallet_ledger_assesment.Store.Models.{Account, Transaction, LedgerEntry, debit_entry}
use wallet_ledger_assesment.Ledger.{assert_entries_balanced}
use wallet_ledger_assesment.Ledger.Keeping.{snapshot_all-balance}
use wallet_ledger_assesment.Ledger.Numbering.{find-by_seq}
use wallet_ledger_assesment.Ledger.Invariant.{SameLedger, SameLedger-refl}
use wallet_ledger_assesment.Accounts
use wallet_ledger_assesment.Accounts.{violates, new_account}
use wallet_ledger_assesment.Transfers
use wallet_ledger_assesment.Transfers.{
  Outcome, or_fresh, new_transaction, reserve, pending_transaction, release_rows, settle_rows,
  commit_read, commit_write, is_reserved, settled_copy, failed_copy, is_held,
}
use wallet_ledger_assesment.Transfers.Effects.{Request-checked, new_transaction-SameLedger}
use wallet_ledger_assesment.Transfers.Phases.{hold-IsBalanced, release_rows-IsBalanced}
use wallet_ledger_assesment.Transfers.Commit.{settle_rows-IsBalanced, credited}
use wallet_ledger_assesment.Transfers.Halves.{commit_read-IsRead, commit_write-IsWritten}
use wallet_ledger_assesment.Payments.{Config, Remote, Context, get_payment_provider, create_deposit}
use wallet_ledger_assesment.Deposits
use wallet_ledger_assesment.Deposits.{new_deposit}
use wallet_ledger_assesment.History.Books.{
  IsBooked, IsBooked-same, add_entry-IsOrdered, update-IsOrdered, update_first-IsOrdered,
  IsProper-restated,
}
use wallet_ledger_assesment.History.Bookings.{
  IsExact, money-IsExact, of_amount-IsExact, debit_entry-Builds, credit_entry-Builds,
}

pub create-SameLedger :
    (owner_id currency : String) (drawn : ℕ) (db : Db) (r : Account × Db)
    → Accounts.create owner_id currency drawn db ≡ ok r
    → SameLedger db r.1
unfolding Accounts.create
create-SameLedger owner_id currency drawn db r e =
    elim (Bool-cases
      (any (violates (new_account owner_id currency drawn db.next_id)) db.accounts)) [
        | inl taken ↦ let h = rw taken at e in cc
        | inr free ↦
            let h = rw free at e in
            subst (λ (p : Account × Db). SameLedger db p.1) (ok-injective h)
              (record { entries = refl; snapshots = refl; next_seq = refl })
      ]

reserve-IsBooked :
    (sender receiver : Account) (m : Money) (c : Option ℕ) (db : Db) (o : Outcome)
    → IsExact m
    → reserve sender receiver m c db ≡ ok o
    → IsBooked db
    → IsBooked o.2
unfolding reserve
reserve-IsBooked sender receiver m c db o exact e b =
    let (correlation, db1) = or_fresh c db in
    let (new, db2) =
      new_transaction TransactionType.transfer TransactionStatus.pending m sender receiver
        correlation db1 in
    let same : SameLedger db db2 =
      new_transaction-SameLedger TransactionType.transfer TransactionStatus.pending m sender
        receiver c db in
    let b2 : IsBooked db2 = IsBooked-same db db2 same.entries same.next_seq b in
    subst IsBooked (ap (λ (x : Outcome). x.2) (ok-injective e)) (record {
      double_entry = hold-IsBalanced sender.id new.id m.amount m.currency db2 b2.double_entry;
      ordered =
          add_entry-IsOrdered (debit_entry sender.id new.id m.amount m.currency EntryStatus.pending)
            db2 (debit_entry-Builds sender.id new.id m EntryStatus.pending exact) b2.ordered;
    })

pub initiate-IsBooked :
    (sender_id receiver_id : ℕ) (amount : Decimal) (c : Option ℕ) (db : Db) (o : Outcome)
    → Transfers.initiate sender_id receiver_id amount c db ≡ ok o
    → IsBooked db
    → IsBooked o.2
unfolding Transfers.initiate
initiate-IsBooked sender_id receiver_id amount c db o e b =
    let (r, done) =
      Request-checked sender_id receiver_id amount db
        (λ sender receiver m. reserve sender receiver m c db) o e in
    reserve-IsBooked r.sender r.receiver r.m c db o
      (subst IsExact (sym r.accepted.normalized) (money-IsExact amount r.sender.currency)) done b

-- The two writes of a commit.
settle_rows-IsBooked :
    (txn : Transaction) (d : LedgerEntry) (receiver : Account) (db : Db)
    → let m = of_amount txn.amount txn.currency in
      find (λ e. e.seq == d.seq) db.entries ≡ some d
      → d.status ≡ EntryStatus.pending
      → assert_entries_balanced (settled_copy d ∷ credited txn d receiver m db db.next_seq ∷ [])
        ≡ ok tt
      → IsBooked db
      → IsBooked (settle_rows txn d receiver m db)
settle_rows-IsBooked txn d receiver db found waiting checked b =
    let m = of_amount txn.amount txn.currency in
    record {
      double_entry =
          settle_rows-IsBalanced txn d receiver m db found waiting checked b.double_entry;
      ordered =
          add_entry-IsOrdered (credited txn d receiver m db) _
            (credit_entry-Builds receiver.id txn.id m EntryStatus.success
              (of_amount-IsExact txn.amount txn.currency))
            (update_first-IsOrdered (λ e. e.seq == d.seq) settled_copy (λ e. refl)
              (λ e. IsProper-restated e (settled_copy e) refl refl refl) db b.ordered);
    }

pub commit-IsBooked :
    (limit : ℤ) (threshold id : ℕ) (db : Db) (o : Outcome)
    → Transfers.commit limit threshold id db ≡ ok o
    → IsBooked db
    → IsBooked o.2
unfolding Transfers.commit
commit-IsBooked limit threshold id db (txn, event, db') e b =
    let ((t, d), read, written) = >>=-eq-ok (commit_read limit id db) _ e in
    let r = commit_read-IsRead limit id db t d read in
    let w = commit_write-IsWritten threshold t d db txn event db' written in
    let rows = settle_rows t d w.receiver (of_amount t.amount t.currency) db in
    let marked = set_transaction_status t.id TransactionStatus.success rows in
    let same = (snapshot_all-balance threshold (w.sender ∷ w.receiver ∷ []) marked db' w.cut).0 in
    IsBooked-same rows db' same.entries same.next_seq (
      settle_rows-IsBooked t d w.receiver db
        (find-by_seq (is_reserved t.id) db.entries d b.ordered.increasing r.debit_found)
        r.debit_waiting w.checked b)

pub fail-IsBooked :
    (id : ℕ) (db : Db) (o : Outcome) → Transfers.fail id db ≡ ok o → IsBooked db → IsBooked o.2
unfolding Transfers.fail
fail-IsBooked id db o e b =
    let (t, e0, rest) = >>=-eq-ok (pending_transaction id db) _ e in
    let released = release_rows t.id db in
    let db2 = set_transaction_status t.id TransactionStatus.failed released in
    let b1 : IsBooked released = record {
      double_entry = release_rows-IsBalanced t.id db b.double_entry;
      ordered =
          update-IsOrdered (is_held t.id) failed_copy (λ e. refl)
            (λ e. IsProper-restated e (failed_copy e) refl refl refl) db b.ordered;
    } in
    subst IsBooked (ap (λ (x : Outcome). x.2) (ok-injective rest))
      (IsBooked-same released db2 refl refl b1)

or_fresh-SameLedger : (c : Option ℕ) (db : Db) → SameLedger db (or_fresh c db).1
or_fresh-SameLedger none db = record { entries = refl; snapshots = refl; next_seq = refl }
or_fresh-SameLedger (some c) db = SameLedger-refl db

pub deposit_initiate-SameLedger :
    (config : Config) (remote : Remote) (account_id : ℕ) (amount : Decimal) (provider_name : String)
    (context : Context) (c : Option ℕ) (db : Db) (o : Transaction × Db)
    → Deposits.initiate config remote account_id amount provider_name context c db ≡ ok o
    → SameLedger db o.1
unfolding Deposits.initiate new_deposit
deposit_initiate-SameLedger config remote account_id amount provider_name context c db o e =
    let (account, e1, r1) = >>=-eq-ok (Accounts.get account_id db) _ e in
    let m = money amount account.currency in
    let (u, e2, r2) = >>=-eq-ok (guard (is_positive m) invalid_amount) _ r1 in
    let (correlation, db1) = or_fresh c db in
    let (new, db2) = new_deposit account m provider_name context correlation db1 in
    let (provider, e3, r3) = >>=-eq-ok (get_payment_provider config provider_name) _ r2 in
    let (reference, e4, r4) =
      >>=-eq-ok (create_deposit remote provider m.amount m.currency new.id context) _ r3 in
    let same = or_fresh-SameLedger c db in
    subst (λ (x : Transaction × Db). SameLedger db x.1) (ok-injective r4)
      (record { entries = same.entries; snapshots = same.snapshots; next_seq = same.next_seq })
