-- ===== src/Transfers/Race.antt =====
-- Two sessions that commit one transaction: neither locks its row, so both may read it as pending
-- before the first writes.
use wallet_ledger_assesment.Base.{
  ℕ, ◌≡◌, sym, ap, ◌∙◌, some, [], ◌∷◌, arith, ◌==◌, ==-refl, if◌then◌else◌,
}
use wallet_ledger_assesment.Base.Int.{ℤ, pos, ◌+ℤ◌, abs, int_laws, cross}
use wallet_ledger_assesment.Base.Lists.{find, find-append}
use wallet_ledger_assesment.Domain.Errors.{ok, ok-injective}
use wallet_ledger_assesment.Domain.Money.{Money, of_amount}
use wallet_ledger_assesment.Domain.Events.{DomainEvent}
use wallet_ledger_assesment.Store.{Db, update_first}
use wallet_ledger_assesment.Store.Models.{Account, Transaction, LedgerEntry}
use wallet_ledger_assesment.Store.Sums.{
  counted, sum_where, sum_where-append, sum_where-update_first,
}
use wallet_ledger_assesment.Ledger.Snapshots.{settled, full_balance}
use wallet_ledger_assesment.Ledger.Keeping.{snapshot_all-balance}
use wallet_ledger_assesment.Ledger.Invariant.{IsValid}
use wallet_ledger_assesment.Transfers.{
  receiver_id_of, settled_copy, settle_rows, commit_read, commit_write,
}
use wallet_ledger_assesment.Transfers.Commit.{credited}
use wallet_ledger_assesment.Transfers.Status.{find-update_first}
use wallet_ledger_assesment.Transfers.Halves.{commit_read-IsRead, commit_write-IsWritten}
use wallet_ledger_assesment.Transfers.Settlement.{same_rows, by_seq, commit_rows-Settled}

-- Settling a settled row again adds nothing but the credit.
settle_again :
    (t : Transaction) (d : LedgerEntry) (receiver : Account) (m : Money) (db : Db) (a : ℕ)
    → find (λ e. e.seq == d.seq) db.entries ≡ some (settled_copy d)
    → full_balance a (settle_rows t d receiver m db)
      ≡ full_balance a db +ℤ (if receiver.id == a then abs m.amount else pos 0)
settle_again t d receiver m db a found =
    let q = λ (e : LedgerEntry). e.seq == d.seq in
    let flip =
      sum_where-update_first (settled a) q settled_copy db.entries (settled_copy d) found in
    let paid : counted (settled a) (credited t d receiver m db db.next_seq)
        ≡ (if receiver.id == a then abs m.amount else pos 0) =
      ground arith in
    rw
      (
        sum_where-append (settled a) (update_first q settled_copy db.entries)
            (credited t d receiver m db db.next_seq ∷ []),
        paid,
      )
      (omega (int_laws, cross flip))

-- If two sessions read a pending transaction in the same valid state, and both write and return, one
-- after the other, then the receiver has been credited twice and the sender debited once.
pub commit_race :
    (limit : ℤ) (threshold id : ℕ) (t : Transaction) (d : LedgerEntry) (receiver_id : ℕ) (db : Db)
    (txn1 txn2 : Transaction) (event1 event2 : DomainEvent) (db1 db2 : Db)
    → IsValid db
    → commit_read limit id db ≡ ok (t, d)
    → receiver_id_of t.details ≡ ok receiver_id
    → commit_write threshold (t, d) db ≡ ok (txn1, event1, db1)
    → commit_write threshold (t, d) db1 ≡ ok (txn2, event2, db2)
    → (a : ℕ)
    → let credit = if receiver_id == a then abs (of_amount t.amount t.currency).amount else pos 0 in
      full_balance a db2
      ≡ full_balance a db +ℤ ((if d.account_id == a then d.amount else pos 0) +ℤ credit) +ℤ credit
commit_race limit threshold id t d receiver_id db txn1 txn2 event1 event2 db1 db2 v read named first
      second a =
    let r = commit_read-IsRead limit id db t d read in
    let w1 = commit_write-IsWritten threshold t d db txn1 event1 db1 first in
    let w2 = commit_write-IsWritten threshold t d db1 txn2 event2 db2 second in
    let m = of_amount t.amount t.currency in
    let to1 : w1.receiver.id ≡ receiver_id = ok-injective (sym w1.receiver_named ∙ named) in
    let to2 : w2.receiver.id ≡ receiver_id = ok-injective (sym w2.receiver_named ∙ named) in
    let q = λ (e : LedgerEntry). e.seq == d.seq in
    let there : find q db1.entries ≡ some (settled_copy d) =
      ap (find q) (same_rows threshold id t d db db1 v r w1).entries
      ∙ find-append q (update_first q settled_copy db.entries) _ (settled_copy d) (
          find-update_first q settled_copy db.entries d (by_seq threshold id t d db db1 v r w1)
            (==-refl d.seq)) in
    let again = settle_again t d w2.receiver m db1 a there in
    let kept = (snapshot_all-balance threshold (w2.sender ∷ w2.receiver ∷ []) _ db2 w2.cut).0 in
    let once = (commit_rows-Settled threshold id t d db db1 v r w1).balances a in
    ap (sum_where (settled a)) kept.entries ∙ rw (← to2) (again ∙ rw (once, to1, to2))
