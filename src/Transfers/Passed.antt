-- ===== src/Transfers/Passed.antt =====
-- What a commit does to balances that are computed from snapshots: it matters whether a snapshot of
-- the sender has passed the number of the reserved debit.
use wallet_ledger_assesment.Base.{
  ℕ, ◌<◌, ◌≤◌, ◌≡◌, ◌≢◌, sym, ap, ◌∙◌, false, some, [], ◌∷◌, arith, ◌==◌, ==-refl, if◌then◌else◌,
}
use wallet_ledger_assesment.Base.Int.{ℤ, pos, ◌+ℤ◌, zero-+ℤ, +ℤ-zero}
use wallet_ledger_assesment.Base.Lists.{find}
use wallet_ledger_assesment.Domain.Enums.{EntryStatus}
use wallet_ledger_assesment.Domain.Errors.{ok, ok-injective}
use wallet_ledger_assesment.Domain.Money.{Money, of_amount}
use wallet_ledger_assesment.Domain.Events.{DomainEvent}
use wallet_ledger_assesment.Store.{Db}
use wallet_ledger_assesment.Store.Models.{Account, Transaction, LedgerEntry}
use wallet_ledger_assesment.Store.Sums.{counted, sum_where}
use wallet_ledger_assesment.Ledger.{
  settled_after, base_of, latest_snapshot, cursor_of, balance_amount,
}
use wallet_ledger_assesment.Ledger.Snapshots.{full_balance}
use wallet_ledger_assesment.Ledger.Keeping.{snapshot_all-balance}
use wallet_ledger_assesment.Ledger.Invariant.{IsValid}
use wallet_ledger_assesment.Transfers.{receiver_id_of, settled_copy, settle_rows, commit}
use wallet_ledger_assesment.Transfers.Commit.{credited, settle_rows-sum}
use wallet_ledger_assesment.Transfers.Halves.{IsRead}
use wallet_ledger_assesment.Transfers.Settlement.{
  IsWritten-of-commit, marked, by_seq, marked-AllSound, cut-AllSound, commit_rows-Settled,
}

-- With a positive snapshot threshold, if no snapshot of the sender has passed the reserved debit, a
-- commit that returns leaves a valid ledger valid, sound snapshots included.
pub commit-IsValid :
    (limit : ℤ) (threshold id : ℕ) (db : Db) (t : Transaction) (d : LedgerEntry) (txn : Transaction)
    (event : DomainEvent) (db' : Db)
    → 0 < threshold
    → IsValid db
    → IsRead id db t d
    → cursor_of (latest_snapshot d.account_id db) < d.seq
    → commit limit threshold id db ≡ ok (txn, event, db')
    → IsValid db'
commit-IsValid limit threshold id db t d txn event db' positive v r h e =
    let w = IsWritten-of-commit limit threshold id db t d txn event db' r e in
    record {
      snapshots =
          cut-AllSound threshold id t d db db' v r w positive
            (marked-AllSound threshold id t d db db' v r w h);
      double_entry = (commit_rows-Settled threshold id t d db db' v r w).double_entry;
    }

-- A sum that neither row enters.
settled_after-same :
    (t : Transaction) (d : LedgerEntry) (receiver : Account) (m : Money) (db : Db) (cursor : ℕ)
    → find (λ e. e.seq == d.seq) db.entries ≡ some d
    → d.status ≡ EntryStatus.pending
    → d.seq ≤ cursor
    → d.account_id ≢ receiver.id
    → sum_where (settled_after d.account_id cursor) (settle_rows t d receiver m db).entries
      ≡ sum_where (settled_after d.account_id cursor) db.entries
settled_after-same t d receiver m db cursor found waiting passed apart =
    let sum = settle_rows-sum t d receiver m db (settled_after d.account_id cursor) found in
    let before : counted (settled_after d.account_id cursor) d ≡ pos 0 = ground arith in
    let after : counted (settled_after d.account_id cursor) (settled_copy d) ≡ pos 0 =
      ground arith in
    let paid : counted (settled_after d.account_id cursor) (credited t d receiver m db db.next_seq)
        ≡ pos 0 =
      ground arith in
    sym (+ℤ-zero _) ∙ (rw (before, after, paid, zero-+ℤ) at sum) ∙ +ℤ-zero _

alone :
    (a b : ℕ) (x y : ℤ) → a ≢ b → (if a == a then x else pos 0) +ℤ (if b == a then y else pos 0) ≡ x
alone a b x y h =
    let differs : (b == a) ≡ false = ground arith in rw (==-refl a, differs) (+ℤ-zero x)

-- On a valid ledger, if a snapshot of the sender has passed the reserved debit, and the receiver is
-- another account, a commit that returns is lost on the sender's computed balance: it stays what it was, while the settled rows of
-- the sender sum to less by the debit.
pub commit_overstates :
    (limit : ℤ) (threshold id : ℕ) (db : Db) (t : Transaction) (d : LedgerEntry) (receiver_id : ℕ)
    (txn : Transaction) (event : DomainEvent) (db' : Db)
    → IsValid db
    → IsRead id db t d
    → receiver_id_of t.details ≡ ok receiver_id
    → d.account_id ≢ receiver_id
    → d.seq ≤ cursor_of (latest_snapshot d.account_id db)
    → commit limit threshold id db ≡ ok (txn, event, db')
    → (balance_amount d.account_id db' ≡ balance_amount d.account_id db)
      × (full_balance d.account_id db' ≡ full_balance d.account_id db +ℤ d.amount)
commit_overstates limit threshold id db t d receiver_id txn event db' v r named apart passed e =
    let w = IsWritten-of-commit limit threshold id db t d txn event db' r e in
    let other : d.account_id ≢ w.receiver.id =
      λ h. apart (h ∙ ok-injective (sym w.receiver_named ∙ named)) in
    let found = by_seq threshold id t d db db' v r w in
    let kept =
      snapshot_all-balance threshold (w.sender ∷ w.receiver ∷ [])
        (marked threshold id t d db db' v r w) db' w.cut in
    (
      kept.1 d.account_id
          ∙ unfold balance_amount latest_snapshot in
            ap (λ (x : ℤ). base_of (latest_snapshot d.account_id db) +ℤ x)
              (settled_after-same t d w.receiver (of_amount t.amount t.currency) db
                (cursor_of (latest_snapshot d.account_id db)) found r.debit_waiting passed other),
      (commit_rows-Settled threshold id t d db db' v r w).balances d.account_id
          ∙ ap (λ (x : ℤ). full_balance d.account_id db +ℤ x)
              (alone d.account_id w.receiver.id d.amount _ other),
    )
