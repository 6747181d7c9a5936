-- ===== src/Transfers/Settlement.antt =====
-- `commit` as a whole: what it has done when it returns.
use mathlib.Core.Option.{some-injective}
use wallet_ledger_assesment.Base.{
  ℕ, ◌<◌, ◌≡◌, refl, sym, ap, ◌∙◌, some, List, [], ◌∷◌, ◌==◌, subst, if◌then◌else◌,
}
use wallet_ledger_assesment.Base.Int.{ℤ, pos, ◌+ℤ◌, abs}
use wallet_ledger_assesment.Base.Lists.{find}
use wallet_ledger_assesment.Domain.Enums.{TransactionStatus}
use wallet_ledger_assesment.Domain.Errors.{ok, ok-injective, >>=-eq-ok, invalid_transaction_state}
use wallet_ledger_assesment.Domain.Money.{Money, of_amount}
use wallet_ledger_assesment.Domain.Events.{DomainEvent}
use wallet_ledger_assesment.Store.{Db, get_transaction, set_transaction_status}
use wallet_ledger_assesment.Store.Models.{Account, Transaction, LedgerEntry}
use wallet_ledger_assesment.Store.Sums.{counted, sum_where}
use wallet_ledger_assesment.Ledger.{reserved_debit, latest_snapshot, cursor_of}
use wallet_ledger_assesment.Ledger.Snapshots.{settled, full_balance, AllSound}
use wallet_ledger_assesment.Ledger.Keeping.{SameRows, snapshot_all-balance, snapshot_all-keeps}
use wallet_ledger_assesment.Ledger.Numbering.{find-by_seq}
use wallet_ledger_assesment.Ledger.Posting.{IsBalanced}
use wallet_ledger_assesment.Ledger.Invariant.{
  IsValid, SameLedger-AllSound, reserved, entries-IsBalanced,
}
use wallet_ledger_assesment.Transfers.{
  receiver_id_of, settle_rows, commit_read, commit, is_reserved,
}
use wallet_ledger_assesment.Transfers.Commit.{
  settle_rows-full_balance, settle_rows-reserved, settle_rows-IsBalanced, settle_rows-AllSound,
}
use wallet_ledger_assesment.Transfers.Status.{IsClosed, closed, set_transaction_status-found}
use wallet_ledger_assesment.Transfers.Halves.{
  IsRead, IsWritten, commit_read-IsRead, commit_write-IsWritten,
}

-- After a commit of the reserved debit `d` in favour of `receiver`: rows still sum to zero, the two
-- accounts have moved by the two rows, the debit is no longer a reservation, and the transaction is
-- closed.
pub record Settled (id : ℕ) (d : LedgerEntry) (receiver : Account) (m : Money) (db db' : Db)
    : Type 0 where
  pub double_entry : IsBalanced db'
  pub balances :
      (a : ℕ)
      → full_balance a db'
        ≡ full_balance a db
          +ℤ ((if d.account_id == a then d.amount else pos 0)
              +ℤ (if receiver.id == a then abs m.amount else pos 0))
  pub reservations : (a : ℕ) → reserved a db' +ℤ counted (reserved_debit a) d ≡ reserved a db
  pub closed_after : IsClosed invalid_transaction_state id db'

module _ (threshold id : ℕ) (txn : Transaction) (d : LedgerEntry) (db db' : Db) (v : IsValid db)
    (r : IsRead id db txn d) (w : IsWritten threshold txn d db db') where
  abbrev pub m : Money
  m = of_amount txn.amount txn.currency

  abbrev pub rows : Db
  rows = settle_rows txn d w.receiver m db

  abbrev pub marked : Db
  marked = set_transaction_status txn.id TransactionStatus.success rows

  pub same_rows : SameRows marked db'
  same_rows = (snapshot_all-balance threshold (w.sender ∷ w.receiver ∷ []) marked db' w.cut).0

  pub by_seq : find (λ e. e.seq == d.seq) db.entries ≡ some d
  by_seq = find-by_seq (is_reserved txn.id) db.entries d v.snapshots.increasing r.debit_found

  pub marked-AllSound : cursor_of (latest_snapshot d.account_id db) < d.seq → AllSound marked
  marked-AllSound h =
      SameLedger-AllSound (record { entries = refl; snapshots = refl; next_seq = refl })
        (settle_rows-AllSound txn d w.receiver m db by_seq r.debit_waiting h v.snapshots)

  pub cut-AllSound : 0 < threshold → AllSound marked → AllSound db'
  cut-AllSound positive h =
      let (db1, e1, sound, _) =
        snapshot_all-keeps threshold (w.sender ∷ w.receiver ∷ []) marked positive h in
      subst AllSound (ok-injective (sym e1 ∙ w.cut)) sound

  found_marked :
      get_transaction id marked ≡ some (record txn { status = TransactionStatus.success })
  found_marked =
      ap (λ (i : ℕ). get_transaction id (set_transaction_status i TransactionStatus.success rows))
        r.same_id
      ∙ set_transaction_status-found id TransactionStatus.success rows txn r.txn_found

  closed_same : get_transaction id db' ≡ get_transaction id marked
  closed_same = ap (λ (ts : List Transaction). find (λ t. t.id == id) ts) same_rows.transactions

  pub commit_rows-Settled : Settled id d w.receiver m db db'
  commit_rows-Settled = record {
    double_entry = entries-IsBalanced same_rows.entries (
        settle_rows-IsBalanced txn d w.receiver m db by_seq r.debit_waiting w.checked
          v.double_entry);
    balances = λ a.
        ap (sum_where (settled a)) same_rows.entries
        ∙ settle_rows-full_balance txn d w.receiver m db a by_seq r.debit_waiting;
    reservations = λ a.
        ap
          (λ (es : List LedgerEntry).
            sum_where (reserved_debit a) es +ℤ counted (reserved_debit a) d)
          same_rows.entries
        ∙ settle_rows-reserved txn d w.receiver m db a by_seq;
    closed_after =
        closed id db' (record txn { status = TransactionStatus.success })
          (closed_same ∙ found_marked) (λ h. cc);
  }

-- Whoever reads the same state reads the same rows.
IsRead-unique :
    {id : ℕ} {db : Db} {t t' : Transaction} {d d' : LedgerEntry}
    → IsRead id db t d
    → IsRead id db t' d'
    → (t ≡ t') × (d ≡ d')
IsRead-unique {id} {db} {t} {t'} {d} {d'} r r' =
    let same : t ≡ t' = some-injective _ _ (sym r.txn_found ∙ r'.txn_found) in
    (
      same,
      some-injective _ _ (
          sym r.debit_found
          ∙ ap (λ (x : Transaction). find (is_reserved x.id) db.entries) same
          ∙ r'.debit_found),
    )

pub IsWritten-of-commit :
    (limit : ℤ) (threshold id : ℕ) (db : Db) (t : Transaction) (d : LedgerEntry) (txn : Transaction)
    (event : DomainEvent) (db' : Db)
    → IsRead id db t d
    → commit limit threshold id db ≡ ok (txn, event, db')
    → IsWritten threshold t d db db'
unfolding commit
IsWritten-of-commit limit threshold id db t d txn event db' r e =
    let ((t', d'), read, written) = >>=-eq-ok (commit_read limit id db) _ e in
    let same = IsRead-unique (commit_read-IsRead limit id db t' d' read) r in
    subst (λ (y : LedgerEntry). IsWritten threshold t y db db') same.1
      (subst (λ (x : Transaction). IsWritten threshold x d' db db') same.0
        (commit_write-IsWritten threshold t' d' db txn event db' written))

-- On a valid ledger, a commit that returns has found the pending transaction and its reserved debit,
-- and has settled them in favour of the receiver that the details name: the settled rows of each
-- currency still sum to zero, each account's settled sum has moved by its row, the debit is reserved
-- no more, and in the state that it leaves the transaction can be neither committed nor failed.
pub commit-Settled :
    (limit : ℤ) (threshold id : ℕ) (db : Db) (txn : Transaction) (event : DomainEvent) (db' : Db)
    → IsValid db
    → commit limit threshold id db ≡ ok (txn, event, db')
    → (t : Transaction) × (d : LedgerEntry) × (receiver : Account) × IsRead id db t d
      × (receiver_id_of t.details ≡ ok receiver.id)
      × Settled id d receiver (of_amount t.amount t.currency) db db'
unfolding commit
commit-Settled limit threshold id db txn event db' v e =
    let ((t, d), read, written) = >>=-eq-ok (commit_read limit id db) _ e in
    let r = commit_read-IsRead limit id db t d read in
    let w = commit_write-IsWritten threshold t d db txn event db' written in
    (t, d, w.receiver, r, w.receiver_named, commit_rows-Settled threshold id t d db db' v r w)
