-- ===== src/History/Mirrors.antt =====
-- Reversals as bookings.
use wallet_ledger_assesment.Base.{ℕ, ◌≡◌, ap, Option, List, [], ◌∷◌, Bool-cases, inl, inr, subst}
use wallet_ledger_assesment.Base.Int.{abs}
use wallet_ledger_assesment.Base.Lists.{All}
use wallet_ledger_assesment.Domain.Enums.{TransactionStatus, is_debit}
use wallet_ledger_assesment.Domain.Errors.{ok, >>=-eq-ok, ok-injective}
use wallet_ledger_assesment.Domain.Money.{of_amount}
use wallet_ledger_assesment.Domain.Aggregates.{TransactionAggregate, new_aggregate}
use wallet_ledger_assesment.Store.{Db, set_transaction_status}
use wallet_ledger_assesment.Store.Models.{Transaction, LedgerEntry}
use wallet_ledger_assesment.Ledger.{post}
use wallet_ledger_assesment.Transfers.{or_fresh}
use wallet_ledger_assesment.Reversals.{
  reversible_transaction, account_ids, lock_all, mirror_row, mirror_rows, snapshot_ids,
  new_reversal, reverse,
}
use wallet_ledger_assesment.Reversals.Mirroring.{mirror_rows-IsSettled}
use wallet_ledger_assesment.Reversals.Reversing.{
  new_reversal-SameLedger, originals, snapshot_ids-SameRows,
}
use wallet_ledger_assesment.History.Books.{IsProperLine}
use wallet_ledger_assesment.History.Bookings.{
  Booking, of_amount-IsExact, debit-proper, credit-proper,
}

mirror_rows-proper :
    (es : List LedgerEntry) (t : TransactionAggregate)
    → All IsProperLine t.lines
    → All IsProperLine (mirror_rows es t).lines
mirror_rows-proper [] t h = h
mirror_rows-proper (e ∷ es) t h = mirror_rows-proper es (mirror_row e t) (mirrored e t h)
  where
    mirrored :
        (e : LedgerEntry) (t : TransactionAggregate)
        → All IsProperLine t.lines
        → All IsProperLine (mirror_row e t).lines
    mirrored e t h =
        let m = of_amount (abs e.amount) e.currency in
        let exact = of_amount-IsExact (abs e.amount) e.currency in
        elim (Bool-cases (is_debit e.entry_type)) [
          | inl d ↦ rw d (credit-proper e.account_id m t exact h)
          | inr c ↦ rw c (debit-proper e.account_id m t exact h)
        ]

pub reverse-Booking :
    (threshold id : ℕ) (c : Option ℕ) (db : Db) (o : Transaction × Db)
    → reverse threshold id c db ≡ ok o
    → Booking db o.1
unfolding reverse
reverse-Booking threshold id c db o e =
    let (t, e0, r0) = >>=-eq-ok (reversible_transaction id db) _ e in
    let rows = originals t.id db in
    let (u1, e1, r1) = >>=-eq-ok (lock_all (account_ids rows) db) _ r0 in
    let (correlation, db1) = or_fresh c db in
    let (new, db2) = new_reversal t correlation db1 in
    let lines = mirror_rows rows (new_aggregate t.currency) in
    let (db3, e2, r2) = >>=-eq-ok (post lines new.id db2) _ r1 in
    let db4 = set_transaction_status t.id TransactionStatus.reversed db3 in
    let (db5, e3, r3) = >>=-eq-ok (snapshot_ids threshold (account_ids rows) db4) _ r2 in
    let same = snapshot_ids-SameRows threshold (account_ids rows) db4 db5 e3 in
    subst (Booking db) (ap (λ (x : Transaction × Db). x.1) (ok-injective r3)) (record {
      lines = lines;
      id = new.id;
      before = db2;
      posted_to = db3;
      settled_lines = mirror_rows-IsSettled rows (new_aggregate t.currency) tt;
      proper = mirror_rows-proper rows (new_aggregate t.currency) tt;
      same = new_reversal-SameLedger t c db;
      posted = e2;
      entries = same.entries;
      next_seq = same.next_seq;
    })
