-- ===== src/Transfers/Commit.antt =====
-- The second phase of a transfer: what `commit` does to every balance, and when it is sound.
use wallet_ledger_assesment.Base.{
  ℕ, ◌<◌, ◌≡◌, refl, inl, inr, sym, ap, ◌∙◌, Bool, true, String, some, [], ◌∷◌, arith, ◌==◌,
  Bool-cases, ==_iff, subst, if◌then◌else◌,
}
use wallet_ledger_assesment.Base.Int.{ℤ, pos, ◌+ℤ◌, abs, int_laws, cross, zero-+ℤ, +ℤ-zero}
use wallet_ledger_assesment.Base.Lists.{find}
use wallet_ledger_assesment.Base.Text.{str_eq, eq_iff}
use wallet_ledger_assesment.Domain.Enums.{EntryStatus}
use wallet_ledger_assesment.Domain.Errors.{ok}
use wallet_ledger_assesment.Domain.Money.{Money}
use wallet_ledger_assesment.Domain.Aggregates.{record_line}
use wallet_ledger_assesment.Domain.Aggregates.Balance.{assert_balanced_iff}
use wallet_ledger_assesment.Store.{Db, update_first}
use wallet_ledger_assesment.Store.Models.{Account, Transaction, LedgerEntry, credit_entry}
use wallet_ledger_assesment.Store.Sums.{
  counted, sum_where, sum_where-append, sum_where-update_first,
}
use wallet_ledger_assesment.Ledger.{
  reserved_debit, latest_snapshot, cursor_of, assert_entries_balanced,
}
use wallet_ledger_assesment.Ledger.Snapshots.{settled, settled_upto, full_balance, AllSound}
use wallet_ledger_assesment.Ledger.Numbering.{add_entries-AllSound}
use wallet_ledger_assesment.Ledger.Posting.{settled_in, IsBalanced}
use wallet_ledger_assesment.Ledger.Updates.{update_first-AllSound}
use wallet_ledger_assesment.Ledger.Invariant.{reserved}
use wallet_ledger_assesment.Transfers.{settled_copy, settle_rows}

-- The condition by which the found row is written back.
abbrev same_row : LedgerEntry → LedgerEntry → Bool
same_row d e = e.seq == d.seq

module _ (txn : Transaction) (d : LedgerEntry) (receiver : Account) (m : Money) (db : Db) where
  abbrev pub credited : ℕ → LedgerEntry
  credited = credit_entry receiver.id txn.id m.amount m.currency EntryStatus.success

  -- A sum after the two writes.
  pub settle_rows-sum :
      (p : LedgerEntry → Bool)
      → find (same_row d) db.entries ≡ some d
      → sum_where p (settle_rows txn d receiver m db).entries +ℤ counted p d
        ≡ sum_where p db.entries +ℤ (counted p (settled_copy d) +ℤ counted p (credited db.next_seq))
  settle_rows-sum p found =
      let flip = sum_where-update_first p (same_row d) settled_copy db.entries d found in
      rw
        (sum_where-append p (update_first (same_row d) settled_copy db.entries)
          (credited db.next_seq ∷ []))
        (omega (int_laws, cross flip))

  pub settle_rows-full_balance :
      (a : ℕ)
      → find (same_row d) db.entries ≡ some d
      → d.status ≡ EntryStatus.pending
      → full_balance a (settle_rows txn d receiver m db)
        ≡ full_balance a db
          +ℤ ((if d.account_id == a then d.amount else pos 0)
              +ℤ (if receiver.id == a then abs m.amount else pos 0))
  settle_rows-full_balance a found waiting =
      let sum = settle_rows-sum (settled a) found in
      let none_yet : counted (settled a) d ≡ pos 0 = ground arith in
      let now : counted (settled a) (settled_copy d)
          ≡ (if d.account_id == a then d.amount else pos 0) =
        ground arith in
      let paid : counted (settled a) (credited db.next_seq)
          ≡ (if receiver.id == a then abs m.amount else pos 0) =
        ground arith in
      sym (+ℤ-zero _) ∙ rw (none_yet, now, paid) at sum

  pub settle_rows-reserved :
      (a : ℕ)
      → find (same_row d) db.entries ≡ some d
      → reserved a (settle_rows txn d receiver m db) +ℤ counted (reserved_debit a) d ≡ reserved a db
  settle_rows-reserved a found =
      let sum = settle_rows-sum (reserved_debit a) found in
      let gone : counted (reserved_debit a) (settled_copy d) ≡ pos 0 = ground arith in
      let paid : counted (reserved_debit a) (credited db.next_seq) ≡ pos 0 = ground arith in
      (rw (gone, paid) at sum) ∙ ap (λ (t : ℤ). reserved a db +ℤ t) (zero-+ℤ _) ∙ +ℤ-zero _

  -- The check on the pair of rows, read as two sums.
  pair-balanced :
      (c : String)
      → assert_entries_balanced (settled_copy d ∷ credited db.next_seq ∷ []) ≡ ok tt
      → (if str_eq d.currency c then d.amount else pos 0)
          +ℤ (if str_eq m.currency c then abs m.amount else pos 0)
        ≡ pos 0
  unfolding assert_entries_balanced record_line
  pair-balanced c checked =
      ap (λ (t : ℤ). (if str_eq d.currency c then d.amount else pos 0) +ℤ t) (sym (+ℤ-zero _))
      ∙ (assert_balanced_iff _).0 checked c

  -- The reserved amount is what the receiver gets.
  pub pair-sum :
      assert_entries_balanced (settled_copy d ∷ credited db.next_seq ∷ []) ≡ ok tt
      → d.amount +ℤ abs m.amount ≡ pos 0
  pair-sum checked =
      let here = pair-balanced d.currency checked in
      let there = pair-balanced m.currency checked in
      let d_same : str_eq d.currency d.currency ≡ true = (eq_iff _ _).1 refl in
      let m_same : str_eq m.currency m.currency ≡ true = (eq_iff _ _).1 refl in
      elim (Bool-cases (str_eq m.currency d.currency)) [
        | inl t ↦ rw (d_same, t) at here
        | inr n ↦ elim (Bool-cases (str_eq d.currency m.currency)) [
          | inl t ↦ rw (m_same, t) at there
          | inr k ↦
              let h = rw (d_same, n) at here in
              let l = rw (m_same, k) at there in omega (int_laws, cross h, cross l)
        ]
      ]

  pub settle_rows-IsBalanced :
      find (same_row d) db.entries ≡ some d
      → d.status ≡ EntryStatus.pending
      → assert_entries_balanced (settled_copy d ∷ credited db.next_seq ∷ []) ≡ ok tt
      → IsBalanced db
      → IsBalanced (settle_rows txn d receiver m db)
  settle_rows-IsBalanced found waiting checked h = record {
    at = λ c.
        let sum = settle_rows-sum (settled_in c) found in
        let none_yet : counted (settled_in c) d ≡ pos 0 = ground arith in
        let now : counted (settled_in c) (settled_copy d)
            ≡ (if str_eq d.currency c then d.amount else pos 0) =
          ground arith in
        let paid : counted (settled_in c) (credited db.next_seq)
            ≡ (if str_eq m.currency c then abs m.amount else pos 0) =
          ground arith in
        sym (+ℤ-zero _)
        ∙ (rw (none_yet, now, paid, pair-balanced c checked, h.at c) at sum)
        ∙ zero-+ℤ _;
  }

  -- No snapshot has a cursor at or beyond the row, so none misses it.
  pub settle_rows-AllSound :
      find (same_row d) db.entries ≡ some d
      → d.status ≡ EntryStatus.pending
      → cursor_of (latest_snapshot d.account_id db) < d.seq
      → AllSound db
      → AllSound (settle_rows txn d receiver m db)
  settle_rows-AllSound found waiting later_row h =
      add_entries-AllSound (credited ∷ []) _ (λ n. refl, tt)
        (update_first-AllSound (same_row d) settled_copy db (λ e. refl)
          (λ a.
            let n = cursor_of (latest_snapshot a db) in
            let sum =
              sum_where-update_first (settled_upto a n) (same_row d) settled_copy db.entries d
                found in
            let before : counted (settled_upto a n) d ≡ pos 0 = ground arith in
            let after : counted (settled_upto a n) (settled_copy d) ≡ pos 0 = uncounted a in
            sym (+ℤ-zero _) ∙ (rw (before, after) at sum) ∙ +ℤ-zero _)
          h)
    where
      uncounted :
          (a : ℕ)
          → counted (settled_upto a (cursor_of (latest_snapshot a db))) (settled_copy d) ≡ pos 0
      uncounted a = elim (Bool-cases (d.account_id == a)) [
        | inl t ↦
            let same : d.account_id ≡ a = (==_iff _ _).0 t in
            let beyond : cursor_of (latest_snapshot a db) < d.seq =
              subst (λ (b : ℕ). cursor_of (latest_snapshot b db) < d.seq) same later_row in
            ground arith
        | inr n ↦ rw n
      ]
