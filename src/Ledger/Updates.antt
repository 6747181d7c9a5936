-- ===== src/Ledger/Updates.antt =====
-- Rows whose status is rewritten in place keep their numbers; snapshots stay sound where the rewriting
-- changes no sum up to a cursor.
use wallet_ledger_assesment.Base.{ℕ, ◌<◌, ◌≡◌, refl, inl, inr, Bool, List, [], ◌∷◌, Bool-cases}
use wallet_ledger_assesment.Base.Lists.{update, All}
use wallet_ledger_assesment.Store.{Db, update_first}
use wallet_ledger_assesment.Store.Models.{LedgerEntry}
use wallet_ledger_assesment.Store.Sums.{sum_where}
use wallet_ledger_assesment.Ledger.{latest_snapshot, cursor_of}
use wallet_ledger_assesment.Ledger.Snapshots.{settled_upto, AllSound, Increasing}
use wallet_ledger_assesment.Ledger.Numbering.{latest_snapshot-same}

-- A rewriting of rows that keeps their numbers.
abbrev pub KeepsSeq : (LedgerEntry → LedgerEntry) → Type 0
KeepsSeq f = (e : LedgerEntry) → (f e).seq ≡ e.seq

module _ (q : LedgerEntry → Bool) (f : LedgerEntry → LedgerEntry) (keeps : KeepsSeq f) where
  -- What holds of the numbers holds of the rewritten rows' numbers.
  pub All-update :
      (P : ℕ → Type 0) (es : List LedgerEntry)
      → All (λ e. P e.seq) es
      → All (λ e. P e.seq) (update q f es)
  All-update P [] h = tt
  All-update P (x ∷ xs) h = elim (Bool-cases (q x)) [
    | inl t ↦ rw (t, keeps x) (h.0, All-update P xs h.1)
    | inr n ↦ rw n (h.0, All-update P xs h.1)
  ]

  pub update-Increasing : (es : List LedgerEntry) → Increasing es → Increasing (update q f es)
  update-Increasing [] h = tt
  update-Increasing (x ∷ xs) h = elim (Bool-cases (q x)) [
    | inl t ↦ rw (t, keeps x) (All-update (λ n. x.seq < n) xs h.0, update-Increasing xs h.1)
    | inr n ↦ rw n (All-update (λ n. x.seq < n) xs h.0, update-Increasing xs h.1)
  ]

  pub All-update_first :
      (P : ℕ → Type 0) (es : List LedgerEntry)
      → All (λ e. P e.seq) es
      → All (λ e. P e.seq) (update_first q f es)
  All-update_first P [] h = tt
  All-update_first P (x ∷ xs) h = elim (Bool-cases (q x)) [
    | inl t ↦ rw (t, keeps x) h
    | inr n ↦ rw n (h.0, All-update_first P xs h.1)
  ]

  pub update_first-Increasing :
      (es : List LedgerEntry) → Increasing es → Increasing (update_first q f es)
  update_first-Increasing [] h = tt
  update_first-Increasing (x ∷ xs) h = elim (Bool-cases (q x)) [
    | inl t ↦ rw (t, keeps x) h
    | inr n ↦ rw n (All-update_first (λ n. x.seq < n) xs h.0, update_first-Increasing xs h.1)
  ]

abbrev pub with_entries : List LedgerEntry → Db → Db
with_entries es db = record db { entries = es }

-- New rows with the same numbers and the same sums up to every cursor.
rows-AllSound :
    (es : List LedgerEntry) (db : Db)
    → All (λ e. e.seq < db.next_seq) es
    → Increasing es
    → ((a : ℕ)
        → let p = settled_upto a (cursor_of (latest_snapshot a db)) in
          sum_where p es ≡ sum_where p db.entries)
    → AllSound db
    → AllSound (with_entries es db)
rows-AllSound es db bounded grows sums h = record {
  at = λ a. rw (latest_snapshot-same a db (with_entries es db) refl, sums a) (h.at a);
  started = h.started;
  rows = bounded;
  increasing = grows;
  cursors = h.cursors;
}

module _ (q : LedgerEntry → Bool) (f : LedgerEntry → LedgerEntry) (db : Db) where
  pub update-AllSound :
      KeepsSeq f
      → ((a : ℕ)
          → let p = settled_upto a (cursor_of (latest_snapshot a db)) in
            sum_where p (update q f db.entries) ≡ sum_where p db.entries)
      → AllSound db
      → AllSound (with_entries (update q f db.entries) db)
  update-AllSound keeps sums h =
      rows-AllSound (update q f db.entries) db
        (All-update q f keeps (λ n. n < db.next_seq) db.entries h.rows)
        (update-Increasing q f keeps db.entries h.increasing) sums h

  pub update_first-AllSound :
      KeepsSeq f
      → ((a : ℕ)
          → let p = settled_upto a (cursor_of (latest_snapshot a db)) in
            sum_where p (update_first q f db.entries) ≡ sum_where p db.entries)
      → AllSound db
      → AllSound (with_entries (update_first q f db.entries) db)
  update_first-AllSound keeps sums h =
      rows-AllSound (update_first q f db.entries) db
        (All-update_first q f keeps (λ n. n < db.next_seq) db.entries h.rows)
        (update_first-Increasing q f keeps db.entries h.increasing) sums h
