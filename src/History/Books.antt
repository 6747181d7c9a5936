-- ===== src/History/Books.antt =====
-- The state of the books: double entry, rows in the order of their numbers, and rows that are signed
-- and rounded as debits and credits of their currency. What is said here needs no snapshot to be
-- sound.
use wallet_ledger_assesment.Base.{
  ℕ, suc, ◌<◌, ◌≡◌, refl, inl, inr, Bool, List, [], ◌∷◌, map, arith, Bool-cases,
}
use wallet_ledger_assesment.Base.Lists.{All, All-append, All-imp, update}
use wallet_ledger_assesment.Domain.Errors.{ok}
use wallet_ledger_assesment.Domain.Aggregates.{PostingLine, TransactionAggregate}
use wallet_ledger_assesment.Store.{Db, add_entry, add_entries, update_first}
use wallet_ledger_assesment.Store.Models.{LedgerEntry}
use wallet_ledger_assesment.Ledger.{entry_of_line, post}
use wallet_ledger_assesment.Ledger.Snapshots.{Increasing}
use wallet_ledger_assesment.Ledger.Numbering.{IsRow, Increasing-append}
use wallet_ledger_assesment.Ledger.Posting.{IsBalanced, IsSettled, post-ok, post-IsBalanced}
use wallet_ledger_assesment.Ledger.Updates.{
  KeepsSeq, All-update, update-Increasing, All-update_first, update_first-Increasing,
}
use wallet_ledger_assesment.Ledger.Invariant.{entries-IsBalanced}
use wallet_ledger_assesment.Reversals.Mirroring.{IsProper}

pub record IsOrdered (db : Db) : Type 0 where
  pub rows : All (λ e. e.seq < db.next_seq) db.entries
  pub increasing : Increasing db.entries
  pub proper : All IsProper db.entries

pub record IsBooked (db : Db) : Type 0 where
  pub double_entry : IsBalanced db
  pub ordered : IsOrdered db

pub IsOrdered-same :
    (db db' : Db)
    → db'.entries ≡ db.entries
    → db'.next_seq ≡ db.next_seq
    → IsOrdered db
    → IsOrdered db'
IsOrdered-same db db' e n o = record {
  rows = rw (e, n) o.rows;
  increasing = rw e o.increasing;
  proper = rw e o.proper;
}

pub IsBooked-same :
    (db db' : Db)
    → db'.entries ≡ db.entries
    → db'.next_seq ≡ db.next_seq
    → IsBooked db
    → IsBooked db'
IsBooked-same db db' e n b = record {
  double_entry = entries-IsBalanced e b.double_entry;
  ordered = IsOrdered-same db db' e n b.ordered;
}

-- A builder of rows that puts its number into the row, which is proper.
abbrev pub Builds : (ℕ → LedgerEntry) → Type 0
Builds e = IsRow e × ((n : ℕ) → IsProper (e n))

pub add_entry-IsOrdered :
    (e : ℕ → LedgerEntry) (db : Db) → Builds e → IsOrdered db → IsOrdered (add_entry e db)
add_entry-IsOrdered e db (r, p) o = record {
  rows =
      All-append (λ x. x.seq < suc db.next_seq) db.entries (e db.next_seq ∷ [])
        (All-imp _ (λ x. x.seq < suc db.next_seq) db.entries
          (λ x (k : x.seq < db.next_seq). omega arith) o.rows)
        (rw (r db.next_seq) (omega arith), tt);
  increasing =
      Increasing-append db.entries (e db.next_seq) (rw (r db.next_seq) o.rows) o.increasing;
  proper = All-append IsProper db.entries (e db.next_seq ∷ []) o.proper (p db.next_seq, tt);
}

pub add_entries-IsOrdered :
    (es : List (ℕ → LedgerEntry)) (db : Db)
    → All Builds es
    → IsOrdered db
    → IsOrdered (add_entries es db)
add_entries-IsOrdered [] db b o = o
add_entries-IsOrdered (e ∷ es) db b o =
    add_entries-IsOrdered es (add_entry e db) b.1 (add_entry-IsOrdered e db b.0 o)

module _ (q : LedgerEntry → Bool) (f : LedgerEntry → LedgerEntry) (keeps : KeepsSeq f)
    (keeps_proper : (e : LedgerEntry) → IsProper e → IsProper (f e)) where
  update-IsProper : (es : List LedgerEntry) → All IsProper es → All IsProper (update q f es)
  update-IsProper [] h = tt
  update-IsProper (e ∷ es) h = elim (Bool-cases (q e)) [
    | inl t ↦ rw t (keeps_proper e h.0, update-IsProper es h.1)
    | inr n ↦ rw n (h.0, update-IsProper es h.1)
  ]

  update_first-IsProper :
      (es : List LedgerEntry) → All IsProper es → All IsProper (update_first q f es)
  update_first-IsProper [] h = tt
  update_first-IsProper (e ∷ es) h = elim (Bool-cases (q e)) [
    | inl t ↦ rw t (keeps_proper e h.0, h.1)
    | inr n ↦ rw n (h.0, update_first-IsProper es h.1)
  ]

  pub update-IsOrdered :
      (db : Db) → IsOrdered db → IsOrdered (record db { entries = update q f db.entries })
  update-IsOrdered db o = record {
    rows = All-update q f keeps (λ n. n < db.next_seq) db.entries o.rows;
    increasing = update-Increasing q f keeps db.entries o.increasing;
    proper = update-IsProper db.entries o.proper;
  }

  pub update_first-IsOrdered :
      (db : Db) → IsOrdered db → IsOrdered (record db { entries = update_first q f db.entries })
  update_first-IsOrdered db o = record {
    rows = All-update_first q f keeps (λ n. n < db.next_seq) db.entries o.rows;
    increasing = update_first-Increasing q f keeps db.entries o.increasing;
    proper = update_first-IsProper db.entries o.proper;
  }

-- Status and number do not matter to whether a row is proper.
pub IsProper-restated :
    (e e' : LedgerEntry)
    → e'.amount ≡ e.amount
    → e'.entry_type ≡ e.entry_type
    → e'.currency ≡ e.currency
    → IsProper e
    → IsProper e'
IsProper-restated e e' a t c p = record { sign = rw (a, t) p.sign; exact = rw (a, c) p.exact }

-- A line whose rows are proper.
abbrev pub IsProperLine : PostingLine → Type 0
IsProperLine l = IsProper (entry_of_line 0 l 0)

pub lines-Builds :
    (id : ℕ) (lines : List PostingLine)
    → All IsProperLine lines
    → All Builds (map (entry_of_line id) lines)
lines-Builds id [] h = tt
lines-Builds id (l ∷ ls) h = (
  (
    λ n. refl,
    λ n. IsProper-restated (entry_of_line 0 l 0) (entry_of_line id l n) refl refl refl h.0,
  ),
  lines-Builds id ls h.1,
)

pub post-IsBooked :
    (t : TransactionAggregate) (id : ℕ) (db db' : Db)
    → All IsSettled t.lines
    → All IsProperLine t.lines
    → post t id db ≡ ok db'
    → IsBooked db
    → IsBooked db'
post-IsBooked t id db db' settled_lines proper e b = record {
  double_entry = post-IsBalanced t id db db' settled_lines e b.double_entry;
  ordered = rw (post-ok t id db db' e).0 (
      add_entries-IsOrdered (map (entry_of_line id) t.lines) db (lines-Builds id t.lines proper)
        b.ordered);
}
