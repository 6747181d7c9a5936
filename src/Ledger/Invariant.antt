-- ===== src/Ledger/Invariant.antt =====
-- The invariant of the ledger, double entry over all settled rows beside sound snapshots, and what
-- posting and cutting snapshots do to it and to each account's balance.
use wallet_ledger_assesment.Base.{
  ℕ, ◌<◌, ◌≡◌, refl, sym, ap, ◌∙◌, List, [], ◌∷◌, map, arith, ◌==◌, if◌then◌else◌,
}
use wallet_ledger_assesment.Base.Int.{ℤ, pos, ◌+ℤ◌, zero-+ℤ, +ℤ-zero}
use wallet_ledger_assesment.Base.Lists.{All}
use wallet_ledger_assesment.Domain.Errors.{ok, ok-injective}
use wallet_ledger_assesment.Domain.Aggregates.{PostingLine, TransactionAggregate}
use wallet_ledger_assesment.Store.{Db}
use wallet_ledger_assesment.Store.Models.{Account, LedgerEntry}
use wallet_ledger_assesment.Store.Sums.{counted, sum_where, sum_where-append}
use wallet_ledger_assesment.Ledger.{entry_of_line, post, reserved_debit, snapshot_all}
use wallet_ledger_assesment.Ledger.Snapshots.{settled, full_balance, AllSound}
use wallet_ledger_assesment.Ledger.Keeping.{SameRows, snapshot_all-keeps}
use wallet_ledger_assesment.Ledger.Numbering.{
  numbered, add_entries-entries, add_entries-AllSound, latest_snapshot-same,
}
use wallet_ledger_assesment.Ledger.Posting.{
  IsBalanced, IsSettled, rows-IsRow, post-ok, post-IsBalanced,
}

-- Snapshots are sound, and settled rows sum to zero in every currency.
pub record IsValid (db : Db) : Type 0 where
  pub snapshots : AllSound db
  pub double_entry : IsBalanced db

-- The reserved debits of an account, and what it may still spend.
abbrev pub reserved : ℕ → Db → ℤ
reserved a db = sum_where (reserved_debit a) db.entries

abbrev pub available : ℕ → Db → ℤ
available a db = full_balance a db +ℤ reserved a db

-- A step that leaves the rows, the snapshots and the counter alone leaves the ledger alone.
pub record SameLedger (db db' : Db) : Type 0 where
  pub entries : db'.entries ≡ db.entries
  pub snapshots : db'.snapshots ≡ db.snapshots
  pub next_seq : db'.next_seq ≡ db.next_seq

pub SameLedger-refl : (db : Db) → SameLedger db db
SameLedger-refl db = record { entries = refl; snapshots = refl; next_seq = refl }

pub SameLedger-trans : {a b c : Db} → SameLedger a b → SameLedger b c → SameLedger a c
SameLedger-trans p q = record {
  entries = q.entries ∙ p.entries;
  snapshots = q.snapshots ∙ p.snapshots;
  next_seq = q.next_seq ∙ p.next_seq;
}

pub SameLedger-AllSound : {db db' : Db} → SameLedger db db' → AllSound db → AllSound db'
SameLedger-AllSound {db} {db'} s h = record {
  at = λ a. rw (latest_snapshot-same a db db' s.snapshots, s.entries) (h.at a);
  started = rw s.next_seq h.started;
  rows = rw (s.next_seq, s.entries) h.rows;
  increasing = rw s.entries h.increasing;
  cursors = rw (s.next_seq, s.snapshots) h.cursors;
}

pub entries-IsBalanced : {db db' : Db} → db'.entries ≡ db.entries → IsBalanced db → IsBalanced db'
entries-IsBalanced e h = record { at = λ c. rw e (h.at c) }

pub SameLedger-IsValid : {db db' : Db} → SameLedger db db' → IsValid db → IsValid db'
SameLedger-IsValid s v = record {
  snapshots = SameLedger-AllSound s v.snapshots;
  double_entry = entries-IsBalanced s.entries v.double_entry;
}

-- A post of settled lines keeps the invariant.
pub post-IsValid :
    (t : TransactionAggregate) (id : ℕ) (db db' : Db)
    → All IsSettled t.lines
    → post t id db ≡ ok db'
    → IsValid db
    → IsValid db'
post-IsValid t id db db' settled_lines e v = record {
  snapshots =
      rw (post-ok t id db db' e).0 (add_entries-AllSound _ db (rows-IsRow id t.lines) v.snapshots);
  double_entry = post-IsBalanced t id db db' settled_lines e v.double_entry;
}

-- The lines of an account.
abbrev pub account_total : ℕ → List PostingLine → ℤ
account_total a [] = pos 0
account_total a (l ∷ ls) = (if l.account_id == a then l.amount else pos 0) +ℤ account_total a ls

counted-settled :
    (a id n : ℕ) (l : PostingLine)
    → IsSettled l
    → counted (settled a) (entry_of_line id l n) ≡ (if l.account_id == a then l.amount else pos 0)
counted-settled a id n l h = rw h (ground arith)

counted-reserved :
    (a id n : ℕ) (l : PostingLine)
    → IsSettled l
    → counted (reserved_debit a) (entry_of_line id l n) ≡ pos 0
counted-reserved a id n l h = rw h (ground arith)

rows-account_total :
    (a id : ℕ) (lines : List PostingLine) (n : ℕ)
    → All IsSettled lines
    → sum_where (settled a) (numbered (map (entry_of_line id) lines) n) ≡ account_total a lines
rows-account_total a id [] n h = refl
rows-account_total a id (l ∷ ls) n h =
    rw (rows-account_total a id ls (ℕ.suc n) h.1, counted-settled a id n l h.0)

rows-reserved :
    (a id : ℕ) (lines : List PostingLine) (n : ℕ)
    → All IsSettled lines
    → sum_where (reserved_debit a) (numbered (map (entry_of_line id) lines) n) ≡ pos 0
rows-reserved a id [] n h = refl
rows-reserved a id (l ∷ ls) n h =
    rw (rows-reserved a id ls (ℕ.suc n) h.1, counted-reserved a id n l h.0) (zero-+ℤ _)

-- What a post of settled lines does to an account.
pub post-full_balance :
    (t : TransactionAggregate) (id a : ℕ) (db db' : Db)
    → All IsSettled t.lines
    → post t id db ≡ ok db'
    → (full_balance a db' ≡ full_balance a db +ℤ account_total a t.lines)
      × (reserved a db' ≡ reserved a db)
post-full_balance t id a db db' h e =
    let is = (post-ok t id db db' e).0 in
    (
      rw (
        is,
        add_entries-entries (map (entry_of_line id) t.lines) db,
        sum_where-append,
        rows-account_total a id t.lines db.next_seq h,
      ),
      rw
          (
            is,
            add_entries-entries (map (entry_of_line id) t.lines) db,
            sum_where-append,
            rows-reserved a id t.lines db.next_seq h,
          )
          (+ℤ-zero _),
    )

-- Cutting snapshots changes nothing that is said here.
pub snapshot_all-IsValid :
    (threshold : ℕ) (accounts : List Account) (db db' : Db)
    → 0 < threshold
    → snapshot_all threshold accounts db ≡ ok db'
    → IsValid db
    → IsValid db' × SameRows db db'
snapshot_all-IsValid threshold accounts db db' positive e v =
    let (db1, e1, sound, same) = snapshot_all-keeps threshold accounts db positive v.snapshots in
    let is : db1 ≡ db' = ok-injective (sym e1 ∙ e) in
    rw is at (
      let r : IsValid db1 × SameRows db db1 = (
        record { snapshots = sound; double_entry = entries-IsBalanced same.entries v.double_entry },
        same,
      ) in
      r)

-- What a service has done that added a transaction, posted its lines and cut snapshots.
pub record Posted (lines : List PostingLine) (db db' : Db) : Type 0 where
  pub valid : IsValid db'
  pub balances : (a : ℕ) → full_balance a db' ≡ full_balance a db +ℤ account_total a lines
  pub reservations : (a : ℕ) → reserved a db' ≡ reserved a db

-- The lines are posted, the state may be marked in tables beside the ledger, and a last step keeps
-- the invariant and every row.
pub Posted-of :
    (t : TransactionAggregate) (id : ℕ) (db db2 db3 marked db4 : Db)
    → All IsSettled t.lines
    → IsValid db
    → SameLedger db db2
    → post t id db2 ≡ ok db3
    → SameLedger db3 marked
    → (IsValid marked → IsValid db4 × SameRows marked db4)
    → Posted t.lines db db4
Posted-of t id db db2 db3 marked db4 is v same posted marking last =
    let v3 = post-IsValid t id db2 db3 is posted (SameLedger-IsValid same v) in
    let (v4, rows) = last (SameLedger-IsValid marking v3) in
    let entries : db4.entries ≡ db3.entries = rows.entries ∙ marking.entries in
    record {
      valid = v4;
      balances = λ a.
          ap (sum_where (settled a)) entries
          ∙ (post-full_balance t id a db2 db3 is posted).0
          ∙ ap (λ (es : List LedgerEntry). sum_where (settled a) es +ℤ account_total a t.lines)
              same.entries;
      reservations = λ a.
          ap (sum_where (reserved_debit a)) entries
          ∙ (post-full_balance t id a db2 db3 is posted).1
          ∙ ap (sum_where (reserved_debit a)) same.entries;
    }

pub post-snapshot_all-Posted :
    (threshold : ℕ) (t : TransactionAggregate) (id : ℕ) (accounts : List Account)
    (db db2 db3 marked db4 : Db)
    → 0 < threshold
    → All IsSettled t.lines
    → IsValid db
    → SameLedger db db2
    → post t id db2 ≡ ok db3
    → SameLedger db3 marked
    → snapshot_all threshold accounts marked ≡ ok db4
    → Posted t.lines db db4
post-snapshot_all-Posted threshold t id accounts db db2 db3 marked db4 positive is v same posted
      marking cut =
    Posted-of t id db db2 db3 marked db4 is v same posted marking
      (snapshot_all-IsValid threshold accounts marked db4 positive cut)
