-- ===== src/Ledger/Numbering.antt =====
-- New rows are numbered after all that are there, so adding them keeps every snapshot sound.
use mathlib.Core.Option.{some-injective}
use mathlib.Core.List.{append-nil, append_assoc}
use wallet_ledger_assesment.Base.{
  ℕ, suc, ◌<◌, ◌≡◌, refl, inl, inr, sym, ap, ◌∙◌, Bool, Option, none, some, List, [], ◌∷◌, ◌++◌,
  arith, ◌==◌, Bool-cases, ==-refl, ==-false, if◌then◌else◌,
}
use wallet_ledger_assesment.Base.Int.{pos, zero-+ℤ, +ℤ-zero}
use wallet_ledger_assesment.Base.Lists.{find, All, All-append, All-imp, All-find}
use wallet_ledger_assesment.Store.{Db, add_entry, add_entries}
use wallet_ledger_assesment.Store.Models.{LedgerEntry, BalanceSnapshot}
use wallet_ledger_assesment.Store.Sums.{counted, sum_where, sum_where-append}
use wallet_ledger_assesment.Ledger.{later, latest_from, latest_snapshot, cursor_of}
use wallet_ledger_assesment.Ledger.Snapshots.{settled_upto, IsSound, AllSound, Increasing}

-- The rows that a list of new entries becomes.
abbrev pub numbered : List (ℕ → LedgerEntry) → ℕ → List LedgerEntry
numbered [] n = []
numbered (e ∷ es) n = e n ∷ numbered es (suc n)

pub add_entries-entries :
    (es : List (ℕ → LedgerEntry)) (db : Db)
    → (add_entries es db).entries ≡ db.entries ++ numbered es db.next_seq
add_entries-entries [] db = sym (append-nil _)
add_entries-entries (e ∷ es) db =
    add_entries-entries es (add_entry e db)
    ∙ append_assoc db.entries (e db.next_seq ∷ []) (numbered es (suc db.next_seq))

pub add_entries-snapshots :
    (es : List (ℕ → LedgerEntry)) (db : Db) → (add_entries es db).snapshots ≡ db.snapshots
add_entries-snapshots [] db = refl
add_entries-snapshots (e ∷ es) db = add_entries-snapshots es (add_entry e db)

pub add_entries-transactions :
    (es : List (ℕ → LedgerEntry)) (db : Db) → (add_entries es db).transactions ≡ db.transactions
add_entries-transactions [] db = refl
add_entries-transactions (e ∷ es) db = add_entries-transactions es (add_entry e db)

-- A builder puts the number that it is given into the row.
abbrev pub IsRow : (ℕ → LedgerEntry) → Type 0
IsRow e = (n : ℕ) → (e n).seq ≡ n

module _ (n : ℕ) (a : ℕ) where
  cursor-latest_from :
      (ss : List BalanceSnapshot) (best : Option BalanceSnapshot)
      → All (λ s. s.last_entry_seq < n) ss
      → cursor_of best < n
      → cursor_of (latest_from a ss best) < n
  cursor-latest_from [] best h b = b
  cursor-latest_from (s ∷ ss) best h b = cursor-latest_from ss _ h.1 (pick s best h.0 b)
    where
      pick :
          (s : BalanceSnapshot) (best : Option BalanceSnapshot)
          → s.last_entry_seq < n
          → cursor_of best < n
          → cursor_of (if s.account_id == a then later best s else best) < n
      pick s none h b = ground arith
      pick s (some t) h b = ground arith

pub cursor-lt-next_seq :
    (a : ℕ) (db : Db) → AllSound db → cursor_of (latest_snapshot a db) < db.next_seq
unfolding latest_snapshot
cursor-lt-next_seq a db h = cursor-latest_from db.next_seq a db.snapshots none h.cursors h.started

-- Rows that are numbered from `n` on are not counted up to a cursor below `n`.
numbered_beyond :
    (a cursor n : ℕ) (es : List (ℕ → LedgerEntry))
    → All IsRow es
    → cursor < n
    → sum_where (settled_upto a cursor) (numbered es n) ≡ pos 0
numbered_beyond a cursor n [] r h = refl
numbered_beyond a cursor n (e ∷ es) r h =
    rw (beyond a cursor (e n) (rw (r.0 n) h), numbered_beyond a cursor (suc n) es r.1 (omega arith))
      (zero-+ℤ _)
  where
    beyond :
        (a cursor : ℕ) (e : LedgerEntry)
        → cursor < e.seq
        → counted (settled_upto a cursor) e ≡ pos 0
    beyond a cursor e h = ground arith

pub latest_snapshot-same :
    (a : ℕ) (db db' : Db)
    → db'.snapshots ≡ db.snapshots
    → latest_snapshot a db' ≡ latest_snapshot a db
unfolding latest_snapshot
latest_snapshot-same a db db' e = ap (λ (ss : List BalanceSnapshot). latest_from a ss none) e

pub add_entries-IsSound :
    (a : ℕ) (es : List (ℕ → LedgerEntry)) (db : Db)
    → All IsRow es
    → AllSound db
    → IsSound a db
    → IsSound a (add_entries es db)
add_entries-IsSound a es db r n h =
    let latest = latest_snapshot-same a db (add_entries es db) (add_entries-snapshots es db) in
    rw (latest, add_entries-entries es db, sum_where-append)
      (rw
        (numbered_beyond a (cursor_of (latest_snapshot a db)) db.next_seq es r
          (cursor-lt-next_seq a db n))
        (h ∙ sym (+ℤ-zero _)))

pub Increasing-append :
    (es : List LedgerEntry) (e : LedgerEntry)
    → All (λ x. x.seq < e.seq) es
    → Increasing es
    → Increasing (es ++ (e ∷ []))
Increasing-append [] e h i = (tt, tt)
Increasing-append (x ∷ xs) e h i =
    (All-append (λ y. x.seq < y.seq) xs (e ∷ []) i.0 (h.0, tt), Increasing-append xs e h.1 i.1)

-- The row that a query found is the one with its number.
pub find-by_seq :
    (q : LedgerEntry → Bool) (es : List LedgerEntry) (d : LedgerEntry)
    → Increasing es
    → find q es ≡ some d
    → find (λ e. e.seq == d.seq) es ≡ some d
find-by_seq q [] d i h = cc
find-by_seq q (x ∷ xs) d i h = elim (Bool-cases (q x)) [
  | inl t ↦ let same : x ≡ d = some-injective _ _ (rw t at h) in rw (same, ==-refl d.seq)
  | inr f ↦
      let h' : find q xs ≡ some d = rw f at h in
      let apart : x.seq < d.seq = All-find (λ y. x.seq < y.seq) q xs d i.0 h' in
      rw (==-false x.seq d.seq apart) (find-by_seq q xs d i.1 h')
]

-- The numbers after one row is in.
add_entry-AllSound :
    (e : ℕ → LedgerEntry) (db : Db) → IsRow e → AllSound db → AllSound (add_entry e db)
add_entry-AllSound e db r h = record {
  at = λ a. add_entries-IsSound a (e ∷ []) db (r, tt) h (h.at a);
  started = omega arith;
  rows =
      All-append (λ x. x.seq < suc db.next_seq) db.entries (e db.next_seq ∷ [])
        (All-imp _ (λ x. x.seq < suc db.next_seq) db.entries
          (λ x (k : x.seq < db.next_seq). omega arith) h.rows)
        (rw (r db.next_seq) (omega arith), tt);
  increasing =
      Increasing-append db.entries (e db.next_seq) (rw (r db.next_seq) h.rows) h.increasing;
  cursors =
      All-imp _ (λ x. x.last_entry_seq < suc db.next_seq) db.snapshots
        (λ x (k : x.last_entry_seq < db.next_seq). omega arith) h.cursors;
}

pub add_entries-AllSound :
    (es : List (ℕ → LedgerEntry)) (db : Db)
    → All IsRow es
    → AllSound db
    → AllSound (add_entries es db)
add_entries-AllSound [] db r h = h
add_entries-AllSound (e ∷ es) db r h =
    add_entries-AllSound es (add_entry e db) r.1 (add_entry-AllSound e db r.0 h)
