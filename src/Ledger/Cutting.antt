-- ===== src/Ledger/Cutting.antt =====
-- `maybe_snapshot` keeps every account's balance: it adds nothing, or one sound snapshot.
use wallet_ledger_assesment.Base.{
  ℕ, ◌≤◌, ◌<◌, ◌≡◌, refl, inl, inr, sym, ap, ◌∙◌, true, false, none, some, List, [], ◌∷◌, ◌++◌,
  arith, ltb, ◌==◌, Bool-cases, Option-cases, ==_iff,
}
use wallet_ledger_assesment.Base.Int.{ℤ, pos, ◌+ℤ◌, zero-+ℤ, +ℤ-zero}
use wallet_ledger_assesment.Base.Lists.{length, filter, get_last?, All}
use wallet_ledger_assesment.Domain.Errors.{ok, ok-injective}
use wallet_ledger_assesment.Store.{Db}
use wallet_ledger_assesment.Store.Models.{Account, LedgerEntry, BalanceSnapshot}
use wallet_ledger_assesment.Store.Sums.{counted, sum_where}
use wallet_ledger_assesment.Ledger.Sorting.{
  add_amounts-order, last_of_order_bounds, last_of_order_selected, last_of_order_among,
}
use wallet_ledger_assesment.Ledger.{
  latest_snapshot, base_of, cursor_of, settled_after, balance_amount, order_by_seq, add_snapshot,
  maybe_snapshot,
}
use wallet_ledger_assesment.Ledger.Snapshots.{
  settled, settled_upto, IsSound, balance_sum, All-upto_last, agree_on_rows, latest_from-append,
  later_wins,
}

-- What `maybe_snapshot` did: nothing, or it added a snapshot of the whole sum.
pub data Cut (a : ℕ) (db : Db) (db' : Db) : Type 0 where
  kept : db' ≡ db → Cut a db db'
  cut :
      (s : BalanceSnapshot)
      → db' ≡ record db { snapshots = db.snapshots ++ (s ∷ []) }
      → s.account_id ≡ a
      → s.balance
        ≡ base_of (latest_snapshot a db)
          +ℤ sum_where (settled_after a (cursor_of (latest_snapshot a db))) db.entries
      → All
          (λ e.
            settled_after a (cursor_of (latest_snapshot a db)) e ≡ true → e.seq ≤ s.last_entry_seq)
          db.entries
      → cursor_of (latest_snapshot a db) < s.last_entry_seq
      → ((n : ℕ) → All (λ e. e.seq < n) db.entries → s.last_entry_seq < n)
      → Cut a db db'

-- The new rows, as `maybe_snapshot` selects them.
abbrev new_rows : ℕ → Db → List LedgerEntry
new_rows a db =
    order_by_seq (filter (settled_after a (cursor_of (latest_snapshot a db))) db.entries)

selected_after : (a cursor : ℕ) (e : LedgerEntry) → settled_after a cursor e ≡ true → cursor < e.seq
selected_after a cursor e h = ground arith

add_snapshot-Cut :
    (a : ℕ) (db db' : Db) (l : LedgerEntry)
    → get_last? (new_rows a db) ≡ some l
    → add_snapshot a (latest_snapshot a db) (new_rows a db) (some l) db ≡ ok db'
    → Cut a db db'
unfolding add_snapshot
add_snapshot-Cut a db db' l last e =
    let cursor = cursor_of (latest_snapshot a db) in
    let p = settled_after a cursor in
    cut _ (sym (ok-injective e)) refl
      (ap (λ (t : ℤ). base_of (latest_snapshot a db) +ℤ t) (add_amounts-order p db.entries))
      (last_of_order_bounds p db.entries l last)
      (selected_after a cursor l (last_of_order_selected p db.entries l last))
      (λ n rows. last_of_order_among (λ x. x.seq < n) p db.entries l rows last)

no_last :
    (a : ℕ) (db : Db) (rows : List LedgerEntry) {db' : Db}
    → ¬ (add_snapshot a (latest_snapshot a db) rows none db ≡ ok db')
unfolding add_snapshot
no_last a db rows e = cc

pub maybe_snapshot-Cut :
    (threshold : ℕ) (account : Account) (db db' : Db)
    → maybe_snapshot threshold account db ≡ ok db'
    → Cut account.id db db'
unfolding maybe_snapshot
maybe_snapshot-Cut threshold account db db' e =
    elim (Bool-cases (ltb (length (new_rows account.id db)) threshold)) [
      | inl few ↦ kept (sym (ok-injective (rw few at e)))
      | inr many ↦ elim (Option-cases (get_last? (new_rows account.id db))) [
        | inl nothing ↦
            absurd (no_last account.id db (new_rows account.id db) (rw (many, nothing) at e))
        | inr (l, last) ↦ add_snapshot-Cut account.id db db' l last (rw (many, last) at e)
      ]
    ]

abbrev pub with_snapshot : BalanceSnapshot → Db → Db
with_snapshot s db = record db { snapshots = db.snapshots ++ (s ∷ []) }

latest-mine :
    (a : ℕ) (s : BalanceSnapshot) (db : Db)
    → s.account_id ≡ a
    → cursor_of (latest_snapshot a db) < s.last_entry_seq
    → latest_snapshot a (with_snapshot s db) ≡ some s
unfolding latest_snapshot
latest-mine a s db owner above =
    latest_from-append a db.snapshots s none
    ∙ rw ((==_iff s.account_id a).1 owner) (later_wins _ s above)

latest-other :
    (a b : ℕ) (s : BalanceSnapshot) (db : Db)
    → s.account_id ≡ a
    → (a == b) ≡ false
    → latest_snapshot b (with_snapshot s db) ≡ latest_snapshot b db
unfolding latest_snapshot
latest-other a b s db owner other = latest_from-append b db.snapshots s none ∙ rw (owner, other)

-- A sound account stays sound, whoever the cut was for.
cut-IsSound :
    (a : ℕ) (s : BalanceSnapshot) (db : Db)
    → s.balance
      ≡ base_of (latest_snapshot a db)
        +ℤ sum_where (settled_after a (cursor_of (latest_snapshot a db))) db.entries
    → All
        (λ e.
          settled_after a (cursor_of (latest_snapshot a db)) e ≡ true → e.seq ≤ s.last_entry_seq)
        db.entries
    → cursor_of (latest_snapshot a db) < s.last_entry_seq
    → IsSound a db
    → s.balance ≡ sum_where (settled_upto a s.last_entry_seq) db.entries
cut-IsSound a s db total top above sound =
    total
    ∙ balance_sum a db sound
    ∙ sym (
        agree_on_rows (settled_upto a s.last_entry_seq) (settled a) db.entries (
          All-upto_last a (cursor_of (latest_snapshot a db)) s.last_entry_seq db.entries above top))

pub Cut-IsSound : {a : ℕ} {db db' : Db} (b : ℕ) → Cut a db db' → IsSound b db → IsSound b db'
Cut-IsSound b (kept e) h = rw e h
Cut-IsSound {a} {db} {db'} b (cut s e owner total top above bound) h =
    rw e (elim (Bool-cases (a == b)) [
      | inl mine ↦
          let same : a ≡ b = (==_iff a b).0 mine in
          rw (latest-mine b s db (owner ∙ same) (rw same at above))
            (cut-IsSound b s db (rw same at total) (rw same at top) (rw same at above) h)
      | inr other ↦ rw (latest-other a b s db owner other) h
    ])

-- After the new cursor nothing is left to add.
nothing_after :
    (a cursor last : ℕ) (es : List LedgerEntry)
    → cursor < last
    → All (λ e. settled_after a cursor e ≡ true → e.seq ≤ last) es
    → sum_where (settled_after a last) es ≡ pos 0
nothing_after a cursor last [] h top = refl
nothing_after a cursor last (e ∷ es) h top =
    rw (not_after a cursor last e h top.0, nothing_after a cursor last es h top.1) (zero-+ℤ _)
  where
    not_after :
        (a cursor last : ℕ) (e : LedgerEntry)
        → cursor < last
        → (settled_after a cursor e ≡ true → e.seq ≤ last)
        → counted (settled_after a last) e ≡ pos 0
    not_after a cursor last e h top = ground (arith, top)

-- The balance that is computed from the snapshot and the delta is kept, sound or not.
pub Cut-balance :
    {a : ℕ} {db db' : Db} (b : ℕ) → Cut a db db' → balance_amount b db' ≡ balance_amount b db
Cut-balance b (kept e) = ap (balance_amount b) e
Cut-balance {a} {db} {db'} b (cut s e owner total top above bound) =
    rw e (elim (Bool-cases (a == b)) [
      | inl mine ↦
          let same : a ≡ b = (==_iff a b).0 mine in
          cut_balance b s db (owner ∙ same) (rw same at total) (rw same at top) (rw same at above)
      | inr other ↦ unfold balance_amount in rw (latest-other a b s db owner other)
    ])
  where
    cut_balance :
        (a : ℕ) (s : BalanceSnapshot) (db : Db)
        → s.account_id ≡ a
        → s.balance
          ≡ base_of (latest_snapshot a db)
            +ℤ sum_where (settled_after a (cursor_of (latest_snapshot a db))) db.entries
        → All
            (λ e.
              settled_after a (cursor_of (latest_snapshot a db)) e ≡ true
              → e.seq ≤ s.last_entry_seq)
            db.entries
        → cursor_of (latest_snapshot a db) < s.last_entry_seq
        → balance_amount a (with_snapshot s db) ≡ balance_amount a db
    cut_balance a s db owner total top above =
        unfold balance_amount in
        rw
          (
            latest-mine a s db owner above,
            nothing_after a (cursor_of (latest_snapshot a db)) s.last_entry_seq db.entries above
                top,
          )
          (+ℤ-zero _ ∙ total)

Cut-entries : {a : ℕ} {db db' : Db} → Cut a db db' → db'.entries ≡ db.entries
Cut-entries (kept e) = ap (λ (d : Db). d.entries) e
Cut-entries (cut s e _ _ _ _ _) = ap (λ (d : Db). d.entries) e

add_snapshot-ok :
    (a : ℕ) (db : Db) (rows : List LedgerEntry) (l : LedgerEntry)
    → (db' : Db) × (add_snapshot a (latest_snapshot a db) rows (some l) db ≡ ok db')
unfolding add_snapshot
add_snapshot-ok a db rows l = (_, refl)

last_none : (es : List LedgerEntry) → 0 < length es → ¬ (get_last? es ≡ none)
last_none [] h e = elim h [ ]
last_none (x ∷ []) h e = cc
last_none (x ∷ y ∷ ys) h e = last_none (y ∷ ys) (omega arith) e

some_rows : (n threshold : ℕ) → 0 < threshold → ltb n threshold ≡ false → 0 < n
some_rows n threshold h m = ground arith

pub maybe_snapshot-ok :
    (threshold : ℕ) (account : Account) (db : Db)
    → 0 < threshold
    → (db' : Db) × (maybe_snapshot threshold account db ≡ ok db')
unfolding maybe_snapshot
maybe_snapshot-ok threshold account db h =
    elim (Bool-cases (ltb (length (new_rows account.id db)) threshold)) [
      | inl few ↦ (db, rw few)
      | inr many ↦ elim (Option-cases (get_last? (new_rows account.id db))) [
        | inl nothing ↦
            absurd (last_none (new_rows account.id db) (some_rows _ threshold h many) nothing)
        | inr (l, last) ↦
            let (db', added) = add_snapshot-ok account.id db (new_rows account.id db) l in
            (db', rw (many, last) added)
      ]
    ]
