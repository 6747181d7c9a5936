-- ===== src/Ledger/Snapshots.antt =====
-- Snapshots do not change balances: as long as the latest snapshot of an account is sound, the
-- balance is the sum of all its settled entries, and cutting a snapshot keeps both.
use wallet_ledger_assesment.Base.{
  ℕ, ◌≤◌, ◌<◌, ◌≡◌, refl, ap, ◌∙◌, Bool, true, not, ◌&&◌, Option, none, some, List, [], ◌∷◌, ◌++◌,
  arith, ltb, ◌==◌, if◌then◌else◌,
}
use wallet_ledger_assesment.Base.Int.{ℤ, ◌+ℤ◌, +ℤ_comm}
use wallet_ledger_assesment.Base.Lists.{All}
use wallet_ledger_assesment.Domain.Enums.{is_success}
use wallet_ledger_assesment.Store.{Db}
use wallet_ledger_assesment.Store.Models.{LedgerEntry, BalanceSnapshot}
use wallet_ledger_assesment.Store.Sums.{sum_where, sum_where-agree, sum_where-split}
use wallet_ledger_assesment.Ledger.{
  later, latest_from, latest_snapshot, base_of, cursor_of, settled_after, balance_amount,
}

-- The independent description: every settled entry of the account, whatever its number.
abbrev pub settled : ℕ → LedgerEntry → Bool
settled account_id e = e.account_id == account_id && is_success e.status

abbrev pub settled_upto : ℕ → ℕ → LedgerEntry → Bool
settled_upto account_id cursor e = settled account_id e && not (ltb cursor e.seq)

abbrev pub full_balance : ℕ → Db → ℤ
full_balance account_id db = sum_where (settled account_id) db.entries

-- The latest snapshot of the account holds the sum of the settled entries up to its cursor.
abbrev pub IsSound : ℕ → Db → Type 0
IsSound account_id db =
    let snapshot = latest_snapshot account_id db in
    base_of snapshot ≡ sum_where (settled_upto account_id (cursor_of snapshot)) db.entries

-- A balance at a sound snapshot is the whole sum.
settled-split :
    (account_id cursor : ℕ) (es : List LedgerEntry)
    → sum_where (settled account_id) es
      ≡ sum_where (settled_after account_id cursor) es
        +ℤ sum_where (settled_upto account_id cursor) es
settled-split a cursor es =
    sum_where-split (settled a) (λ e. ltb cursor e.seq) es
    ∙ ap (λ (t : ℤ). t +ℤ sum_where (settled_upto a cursor) es)
        (sum_where-agree _ _ es (λ e. regroup (e.account_id == a) (is_success e.status) _))
  where
    regroup : (p q r : Bool) → ((p && q) && r) ≡ (p && (q && r))
    regroup p q r = ground arith

pub balance_sum :
    (a : ℕ) (db : Db)
    → IsSound a db
    → base_of (latest_snapshot a db)
        +ℤ sum_where (settled_after a (cursor_of (latest_snapshot a db))) db.entries
      ≡ full_balance a db
balance_sum a db h =
    rw (settled-split a (cursor_of (latest_snapshot a db)) db.entries, h) (+ℤ_comm _ _)

pub balance-eq-full :
    (account_id : ℕ) (db : Db)
    → IsSound account_id db
    → balance_amount account_id db ≡ full_balance account_id db
unfolding balance_amount
balance-eq-full = balance_sum

-- Agreement of two conditions on the rows at hand.
pub agree_on_rows :
    (p q : LedgerEntry → Bool) (es : List LedgerEntry)
    → All (λ e. p e ≡ q e) es
    → sum_where p es ≡ sum_where q es
agree_on_rows p q [] h = refl
agree_on_rows p q (e ∷ es) h = rw (h.0, agree_on_rows p q es h.1)

-- With a bound on every settled row after the old cursor, all settled rows lie up to the new one.
upto_last :
    (a cursor last : ℕ) (e : LedgerEntry)
    → cursor < last
    → (settled_after a cursor e ≡ true → e.seq ≤ last)
    → settled_upto a last e ≡ settled a e
upto_last a cursor last e h bound = ground (arith, bound)

pub All-upto_last :
    (a cursor last : ℕ) (es : List LedgerEntry)
    → cursor < last
    → All (λ e. settled_after a cursor e ≡ true → e.seq ≤ last) es
    → All (λ e. settled_upto a last e ≡ settled a e) es
All-upto_last a cursor last [] h b = tt
All-upto_last a cursor last (e ∷ es) h b =
    (upto_last a cursor last e h b.0, All-upto_last a cursor last es h b.1)

-- The latest snapshot of each account after one more row.
pub latest_from-append :
    (a : ℕ) (ss : List BalanceSnapshot) (s : BalanceSnapshot) (best : Option BalanceSnapshot)
    → latest_from a (ss ++ (s ∷ [])) best
      ≡ (if s.account_id == a then later (latest_from a ss best) s else latest_from a ss best)
latest_from-append a [] s best = ground arith
latest_from-append a (x ∷ ss) s best = latest_from-append a ss s _

pub later_wins :
    (best : Option BalanceSnapshot) (s : BalanceSnapshot)
    → cursor_of best < s.last_entry_seq
    → later best s ≡ some s
later_wins none s h = refl
later_wins (some t) s h = ground arith

-- Numbers grow along the table, so a number stands for one row.
abbrev pub Increasing : List LedgerEntry → Type 0
Increasing [] = Unit
Increasing (e ∷ es) = All (λ x. e.seq < x.seq) es × Increasing es

-- Every account's latest snapshot is sound, and rows and cursors stay below the next number.
pub record AllSound (db : Db) : Type 0 where
  pub at : (a : ℕ) → IsSound a db
  pub started : 0 < db.next_seq
  pub rows : All (λ e. e.seq < db.next_seq) db.entries
  pub increasing : Increasing db.entries
  pub cursors : All (λ s. s.last_entry_seq < db.next_seq) db.snapshots
