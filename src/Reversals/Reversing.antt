-- ===== src/Reversals/Reversing.antt =====
-- `reverse` as a whole.
use wallet_ledger_assesment.Base.{
  ℕ, ◌≡◌, ◌≢◌, refl, sym, ap, ◌∙◌, Option, none, some, List, [], ◌∷◌, arith, ◌==◌, ==_iff, subst,
}
use wallet_ledger_assesment.Base.Int.{ℤ, ◌+ℤ◌, neg, zero-+ℤ}
use wallet_ledger_assesment.Base.Lists.{All, find, find-holds, find-append, filter}
use wallet_ledger_assesment.Domain.Enums.{TransactionStatus}
use wallet_ledger_assesment.Domain.Errors.{
  ok, err, ok-injective, >>=-eq-ok, invalid_transaction_state,
}
use wallet_ledger_assesment.Domain.Aggregates.{new_aggregate}
use wallet_ledger_assesment.Store.{Db, get_transaction, set_transaction_status}
use wallet_ledger_assesment.Store.Models.{Transaction, LedgerEntry}
use wallet_ledger_assesment.Store.Sums.{sum_where}
use wallet_ledger_assesment.Ledger.{post, maybe_snapshot}
use wallet_ledger_assesment.Ledger.Snapshots.{full_balance}
use wallet_ledger_assesment.Ledger.Keeping.{
  SameRows, SameRows-refl, SameRows-trans, Cut-SameRows, maybe_snapshot-AllSound,
}
use wallet_ledger_assesment.Ledger.Cutting.{maybe_snapshot-Cut}
use wallet_ledger_assesment.Ledger.Posting.{post-transactions, post-accounts}
use wallet_ledger_assesment.Ledger.Invariant.{
  IsValid, SameLedger, SameLedger-IsValid, post-IsValid, reserved, entries-IsBalanced, Posted-of,
}
use wallet_ledger_assesment.Accounts
use wallet_ledger_assesment.Transfers.{or_fresh}
use wallet_ledger_assesment.Transfers.Status.{set_transaction_status-found}
use wallet_ledger_assesment.Reversals.{
  check_reversible, reversible_transaction, is_original, account_ids, lock_all, mirror_rows,
  snapshot_ids, new_reversal, reverse,
}
use wallet_ledger_assesment.Reversals.Mirroring.{
  IsProper, of_account, mirror_rows-account_total, mirror_rows-IsSettled,
}

pub snapshot_ids-IsValid :
    (threshold : ℕ) (is : List ℕ) (db db' : Db)
    → snapshot_ids threshold is db ≡ ok db'
    → IsValid db
    → IsValid db' × SameRows db db'
unfolding snapshot_ids
snapshot_ids-IsValid threshold [] db db' e v = rw (← ok-injective e) (v, SameRows-refl db)
snapshot_ids-IsValid threshold (i ∷ is) db db' e v =
    let (account, e1, r1) = >>=-eq-ok (Accounts.get i db) _ e in
    let (db1, e2, r2) = >>=-eq-ok (maybe_snapshot threshold account db) _ r1 in
    let (sound, same) = maybe_snapshot-AllSound threshold account db db1 v.snapshots e2 in
    let v1 : IsValid db1 = record {
      snapshots = sound;
      double_entry = entries-IsBalanced same.entries v.double_entry;
    } in
    let (v', same') = snapshot_ids-IsValid threshold is db1 db' r2 v1 in
    (v', SameRows-trans same same')

pub snapshot_ids-SameRows :
    (threshold : ℕ) (is : List ℕ) (db db' : Db)
    → snapshot_ids threshold is db ≡ ok db'
    → SameRows db db'
unfolding snapshot_ids
snapshot_ids-SameRows threshold [] db db' e = rw (← ok-injective e) (SameRows-refl db)
snapshot_ids-SameRows threshold (i ∷ is) db db' e =
    let (account, e1, r1) = >>=-eq-ok (Accounts.get i db) _ e in
    let (db1, e2, r2) = >>=-eq-ok (maybe_snapshot threshold account db) _ r1 in
    SameRows-trans (Cut-SameRows (maybe_snapshot-Cut threshold account db db1 e2))
      (snapshot_ids-SameRows threshold is db1 db' r2)

pub check_reversible-ok :
    (o : Option Transaction) (t : Transaction)
    → check_reversible o ≡ ok t
    → (o ≡ some t) × (t.status ≡ TransactionStatus.success)
check_reversible-ok none t e = cc
check_reversible-ok (some x) t e = ground arith

check_reversible-closed :
    (t : Transaction)
    → t.status ≢ TransactionStatus.success
    → check_reversible (some t) ≡ err invalid_transaction_state
check_reversible-closed t h = ground arith

-- The settled rows of a transaction.
abbrev pub originals : ℕ → Db → List LedgerEntry
originals id db = filter (is_original id) db.entries

-- Every account has given back what the rows of the transaction had brought it, the transaction is
-- marked, and the table of accounts is as it was.
pub record Reversed (id : ℕ) (t : Transaction) (db db' : Db) : Type 0 where
  pub valid : IsValid db'
  pub balances :
      (a : ℕ)
      → full_balance a db' ≡ full_balance a db +ℤ neg (sum_where (of_account a) (originals id db))
  pub reservations : (a : ℕ) → reserved a db' ≡ reserved a db
  pub marked : get_transaction id db' ≡ some (record t { status = TransactionStatus.reversed })
  pub accounts_kept : db'.accounts ≡ db.accounts

pub new_reversal-SameLedger :
    (t : Transaction) (c : Option ℕ) (db : Db)
    → let (correlation, db1) = or_fresh c db in SameLedger db (new_reversal t correlation db1).1
unfolding new_reversal
new_reversal-SameLedger t none db = record { entries = refl; snapshots = refl; next_seq = refl }
new_reversal-SameLedger t (some c) db = record { entries = refl; snapshots = refl; next_seq = refl }

new_reversal-accounts :
    (t : Transaction) (c : Option ℕ) (db : Db)
    → let (correlation, db1) = or_fresh c db in
      (new_reversal t correlation db1).1.accounts ≡ db.accounts
unfolding new_reversal
new_reversal-accounts t none db = refl
new_reversal-accounts t (some c) db = refl

pub new_reversal-found :
    (id : ℕ) (t x : Transaction) (c : Option ℕ) (db : Db)
    → get_transaction id db ≡ some x
    → let (correlation, db1) = or_fresh c db in
      get_transaction id (new_reversal t correlation db1).1 ≡ some x
unfolding new_reversal
new_reversal-found id t x none db found = find-append (λ y. y.id == id) db.transactions _ x found
new_reversal-found id t x (some c) db found =
    find-append (λ y. y.id == id) db.transactions _ x found

steps-Reversed :
    (threshold : ℕ) (t : Transaction) (c : Option ℕ) (db db3 db5 : Db)
    → IsValid db
    → get_transaction t.id db ≡ some t
    → All IsProper (originals t.id db)
    → let (correlation, db1) = or_fresh c db in
      let (reversal, db2) = new_reversal t correlation db1 in
      post (mirror_rows (originals t.id db) (new_aggregate t.currency)) reversal.id db2 ≡ ok db3
      → snapshot_ids threshold
          (account_ids (originals t.id db))
          (set_transaction_status t.id TransactionStatus.reversed db3)
        ≡ ok db5
      → Reversed t.id t db db5
steps-Reversed threshold t c db db3 db5 v found proper posted cut =
    let (correlation, db1) = or_fresh c db in
    let (reversal, db2) = new_reversal t correlation db1 in
    let lines = mirror_rows (originals t.id db) (new_aggregate t.currency) in
    let db4 = set_transaction_status t.id TransactionStatus.reversed db3 in
    let last = snapshot_ids-IsValid threshold (account_ids (originals t.id db)) db4 db5 cut in
    let p =
      Posted-of lines reversal.id db db2 db3 db4 db5
        (mirror_rows-IsSettled (originals t.id db) (new_aggregate t.currency) tt) v
        (new_reversal-SameLedger t c db) posted
        (record { entries = refl; snapshots = refl; next_seq = refl }) last in
    let v3 : IsValid db3 =
      post-IsValid lines reversal.id db2 db3
        (mirror_rows-IsSettled (originals t.id db) (new_aggregate t.currency) tt) posted
        (SameLedger-IsValid (new_reversal-SameLedger t c db) v) in
    let v4 : IsValid db4 =
      SameLedger-IsValid (record { entries = refl; snapshots = refl; next_seq = refl }) v3 in
    record {
      valid = p.valid;
      balances = λ a.
          p.balances a
          ∙ ap (λ (x : ℤ). full_balance a db +ℤ x)
              (mirror_rows-account_total a (originals t.id db) (new_aggregate t.currency) proper
                ∙ zero-+ℤ _);
      reservations = p.reservations;
      marked =
          ap (find (λ x. x.id == t.id)) (last v4).1.transactions
          ∙ set_transaction_status-found t.id TransactionStatus.reversed db3 t (
              ap (find (λ x. x.id == t.id)) (post-transactions lines reversal.id db2 db3 posted)
              ∙ new_reversal-found t.id t t c db found);
      accounts_kept =
          (last v4).1.accounts
          ∙ post-accounts lines reversal.id db2 db3 posted
          ∙ new_reversal-accounts t c db;
    }

-- On a valid ledger, if the settled rows of the transaction are signed as debits and credits and are
-- multiples of the smallest amount of their currency, a reversal that returns has found a successful
-- transaction, every account's settled sum has given back exactly what those rows had brought it, no
-- reservation and no row of an account has changed, the ledger is valid after, and the transaction is
-- marked REVERSED.
pub reverse-Reversed :
    (threshold id : ℕ) (c : Option ℕ) (db : Db) (reversal : Transaction) (db' : Db)
    → IsValid db
    → All IsProper (originals id db)
    → reverse threshold id c db ≡ ok (reversal, db')
    → (t : Transaction) × (get_transaction id db ≡ some t)
      × (t.status ≡ TransactionStatus.success)
      × Reversed id t db db'
unfolding reverse reversible_transaction
reverse-Reversed threshold id c db reversal db' v proper e =
    let (t, e0, r0) = >>=-eq-ok (check_reversible (get_transaction id db)) _ e in
    let (u1, e1, r1) = >>=-eq-ok (lock_all (account_ids (originals t.id db)) db) _ r0 in
    let (correlation, db1) = or_fresh c db in
    let (new, db2) = new_reversal t correlation db1 in
    let (db3, e2, r2) =
      >>=-eq-ok (post (mirror_rows (originals t.id db) (new_aggregate t.currency)) new.id db2) _
        r1 in
    let (db5, e3, r3) =
      >>=-eq-ok
        (snapshot_ids threshold (account_ids (originals t.id db))
          (set_transaction_status t.id TransactionStatus.reversed db3))
        _ r2 in
    let (found, finished) = check_reversible-ok (get_transaction id db) t e0 in
    let same : t.id ≡ id = (==_iff _ _).0 (find-holds _ db.transactions t found) in
    let here : get_transaction t.id db ≡ some t =
      ap (λ (i : ℕ). get_transaction i db) same ∙ found in
    let proper' : All IsProper (originals t.id db) =
      subst (λ (i : ℕ). All IsProper (originals i db)) (sym same) proper in
    (
      t,
      found,
      finished,
      subst (λ (x : Db). Reversed id t db x) (ap (λ (p : Transaction × Db). p.1) (ok-injective r3))
          (subst (λ (i : ℕ). Reversed i t db db5) same
            (steps-Reversed threshold t c db db3 db5 v here proper' e2 e3)),
    )

-- The transaction of a reversal that returned is found reversed after it, on whatever ledger.
pub reverse-marked :
    (threshold id : ℕ) (c : Option ℕ) (db : Db) (r : Transaction × Db)
    → reverse threshold id c db ≡ ok r
    → (t : Transaction) × (t.status ≡ TransactionStatus.reversed)
      × (get_transaction id r.1 ≡ some t)
unfolding reverse reversible_transaction
reverse-marked threshold id c db r e =
    let (t, e0, r0) = >>=-eq-ok (reversible_transaction id db) _ e in
    let (found, finished) = check_reversible-ok (get_transaction id db) t e0 in
    let rows = originals t.id db in
    let (u1, e1, r1) = >>=-eq-ok (lock_all (account_ids rows) db) _ r0 in
    let (correlation, db1) = or_fresh c db in
    let (new, db2) = new_reversal t correlation db1 in
    let lines = mirror_rows rows (new_aggregate t.currency) in
    let (db3, e2, r2) = >>=-eq-ok (post lines new.id db2) _ r1 in
    let db4 = set_transaction_status t.id TransactionStatus.reversed db3 in
    let (db5, e3, r3) = >>=-eq-ok (snapshot_ids threshold (account_ids rows) db4) _ r2 in
    let same : t.id ≡ id = (==_iff _ _).0 (find-holds _ db.transactions t found) in
    let there : get_transaction t.id db3 ≡ some t =
      ap (find (λ x. x.id == t.id)) (post-transactions lines new.id db2 db3 e2)
      ∙ new_reversal-found t.id t t c db (ap (λ (i : ℕ). get_transaction i db) same ∙ found) in
    (
      record t { status = TransactionStatus.reversed },
      refl,
      ap (λ (p : Transaction × Db). get_transaction id p.1) (sym (ok-injective r3))
          ∙ ap (find (λ x. x.id == id))
              (snapshot_ids-SameRows threshold (account_ids rows) db4 db5 e3).transactions
          ∙ ap (λ (i : ℕ). get_transaction i db4) (sym same)
          ∙ set_transaction_status-found t.id TransactionStatus.reversed db3 t there,
    )

-- A transaction that is no success is not reversed.
pub reverse-closed :
    (threshold id : ℕ) (c : Option ℕ) (db : Db) (t : Transaction)
    → get_transaction id db ≡ some t
    → t.status ≢ TransactionStatus.success
    → reverse threshold id c db ≡ err invalid_transaction_state
unfolding reverse reversible_transaction
reverse-closed threshold id c db t found h =
    let closed : check_reversible (get_transaction id db) ≡ err invalid_transaction_state =
      ap check_reversible found ∙ check_reversible-closed t h in
    rw closed
