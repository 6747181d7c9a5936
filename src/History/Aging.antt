-- ===== src/History/Aging.antt =====
-- What opening an account, transfers and reversals do to the table of transactions.
use wallet_ledger_assesment.Base.{
  ℕ, ◌≡◌, refl, ap, ◌∙◌, inl, inr, String, Option, none, some, List, [], ◌∷◌, arith, ◌==◌, ==_iff,
  Bool-cases, subst,
}
use wallet_ledger_assesment.Base.Int.{ℤ}
use wallet_ledger_assesment.Base.Lists.{find, find-holds, any}
use wallet_ledger_assesment.Domain.Decimals.{Decimal}
use wallet_ledger_assesment.Domain.Enums.{TransactionType, TransactionStatus}
use wallet_ledger_assesment.Domain.Errors.{ok, >>=-eq-ok, ok-injective}
use wallet_ledger_assesment.Domain.Money.{Money, of_amount}
use wallet_ledger_assesment.Domain.Aggregates.{TransactionAggregate, new_aggregate}
use wallet_ledger_assesment.Store.{Db, get_transaction, set_transaction_status}
use wallet_ledger_assesment.Store.Models.{Account, Transaction}
use wallet_ledger_assesment.Ledger.{post, snapshot_all}
use wallet_ledger_assesment.Ledger.Keeping.{SameRows, snapshot_all-balance}
use wallet_ledger_assesment.Ledger.Posting.{post-transactions, post-next_id}
use wallet_ledger_assesment.Accounts
use wallet_ledger_assesment.Accounts.{violates, new_account}
use wallet_ledger_assesment.Accounts.Lookup.{Opened}
use wallet_ledger_assesment.Transfers
use wallet_ledger_assesment.Transfers.{
  Outcome, or_fresh, new_transaction, settle_transfer, transfer_lines, reserve, ensure_funds,
  commit_read, commit_write, settle_rows, pending_transaction, release_rows,
}
use wallet_ledger_assesment.Transfers.Effects.{Request-checked}
use wallet_ledger_assesment.Transfers.Status.{pending_transaction-found}
use wallet_ledger_assesment.Transfers.Halves.{commit_read-IsRead, commit_write-IsWritten}
use wallet_ledger_assesment.Reversals.{
  reversible_transaction, account_ids, lock_all, mirror_rows, snapshot_ids, new_reversal, reverse,
}
use wallet_ledger_assesment.Reversals.Reversing.{
  originals, check_reversible-ok, new_reversal-found, snapshot_ids-SameRows,
}
use wallet_ledger_assesment.History.Ages.{Ages, kept, added, marked, older}

-- Nothing but other tables has changed.
untouched :
    (db db' : Db) → db'.transactions ≡ db.transactions → db'.next_id ≡ db.next_id → Ages db db'
untouched db db' same next = kept same (omega (arith, next))

SameRows-Ages : (db db' : Db) → SameRows db db' → Ages db db'
SameRows-Ages db db' s = untouched db db' s.transactions s.next_id

pub post-Ages :
    (t : TransactionAggregate) (id : ℕ) (db db' : Db) → post t id db ≡ ok db' → Ages db db'
post-Ages t id db db' e =
    untouched db db' (post-transactions t id db db' e) (post-next_id t id db db' e)

pub snapshot_all-Ages :
    (threshold : ℕ) (accounts : List Account) (db db' : Db)
    → snapshot_all threshold accounts db ≡ ok db'
    → Ages db db'
snapshot_all-Ages threshold accounts db db' e =
    SameRows-Ages db db' (snapshot_all-balance threshold accounts db db' e).0

pub Opened-Ages : (db db' : Db) → Opened db db' → Ages db db'
Opened-Ages db db' o = kept o.transactions o.grown

pub or_fresh-Ages : (c : Option ℕ) (db : Db) → Ages db (or_fresh c db).1
or_fresh-Ages none db = kept refl (omega arith)
or_fresh-Ages (some c) db = kept refl (omega arith)

new_transaction-Ages :
    (k : TransactionType) (st : TransactionStatus) (m : Money) (s r : Account) (c : Option ℕ)
    (db : Db)
    → let (correlation, db1) = or_fresh c db in
      Ages db (new_transaction k st m s r correlation db1).1
unfolding new_transaction
new_transaction-Ages k st m s r c db =
    older (or_fresh-Ages c db) (added _ refl (omega arith) (omega arith))

pub create-Ages :
    (owner_id currency : String) (drawn : ℕ) (db : Db) (r : Account × Db)
    → Accounts.create owner_id currency drawn db ≡ ok r
    → Ages db r.1
unfolding Accounts.create
create-Ages owner_id currency drawn db r e =
    elim (Bool-cases
      (any (violates (new_account owner_id currency drawn db.next_id)) db.accounts)) [
        | inl taken ↦ let h = rw taken at e in cc
        | inr clear ↦
            let h = rw clear at e in
            subst (λ (p : Account × Db). Ages db p.1) (ok-injective h) (kept refl (omega arith))
      ]

pub execute-Ages :
    (threshold sender_id receiver_id : ℕ) (amount : Decimal) (c : Option ℕ) (db : Db) (o : Outcome)
    → Transfers.execute threshold sender_id receiver_id amount c db ≡ ok o
    → Ages db o.2
unfolding Transfers.execute settle_transfer
execute-Ages threshold sender_id receiver_id amount c db o e =
    let (r, done) =
      Request-checked sender_id receiver_id amount db
        (λ sender receiver m. settle_transfer threshold sender receiver m c db) o e in
    let (correlation, db1) = or_fresh c db in
    let (new, db2) =
      new_transaction TransactionType.transfer TransactionStatus.success r.m r.sender r.receiver
        correlation db1 in
    let lines = transfer_lines r.sender.id r.receiver.id r.m in
    let (db3, posted, rest) = >>=-eq-ok (post lines new.id db2) _ done in
    let (db4, cut, last) =
      >>=-eq-ok (snapshot_all threshold (r.sender ∷ r.receiver ∷ []) db3) _ rest in
    subst (Ages db) (ap (λ (x : Outcome). x.2) (ok-injective last)) (
      older
        (new_transaction-Ages TransactionType.transfer TransactionStatus.success r.m r.sender
          r.receiver c db)
        (older (post-Ages lines new.id db2 db3 posted)
          (snapshot_all-Ages threshold (r.sender ∷ r.receiver ∷ []) db3 db4 cut)))

pub initiate-Ages :
    (sender_id receiver_id : ℕ) (amount : Decimal) (c : Option ℕ) (db : Db) (o : Outcome)
    → Transfers.initiate sender_id receiver_id amount c db ≡ ok o
    → Ages db o.2
unfolding Transfers.initiate reserve
initiate-Ages sender_id receiver_id amount c db o e =
    let (r, done) =
      Request-checked sender_id receiver_id amount db
        (λ sender receiver m. reserve sender receiver m c db) o e in
    subst (Ages db) (ap (λ (x : Outcome). x.2) (ok-injective done)) (
      older
        (new_transaction-Ages TransactionType.transfer TransactionStatus.pending r.m r.sender
          r.receiver c db)
        (kept refl (omega arith)))

pub commit-Ages :
    (limit : ℤ) (threshold id : ℕ) (db : Db) (o : Outcome)
    → Transfers.commit limit threshold id db ≡ ok o
    → Ages db o.2
unfolding Transfers.commit
commit-Ages limit threshold id db (txn, event, db') e =
    let ((t, d), read, written) = >>=-eq-ok (commit_read limit id db) _ e in
    let r = commit_read-IsRead limit id db t d read in
    let w = commit_write-IsWritten threshold t d db txn event db' written in
    let rows = settle_rows t d w.receiver (of_amount t.amount t.currency) db in
    let there : get_transaction t.id db ≡ some t =
      ap (λ (i : ℕ). get_transaction i db) r.same_id ∙ r.txn_found in
    older
      (marked {db = db} {db' = set_transaction_status t.id TransactionStatus.success rows} t.id t
        TransactionStatus.success there (inl (r.waiting, λ h. cc)) refl (omega arith))
      (snapshot_all-Ages threshold (w.sender ∷ w.receiver ∷ []) _ db' w.cut)

pub fail-Ages : (id : ℕ) (db : Db) (o : Outcome) → Transfers.fail id db ≡ ok o → Ages db o.2
unfolding Transfers.fail
fail-Ages id db o e =
    let (t, e0, rest) = >>=-eq-ok (pending_transaction id db) _ e in
    let (found, same, waiting) = pending_transaction-found id db t e0 in
    let there : get_transaction t.id db ≡ some t =
      ap (λ (i : ℕ). get_transaction i db) same ∙ found in
    subst (Ages db) (ap (λ (x : Outcome). x.2) (ok-injective rest))
      (marked t.id t TransactionStatus.failed there (inl (waiting, λ h. cc)) refl (omega arith))

pub reverse-Ages :
    (threshold id : ℕ) (c : Option ℕ) (db : Db) (o : Transaction × Db)
    → reverse threshold id c db ≡ ok o
    → Ages db o.1
unfolding reverse reversible_transaction new_reversal
reverse-Ages threshold id c db o e =
    let (t, e0, r0) = >>=-eq-ok (reversible_transaction id db) _ e in
    let (found, finished) = check_reversible-ok (get_transaction id db) t e0 in
    let rows = originals t.id db in
    let (u1, e1, r1) = >>=-eq-ok (lock_all (account_ids rows) db) _ r0 in
    let (correlation, db1) = or_fresh c db in
    let (new, db2) = new_reversal t correlation db1 in
    let lines = mirror_rows rows (new_aggregate t.currency) in
    let (db3, e2, r2) = >>=-eq-ok (post lines new.id db2) _ r1 in
    let db4 = set_transaction_status t.id TransactionStatus.reversed db3 in
    let (db5, e3, r3) = >>=-eq-ok (snapshot_ids threshold (account_ids rows) db4) _ r2 in
    let there : get_transaction t.id db ≡ some t =
      ap (λ (i : ℕ). get_transaction i db) ((==_iff _ _).0 (find-holds _ db.transactions t found))
      ∙ found in
    let there3 : get_transaction t.id db3 ≡ some t =
      ap (find (λ x. x.id == t.id)) (post-transactions lines new.id db2 db3 e2)
      ∙ new_reversal-found t.id t t c db there in
    let before : Ages db db3 =
      older (or_fresh-Ages c db)
        (older (added new refl (omega arith) (omega arith)) (post-Ages lines new.id db2 db3 e2)) in
    subst (Ages db) (ap (λ (x : Transaction × Db). x.1) (ok-injective r3)) (
      older before (
        older
          (marked {db = db3} {db' = db4} t.id t TransactionStatus.reversed there3
            (inr (finished, refl)) refl (omega arith))
          (SameRows-Ages db4 db5 (snapshot_ids-SameRows threshold (account_ids rows) db4 db5 e3))))
