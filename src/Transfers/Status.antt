-- ===== src/Transfers/Status.antt =====
-- The status of a transaction: `commit` and `fail` want a pending one, and leave one that neither
-- takes again.
use mathlib.Core.Option.{some-injective}
use wallet_ledger_assesment.Base.{
  ℕ, ◌≡◌, refl, ◌≢◌, inl, inr, sym, ap, ◌∙◌, Bool, true, Option, none, some, List, [], ◌∷◌, arith,
  ◌==◌, Bool-cases, ==_iff, subst,
}
use wallet_ledger_assesment.Base.Int.{ℤ}
use wallet_ledger_assesment.Base.Lists.{find, find-holds}
use wallet_ledger_assesment.Domain.Enums.{TransactionStatus}
use wallet_ledger_assesment.Domain.Errors.{
  Error, ok, err, ok-injective, >>=-eq-ok, invalid_transaction_state,
}
use wallet_ledger_assesment.Domain.Events.{DomainEvent}
use wallet_ledger_assesment.Store.{Db, get_transaction, update_first, set_transaction_status}
use wallet_ledger_assesment.Store.Models.{Transaction}
use wallet_ledger_assesment.Ledger.Invariant.{IsValid, SameLedger-IsValid}
use wallet_ledger_assesment.Transfers.{
  Outcome, pending_transaction, check_pending, release_rows, commit, commit_read, fail,
}
use wallet_ledger_assesment.Transfers.Phases.{Released, release_rows-Released}

-- The row that a query found is found again after an assignment that keeps what the query asks.
pub find-update_first {ℓ} :
    {A : Type ℓ} (q : A → Bool) (f : A → A) (xs : List A) (a : A)
    → find q xs ≡ some a
    → q (f a) ≡ true
    → find q (update_first q f xs) ≡ some (f a)
find-update_first q f [] a h k = cc
find-update_first q f (x ∷ xs) a h k = elim (Bool-cases (q x)) [
  | inl t ↦ let same : x ≡ a = some-injective _ _ (rw t at h) in rw t (rw same (rw k))
  | inr n ↦ rw (n, n) (find-update_first q f xs a (rw n at h) k)
]

check_pending-ok :
    (o : Option Transaction) (txn : Transaction)
    → check_pending o ≡ ok txn
    → (o ≡ some txn) × (txn.status ≡ TransactionStatus.pending)
check_pending-ok none txn e = cc
check_pending-ok (some t) txn e = ground arith

pub pending_transaction-found :
    (id : ℕ) (db : Db) (txn : Transaction)
    → pending_transaction id db ≡ ok txn
    → (get_transaction id db ≡ some txn) × (txn.id ≡ id) × (txn.status ≡ TransactionStatus.pending)
unfolding pending_transaction
pending_transaction-found id db txn e =
    let (found, waiting) = check_pending-ok (get_transaction id db) txn e in
    (found, (==_iff _ _).0 (find-holds _ db.transactions txn found), waiting)

-- A transaction that is no longer pending is refused by both operations.
abbrev pub IsClosed : Error → ℕ → Db → Type 0
IsClosed e id db =
    (fail id db ≡ err e) × ((limit : ℤ) (threshold : ℕ) → commit limit threshold id db ≡ err e)

check_pending-closed :
    (t : Transaction)
    → t.status ≢ TransactionStatus.pending
    → check_pending (some t) ≡ err invalid_transaction_state
check_pending-closed t h = ground arith

pub closed :
    (id : ℕ) (db : Db) (t : Transaction)
    → get_transaction id db ≡ some t
    → t.status ≢ TransactionStatus.pending
    → IsClosed invalid_transaction_state id db
unfolding fail commit commit_read pending_transaction
closed id db t found h =
    let e : check_pending (get_transaction id db) ≡ err invalid_transaction_state =
      ap check_pending found ∙ check_pending-closed t h in
    (rw e, λ limit threshold. rw e)

-- The transaction of an operation that sets a status is found with that status after it.
pub set_transaction_status-found :
    (id : ℕ) (status : TransactionStatus) (db : Db) (txn : Transaction)
    → get_transaction id db ≡ some txn
    → get_transaction id (set_transaction_status id status db)
      ≡ some (record txn { status = status })
set_transaction_status-found id status db txn found =
    find-update_first (λ t. t.id == id) (λ t. record t { status = status }) db.transactions txn
      found (find-holds _ db.transactions txn found)

-- What a failed transfer is after `fail`: released, and closed.
pub record Failed (id : ℕ) (db db' : Db) : Type 0 where
  pub released : Released id db db'
  pub closed_after : IsClosed invalid_transaction_state id db'

-- On a valid ledger, a failed transfer that returns has released the pending rows of the transaction
-- and nothing else: balances stay, reservations of other transactions stay, the ledger is valid
-- after, and in the state that it leaves the transaction can be neither failed nor committed.
pub fail-Failed :
    (id : ℕ) (db : Db) (txn : Transaction) (event : DomainEvent) (db' : Db)
    → IsValid db
    → fail id db ≡ ok (txn, event, db')
    → Failed id db db'
unfolding fail
fail-Failed id db txn event db' v e =
    let (t, e0, rest) = >>=-eq-ok (pending_transaction id db) _ e in
    let (found, same, waiting) = pending_transaction-found id db t e0 in
    let db2 = set_transaction_status id TransactionStatus.failed (release_rows id db) in
    let is : db2 ≡ db' =
      ap (λ (i : ℕ). set_transaction_status i TransactionStatus.failed (release_rows i db))
        (sym same)
      ∙ ap (λ (o : Outcome). o.2) (ok-injective rest) in
    let r = release_rows-Released id db v in
    subst (Failed id db) is (record {
      released = record {
        valid =
            SameLedger-IsValid (record { entries = refl; snapshots = refl; next_seq = refl })
              r.valid;
        balances = r.balances;
        reservations = r.reservations;
      };
      closed_after =
          closed id db2 (record t { status = TransactionStatus.failed })
            (set_transaction_status-found id TransactionStatus.failed (release_rows id db) t found)
            (λ h. cc);
    })
