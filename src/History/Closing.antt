-- ===== src/History/Closing.antt =====
-- What is refused once stays refused: a transaction that is no longer pending, a deposit that has been
-- settled, a transaction that has been reversed.
use wallet_ledger_assesment.Base.{
  ℕ, ◌≡◌, ◌≢◌, inl, inr, ap, sym, ◌∙◌, String, Option, some, [], ◌∷◌, refl, ◌==◌, ◌⊎◌,
}
use wallet_ledger_assesment.Base.Int.{ℤ}
use wallet_ledger_assesment.Base.Lists.{find}
use wallet_ledger_assesment.Domain.Enums.{TransactionStatus}
use wallet_ledger_assesment.Domain.Errors.{
  ok, err, ok-injective, >>=-eq-ok, invalid_transaction_state,
}
use wallet_ledger_assesment.Domain.Decimals.{Decimal}
use wallet_ledger_assesment.Domain.Money.{of_amount}
use wallet_ledger_assesment.Store.{Db, empty_db, get_transaction, set_transaction_status}
use wallet_ledger_assesment.Store.Models.{Transaction, Reference}
use wallet_ledger_assesment.Ledger.Keeping.{snapshot_all-balance}
use wallet_ledger_assesment.Transfers.{
  Outcome, commit, commit_read, settle_rows, fail, pending_transaction, release_rows,
}
use wallet_ledger_assesment.Transfers.Status.{
  pending_transaction-found, set_transaction_status-found, IsClosed, closed,
}
use wallet_ledger_assesment.Transfers.Halves.{commit_read-IsRead, commit_write-IsWritten}
use wallet_ledger_assesment.Payments.{Config, Remote}
use wallet_ledger_assesment.Deposits.{has_reference, settle}
use wallet_ledger_assesment.Deposits.Once.{settle-found, settle-closed}
use wallet_ledger_assesment.Fx.{Rates}
use wallet_ledger_assesment.Reversals.{reverse}
use wallet_ledger_assesment.Reversals.Reversing.{reverse-marked, reverse-closed}
use wallet_ledger_assesment.History.{
  Step, account_opened, transferred, initiated, committed, failed, deposit_initiated,
  deposit_settled, exchanged, reversed, Reach, here, next,
}
use wallet_ledger_assesment.History.Ages.{
  Later, Ages, older, Ages-find, Ages-refl, IsNumbered, Ages-IsNumbered, find-id,
}
use wallet_ledger_assesment.History.Aging.{
  create-Ages, execute-Ages, initiate-Ages, commit-Ages, fail-Ages, reverse-Ages,
}
use wallet_ledger_assesment.History.ServiceAges.{
  deposit_initiate-Ages, settle-Ages, execute_fx_transfer-Ages,
}

-- The transaction of an operation that closes it, after it.
commit-finished :
    (limit : ℤ) (threshold id : ℕ) (db : Db) (o : Outcome)
    → commit limit threshold id db ≡ ok o
    → (t : Transaction) × (get_transaction id o.2 ≡ some t) × (t.status ≡ TransactionStatus.success)
unfolding commit
commit-finished limit threshold id db (txn, event, db') e =
    let ((t, d), read, written) = >>=-eq-ok (commit_read limit id db) _ e in
    let r = commit_read-IsRead limit id db t d read in
    let w = commit_write-IsWritten threshold t d db txn event db' written in
    let rows = settle_rows t d w.receiver (of_amount t.amount t.currency) db in
    let there : get_transaction t.id rows ≡ some t =
      ap (λ (i : ℕ). get_transaction i db) r.same_id ∙ r.txn_found in
    (
      record t { status = TransactionStatus.success },
      ap (λ (i : ℕ). get_transaction i db') (sym r.same_id)
          ∙ ap (find (λ x. x.id == t.id))
              (snapshot_all-balance threshold (w.sender ∷ w.receiver ∷ []) _ db'
                w.cut).0.transactions
          ∙ set_transaction_status-found t.id TransactionStatus.success rows t there,
      refl,
    )

fail-finished :
    (id : ℕ) (db : Db) (o : Outcome)
    → fail id db ≡ ok o
    → (t : Transaction) × (get_transaction id o.2 ≡ some t) × (t.status ≡ TransactionStatus.failed)
unfolding fail
fail-finished id db o e =
    let (t, e0, rest) = >>=-eq-ok (pending_transaction id db) _ e in
    let (found, same, waiting) = pending_transaction-found id db t e0 in
    (
      record t { status = TransactionStatus.failed },
      ap (λ (x : Outcome). get_transaction id x.2) (sym (ok-injective rest))
          ∙ ap
              (λ (i : ℕ).
                get_transaction id
                  (set_transaction_status i TransactionStatus.failed (release_rows id db)))
              same
          ∙ set_transaction_status-found id TransactionStatus.failed (release_rows id db) t found,
      refl,
    )

Later-closed :
    (a b : TransactionStatus)
    → Later a b
    → a ≢ TransactionStatus.pending
    → b ≢ TransactionStatus.pending
Later-closed a b (inl e) h = λ k. h (sym e ∙ k)
Later-closed a b (inr (inl (p, n))) h = λ k. h p
Later-closed a b (inr (inr (p, q))) h = λ k. cc

Later-reversed :
    (a b : TransactionStatus)
    → Later a b
    → a ≡ TransactionStatus.reversed
    → b ≡ TransactionStatus.reversed
Later-reversed a b (inl e) h = e ∙ h
Later-reversed a b (inr (inl (p, n))) h = cc
Later-reversed a b (inr (inr (p, q))) h = cc

module _ (config : Config) (remote : Remote) (rates : Rates) (limit : ℤ) (threshold : ℕ) where
  pub Step-Ages :
      {db db' : Db} → IsNumbered db → Step config remote rates limit threshold db db' → Ages db db'
  Step-Ages {db} {db'} n (account_opened owner currency drawn a e) =
      create-Ages owner currency drawn db (a, db') e
  Step-Ages {db} {db'} n (transferred s r amount c txn event e) =
      execute-Ages threshold s r amount c db (txn, event, db') e
  Step-Ages {db} {db'} n (initiated s r amount c txn event e) =
      initiate-Ages s r amount c db (txn, event, db') e
  Step-Ages {db} {db'} n (committed id txn event e) =
      commit-Ages limit threshold id db (txn, event, db') e
  Step-Ages {db} {db'} n (failed id txn event e) = fail-Ages id db (txn, event, db') e
  Step-Ages {db} {db'} n (deposit_initiated i amount p context c txn e) =
      deposit_initiate-Ages config remote i amount p context c db (txn, db') n e
  Step-Ages {db} {db'} n (deposit_settled drawn reference amount currency txn event e) =
      settle-Ages threshold drawn reference amount currency db (txn, event, db') n e
  Step-Ages {db} {db'} n (exchanged drawn drawn' s r amount c txn event e) =
      execute_fx_transfer-Ages rates threshold drawn drawn' s r amount c db (txn, event, db') e
  Step-Ages {db} {db'} n (reversed id c reversal e) =
      reverse-Ages threshold id c db (reversal, db') e

  pub Reach-Ages :
      {db db' : Db} → IsNumbered db → Reach config remote rates limit threshold db db' → Ages db db'
  Reach-Ages {db} n here = Ages-refl db
  Reach-Ages n (next r s) =
      let before = Reach-Ages n r in older before (Step-Ages (Ages-IsNumbered before n) s)

  pub Reach-IsNumbered :
      {db db' : Db}
      → IsNumbered db
      → Reach config remote rates limit threshold db db'
      → IsNumbered db'
  Reach-IsNumbered n r = Ages-IsNumbered (Reach-Ages n r) n

  -- Where transactions are numbered one after another, a transaction that `commit` or `fail` has
  -- closed is refused by both in every state that any later operations lead to.
  pub refused_for_good :
      (id : ℕ) (db : Db) (o : Outcome)
      → IsNumbered db
      → (commit limit threshold id db ≡ ok o) ⊎ (fail id db ≡ ok o)
      → (db' : Db) → Reach config remote rates limit threshold o.2 db'
      → IsClosed invalid_transaction_state id db'
  refused_for_good id db o n (inl e) db' later =
      let (t, found, is) = commit-finished limit threshold id db o e in
      let n1 = Ages-IsNumbered (commit-Ages limit threshold id db o e) n in
      let (t', found', after) =
        Ages-find (Reach-Ages n1 later) (λ x. x.id == id) t (λ x s. refl) found in
      closed id db' t' found' (Later-closed t.status t'.status after (λ h. cc))
  refused_for_good id db o n (inr e) db' later =
      let (t, found, is) = fail-finished id db o e in
      let n1 = Ages-IsNumbered (fail-Ages id db o e) n in
      let (t', found', after) =
        Ages-find (Reach-Ages n1 later) (λ x. x.id == id) t (λ x s. refl) found in
      closed id db' t' found' (Later-closed t.status t'.status after (λ h. cc))

  -- Where transactions are numbered one after another, a deposit that has been settled is refused by
  -- every confirmation with its reference, whatever that confirms, in every state that any later
  -- operations lead to.
  pub settled_for_good :
      (drawn : ℕ) (reference : Reference) (amount : Option Decimal) (currency : Option String)
      (db : Db) (o : Outcome)
      → IsNumbered db
      → settle threshold drawn reference amount currency db ≡ ok o
      → (db' : Db) → Reach config remote rates limit threshold o.2 db'
      → (threshold' drawn' : ℕ) (amount' : Option Decimal) (currency' : Option String)
      → settle threshold' drawn' reference amount' currency' db' ≡ err invalid_transaction_state
  settled_for_good drawn reference amount currency db o n e db' later threshold' drawn' amount'
        currency' =
      let (t, is, found) =
        settle-found threshold drawn reference amount currency db o
          (λ t there. find-id (has_reference reference) db.transactions t n.increasing there) e in
      let n1 = Ages-IsNumbered (settle-Ages threshold drawn reference amount currency db o n e) n in
      let (t', found', after) =
        Ages-find (Reach-Ages n1 later) (has_reference reference) t (λ x s. refl) found in
      settle-closed threshold' drawn' reference amount' currency' db' t' found'
        (Later-closed t.status t'.status after (λ h. cc))

  -- Where transactions are numbered one after another, a transaction that has been reversed is refused
  -- by every reversal in every state that any later operations lead to.
  pub reversed_for_good :
      (id : ℕ) (c : Option ℕ) (db : Db) (r : Transaction × Db)
      → IsNumbered db
      → reverse threshold id c db ≡ ok r
      → (db' : Db) → Reach config remote rates limit threshold r.1 db'
      → (threshold' : ℕ) (c' : Option ℕ)
      → reverse threshold' id c' db' ≡ err invalid_transaction_state
  reversed_for_good id c db r n e db' later threshold' c' =
      let (t, is, found) = reverse-marked threshold id c db r e in
      let n1 = Ages-IsNumbered (reverse-Ages threshold id c db r e) n in
      let (t', found', after) =
        Ages-find (Reach-Ages n1 later) (λ x. x.id == id) t (λ x s. refl) found in
      let stays = Later-reversed t.status t'.status after is in
      reverse-closed threshold' id c' db' t' found' (λ h. cc)

-- The transactions of an empty database are numbered, and every history keeps that.
pub empty_db-IsNumbered : IsNumbered empty_db
empty_db-IsNumbered = record { drawn = tt; increasing = tt }
