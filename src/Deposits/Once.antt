-- ===== src/Deposits/Once.antt =====
-- A deposit that has been settled is found as such, and is not settled again.
use mathlib.Core.Option.{some-injective}
use wallet_ledger_assesment.Base.{
  ℕ, ◌≡◌, ◌≢◌, refl, sym, inl, inr, ap, ◌∙◌, Bool, true, String, Option, some, List, [], ◌∷◌, arith,
  ◌==◌, Bool-cases,
}
use wallet_ledger_assesment.Base.Lists.{find, find-holds}
use wallet_ledger_assesment.Domain.Enums.{TransactionStatus}
use wallet_ledger_assesment.Domain.Errors.{
  ok, err, guard, ok-injective, >>=-eq-ok, invalid_transaction_state, deposit_amount_mismatch,
}
use wallet_ledger_assesment.Domain.Decimals.{Decimal}
use wallet_ledger_assesment.Domain.Money.{of_amount, eq}
use wallet_ledger_assesment.Store.{Db, get_transaction, update_first, set_transaction_status}
use wallet_ledger_assesment.Store.Models.{Transaction, Reference}
use wallet_ledger_assesment.Ledger.{post, snapshot_all}
use wallet_ledger_assesment.Ledger.Keeping.{snapshot_all-balance}
use wallet_ledger_assesment.Ledger.Posting.{post-transactions}
use wallet_ledger_assesment.Accounts
use wallet_ledger_assesment.Accounts.Lookup.{get_or_create_internal-Opened}
use wallet_ledger_assesment.Transfers.{Outcome}
use wallet_ledger_assesment.Deposits.{
  clearing_owner, has_reference, check_deposit, pending_deposit, currency_confirms, confirmed_money,
  account_id_of, deposit_lines, credit_deposit, settle,
}
use wallet_ledger_assesment.Deposits.Crediting.{pending_deposit-found}

-- A row that two queries find is found again after an assignment by the second.
find_both {ℓ} :
    {A : Type ℓ} (q p : A → Bool) (f : A → A) (xs : List A) (a : A)
    → find q xs ≡ some a
    → find p xs ≡ some a
    → q (f a) ≡ true
    → find q (update_first p f xs) ≡ some (f a)
find_both q p f [] a h k s = cc
find_both q p f (x ∷ xs) a h k s = elim (Bool-cases (q x)) [
  | inl t ↦
      let same : x ≡ a = some-injective _ _ (rw t at h) in
      let chosen : p x ≡ true = ap p same ∙ find-holds p (x ∷ xs) a k in rw chosen (rw same (rw s))
  | inr n ↦ elim (Bool-cases (p x)) [
    | inl t ↦
        let same : x ≡ a = some-injective _ _ (rw t at k) in
        let found : q x ≡ true = ap q same ∙ find-holds q (x ∷ xs) a h in cc
    | inr m ↦ rw (m, n) (find_both q p f xs a (rw n at h) (rw m at k) s)
  ]
]

check_deposit-closed :
    (t : Transaction)
    → t.status ≢ TransactionStatus.pending
    → check_deposit (some t) ≡ err invalid_transaction_state
check_deposit-closed t h = ground arith

-- What crediting does to the table of transactions, on whatever ledger.
pub credit_deposit-marked :
    (threshold drawn : ℕ) (t : Transaction) (db : Db) (o : Outcome)
    → credit_deposit threshold drawn t db ≡ ok o
    → o.2.transactions
      ≡ update_first
          (λ x. x.id == t.id)
          (λ x. record x { status = TransactionStatus.success })
          db.transactions
unfolding credit_deposit
credit_deposit-marked threshold drawn t db o e =
    let m = of_amount t.amount t.currency in
    let (account_id, named, r3) = >>=-eq-ok (account_id_of t.details) _ e in
    let (account, locked, r4) = >>=-eq-ok (Accounts.lock account_id db) _ r3 in
    let (opened, opening, r5) =
      >>=-eq-ok (Accounts.get_or_create_internal clearing_owner account.currency drawn db) _ r4 in
    let lines = deposit_lines opened.0.id account.id m in
    let (db2, posted, r6) = >>=-eq-ok (post lines t.id opened.1) _ r5 in
    let db3 = set_transaction_status t.id TransactionStatus.success db2 in
    let (db4, cut, r7) = >>=-eq-ok (snapshot_all threshold (account ∷ opened.0 ∷ []) db3) _ r6 in
    let opens =
      get_or_create_internal-Opened clearing_owner account.currency drawn db opened opening in
    ap (λ (x : Outcome). x.2.transactions) (sym (ok-injective r7))
    ∙ (snapshot_all-balance threshold (account ∷ opened.0 ∷ []) db3 db4 cut).0.transactions
    ∙ ap (update_first (λ x. x.id == t.id) (λ x. record x { status = TransactionStatus.success }))
        (post-transactions lines t.id opened.1 db2 posted ∙ opens.transactions)

-- The deposit of a settlement that returned is found with its reference after it, as a success.
pub settle-found :
    (threshold drawn : ℕ) (reference : Reference) (amount : Option Decimal)
    (currency : Option String) (db : Db) (o : Outcome)
    → ((t : Transaction)
        → find (has_reference reference) db.transactions ≡ some t
        → get_transaction t.id db ≡ some t)
    → settle threshold drawn reference amount currency db ≡ ok o
    → (t : Transaction) × (t.status ≡ TransactionStatus.success)
      × (find (has_reference reference) o.2.transactions ≡ some t)
unfolding settle
settle-found threshold drawn reference amount currency db o key e =
    let (t, e0, r0) = >>=-eq-ok (pending_deposit reference db) _ e in
    let (u1, e1, r1) =
      >>=-eq-ok (guard (currency_confirms currency t.currency) deposit_amount_mismatch) _ r0 in
    let (u2, e2, r2) =
      >>=-eq-ok
        (guard (eq (confirmed_money amount t) (of_amount t.amount t.currency))
          deposit_amount_mismatch)
        _ r1 in
    let (found, waiting) = pending_deposit-found reference db t e0 in
    (
      record t { status = TransactionStatus.success },
      refl,
      ap (find (has_reference reference)) (credit_deposit-marked threshold drawn t db o r2)
          ∙ find_both (has_reference reference) (λ x. x.id == t.id)
              (λ x. record x { status = TransactionStatus.success }) db.transactions t found
              (key t found) (find-holds (has_reference reference) db.transactions t found),
    )

-- A deposit that is not pending is not settled, whatever is confirmed.
pub settle-closed :
    (threshold drawn : ℕ) (reference : Reference) (amount : Option Decimal)
    (currency : Option String) (db : Db) (t : Transaction)
    → find (has_reference reference) db.transactions ≡ some t
    → t.status ≢ TransactionStatus.pending
    → settle threshold drawn reference amount currency db ≡ err invalid_transaction_state
unfolding settle pending_deposit
settle-closed threshold drawn reference amount currency db t found h =
    let closed : check_deposit (find (has_reference reference) db.transactions)
        ≡ err invalid_transaction_state =
      ap check_deposit found ∙ check_deposit-closed t h in
    rw closed
