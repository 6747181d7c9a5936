-- ===== src/Deposits/Crediting.antt =====
-- What the settlement of a deposit does to every balance, and that it happens once.
use wallet_ledger_assesment.Base.{
  ℕ, ◌<◌, ◌≡◌, refl, sym, ap, ◌∙◌, Bool, true, false, String, Option, none, some, [], ◌∷◌, arith,
  ◌==◌, ==_iff, subst, if◌then◌else◌,
}
use wallet_ledger_assesment.Base.Int.{ℤ, pos, ◌+ℤ◌, neg, abs, +ℤ-zero}
use wallet_ledger_assesment.Base.Lists.{find, find-holds, All}
use wallet_ledger_assesment.Base.Text.{upper}
use wallet_ledger_assesment.Domain.Enums.{TransactionStatus}
use wallet_ledger_assesment.Domain.Errors.{
  Error, ok, guard, ok-injective, >>=-eq-ok, deposit_amount_mismatch,
}
use wallet_ledger_assesment.Domain.Decimals.{Decimal}
use wallet_ledger_assesment.Domain.Money.{Money, of_amount, eq}
use wallet_ledger_assesment.Domain.Aggregates.{debit, credit}
use wallet_ledger_assesment.Domain.Events.{DomainEvent}
use wallet_ledger_assesment.Store.{Db, update_first, set_transaction_status}
use wallet_ledger_assesment.Store.Models.{Account, Transaction, Reference}
use wallet_ledger_assesment.Ledger.{post, snapshot_all}
use wallet_ledger_assesment.Ledger.Snapshots.{full_balance}
use wallet_ledger_assesment.Ledger.Keeping.{snapshot_all-balance}
use wallet_ledger_assesment.Ledger.Posting.{IsSettled, post-transactions}
use wallet_ledger_assesment.Ledger.Invariant.{
  IsValid, reserved, account_total, post-snapshot_all-Posted,
}
use wallet_ledger_assesment.Accounts
use wallet_ledger_assesment.Accounts.Lookup.{
  lock-found, Opened, get_or_create_internal-Opened, get_or_create_internal-owned,
}
use wallet_ledger_assesment.Transfers.{Outcome}
use wallet_ledger_assesment.Deposits.{
  clearing_owner, has_reference, check_deposit, pending_deposit, currency_confirms, confirmed_money,
  account_id_of, deposit_lines, credit_deposit, settle,
}

-- The rows of a deposit, per account.
abbrev pub deposited : ℕ → ℕ → ℤ → ℕ → ℤ
deposited clearing_id account_id x a =
    (if clearing_id == a then neg (abs x) else pos 0) +ℤ (if account_id == a then abs x else pos 0)

deposit_lines-account_total :
    (c r : ℕ) (m : Money) (a : ℕ)
    → account_total a (deposit_lines c r m).lines ≡ deposited c r m.amount a
unfolding debit credit
deposit_lines-account_total c r m a =
    ap (λ (t : ℤ). (if c == a then neg (abs m.amount) else pos 0) +ℤ t) (+ℤ-zero _)

pub deposit_lines-IsSettled : (c r : ℕ) (m : Money) → All IsSettled (deposit_lines c r m).lines
unfolding debit credit
deposit_lines-IsSettled c r m = (refl, (refl, tt))

check_deposit-ok :
    (o : Option Transaction) (t : Transaction)
    → check_deposit o ≡ ok t
    → (o ≡ some t) × (t.status ≡ TransactionStatus.pending)
check_deposit-ok none t e = cc
check_deposit-ok (some x) t e = ground arith

pub pending_deposit-found :
    (reference : Reference) (db : Db) (t : Transaction)
    → pending_deposit reference db ≡ ok t
    → (find (has_reference reference) db.transactions ≡ some t)
      × (t.status ≡ TransactionStatus.pending)
unfolding pending_deposit
pending_deposit-found reference db t e =
    check_deposit-ok (find (has_reference reference) db.transactions) t e

-- What crediting does.
pub record Credited (t : Transaction) (account_id clearing_id : ℕ) (db db' : Db) : Type 0 where
  pub valid : IsValid db'
  pub balances :
      (a : ℕ)
      → full_balance a db'
        ≡ full_balance a db
          +ℤ deposited clearing_id account_id (of_amount t.amount t.currency).amount a
  pub reservations : (a : ℕ) → reserved a db' ≡ reserved a db
  pub marked :
      db'.transactions
      ≡ update_first
          (λ x. x.id == t.id)
          (λ x. record x { status = TransactionStatus.success })
          db.transactions

steps-Credited :
    (threshold : ℕ) (t : Transaction) (account clearing : Account) (db opened db2 db4 : Db)
    → 0 < threshold
    → IsValid db
    → Opened db opened
    → post (deposit_lines clearing.id account.id (of_amount t.amount t.currency)) t.id opened
      ≡ ok db2
    → snapshot_all threshold
        (account ∷ clearing ∷ [])
        (set_transaction_status t.id TransactionStatus.success db2)
      ≡ ok db4
    → Credited t account.id clearing.id db db4
steps-Credited threshold t account clearing db opened db2 db4 positive v o posted cut =
    let m = of_amount t.amount t.currency in
    let lines = deposit_lines clearing.id account.id m in
    let db3 = set_transaction_status t.id TransactionStatus.success db2 in
    let p =
      post-snapshot_all-Posted threshold lines t.id (account ∷ clearing ∷ []) db opened db2 db3 db4
        positive (deposit_lines-IsSettled clearing.id account.id m) v o.ledger posted
        (record { entries = refl; snapshots = refl; next_seq = refl }) cut in
    let same = (snapshot_all-balance threshold (account ∷ clearing ∷ []) db3 db4 cut).0 in
    record {
      valid = p.valid;
      balances = λ a.
          p.balances a
          ∙ ap (λ (x : ℤ). full_balance a db +ℤ x)
              (deposit_lines-account_total clearing.id account.id m a);
      reservations = p.reservations;
      marked =
          same.transactions
          ∙ ap
              (update_first (λ x. x.id == t.id)
                (λ x. record x { status = TransactionStatus.success }))
              (post-transactions lines t.id opened db2 posted ∙ o.transactions);
    }

credit_deposit-Credited :
    (threshold drawn : ℕ) (t : Transaction) (db : Db) (txn : Transaction) (event : DomainEvent)
    (db' : Db)
    → 0 < threshold
    → IsValid db
    → credit_deposit threshold drawn t db ≡ ok (txn, event, db')
    → (account clearing : Account) × (account_id_of t.details ≡ ok account.id)
      × (Accounts.owned clearing_owner (upper account.currency) clearing ≡ true)
      × Credited t account.id clearing.id db db'
unfolding credit_deposit
credit_deposit-Credited threshold drawn t db txn event db' positive v e =
    let m = of_amount t.amount t.currency in
    let (account_id, named, r3) = >>=-eq-ok (account_id_of t.details) _ e in
    let (account, locked, r4) = >>=-eq-ok (Accounts.lock account_id db) _ r3 in
    let (opened, opening, r5) =
      >>=-eq-ok (Accounts.get_or_create_internal clearing_owner account.currency drawn db) _ r4 in
    let (db2, posted, r6) =
      >>=-eq-ok (post (deposit_lines opened.0.id account.id m) t.id opened.1) _ r5 in
    let (db4, cut, r7) =
      >>=-eq-ok
        (snapshot_all threshold (account ∷ opened.0 ∷ [])
          (set_transaction_status t.id TransactionStatus.success db2))
        _ r6 in
    let id_same : account.id ≡ account_id =
      (==_iff _ _).0 (find-holds _ db.accounts account (lock-found account_id db account locked)) in
    let is : db4 ≡ db' = ap (λ (x : Outcome). x.2) (ok-injective r7) in
    let c =
      steps-Credited threshold t account opened.0 db opened.1 db2 db4 positive v
        (get_or_create_internal-Opened clearing_owner account.currency drawn db opened opening)
        posted cut in
    (
      account,
      opened.0,
      named ∙ ap (λ (i : ℕ). ok i) (sym id_same),
      get_or_create_internal-owned clearing_owner account.currency drawn db opened opening,
      subst (λ (x : Db). Credited t account.id opened.0.id db x) is c,
    )

guard-ok : (b : Bool) (e : Error) → guard b e ≡ ok tt → b ≡ true
guard-ok true e h = refl
guard-ok false e h = cc

-- What a deposit was that has been settled, and what that has done.
pub record Deposited (reference : Reference) (confirmed_amount : Option Decimal)
    (confirmed_currency : Option String) (db db' : Db) : Type 0 where
  pub txn : Transaction
  pub account : Account
  pub clearing : Account
  pub found : find (has_reference reference) db.transactions ≡ some txn
  pub waiting : txn.status ≡ TransactionStatus.pending
  pub currency_confirmed : currency_confirms confirmed_currency txn.currency ≡ true
  pub amount_confirmed :
      eq (confirmed_money confirmed_amount txn) (of_amount txn.amount txn.currency) ≡ true
  pub account_named : account_id_of txn.details ≡ ok account.id
  pub clearing_owned : Accounts.owned clearing_owner (upper account.currency) clearing ≡ true
  pub credited : Credited txn account.id clearing.id db db'

pub settle-Deposited :
    (threshold drawn : ℕ) (reference : Reference) (confirmed_amount : Option Decimal)
    (confirmed_currency : Option String) (db : Db) (txn : Transaction) (event : DomainEvent)
    (db' : Db)
    → 0 < threshold
    → IsValid db
    → settle threshold drawn reference confirmed_amount confirmed_currency db ≡ ok (txn, event, db')
    → Deposited reference confirmed_amount confirmed_currency db db'
unfolding settle
settle-Deposited threshold drawn reference amount currency db txn event db' positive v e =
    let (t, e0, r0) = >>=-eq-ok (pending_deposit reference db) _ e in
    let (u1, e1, r1) =
      >>=-eq-ok (guard (currency_confirms currency t.currency) deposit_amount_mismatch) _ r0 in
    let (u2, e2, r2) =
      >>=-eq-ok
        (guard (eq (confirmed_money amount t) (of_amount t.amount t.currency))
          deposit_amount_mismatch)
        _ r1 in
    let (account, clearing, named, owned_, c) =
      credit_deposit-Credited threshold drawn t db txn event db' positive v r2 in
    let (found, waiting) = pending_deposit-found reference db t e0 in
    record {
      txn = t;
      account = account;
      clearing = clearing;
      found = found;
      waiting = waiting;
      currency_confirmed = guard-ok _ deposit_amount_mismatch e1;
      amount_confirmed = guard-ok _ deposit_amount_mismatch e2;
      account_named = named;
      clearing_owned = owned_;
      credited = c;
    }
