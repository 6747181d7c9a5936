-- ===== src/Accounts/Lookup.antt =====
-- What the lookups of accounts return, and what they leave alone.
use wallet_ledger_assesment.Base.{
  ℕ, ◌≤◌, arith, ◌≡◌, refl, inl, inr, ap, true, String, Option, none, some, Option-cases,
  Bool-cases, subst,
}
use wallet_ledger_assesment.Base.Lists.{find, find-holds, any}
use wallet_ledger_assesment.Base.Text.{upper, eq_refl}
use wallet_ledger_assesment.Domain.Errors.{ok, ok-injective}
use wallet_ledger_assesment.Store.{Db, get_account}
use wallet_ledger_assesment.Store.Models.{Account}
use wallet_ledger_assesment.Ledger.Invariant.{SameLedger, SameLedger-refl}
use wallet_ledger_assesment.Accounts.{
  get, lock, owned, violates, new_account, insert_internal, or_insert, get_or_create_internal,
}

pub get-found : (i : ℕ) (db : Db) (a : Account) → get i db ≡ ok a → get_account i db ≡ some a
unfolding get
get-found i db a e = elim (Option-cases (get_account i db)) [
  | inl missing ↦ let h = rw missing at e in cc
  | inr (b, found) ↦ let h = rw found at e in cc
]

pub lock-found : (i : ℕ) (db : Db) (a : Account) → lock i db ≡ ok a → get_account i db ≡ some a
unfolding lock get
lock-found = get-found

-- Finding or opening an internal account leaves the ledger and the transactions alone.
pub record Opened (db db' : Db) : Type 0 where
  pub ledger : SameLedger db db'
  pub transactions : db'.transactions ≡ db.transactions
  pub grown : db.next_id ≤ db'.next_id

Opened-refl : (db : Db) → Opened db db
Opened-refl db = record { ledger = SameLedger-refl db; transactions = refl; grown = omega arith }

insert_internal-Opened :
    (owner_id currency : String) (drawn : ℕ) (db : Db) (r : Account × Db)
    → insert_internal owner_id currency drawn db ≡ ok r
    → Opened db r.1
insert_internal-Opened owner_id currency drawn db r e =
    elim (Bool-cases
      (any (violates (new_account owner_id currency drawn db.next_id)) db.accounts)) [
        | inl taken ↦ let h = rw taken at e in cc
        | inr free ↦
            let h = rw free at e in
            subst (λ (x : Db). Opened db x) (ap (λ (p : Account × Db). p.1) (ok-injective h))
              (record {
                ledger = record { entries = refl; snapshots = refl; next_seq = refl };
                transactions = refl;
                grown = omega arith;
              })
      ]

or_insert-Opened :
    (o : Option Account) (owner_id currency : String) (drawn : ℕ) (db : Db) (r : Account × Db)
    → or_insert o owner_id currency drawn db ≡ ok r
    → Opened db r.1
or_insert-Opened (some a) owner_id currency drawn db r e =
    subst (λ (x : Db). Opened db x) (ap (λ (p : Account × Db). p.1) (ok-injective e))
      (Opened-refl db)
or_insert-Opened none owner_id currency drawn db r e =
    insert_internal-Opened owner_id currency drawn db r e

pub get_or_create_internal-Opened :
    (owner_id currency : String) (drawn : ℕ) (db : Db) (r : Account × Db)
    → get_or_create_internal owner_id currency drawn db ≡ ok r
    → Opened db r.1
unfolding get_or_create_internal
get_or_create_internal-Opened owner_id currency drawn db r e =
    or_insert-Opened (find (owned owner_id (upper currency)) db.accounts) owner_id currency drawn db
      r e

-- The account that is found or opened belongs to the owner and has the currency.
or_insert-owned :
    (o : Option Account) (owner_id currency : String) (drawn : ℕ) (db : Db) (r : Account × Db)
    → ((a : Account) → o ≡ some a → owned owner_id (upper currency) a ≡ true)
    → or_insert o owner_id currency drawn db ≡ ok r
    → owned owner_id (upper currency) r.0 ≡ true
unfolding new_account
or_insert-owned (some a) owner_id currency drawn db r h e =
    subst (λ (x : Account). owned owner_id (upper currency) x ≡ true)
      (ap (λ (p : Account × Db). p.0) (ok-injective e)) (h a refl)
or_insert-owned none owner_id currency drawn db r h e =
    elim (Bool-cases
      (any (violates (new_account owner_id currency drawn db.next_id)) db.accounts)) [
        | inl taken ↦ let k = rw taken at e in cc
        | inr free ↦
            let k = rw free at e in
            subst (λ (x : Account). owned owner_id (upper currency) x ≡ true)
              (ap (λ (p : Account × Db). p.0) (ok-injective k))
              (rw (eq_refl owner_id, eq_refl (upper currency)))
      ]

pub get_or_create_internal-owned :
    (owner_id currency : String) (drawn : ℕ) (db : Db) (r : Account × Db)
    → get_or_create_internal owner_id currency drawn db ≡ ok r
    → owned owner_id (upper currency) r.0 ≡ true
unfolding get_or_create_internal
get_or_create_internal-owned owner_id currency drawn db r e =
    or_insert-owned (find (owned owner_id (upper currency)) db.accounts) owner_id currency drawn db
      r (λ a found. find-holds (owned owner_id (upper currency)) db.accounts a found) e
