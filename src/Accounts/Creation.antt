-- ===== src/Accounts/Creation.antt =====
-- Creating an account, on every branch: it is refused where a unique constraint is hurt, and found by
-- its identifier, its number and its owner where it is not.
use wallet_ledger_assesment.Base.{
  ℕ, suc, ◌<◌, ◌≡◌, refl, inl, inr, ◌⊎◌, Bool, true, false, String, none, some, List, [], ◌∷◌, ◌++◌,
  ◌==◌, ==-refl, arith, Bool-cases,
}
use wallet_ledger_assesment.Base.Lists.{find, find-append, any, All, All-append, All-imp}
use wallet_ledger_assesment.Base.Text.{upper, eq_refl, eq_iff}
use wallet_ledger_assesment.Domain.Errors.{ok, err, duplicate_account}
use wallet_ledger_assesment.Store.{Db}
use wallet_ledger_assesment.Store.Models.{Account}
use wallet_ledger_assesment.Accounts.{owned, violates, new_account, create, get, get_by_number}
use wallet_ledger_assesment.Accounts.Opening.{KeepsFound, find-appended}

-- The unique constraints hold of every pair of rows.
abbrev pub AllApart : List Account → Type 0
AllApart [] = Unit
AllApart (a ∷ xs) = All (λ b. violates a b ≡ false) xs × AllApart xs

-- Every identifier has been drawn, and no two accounts share a number or an owner and a currency.
pub record IsDistinct (db : Db) : Type 0 where
  pub drawn_ids : All (λ a. a.id < db.next_id) db.accounts
  pub apart : AllApart db.accounts

none_violated :
    (new : Account) (xs : List Account)
    → any (violates new) xs ≡ false
    → All (λ a. violates new a ≡ false) xs
none_violated new [] h = tt
none_violated new (a ∷ xs) h = (ground arith, none_violated new xs (ground arith))

violates-symmetric : (a b : Account) → violates a b ≡ false → violates b a ≡ false
violates-symmetric a b h = ground (
  arith,
  eq_iff a.owner_id b.owner_id,
  eq_iff b.owner_id a.owner_id,
  eq_iff a.currency b.currency,
  eq_iff b.currency a.currency,
)

AllApart-append :
    (xs : List Account) (new : Account)
    → All (λ a. violates new a ≡ false) xs
    → AllApart xs
    → AllApart (xs ++ (new ∷ []))
AllApart-append [] new h apart = (tt, tt)
AllApart-append (a ∷ xs) new h apart = (
  All-append (λ b. violates a b ≡ false) xs (new ∷ []) apart.0 (violates-symmetric new a h.0, tt),
  AllApart-append xs new h.1 apart.1,
)

find-none : (q : Account → Bool) (xs : List Account) → All (λ a. q a ≡ false) xs → find q xs ≡ none
find-none q [] h = refl
find-none q (a ∷ xs) h = rw (h.0) (find-none q xs h.1)

any-found :
    (q : Account → Bool) (xs : List Account)
    → any q xs ≡ true
    → (a : Account) × (find q xs ≡ some a) × (q a ≡ true)
any-found q [] h = cc
any-found q (x ∷ xs) h = elim (Bool-cases (q x)) [
  | inl there ↦ (x, rw there refl, there)
  | inr not_there ↦ let (a, found, t) = any-found q xs (ground arith) in (a, rw not_there found, t)
]

-- A new account, and where it is found.
pub record Created (owner_id currency : String) (drawn : ℕ) (db : Db) : Type 0 where
  pub account : Account
  pub db' : Db
  pub returned : create owner_id currency drawn db ≡ ok (account, db')
  pub by_id : get account.id db' ≡ ok account
  pub by_number : get_by_number account.number db' ≡ ok account
  pub belongs : owned owner_id (upper currency) account ≡ true
  pub kept : KeepsFound db db'
  pub distinct : IsDistinct db'

-- A refusal, and the account that is in the way.
pub record Refused (owner_id currency : String) (drawn : ℕ) (db : Db) : Type 0 where
  pub other : Account
  pub refused : create owner_id currency drawn db ≡ err duplicate_account
  pub other_found :
      find (violates (new_account owner_id currency drawn db.next_id)) db.accounts ≡ some other

module _ (owner_id currency : String) (drawn : ℕ) (db : Db) (d : IsDistinct db) where
  abbrev new : Account
  new = new_account owner_id currency drawn db.next_id

  abbrev opened : Db
  opened = record db { next_id = suc db.next_id; accounts = db.accounts ++ (new ∷ []) }

  opened-IsDistinct : any (violates new) db.accounts ≡ false → IsDistinct opened
  unfolding new_account
  opened-IsDistinct clear = record {
    drawn_ids =
        All-append (λ a. a.id < suc db.next_id) db.accounts (new ∷ [])
          (All-imp _ _ db.accounts (λ a (h : a.id < db.next_id). omega arith) d.drawn_ids)
          (omega arith, tt);
    apart = AllApart-append db.accounts new (none_violated new db.accounts clear) d.apart;
  }

  unknown_id : find (λ a. a.id == new.id) db.accounts ≡ none
  unfolding new_account
  unknown_id =
      find-none (λ a. a.id == new.id) db.accounts
        (All-imp _ _ db.accounts (λ a (h : a.id < db.next_id). ground arith) d.drawn_ids)

  unknown_number :
      any (violates new) db.accounts ≡ false → find (λ a. a.number == new.number) db.accounts ≡ none
  unknown_number clear =
      find-none (λ a. a.number == new.number) db.accounts
        (All-imp _ _ db.accounts (λ a (h : violates new a ≡ false). ground arith)
          (none_violated new db.accounts clear))

  -- Where every identifier has been drawn from the counter and the unique constraints hold, creating
  -- an account either is refused as a duplicate, and an account with its number or with its owner
  -- and currency is there; or it returns an account of the owner in the currency, which its
  -- identifier and its number find afterwards, every account that a query found is still found,
  -- and the identifiers and the unique constraints are as before.
  pub create-cases : Created owner_id currency drawn db ⊎ Refused owner_id currency drawn db
  unfolding create get get_by_number new_account
  create-cases = elim (Bool-cases (any (violates new) db.accounts)) [
    | inl taken ↦
        let (other, found, t) = any-found (violates new) db.accounts taken in
        inr (record { other = other; refused = rw taken refl; other_found = found })
    | inr clear ↦ inl (record {
      account = new;
      db' = opened;
      returned = rw clear refl;
      by_id =
          rw (find-appended (λ a. a.id == new.id) db.accounts new unknown_id (==-refl new.id)) refl;
      by_number =
          rw
            (find-appended (λ a. a.number == new.number) db.accounts new (unknown_number clear)
              (==-refl new.number))
            refl;
      belongs = rw (eq_refl owner_id, eq_refl (upper currency)) refl;
      kept = λ q a found. find-append q db.accounts (new ∷ []) a found;
      distinct = opened-IsDistinct clear;
    })
  ]
