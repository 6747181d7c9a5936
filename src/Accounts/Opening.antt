-- ===== src/Accounts/Opening.antt =====
-- Opening accounts: what was found before is found after, and what was opened is found.
use wallet_ledger_assesment.Base.{
  ℕ, ◌≡◌, ap, ◌∙◌, inl, inr, Bool, true, String, Option, none, some, List, [], ◌∷◌, ◌++◌,
  Bool-cases, subst,
}
use wallet_ledger_assesment.Base.Lists.{find, find-append, any}
use wallet_ledger_assesment.Base.Text.{upper, eq_refl}
use wallet_ledger_assesment.Domain.Errors.{ok, ok-injective}
use wallet_ledger_assesment.Store.{Db}
use wallet_ledger_assesment.Store.Models.{Account}
use wallet_ledger_assesment.Accounts.{
  owned, violates, new_account, create, insert_internal, or_insert, get_or_create_internal,
}

-- Every account that a query found, it still finds.
abbrev pub KeepsFound : Db → Db → Type 0
KeepsFound db db' =
    (q : Account → Bool) (a : Account) → find q db.accounts ≡ some a → find q db'.accounts ≡ some a

pub same-KeepsFound : (db db' : Db) → db'.accounts ≡ db.accounts → KeepsFound db db'
same-KeepsFound db db' same q a found = ap (find q) same ∙ found

pub find-appended :
    (q : Account → Bool) (xs : List Account) (a : Account)
    → find q xs ≡ none
    → q a ≡ true
    → find q (xs ++ (a ∷ [])) ≡ some a
find-appended q [] a h t = rw t
find-appended q (x ∷ xs) a h t = elim (Bool-cases (q x)) [
  | inl there ↦ let k = rw there at h in cc
  | inr not_there ↦ rw not_there (find-appended q xs a (rw not_there at h) t)
]

insert_internal-KeepsFound :
    (owner_id currency : String) (drawn : ℕ) (db : Db) (r : Account × Db)
    → insert_internal owner_id currency drawn db ≡ ok r
    → KeepsFound db r.1
insert_internal-KeepsFound owner_id currency drawn db r e =
    let new = new_account owner_id currency drawn db.next_id in
    elim (Bool-cases (any (violates new) db.accounts)) [
      | inl taken ↦ let h = rw taken at e in cc
      | inr clear ↦
          let h = rw clear at e in
          subst (λ (x : Db). KeepsFound db x) (ap (λ (p : Account × Db). p.1) (ok-injective h))
            (λ q a found. find-append q db.accounts (new ∷ []) a found)
    ]

or_insert-KeepsFound :
    (o : Option Account) (owner_id currency : String) (drawn : ℕ) (db : Db) (r : Account × Db)
    → or_insert o owner_id currency drawn db ≡ ok r
    → KeepsFound db r.1
or_insert-KeepsFound (some a) owner_id currency drawn db r e =
    subst (λ (x : Db). KeepsFound db x) (ap (λ (p : Account × Db). p.1) (ok-injective e))
      (λ q b found. found)
or_insert-KeepsFound none owner_id currency drawn db r e =
    insert_internal-KeepsFound owner_id currency drawn db r e

pub get_or_create_internal-KeepsFound :
    (owner_id currency : String) (drawn : ℕ) (db : Db) (r : Account × Db)
    → get_or_create_internal owner_id currency drawn db ≡ ok r
    → KeepsFound db r.1
unfolding get_or_create_internal
get_or_create_internal-KeepsFound owner_id currency drawn db r e =
    or_insert-KeepsFound (find (owned owner_id (upper currency)) db.accounts) owner_id currency
      drawn db r e

-- A created account is the one that its owner and currency find, if the currency is in capitals.
pub create-found :
    (owner_id currency : String) (drawn : ℕ) (db : Db) (r : Account × Db)
    → upper currency ≡ currency
    → find (owned owner_id currency) db.accounts ≡ none
    → create owner_id currency drawn db ≡ ok r
    → (find (owned owner_id currency) r.1.accounts ≡ some r.0) × KeepsFound db r.1
unfolding create new_account
create-found owner_id currency drawn db r capital missing e =
    let new = new_account owner_id currency drawn db.next_id in
    elim (Bool-cases (any (violates new) db.accounts)) [
      | inl taken ↦ let h = rw taken at e in cc
      | inr clear ↦
          let h = rw clear at e in
          subst
            (λ (p : Account × Db).
              (find (owned owner_id currency) p.1.accounts ≡ some p.0) × KeepsFound db p.1)
            (ok-injective h)
            (
              find-appended (owned owner_id currency) db.accounts new missing
                  (rw (capital, eq_refl owner_id, eq_refl currency)),
              λ q a found. find-append q db.accounts (new ∷ []) a found,
            )
    ]
