-- ===== src/Accounts.antt =====
-- Access to accounts (wallet_ledger/application/accounts.py). `drawn` is the random number from which
-- an account's number is made. A row lock changes nothing of what one session sees, so `lock` reads
-- like `get`.
pub mod Lookup
pub mod Opening
pub mod Creation
use wallet_ledger_assesment.Base.{
  ℕ, Bool, ◌&&◌, ◌||◌, String, Option, none, some, ◌==◌, if◌then◌else◌,
}
use wallet_ledger_assesment.Base.Lists.{find, any}
use wallet_ledger_assesment.Base.Text.{str_eq, upper}
use wallet_ledger_assesment.Domain.Errors.{
  Result, ok, err, account_not_found, duplicate_account, integrity_error,
}
use wallet_ledger_assesment.Store.{Db, get_account, add_account, fresh_id}
use wallet_ledger_assesment.Store.Models.{Account, generate_account_number}

abbrev or_account_not_found : Option Account → Result Account
or_account_not_found none = err account_not_found
or_account_not_found (some a) = ok a

unfoldable pub get : ℕ → Db → Result Account
get account_id db = or_account_not_found (get_account account_id db)

unfoldable pub get_by_number : ℕ → Db → Result Account
get_by_number number db = or_account_not_found (find (λ a. a.number == number) db.accounts)

unfoldable pub lock : ℕ → Db → Result Account
lock account_id db = or_account_not_found (get_account account_id db)

-- The unique constraints of the table: (owner, currency), and the number.
abbrev pub owned : String → String → Account → Bool
owned owner_id currency a = str_eq a.owner_id owner_id && str_eq a.currency currency

abbrev pub violates : Account → Account → Bool
violates new a = owned new.owner_id new.currency a || a.number == new.number

abbrev pub new_account : String → String → ℕ → ℕ → Account
unfolding generate_account_number
new_account owner_id currency drawn id = record {
  id = id;
  number = generate_account_number drawn;
  owner_id = owner_id;
  currency = upper currency;
}

unfoldable pub create : String → String → ℕ → Db → Result (Account × Db)
create owner_id currency drawn db =
    let (id, db') = fresh_id db in
    let account = new_account owner_id currency drawn id in
    if any (violates account) db.accounts
    then err duplicate_account
    else ok (account, add_account account db')

-- A collision of numbers is not caught here.
abbrev insert_internal : String → String → ℕ → Db → Result (Account × Db)
insert_internal owner_id currency drawn db =
    let (id, db') = fresh_id db in
    let account = new_account owner_id currency drawn id in
    if any (violates account) db.accounts
    then err integrity_error
    else ok (account, add_account account db')

abbrev or_insert : Option Account → String → String → ℕ → Db → Result (Account × Db)
or_insert (some a) owner_id currency drawn db = ok (a, db)
or_insert none owner_id currency drawn db = insert_internal owner_id currency drawn db

unfoldable pub get_or_create_internal : String → String → ℕ → Db → Result (Account × Db)
get_or_create_internal owner_id currency drawn db =
    or_insert (find (owned owner_id (upper currency)) db.accounts) owner_id currency drawn db
