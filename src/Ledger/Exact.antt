-- ===== src/Ledger/Exact.antt =====
-- Where every row of an account is a multiple of the account's smallest amount, the rounding of
-- `Money` changes nothing: `available_balance` is the settled sum and the reserved debits.
use wallet_ledger_assesment.Base.{
  ℕ, ◌≡◌, inl, inr, Bool, true, String, List, [], ◌∷◌, arith, ◌==◌, Bool-cases,
}
use wallet_ledger_assesment.Base.Int.{pos}
use wallet_ledger_assesment.Base.Lists.{All, All-imp}
use wallet_ledger_assesment.Domain.Money.{quantum}
use wallet_ledger_assesment.Domain.Money.Laws.{
  IsMultiple, IsMultiple-+ℤ, of_amount-amount, quantum-pos,
}
use wallet_ledger_assesment.Store.{Db}
use wallet_ledger_assesment.Store.Models.{Account, LedgerEntry}
use wallet_ledger_assesment.Store.Sums.{counted, sum_where}
use wallet_ledger_assesment.Ledger.{reserved_debit, balance, available_balance}
use wallet_ledger_assesment.Ledger.Snapshots.{settled, full_balance, AllSound, balance-eq-full}
use wallet_ledger_assesment.Ledger.Invariant.{reserved, available}

-- The rows of an account are multiples of its smallest amount.
abbrev pub IsExactRow : ℕ → String → LedgerEntry → Type 0
IsExactRow a c e = (e.account_id == a) ≡ true → IsMultiple (quantum c) e.amount

abbrev pub IsExact : Account → Db → Type 0
IsExact account db = All (IsExactRow account.id account.currency) db.entries

zero-IsMultiple : (c : String) → IsMultiple (quantum c) (pos 0)
zero-IsMultiple c = let p = quantum-pos c in omega arith

pub sum-IsMultiple :
    (c : String) (p : LedgerEntry → Bool) (es : List LedgerEntry)
    → All (λ e. p e ≡ true → IsMultiple (quantum c) e.amount) es
    → IsMultiple (quantum c) (sum_where p es)
sum-IsMultiple c p [] h = zero-IsMultiple c
sum-IsMultiple c p (e ∷ es) h =
    IsMultiple-+ℤ c (counted p e) (sum_where p es)
      (elim (Bool-cases (p e)) [ inl t ↦ rw t (h.0 t) | inr f ↦ rw f (zero-IsMultiple c) ])
      (sum-IsMultiple c p es h.1)

settled_of : (a : ℕ) (e : LedgerEntry) → settled a e ≡ true → (e.account_id == a) ≡ true
settled_of a e h = ground arith

reserved_of : (a : ℕ) (e : LedgerEntry) → reserved_debit a e ≡ true → (e.account_id == a) ≡ true
reserved_of a e h = ground arith

module _ (account : Account) (db : Db) (sound : AllSound db) (exact : IsExact account db) where
  pub full-IsMultiple : IsMultiple (quantum account.currency) (full_balance account.id db)
  full-IsMultiple =
      sum-IsMultiple account.currency (settled account.id) db.entries
        (All-imp _ _ db.entries (λ e h s. h (settled_of account.id e s)) exact)

  reserved-IsMultiple : IsMultiple (quantum account.currency) (reserved account.id db)
  reserved-IsMultiple =
      sum-IsMultiple account.currency (reserved_debit account.id) db.entries
        (All-imp _ _ db.entries (λ e h s. h (reserved_of account.id e s)) exact)

  -- With sound snapshots, and rows that are multiples of the smallest amount of the account's
  -- currency, the balance is the sum of all settled rows of the account, and what is available is
  -- that sum and the (negative) reserved debits: no rounding and no snapshot shows.
  pub balance_exact :
      ((balance account db).amount ≡ full_balance account.id db)
      × ((available_balance account db).amount ≡ available account.id db)
  unfolding balance available_balance
  balance_exact =
      let settled_sum : (balance account db).amount ≡ full_balance account.id db =
        rw (balance-eq-full account.id db (sound.at account.id))
          (of_amount-amount _ account.currency full-IsMultiple) in
      (
        settled_sum,
        rw settled_sum (
            of_amount-amount _ account.currency
              (IsMultiple-+ℤ account.currency _ _ full-IsMultiple reserved-IsMultiple)),
      )
