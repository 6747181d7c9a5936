-- ===== src/Reversals/Mirroring.antt =====
-- A reversal takes back, account by account, what the transaction did.
use wallet_ledger_assesment.Base.{
  ℕ, ◌≡◌, refl, inl, inr, sym, ◌∙◌, Bool, List, [], ◌∷◌, ◌++◌, ◌==◌, Bool-cases, if◌then◌else◌,
}
use wallet_ledger_assesment.Base.Int.{
  ℤ, ◌+ℤ◌, neg, abs, magnitude, int_laws, cross, zero-+ℤ, +ℤ_assoc,
}
use wallet_ledger_assesment.Base.Lists.{All, All-append}
use wallet_ledger_assesment.Domain.Enums.{is_debit}
use wallet_ledger_assesment.Domain.Money.{of_amount, quantum}
use wallet_ledger_assesment.Domain.Money.Laws.{IsMultiple, of_amount-amount}
use wallet_ledger_assesment.Domain.Aggregates.{PostingLine, TransactionAggregate, debit, credit}
use wallet_ledger_assesment.Store.Models.{LedgerEntry}
use wallet_ledger_assesment.Store.Sums.{counted, sum_where}
use wallet_ledger_assesment.Ledger.Posting.{IsSettled}
use wallet_ledger_assesment.Ledger.Invariant.{account_total}
use wallet_ledger_assesment.Reversals.{mirror_row, mirror_rows}

abbrev pub of_account : ℕ → LedgerEntry → Bool
of_account a e = e.account_id == a

-- A row as `LedgerEntry.debit` and `LedgerEntry.credit` make it from an amount of its currency: a
-- debit is not positive, a credit not negative, and the amount is a multiple of the smallest one.
pub record IsProper (e : LedgerEntry) : Type 0 where
  pub sign : e.amount ≡ (if is_debit e.entry_type then neg (abs e.amount) else abs e.amount)
  pub exact : IsMultiple (quantum e.currency) e.amount

account_total-append :
    (a : ℕ) (xs ys : List PostingLine)
    → account_total a (xs ++ ys) ≡ account_total a xs +ℤ account_total a ys
account_total-append a [] ys = sym (zero-+ℤ _)
account_total-append a (x ∷ xs) ys = rw (account_total-append a xs ys) (sym (+ℤ_assoc _ _ _))

magnitude-abs : (x : ℤ) → magnitude (abs x) ≡ magnitude x
magnitude-abs x = omega int_laws

mirrored-amount :
    (e : LedgerEntry) → IsProper e → (of_amount (abs e.amount) e.currency).amount ≡ abs e.amount
mirrored-amount e p = of_amount-amount (abs e.amount) e.currency (rw magnitude-abs p.exact)

abs-abs : (x : ℤ) → abs (abs x) ≡ abs x
abs-abs x = omega int_laws

-- The mirror line of a row.
mirror_row-account_total :
    (a : ℕ) (e : LedgerEntry) (t : TransactionAggregate)
    → IsProper e
    → account_total a (mirror_row e t).lines
      ≡ account_total a t.lines +ℤ neg (counted (of_account a) e)
unfolding debit credit
mirror_row-account_total a e t p = elim (Bool-cases (is_debit e.entry_type)) [
  | inl d ↦
      let s : e.amount ≡ neg (abs e.amount) = rw d at p.sign in
      rw (d, account_total-append, mirrored-amount e p, abs-abs)
        (elim (Bool-cases (e.account_id == a)) [
          | inl same ↦ rw same (omega (int_laws, cross s))
          | inr other ↦ rw other (omega int_laws)
        ])
  | inr c ↦
      let s : e.amount ≡ abs e.amount = rw c at p.sign in
      rw (c, account_total-append, mirrored-amount e p, abs-abs)
        (elim (Bool-cases (e.account_id == a)) [
          | inl same ↦ rw same (omega (int_laws, cross s))
          | inr other ↦ rw other (omega int_laws)
        ])
]

pub mirror_rows-account_total :
    (a : ℕ) (es : List LedgerEntry) (t : TransactionAggregate)
    → All IsProper es
    → account_total a (mirror_rows es t).lines
      ≡ account_total a t.lines +ℤ neg (sum_where (of_account a) es)
mirror_rows-account_total a [] t h = omega int_laws
mirror_rows-account_total a (e ∷ es) t h =
    mirror_rows-account_total a es (mirror_row e t) h.1
    ∙ rw (mirror_row-account_total a e t h.0) (omega int_laws)

mirror_row-IsSettled :
    (e : LedgerEntry) (t : TransactionAggregate)
    → All IsSettled t.lines
    → All IsSettled (mirror_row e t).lines
unfolding debit credit
mirror_row-IsSettled e t h = elim (Bool-cases (is_debit e.entry_type)) [
  | inl d ↦ rw d (All-append IsSettled t.lines _ h (refl, tt))
  | inr c ↦ rw c (All-append IsSettled t.lines _ h (refl, tt))
]

pub mirror_rows-IsSettled :
    (es : List LedgerEntry) (t : TransactionAggregate)
    → All IsSettled t.lines
    → All IsSettled (mirror_rows es t).lines
mirror_rows-IsSettled [] t h = h
mirror_rows-IsSettled (e ∷ es) t h =
    mirror_rows-IsSettled es (mirror_row e t) (mirror_row-IsSettled e t h)
