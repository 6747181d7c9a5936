-- ===== src/Api/Amounts.antt =====
-- The amounts in the answers (wallet_ledger/api/serializers.py) are exact: who reads their text has
-- the amount.
use wallet_ledger_assesment.Base.{
  ℕ, suc, ◌+◌, ◌*◌, ◌/◌, ◌≡◌, ap, ◌∙◌, inl, inr, String, some, arith,
}
use wallet_ledger_assesment.Base.Int.{ℤ, pos, negsuc, neg, ◌*ℤ◌, magnitude}
use wallet_ledger_assesment.Domain.Decimals.{with_magnitude}
use wallet_ledger_assesment.Domain.Money.{Money, money_scale, decimals_for, quantum}
use wallet_ledger_assesment.Domain.Money.Laws.{
  IsMultiple, IsNormal, with_magnitude-*ℤ, quantum-cases,
}
use wallet_ledger_assesment.Wire.Numerals.{decimal_of_text}
use wallet_ledger_assesment.Wire.Texts.{decimal_of_text-decimal_text}
use wallet_ledger_assesment.Api.Serializers.{divided, stored_text, money_text}

divided-magnitude : (a : ℤ) (q : ℕ) → divided a q ≡ with_magnitude a (magnitude a / q)
unfolding with_magnitude neg
divided-magnitude (pos n) q = let same : n ≡ n + 0 = omega arith in ap (λ (x : ℕ). pos (x / q)) same
divided-magnitude (negsuc n) q =
    let same : suc n ≡ 0 + suc n = omega arith in ap (λ (x : ℕ). neg (pos (x / q))) same

exact_quotient :
    (a : ℤ) (c : String)
    → IsMultiple (quantum c) a
    → (magnitude a / quantum c) * quantum c ≡ magnitude a
exact_quotient a c h = elim (quantum-cases c) [
  | inl e ↦ rw e (let k = rw e at h in omega arith)
  | inr e ↦ rw e (let k = rw e at h in omega arith)
]

-- The text of an amount of `Money`, as it is read.
pub record ReadsBack (m : Money) : Type 0 where
  pub units : ℤ
  pub read :
      decimal_of_text (money_text m)
      ≡ some (record { coefficient = units; scale = decimals_for m.currency })
  pub exact : units *ℤ pos (quantum m.currency) ≡ m.amount

-- The text of a stored amount is read as that amount with the decimals of the column, and the text of
-- an amount of `Money`, normalised, is read as a number with the decimals of its currency, whose
-- units make up the amount.
pub amounts_read_back :
    ((x : ℤ)
      → decimal_of_text (stored_text x) ≡ some (record { coefficient = x; scale = money_scale }))
    × ((m : Money) → IsNormal m → ReadsBack m)
unfolding stored_text money_text
amounts_read_back = (
  λ x. decimal_of_text-decimal_text _,
  λ m normal. record {
    units = divided m.amount (quantum m.currency);
    read = decimal_of_text-decimal_text _;
    exact =
        ap (λ (x : ℤ). x *ℤ pos (quantum m.currency))
          (divided-magnitude m.amount (quantum m.currency))
        ∙ with_magnitude-*ℤ m.amount (magnitude m.amount / quantum m.currency) (quantum m.currency)
            (exact_quotient m.amount m.currency normal.multiple);
  },
)
