-- ===== src/Domain/Aggregates/Balance.antt =====
-- `assert_balanced` decides double entry: the lines are accepted exactly when they sum to zero in
-- every currency.
use wallet_ledger_assesment.Base.{
  ℕ, ◌≡◌, refl, ◌↔◌, ◌⊎◌, inl, inr, Bool, true, false, String, List, [], ◌∷◌, ◌++◌, arith, ◌∙◌,
  if◌then◌else◌, Bool-cases, sym,
}
use wallet_ledger_assesment.Base.Int.{ℤ, pos, ◌+ℤ◌, int_laws, zero-+ℤ, +ℤ-zero, +ℤ_assoc}
use wallet_ledger_assesment.Base.Text.{str_eq, eq_iff, eq_refl}
use wallet_ledger_assesment.Domain.Errors.{ok, err, ledger_not_balanced}
use wallet_ledger_assesment.Domain.Money.{Money}
use wallet_ledger_assesment.Domain.Aggregates.{
  PostingLine, TransactionAggregate, debit, credit, Totals, add_total, totals_from, check_totals,
  assert_balanced,
}

-- The sum of the lines in one currency, the independent description of what is checked.
abbrev pub line_total : String → List PostingLine → ℤ
line_total c [] = pos 0
line_total c (l ∷ ls) = (if str_eq l.currency c then l.amount else pos 0) +ℤ line_total c ls

-- What the dictionary holds for a currency, zero where it has no key.
abbrev total_of : String → Totals → ℤ
total_of c [] = pos 0
total_of c ((d, y) ∷ t) = if str_eq d c then y else total_of c t

-- No key stands twice.
abbrev has_total : String → Totals → Bool
has_total c [] = false
has_total c ((d, y) ∷ t) = if str_eq d c then true else has_total c t

abbrev IsDistinct : Totals → Type 0
IsDistinct [] = Unit
IsDistinct ((d, y) ∷ t) = (has_total d t ≡ false) × IsDistinct t

has_total-add_total :
    (c k : String) (x : ℤ) (t : Totals)
    → str_eq c k ≡ false
    → has_total k (add_total c x t) ≡ has_total k t
unfolding add_total
has_total-add_total c k x [] h = ground arith
has_total-add_total c k x ((d, y) ∷ t) h =
    ground (arith, has_total-add_total c k x t h, eq_iff c k, eq_iff d c, eq_iff d k)

add_total-IsDistinct :
    (c : String) (x : ℤ) (t : Totals) → IsDistinct t → IsDistinct (add_total c x t)
unfolding add_total
add_total-IsDistinct c x [] h = ground arith
add_total-IsDistinct c x ((d, y) ∷ t) h =
    ground
      (arith, add_total-IsDistinct c x t h.1, has_total-add_total c d x t, eq_iff c d, eq_iff d c)

totals_from-IsDistinct :
    (ls : List PostingLine) (t : Totals) → IsDistinct t → IsDistinct (totals_from ls t)
unfolding totals_from
totals_from-IsDistinct [] t h = h
totals_from-IsDistinct (l ∷ ls) t h =
    totals_from-IsDistinct ls _ (add_total-IsDistinct l.currency l.amount t h)

total_of-add_total :
    (c k : String) (x : ℤ) (t : Totals)
    → total_of k (add_total c x t) ≡ total_of k t +ℤ (if str_eq c k then x else pos 0)
unfolding add_total
total_of-add_total c k x [] = ground (arith, zero-+ℤ (pos 0), zero-+ℤ x)
total_of-add_total c k x ((d, y) ∷ t) = elim (Bool-cases (str_eq d c)) [
  | inl same ↦
      rw same
        (ground (arith, eq_iff c k, eq_iff d c, eq_iff d k, +ℤ-zero y, +ℤ-zero (total_of k t)))
  | inr other ↦
      rw other
        (ground (arith, total_of-add_total c k x t, eq_iff c k, eq_iff d c, eq_iff d k, +ℤ-zero y))
]

total_of-totals_from :
    (k : String) (ls : List PostingLine) (t : Totals)
    → total_of k (totals_from ls t) ≡ total_of k t +ℤ line_total k ls
unfolding totals_from
total_of-totals_from k [] t = sym (+ℤ-zero _)
total_of-totals_from k (l ∷ ls) t =
    rw (total_of-totals_from k ls (add_total l.currency l.amount t), total_of-add_total, +ℤ_assoc)

-- The loop over the dictionary accepts exactly zero totals.
check_totals-ok : (t : Totals) → check_totals t ≡ ok tt → (c : String) → total_of c t ≡ pos 0
unfolding check_totals
check_totals-ok [] h c = refl
check_totals-ok ((d, y) ∷ t) h c = ground (arith, check_totals-ok t, check_totals-ok t _ c)

total_of-absent : (c : String) (t : Totals) → has_total c t ≡ false → total_of c t ≡ pos 0
total_of-absent c [] h = refl
total_of-absent c ((d, y) ∷ t) h = ground (arith, total_of-absent c t)

total_of-tail :
    (k c : String) (y : ℤ) (t : Totals)
    → has_total k t ≡ false
    → total_of c ((k, y) ∷ t) ≡ pos 0
    → total_of c t ≡ pos 0
total_of-tail k c y t absent h = ground (arith, eq_iff k c, total_of-absent k t absent)

check_totals-zero :
    (t : Totals) → IsDistinct t → ((c : String) → total_of c t ≡ pos 0) → check_totals t ≡ ok tt
unfolding check_totals
check_totals-zero [] d h = refl
check_totals-zero ((k, y) ∷ t) d h =
    let head : y ≡ pos 0 = rw (eq_refl k) at (h k) in
    rw (head, check_totals-zero t d.1 (λ c. total_of-tail k c y t d.0 (h c)))

-- A set of lines is accepted exactly when it sums to zero in every currency.
pub assert_balanced_iff :
    (t : TransactionAggregate)
    → (assert_balanced t ≡ ok tt) ↔ ((c : String) → line_total c t.lines ≡ pos 0)
unfolding assert_balanced
assert_balanced_iff t =
    let total : (c : String) → total_of c (totals_from t.lines []) ≡ line_total c t.lines =
      λ c. rw (total_of-totals_from c t.lines []) (zero-+ℤ _) in
    (
      λ h c. sym (total c) ∙ check_totals-ok (totals_from t.lines []) h c,
      λ h.
          check_totals-zero (totals_from t.lines []) (totals_from-IsDistinct t.lines [] tt)
            (λ c. total c ∙ h c),
    )

check_totals-cases :
    (t : Totals) → (check_totals t ≡ ok tt) ⊎ (check_totals t ≡ err ledger_not_balanced)
unfolding check_totals
check_totals-cases [] = inl refl
check_totals-cases ((c, y) ∷ t) = ground (arith, check_totals-cases t)

-- Lines that are not balanced are refused with the one error.
pub assert_balanced-cases :
    (t : TransactionAggregate)
    → (assert_balanced t ≡ ok tt) ⊎ (assert_balanced t ≡ err ledger_not_balanced)
unfolding assert_balanced
assert_balanced-cases t = check_totals-cases (totals_from t.lines [])

-- A debit and a credit of the same money are balanced, also onto other balanced lines.
pub line_total-append :
    (c : String) (xs ys : List PostingLine)
    → line_total c (xs ++ ys) ≡ line_total c xs +ℤ line_total c ys
line_total-append c [] ys = sym (zero-+ℤ _)
line_total-append c (x ∷ xs) ys = rw (line_total-append c xs ys) (sym (+ℤ_assoc _ _ _))

pub debit-credit-line_total :
    (c : String) (from to : ℕ) (m : Money) (t : TransactionAggregate)
    → line_total c (credit to m (debit from m t)).lines ≡ line_total c t.lines
unfolding debit credit
debit-credit-line_total c from to m t =
    rw (line_total-append c (t.lines ++ _) _, line_total-append c t.lines _)
      (elim (Bool-cases (str_eq m.currency c)) [
        | inl e ↦ rw e (omega int_laws)
        | inr e ↦ rw e (omega int_laws)
      ])
