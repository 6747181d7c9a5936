-- ===== src/Store/Sums.antt =====
-- Sums of ledger entries under a condition, `coalesce(sum(amount), 0)`, and how they change when
-- rows are added or rewritten.
use mathlib.Core.Option.{some-injective}
use wallet_ledger_assesment.Base.{
  ◌≡◌, refl, Bool, true, not, ◌&&◌, List, [], ◌∷◌, ◌++◌, some, Bool-cases, inl, inr, sym, ap,
  if◌then◌else◌,
}
use wallet_ledger_assesment.Base.Int.{cross, ℤ, pos, ◌+ℤ◌, int_laws, zero-+ℤ, +ℤ_assoc}
use wallet_ledger_assesment.Base.Lists.{find, update}
use wallet_ledger_assesment.Store.Models.{LedgerEntry}
use wallet_ledger_assesment.Store.{update_first}

-- The contribution of one row.
abbrev pub counted : (LedgerEntry → Bool) → LedgerEntry → ℤ
counted p e = if p e then e.amount else pos 0

abbrev pub sum_where : (LedgerEntry → Bool) → List LedgerEntry → ℤ
sum_where p [] = pos 0
sum_where p (e ∷ es) = counted p e +ℤ sum_where p es

pub sum_where-append :
    (p : LedgerEntry → Bool) (xs ys : List LedgerEntry)
    → sum_where p (xs ++ ys) ≡ sum_where p xs +ℤ sum_where p ys
sum_where-append p [] ys = sym (zero-+ℤ _)
sum_where-append p (x ∷ xs) ys = rw (sum_where-append p xs ys) (sym (+ℤ_assoc _ _ _))

-- Two conditions that agree on every row give the same sum.
pub sum_where-agree :
    (p q : LedgerEntry → Bool) (xs : List LedgerEntry)
    → ((e : LedgerEntry) → p e ≡ q e)
    → sum_where p xs ≡ sum_where q xs
sum_where-agree p q [] h = refl
sum_where-agree p q (x ∷ xs) h = rw (h x, sum_where-agree p q xs h)

-- A condition is split by another one.
pub sum_where-split :
    (p q : LedgerEntry → Bool) (xs : List LedgerEntry)
    → sum_where p xs ≡ sum_where (λ e. p e && q e) xs +ℤ sum_where (λ e. p e && not (q e)) xs
sum_where-split p q [] = sym (zero-+ℤ _)
sum_where-split p q (x ∷ xs) = rw (sum_where-split p q xs) (elim (Bool-cases (p x)) [
  | inl a ↦ elim (Bool-cases (q x)) [
    | inl b ↦ rw (a, b) (omega int_laws)
    | inr b ↦ rw (a, b) (omega int_laws)
  ]
  | inr a ↦ rw a (omega int_laws)
])

-- Rewriting the row that a query found replaces its contribution.
pub sum_where-update_first :
    (p q : LedgerEntry → Bool) (f : LedgerEntry → LedgerEntry) (xs : List LedgerEntry)
    (e : LedgerEntry)
    → find q xs ≡ some e
    → sum_where p (update_first q f xs) +ℤ counted p e ≡ sum_where p xs +ℤ counted p (f e)
sum_where-update_first p q f [] e h = cc
sum_where-update_first p q f (x ∷ xs) e h = elim (Bool-cases (q x)) [
  | inl a ↦ let same : x ≡ e = some-injective _ _ (rw a at h) in rw (a, same) (omega int_laws)
  | inr a ↦ rw a (omega (int_laws, cross (sum_where-update_first p q f xs e (rw a at h))))
]

-- Rewriting that changes no contribution changes no sum.
pub sum_where-update :
    (p q : LedgerEntry → Bool) (f : LedgerEntry → LedgerEntry) (xs : List LedgerEntry)
    → ((e : LedgerEntry) → q e ≡ true → counted p (f e) ≡ counted p e)
    → sum_where p (update q f xs) ≡ sum_where p xs
sum_where-update p q f [] h = refl
sum_where-update p q f (x ∷ xs) h = rw (sum_where-update p q f xs h) (elim (Bool-cases (q x)) [
  | inl a ↦ rw a (ap (λ (t : ℤ). t +ℤ sum_where p xs) (h x a))
  | inr a ↦ rw a
])

-- Rewriting that takes rows out of a sum leaves the sum of the others.
pub sum_where-released :
    (p q : LedgerEntry → Bool) (f : LedgerEntry → LedgerEntry) (xs : List LedgerEntry)
    → ((e : LedgerEntry) → q e ≡ true → counted p (f e) ≡ pos 0)
    → sum_where p (update q f xs) ≡ sum_where (λ e. p e && not (q e)) xs
sum_where-released p q f [] h = refl
sum_where-released p q f (x ∷ xs) h = rw (sum_where-released p q f xs h) (elim (Bool-cases (q x)) [
  | inl a ↦ elim (Bool-cases (p x)) [ inl b ↦ rw (a, b, h x a) | inr b ↦ rw (a, b, h x a) ]
  | inr a ↦ elim (Bool-cases (p x)) [ inl b ↦ rw (a, b) | inr b ↦ rw (a, b) ]
])
