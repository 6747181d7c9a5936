-- ===== src/Ledger/Sorting.antt =====
-- `order_by(LedgerEntry.seq)` and `new_entries[-1]`: sorting by number keeps the rows and their sum,
-- and the last row has the largest number.
use wallet_ledger_assesment.Base.{
  ℕ, ◌≤◌, ◌≡◌, refl, inl, inr, sym, Bool, true, some, List, [], ◌∷◌, arith, leb, Bool-cases, ◌∙◌,
  subst,
}
use mathlib.Core.Bool.{false≢true}
use mathlib.Core.Option.{some-injective}
use native.Mathlib.Nat.{le_refl}
use wallet_ledger_assesment.Base.Int.{ℤ, pos, ◌+ℤ◌, int_laws, cross, zero-+ℤ, +ℤ-zero, +ℤ_assoc}
use wallet_ledger_assesment.Base.Lists.{filter, get_last?, All}
use wallet_ledger_assesment.Store.Models.{LedgerEntry}
use wallet_ledger_assesment.Store.Sums.{sum_where}
use wallet_ledger_assesment.Ledger.{insert_by_seq, order_by_seq, add_amounts}

-- The sum of the rows.
add_amounts-from : (es : List LedgerEntry) (t : ℤ) → add_amounts es t ≡ t +ℤ add_amounts es (pos 0)
unfolding add_amounts
add_amounts-from [] t = sym (+ℤ-zero t)
add_amounts-from (e ∷ es) t =
    rw (add_amounts-from es (t +ℤ e.amount), add_amounts-from es (pos 0 +ℤ e.amount), zero-+ℤ)
      (+ℤ_assoc _ _ _)

add_amounts-cons :
    (e : LedgerEntry) (es : List LedgerEntry)
    → add_amounts (e ∷ es) (pos 0) ≡ e.amount +ℤ add_amounts es (pos 0)
unfolding add_amounts
add_amounts-cons e es = rw (add_amounts-from es (pos 0 +ℤ e.amount), zero-+ℤ)

add_amounts-insert :
    (e : LedgerEntry) (es : List LedgerEntry)
    → add_amounts (insert_by_seq e es) (pos 0) ≡ e.amount +ℤ add_amounts es (pos 0)
unfolding insert_by_seq
add_amounts-insert e [] = add_amounts-cons e []
add_amounts-insert e (x ∷ xs) = elim (Bool-cases (leb e.seq x.seq)) [
  | inl h ↦ rw h (add_amounts-cons e (x ∷ xs))
  | inr h ↦
      rw (h, add_amounts-cons x (insert_by_seq e xs), add_amounts-cons x xs)
        (omega (int_laws, cross (add_amounts-insert e xs)))
]

pub add_amounts-order :
    (p : LedgerEntry → Bool) (es : List LedgerEntry)
    → add_amounts (order_by_seq (filter p es)) (pos 0) ≡ sum_where p es
unfolding add_amounts order_by_seq
add_amounts-order p [] = refl
add_amounts-order p (e ∷ es) = elim (Bool-cases (p e)) [
  | inl h ↦ rw (h, add_amounts-insert e (order_by_seq (filter p es)), add_amounts-order p es)
  | inr h ↦ rw (h, add_amounts-order p es) (sym (zero-+ℤ _))
]

-- The rows themselves.
module _ {κ} (P : LedgerEntry → Type κ) where
  All-insert :
      (e : LedgerEntry) (es : List LedgerEntry) → P e → All P es → All P (insert_by_seq e es)
  unfolding insert_by_seq
  All-insert e [] h hs = (h, tt)
  All-insert e (x ∷ xs) h hs = elim (Bool-cases (leb e.seq x.seq)) [
    | inl l ↦ rw l (h, hs)
    | inr l ↦ rw l (hs.0, All-insert e xs h hs.1)
  ]

  insert-All :
      (e : LedgerEntry) (es : List LedgerEntry) → All P (insert_by_seq e es) → P e × All P es
  unfolding insert_by_seq
  insert-All e [] h = h
  insert-All e (x ∷ xs) h = elim (Bool-cases (leb e.seq x.seq)) [
    | inl l ↦ rw l at h
    | inr l ↦
        let h' : P x × All P (insert_by_seq e xs) = rw l at h in
        let (he, hx) = insert-All e xs h'.1 in (he, (h'.0, hx))
  ]

  pub All-order : (es : List LedgerEntry) → All P es → All P (order_by_seq es)
  unfolding order_by_seq
  All-order [] h = tt
  All-order (e ∷ es) h = All-insert e (order_by_seq es) h.0 (All-order es h.1)

  pub order-All : (es : List LedgerEntry) → All P (order_by_seq es) → All P es
  unfolding order_by_seq
  order-All [] h = tt
  order-All (e ∷ es) h = let (he, hs) = insert-All e (order_by_seq es) h in (he, order-All es hs)

  -- What holds of every row holds of the last.
  pub All-last : (es : List LedgerEntry) (l : LedgerEntry) → All P es → get_last? es ≡ some l → P l
  All-last [] l h e = cc
  All-last (x ∷ []) l h e = subst P (some-injective _ _ e) h.0
  All-last (x ∷ y ∷ ys) l h e = All-last (y ∷ ys) l h.1 e

  -- What holds of every selected row.
  pub filter-All :
      (p : LedgerEntry → Bool) (es : List LedgerEntry)
      → All P (filter p es)
      → All (λ e. p e ≡ true → P e) es
  filter-All p [] h = tt
  filter-All p (e ∷ es) h = elim (Bool-cases (p e)) [
    | inl t ↦ let h' : P e × All P (filter p es) = rw t at h in (λ _. h'.0, filter-All p es h'.1)
    | inr f ↦
        let h' : All P (filter p es) = rw f at h in
        (λ t. absurd (false≢true (sym f ∙ t)), filter-All p es h')
  ]

pub All-filter :
    (p : LedgerEntry → Bool) (es : List LedgerEntry) → All (λ e. p e ≡ true) (filter p es)
All-filter p [] = tt
All-filter p (e ∷ es) = elim (Bool-cases (p e)) [
  | inl t ↦ rw t (t, All-filter p es)
  | inr f ↦ rw f (All-filter p es)
]

module _ {κ} (P : LedgerEntry → Type κ) where
  filter-keeps-All :
      (p : LedgerEntry → Bool) (es : List LedgerEntry) → All P es → All P (filter p es)
  filter-keeps-All p [] h = tt
  filter-keeps-All p (e ∷ es) h = elim (Bool-cases (p e)) [
    | inl t ↦ rw t (h.0, filter-keeps-All p es h.1)
    | inr f ↦ rw f (filter-keeps-All p es h.1)
  ]

-- What holds of every row holds of the last one selected.
pub last_of_order_among {κ} :
    (P : LedgerEntry → Type κ) (p : LedgerEntry → Bool) (es : List LedgerEntry) (l : LedgerEntry)
    → All P es
    → get_last? (order_by_seq (filter p es)) ≡ some l
    → P l
last_of_order_among P p es l h e =
    All-last P (order_by_seq (filter p es)) l
      (All-order P (filter p es) (filter-keeps-All P p es h)) e

-- In order of their numbers.
abbrev IsSorted : List LedgerEntry → Type 0
IsSorted [] = Unit
IsSorted (x ∷ xs) = All (λ e. x.seq ≤ e.seq) xs × IsSorted xs

All-weaken :
    (n m : ℕ) (es : List LedgerEntry) → n ≤ m → All (λ e. m ≤ e.seq) es → All (λ e. n ≤ e.seq) es
All-weaken n m [] h a = tt
All-weaken n m (e ∷ es) h a = (omega arith, All-weaken n m es h a.1)

insert-IsSorted :
    (e : LedgerEntry) (es : List LedgerEntry) → IsSorted es → IsSorted (insert_by_seq e es)
unfolding insert_by_seq
insert-IsSorted e [] h = (tt, tt)
insert-IsSorted e (x ∷ xs) h = elim (Bool-cases (leb e.seq x.seq)) [
  | inl l ↦
      let le : e.seq ≤ x.seq = ground arith in rw l ((le, All-weaken e.seq x.seq xs le h.0), h)
  | inr l ↦
      let le : x.seq ≤ e.seq = ground arith in
      rw l (All-insert (λ y. x.seq ≤ y.seq) e xs le h.0, insert-IsSorted e xs h.1)
]

order-IsSorted : (es : List LedgerEntry) → IsSorted (order_by_seq es)
unfolding order_by_seq
order-IsSorted [] = tt
order-IsSorted (e ∷ es) = insert-IsSorted e (order_by_seq es) (order-IsSorted es)

last_bounds :
    (es : List LedgerEntry) (l : LedgerEntry)
    → IsSorted es
    → get_last? es ≡ some l
    → All (λ e. e.seq ≤ l.seq) es
last_bounds [] l h e = tt
last_bounds (x ∷ []) l h e =
    (subst (λ (y : LedgerEntry). x.seq ≤ y.seq) (some-injective _ _ e) (le_refl x.seq), tt)
last_bounds (x ∷ y ∷ ys) l h e =
    let rest = last_bounds (y ∷ ys) l h.1 e in (omega (arith, h.0.0, rest.0), rest)

-- The last row of the sorted selection bounds the number of every row that the query selects.
pub last_of_order_bounds :
    (p : LedgerEntry → Bool) (es : List LedgerEntry) (l : LedgerEntry)
    → get_last? (order_by_seq (filter p es)) ≡ some l
    → All (λ e. p e ≡ true → e.seq ≤ l.seq) es
last_of_order_bounds p es l h =
    filter-All (λ e. e.seq ≤ l.seq) p es
      (order-All (λ e. e.seq ≤ l.seq) (filter p es)
        (last_bounds (order_by_seq (filter p es)) l (order-IsSorted (filter p es)) h))

-- And it is one of them.
pub last_of_order_selected :
    (p : LedgerEntry → Bool) (es : List LedgerEntry) (l : LedgerEntry)
    → get_last? (order_by_seq (filter p es)) ≡ some l
    → p l ≡ true
last_of_order_selected p es l h =
    All-last (λ e. p e ≡ true) (order_by_seq (filter p es)) l
      (All-order (λ e. p e ≡ true) (filter p es) (All-filter p es)) h
