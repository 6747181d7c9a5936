-- ===== src/Wire/Reading.antt =====
-- The digits of a number are read back as the number, whatever fuel above it they were written with.
use wallet_ledger_assesment.Base.{
  ℕ, zero, suc, ◌+◌, ◌-◌, ◌*◌, ◌/◌, ◌%◌, ◌<◌, ◌≡◌, refl, ap, ◌∙◌, inl, inr, true, List, [], ◌∷◌,
  ◌++◌, ltb, arith, Bool-cases,
}
use wallet_ledger_assesment.Base.Lists.{All, All-append, length, length-append}
use wallet_ledger_assesment.Wire.Numerals.{is_digit, digits}
use wallet_ledger_assesment.Wire.Numbers.{show_digits, show_nat}

abbrev pub IsDigit : ℕ → Type 0
IsDigit c = is_digit c ≡ true

-- The number that digits stand for, after a number.
abbrev pub read : List ℕ → ℕ → ℕ
read [] n = n
read (c ∷ cs) n = read cs (n * 10 + (c - b'0'))

read-last : (cs : List ℕ) (c n : ℕ) → read (cs ++ (c ∷ [])) n ≡ read cs n * 10 + (c - b'0')
read-last [] c n = refl
read-last (d ∷ cs) c n = read-last cs c (n * 10 + (d - b'0'))

pub digits-read :
    (ds rest : List ℕ) (n k : ℕ)
    → All IsDigit ds
    → digits (ds ++ rest) n k ≡ digits rest (read ds n) (length ds + k)
unfolding digits
digits-read [] rest n k h = ap (digits rest n) (omega arith)
digits-read (d ∷ ds) rest n k h =
    rw (h.0, digits-read ds rest (n * 10 + (d - b'0')) (suc k) h.1)
      (ap (digits rest (read ds (n * 10 + (d - b'0')))) (omega arith))

-- Digits that stand for a number.
pub record Digits (n : ℕ) (ds : List ℕ) : Type 0 where
  pub only : All IsDigit ds
  pub reads : read ds 0 ≡ n
  pub present : 0 < length ds

shifted-IsDigit : (n : ℕ) → n < 10 → IsDigit (b'0' + n)
shifted-IsDigit n h = ground arith

show_digits-Digits :
    (f n : ℕ) (rest : List ℕ)
    → n < f
    → (ds : List ℕ) × (show_digits f n rest ≡ ds ++ rest) × Digits n ds
unfolding show_digits
show_digits-Digits zero n rest h = absurd (omega arith)
show_digits-Digits (suc f) n rest h = elim (Bool-cases (ltb n 10)) [
  | inl small ↦
      let below : n < 10 = ground arith in
      (
        (b'0' + n) ∷ [],
        rw small refl,
        record { only = (shifted-IsDigit n below, tt); reads = omega arith; present = omega arith },
      )
  | inr large ↦
      let above : 9 < n = ground arith in
      let last = b'0' + n % 10 in
      let (ds, shown, is) = show_digits-Digits f (n / 10) (last ∷ rest) (omega arith) in
      (
        ds ++ (last ∷ []),
        rw large (shown ∙ snoc ds last rest),
        record {
          only =
              All-append IsDigit ds (last ∷ []) is.only
                (shifted-IsDigit (n % 10) (omega arith), tt);
          reads = rw (read-last ds last 0, is.reads) (omega arith);
          present = rw (length-append ds (last ∷ [])) (omega arith);
        },
      )
]
  where
    snoc : (xs : List ℕ) (y : ℕ) (zs : List ℕ) → xs ++ (y ∷ zs) ≡ (xs ++ (y ∷ [])) ++ zs
    snoc [] y zs = refl
    snoc (x ∷ xs) y zs = ap (λ (l : List ℕ). x ∷ l) (snoc xs y zs)

pub append-nil : (xs : List ℕ) → xs ++ [] ≡ xs
append-nil [] = refl
append-nil (x ∷ xs) = ap (λ (l : List ℕ). x ∷ l) (append-nil xs)

-- The text of a number has digits that stand for it, so the fuel is enough.
pub show_nat-Digits : (n : ℕ) → Digits n (show_nat n)
unfolding show_nat
show_nat-Digits n =
    let (ds, shown, is) = show_digits-Digits (suc n) n [] (omega arith) in
    rw (shown, append-nil ds) is
