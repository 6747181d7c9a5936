-- ===== src/Wire/Points.antt =====
-- Digits with a point among them, as they are read.
use wallet_ledger_assesment.Base.{
  ℕ, zero, suc, ◌+◌, ◌-◌, ◌*◌, ◌<◌, ◌≡◌, refl, ap, ◌∙◌, false, List, [], ◌∷◌, ◌++◌, ◌==◌, arith,
}
use wallet_ledger_assesment.Base.Lists.{All, length}
use wallet_ledger_assesment.Wire.Numerals.{is_digit, digits, fraction}
use wallet_ledger_assesment.Wire.Numbers.{insert_point, zeros}
use wallet_ledger_assesment.Wire.Reading.{IsDigit, read, digits-read}

-- The digits before and after a point: the number, how many digits, how many after the point, and
-- what follows.
abbrev pub after_point : ℕ → ℕ × ℕ × List ℕ → ℕ × ℕ × ℕ × List ℕ
after_point count (n, scale, rest) = (n, count + scale, scale, rest)

abbrev pub whole_then : ℕ × ℕ × List ℕ → ℕ × ℕ × ℕ × List ℕ
whole_then (whole, count, rest) = after_point count (fraction rest whole)

abbrev pub number : List ℕ → ℕ → ℕ → ℕ × ℕ × ℕ × List ℕ
number cs n k = whole_then (digits cs n k)

-- What stops the digits.
unfoldable pub IsStop : List ℕ → Type 0
IsStop [] = Unit
IsStop (c ∷ cs) = (is_digit c ≡ false) × ((c == b'.') ≡ false)

digits-stop : (rest : List ℕ) (n k : ℕ) → IsStop rest → digits rest n k ≡ (n, k, rest)
unfolding digits IsStop
digits-stop [] n k h = refl
digits-stop (c ∷ cs) n k h = rw (h.0) refl

fraction-stop : (rest : List ℕ) (n : ℕ) → IsStop rest → fraction rest n ≡ (n, 0, rest)
unfolding fraction IsStop
fraction-stop [] n h = refl
fraction-stop (c ∷ cs) n h = rw (h.1) refl

pub digits-all :
    (ds rest : List ℕ) (n k : ℕ)
    → All IsDigit ds
    → IsStop rest
    → digits (ds ++ rest) n k ≡ (read ds n, length ds + k, rest)
digits-all ds rest n k h s = digits-read ds rest n k h ∙ digits-stop rest _ _ s

pub number-plain :
    (ds rest : List ℕ) (n k : ℕ)
    → All IsDigit ds
    → IsStop rest
    → number (ds ++ rest) n k ≡ (read ds n, length ds + k, 0, rest)
number-plain ds rest n k h s =
    rw (digits-all ds rest n k h s, fraction-stop rest (read ds n) s)
      (ap (λ (x : ℕ). (read ds n, x, 0, rest)) (omega arith))

-- A point before some digits.
pub number-point :
    (ds rest : List ℕ) (n k : ℕ)
    → All IsDigit ds
    → IsStop rest
    → number ((b'.' ∷ ds) ++ rest) n k ≡ (read ds n, k + length ds, length ds, rest)
unfolding digits fraction
number-point ds rest n k h s =
    rw (digits-all ds rest n 0 h s) (ap (λ (x : ℕ). (read ds n, k + x, x, rest)) (omega arith))

pub number-digit :
    (d : ℕ) (cs : List ℕ) (n k : ℕ)
    → IsDigit d
    → number (d ∷ cs) n k ≡ number cs (n * 10 + (d - b'0')) (suc k)
unfolding digits
number-digit d cs n k h = rw h refl

pub number-inserted :
    (m : ℕ) (ds rest : List ℕ) (n k : ℕ)
    → All IsDigit ds
    → IsStop rest
    → m < length ds
    → number (insert_point m ds ++ rest) n k ≡ (read ds n, k + length ds, length ds - m, rest)
number-inserted m [] rest n k h s below = absurd (omega arith)
number-inserted zero (d ∷ ds) rest n k h s below =
    number-point (d ∷ ds) rest n k h s
    ∙ ap (λ (x : ℕ). (read (d ∷ ds) n, k + length (d ∷ ds), x, rest)) (omega arith)
number-inserted (suc m) (d ∷ ds) rest n k h s below =
    number-digit d (insert_point m ds ++ rest) n k h.0
    ∙ number-inserted m ds rest (n * 10 + (d - b'0')) (suc k) h.1 s (omega arith)
    ∙ ap (λ (x : ℕ × ℕ). (read (d ∷ ds) n, x.0, x.1, rest))
        (let p : suc k + length ds ≡ k + length (d ∷ ds) = omega arith in
          let q : length ds - m ≡ length (d ∷ ds) - suc m = omega arith in λ i. (p i, q i))

pub zeros-IsDigit : (z : ℕ) → All IsDigit (zeros z)
zeros-IsDigit zero = tt
zeros-IsDigit (suc z) = (refl, zeros-IsDigit z)

pub zeros-read : (z : ℕ) (ds : List ℕ) → read (zeros z ++ ds) 0 ≡ read ds 0
zeros-read zero ds = refl
zeros-read (suc z) ds = zeros-read z ds

pub zeros-length : (z : ℕ) → length (zeros z) ≡ z
zeros-length zero = refl
zeros-length (suc z) = rw (zeros-length z) (omega arith)
