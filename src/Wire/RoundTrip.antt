-- ===== src/Wire/RoundTrip.antt =====
-- A decimal that is written is read back as it was, with its number of decimals.
use wallet_ledger_assesment.Base.{
  ℕ, zero, suc, ◌+◌, ◌-◌, ◌<◌, ◌≡◌, refl, sym, ap, ◌∙◌, inl, inr, Bool, true, false, Option, none,
  some, List, [], ◌∷◌, ◌++◌, ltb, leb, ◌==◌, arith, Bool-cases, if◌then◌else◌,
}
use wallet_ledger_assesment.Base.Int.{ℤ, pos, negsuc, neg, int_laws}
use wallet_ledger_assesment.Base.Lists.{All, All-append, length, length-append}
use wallet_ledger_assesment.Domain.Decimals.{Decimal}
use wallet_ledger_assesment.Wire.Numerals.{
  digits, sign, signed, exponent, exponent_end, shifted, decimal_of_codes,
}
use wallet_ledger_assesment.Wire.Numbers.{
  show_nat, show_magnitude, show_decimal, insert_point, zeros, first_point,
}
use wallet_ledger_assesment.Wire.Points.{
  number, IsStop, number-plain, number-point, number-digit, number-inserted, zeros-IsDigit,
  zeros-read, zeros-length, digits-all,
}
use wallet_ledger_assesment.Wire.Reading.{IsDigit, read, Digits, show_nat-Digits, append-nil}

-- A number that has been read, with what follows it.
abbrev parsed : Bool → ℕ × ℕ × ℕ × List ℕ → Option Decimal
parsed minus (n, total, scale, rest) =
    if total == 0 then none else shifted (exponent rest) (signed minus n) scale

decimal_of_codes-number :
    (cs cs1 : List ℕ) (minus : Bool)
    → sign cs ≡ (minus, cs1)
    → decimal_of_codes cs ≡ parsed minus (number cs1 0 0)
unfolding decimal_of_codes
decimal_of_codes-number cs cs1 minus h = rw h refl

sign-digit : (d : ℕ) (cs : List ℕ) → IsDigit d → sign (d ∷ cs) ≡ (false, d ∷ cs)
unfolding sign
sign-digit d cs h = ground arith

-- The text ends, or goes on with an exponent.
shifted-end :
    (x : ℤ) (s : ℕ) → shifted (exponent []) x s ≡ some (record { coefficient = x; scale = s })
unfolding shifted exponent
shifted-end x s =
    let least : leb 0 s ≡ true = ground arith in
    let same : s - 0 ≡ s = omega arith in rw (least, same) refl

exponent_end-some :
    (minus : Bool) (n k : ℕ) → 0 < k → exponent_end minus (n, k, []) ≡ some (signed minus n)
unfolding exponent_end
exponent_end-some minus n zero h = absurd (omega arith)
exponent_end-some minus n (suc k) h = refl

nothing_stops : IsStop []
unfolding IsStop
nothing_stops = tt

neg-suc : (e : ℕ) → neg (pos (suc e)) ≡ negsuc e
neg-suc e = omega int_laws

read_exponent : (e : ℕ) → exponent (b'E' ∷ b'-' ∷ show_nat (suc e)) ≡ some (negsuc e)
unfolding exponent sign
read_exponent e =
    let is = show_nat-Digits (suc e) in
    let all : digits (show_nat (suc e)) 0 0 ≡ (suc e, length (show_nat (suc e)), []) =
      ap (λ (l : List ℕ). digits l 0 0) (sym (append-nil (show_nat (suc e))))
      ∙ digits-all (show_nat (suc e)) [] 0 0 is.only nothing_stops
      ∙ ap (λ (x : ℕ × ℕ). (x.0, x.1, []))
          (let p = is.reads in
            let q : length (show_nat (suc e)) + 0 ≡ length (show_nat (suc e)) = omega arith in
            λ i. (p i, q i)) in
    rw all (
      exponent_end-some true (suc e) (length (show_nat (suc e))) is.present
      ∙ ap (λ (x : ℤ). some x) (neg-suc e))

E_stops : (cs : List ℕ) → IsStop (b'E' ∷ cs)
unfolding IsStop
E_stops cs = (refl, refl)

parsed-end :
    (minus : Bool) (n total scale : ℕ)
    → 0 < total
    → parsed minus (n, total, scale, [])
      ≡ some (record { coefficient = signed minus n; scale = scale })
parsed-end minus n total scale h =
    let some_digits : (total == 0) ≡ false = ground arith in
    rw some_digits (shifted-end (signed minus n) scale)

parsed-exponent :
    (minus : Bool) (n total scale e : ℕ)
    → 0 < total
    → parsed minus (n, total, scale, b'E' ∷ b'-' ∷ show_nat (suc e))
      ≡ some (record { coefficient = signed minus n; scale = scale + suc e })
unfolding shifted
parsed-exponent minus n total scale e h =
    let some_digits : (total == 0) ≡ false = ground arith in rw (some_digits, read_exponent e) refl

sign-digits :
    (ds rest : List ℕ) → All IsDigit ds → 0 < length ds → sign (ds ++ rest) ≡ (false, ds ++ rest)
sign-digits [] rest h present = absurd (omega arith)
sign-digits (d ∷ ds) rest h present = sign-digit d (ds ++ rest) h.0

sign-inserted :
    (m : ℕ) (ds : List ℕ)
    → All IsDigit ds
    → 0 < m
    → 0 < length ds
    → sign (insert_point m ds) ≡ (false, insert_point m ds)
sign-inserted m [] h some_place present = absurd (omega arith)
sign-inserted zero (d ∷ ds) h some_place present = absurd (omega arith)
sign-inserted (suc m) (d ∷ ds) h some_place present = sign-digit d (insert_point m ds) h.0

sign-first_point :
    (ds rest : List ℕ)
    → All IsDigit ds
    → 0 < length ds
    → sign (first_point ds ++ rest) ≡ (false, first_point ds ++ rest)
sign-first_point [] rest h present = absurd (omega arith)
sign-first_point (d ∷ []) rest h present = sign-digit d rest h.0
sign-first_point (d ∷ c ∷ ds) rest h present = sign-digit d (b'.' ∷ c ∷ ds ++ rest) h.0

first_point-number :
    (ds rest : List ℕ)
    → All IsDigit ds
    → 0 < length ds
    → IsStop rest
    → number (first_point ds ++ rest) 0 0 ≡ (read ds 0, length ds, length ds - 1, rest)
first_point-number [] rest h present s = absurd (omega arith)
first_point-number (d ∷ []) rest h present s = number-plain (d ∷ []) rest 0 0 h s
first_point-number (d ∷ c ∷ ds) rest h present s =
    number-inserted 1 (d ∷ c ∷ ds) rest 0 0 h s (omega arith)
    ∙ ap (λ (x : ℕ). (read (d ∷ c ∷ ds) 0, x, length (d ∷ c ∷ ds) - 1, rest)) (omega arith)

-- A text that begins with no sign, and what it is read as.
record Shows (minus : Bool) (n scale : ℕ) (cs : List ℕ) : Type 0 where
  unsigned : sign cs ≡ (false, cs)
  value :
      parsed minus (number cs 0 0) ≡ some (record { coefficient = signed minus n; scale = scale })

module _ (minus : Bool) (n scale : ℕ) where
  abbrev ds : List ℕ
  ds = show_nat n

  abbrev is : Digits n ds
  is = show_nat-Digits n

  whole-Shows : (scale == 0) ≡ true → Shows minus n scale ds
  whole-Shows h =
      let none_after : scale ≡ 0 = ground arith in
      let present = is.present in
      record {
        unsigned = rw (append-nil ds) at (sign-digits ds [] is.only is.present);
        value =
            ap (λ (l : List ℕ). parsed minus (number l 0 0)) (sym (append-nil ds))
            ∙ ap (parsed minus) (number-plain ds [] 0 0 is.only nothing_stops)
            ∙ parsed-end minus (read ds 0) (length ds + 0) 0 (omega arith)
            ∙ rw (none_after, is.reads) refl;
      }

  inserted-Shows :
      (scale == 0) ≡ false
      → ltb scale (length ds) ≡ true
      → Shows minus n scale (insert_point (length ds - scale) ds)
  inserted-Shows some_after below =
      let m = length ds - scale in
      let present = is.present in
      let within : m < length ds = ground arith in
      let place : 0 < m = ground arith in
      let same : length ds - m ≡ scale = ground arith in
      record {
        unsigned = sign-inserted m ds is.only place is.present;
        value =
            ap (λ (l : List ℕ). parsed minus (number l 0 0)) (sym (append-nil (insert_point m ds)))
            ∙ ap (parsed minus) (number-inserted m ds [] 0 0 is.only nothing_stops within)
            ∙ parsed-end minus (read ds 0) (0 + length ds) (length ds - m) (omega arith)
            ∙ rw (same, is.reads) refl;
      }

  padded-Shows :
      ltb scale (length ds) ≡ false
      → Shows minus n scale (b'0' ∷ b'.' ∷ (zeros (scale - length ds) ++ ds))
  unfolding sign
  padded-Shows above =
      let z = scale - length ds in
      let all = zeros z ++ ds in
      let only : All IsDigit all = All-append IsDigit (zeros z) ds (zeros-IsDigit z) is.only in
      let same : length all ≡ scale =
        length-append (zeros z) ds ∙ rw (zeros-length z) (ground arith) in
      let value : read all 0 ≡ n = zeros-read z ds ∙ is.reads in
      record {
        unsigned = refl;
        value =
            ap (λ (l : List ℕ). parsed minus (number (b'0' ∷ b'.' ∷ l) 0 0)) (sym (append-nil all))
            ∙ ap (parsed minus) (
                number-digit b'0' (b'.' ∷ (all ++ [])) 0 0 refl
                ∙ number-point all [] 0 1 only nothing_stops)
            ∙ parsed-end minus (read all 0) (1 + length all) (length all) (omega arith)
            ∙ rw (same, value) refl;
      }

  exponent-Shows :
      ltb scale (length ds) ≡ false
      → Shows minus n scale (first_point ds ++ (b'E' ∷ b'-' ∷ show_nat (scale + 1 - length ds)))
  exponent-Shows above =
      let present = is.present in
      let e = scale - length ds in
      let rest = b'E' ∷ b'-' ∷ show_nat (scale + 1 - length ds) in
      let next : scale + 1 - length ds ≡ suc e = ground arith in
      let same : length ds - 1 + suc e ≡ scale = ground arith in
      record {
        unsigned = sign-first_point ds rest is.only is.present;
        value =
            ap (parsed minus) (first_point-number ds rest is.only is.present (E_stops _))
            ∙ ap
                (λ (k : ℕ).
                  parsed minus (read ds 0, length ds, length ds - 1, b'E' ∷ b'-' ∷ show_nat k))
                next
            ∙ parsed-exponent minus (read ds 0) (length ds) (length ds - 1) e is.present
            ∙ rw (same, is.reads) refl;
      }

  show_magnitude-Shows : Shows minus n scale (show_magnitude n scale)
  unfolding show_magnitude
  show_magnitude-Shows = elim (Bool-cases (scale == 0)) [
    | inl whole ↦ rw whole (whole-Shows whole)
    | inr some_after ↦ elim (Bool-cases (ltb scale (length ds))) [
      | inl below ↦ rw (some_after, below) (inserted-Shows some_after below)
      | inr above ↦ elim (Bool-cases (ltb scale (length ds + 6))) [
        | inl near ↦ rw (some_after, above, near) (padded-Shows above)
        | inr far ↦ rw (some_after, above, far) (exponent-Shows above)
      ]
    ]
  ]

sign-minus : (cs : List ℕ) → sign (b'-' ∷ cs) ≡ (true, cs)
unfolding sign
sign-minus cs = refl

shown_back :
    (x : ℤ) (scale : ℕ)
    → let d : Decimal = record { coefficient = x; scale = scale } in
      decimal_of_codes (show_decimal d) ≡ some d
unfolding show_decimal
shown_back (pos n) scale =
    let s = show_magnitude-Shows false n scale in
    decimal_of_codes-number _ _ false s.unsigned ∙ s.value
shown_back (negsuc n) scale =
    let s = show_magnitude-Shows true (suc n) scale in
    decimal_of_codes-number _ _ true (sign-minus _)
    ∙ s.value
    ∙ ap (λ (x : ℤ). some (record { coefficient = x; scale = scale })) (neg-suc n)

-- Every decimal is read back from its text as it was, its number of decimals included: whole
-- numbers, numbers with a point, and numbers far below one, which are written with an exponent.
pub decimal_of_codes-show_decimal : (d : Decimal) → decimal_of_codes (show_decimal d) ≡ some d
decimal_of_codes-show_decimal d = shown_back d.coefficient d.scale
