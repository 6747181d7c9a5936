-- ===== src/Wire/Texts.antt =====
-- The text of a decimal, character by character: it is read back, and so are the amounts that the
-- serialisers write (wallet_ledger/api/serializers.py).
use Prim.Native.Char.{code}
use wallet_ledger_assesment.Base.{
  ℕ, zero, suc, ◌+◌, ◌-◌, ◌<◌, ◌≡◌, refl, ap, ◌∙◌, inl, inr, false, some, List, [], ◌∷◌, ltb, ◌==◌,
  arith, Bool-cases,
}
use wallet_ledger_assesment.Base.Lists.{All, All-append, All-imp, length}
use wallet_ledger_assesment.Base.Text.{letter_at}
use wallet_ledger_assesment.Base.Int.{ℤ, pos, negsuc}
use wallet_ledger_assesment.Domain.Decimals.{Decimal}
use wallet_ledger_assesment.Wire.Numerals.{codes, decimal_of_codes, decimal_of_text}
use wallet_ledger_assesment.Wire.Numbers.{
  show_nat, show_magnitude, show_decimal, insert_point, zeros, first_point, character,
  text_of_codes, decimal_text,
}
use wallet_ledger_assesment.Wire.Reading.{IsDigit, show_nat-Digits}
use wallet_ledger_assesment.Wire.RoundTrip.{decimal_of_codes-show_decimal}

letter-code : (d : ℕ) → d < 10 → code (letter_at d "0123456789" "0") ≡ b'0' + d
letter-code zero h = refl
letter-code (suc zero) h = refl
letter-code (suc (suc zero)) h = refl
letter-code (suc (suc (suc zero))) h = refl
letter-code (suc (suc (suc (suc zero)))) h = refl
letter-code (suc (suc (suc (suc (suc zero))))) h = refl
letter-code (suc (suc (suc (suc (suc (suc zero)))))) h = refl
letter-code (suc (suc (suc (suc (suc (suc (suc zero))))))) h = refl
letter-code (suc (suc (suc (suc (suc (suc (suc (suc zero)))))))) h = refl
letter-code (suc (suc (suc (suc (suc (suc (suc (suc (suc zero))))))))) h = refl
letter-code (suc (suc (suc (suc (suc (suc (suc (suc (suc (suc d)))))))))) h = absurd (omega arith)

-- A character that the texts of decimals are made of.
IsShown : ℕ → Type 0
IsShown c = code (character c) ≡ c

digit-IsShown : (c : ℕ) → IsDigit c → IsShown c
unfolding character IsShown
digit-IsShown c h =
    let no_minus : (c == b'-') ≡ false = ground arith in
    let no_point : (c == b'.') ≡ false = ground arith in
    let no_e : (c == b'E') ≡ false = ground arith in
    let least : b'0' + (c - b'0') ≡ c = ground arith in
    rw (no_minus, no_point, no_e) (letter-code (c - b'0') (ground arith) ∙ least)

codes-text_of_codes : (cs : List ℕ) → All IsShown cs → codes (text_of_codes cs) ≡ cs
unfolding text_of_codes IsShown
codes-text_of_codes [] h = refl
codes-text_of_codes (c ∷ cs) h = rw (h.0, codes-text_of_codes cs h.1) refl

all-IsShown : (ds : List ℕ) → All IsDigit ds → All IsShown ds
all-IsShown ds h = All-imp IsDigit IsShown ds digit-IsShown h

marks : IsShown b'-' × IsShown b'.' × IsShown b'E' × IsShown b'0'
unfolding character IsShown
marks = (refl, refl, refl, refl)

zeros-IsShown : (z : ℕ) → All IsShown (zeros z)
zeros-IsShown zero = tt
zeros-IsShown (suc z) = (marks.3, zeros-IsShown z)

insert_point-IsShown : (m : ℕ) (ds : List ℕ) → All IsShown ds → All IsShown (insert_point m ds)
insert_point-IsShown m [] h = tt
insert_point-IsShown zero (d ∷ ds) h = (marks.1, h)
insert_point-IsShown (suc m) (d ∷ ds) h = (h.0, insert_point-IsShown m ds h.1)

first_point-IsShown : (ds : List ℕ) → All IsShown ds → All IsShown (first_point ds)
first_point-IsShown [] h = tt
first_point-IsShown (d ∷ []) h = h
first_point-IsShown (d ∷ c ∷ ds) h = (h.0, (marks.1, h.1))

show_nat-IsShown : (n : ℕ) → All IsShown (show_nat n)
show_nat-IsShown n = all-IsShown (show_nat n) (show_nat-Digits n).only

show_magnitude-IsShown : (n scale : ℕ) → All IsShown (show_magnitude n scale)
unfolding show_magnitude
show_magnitude-IsShown n scale =
    let ds = show_nat n in
    let shown = show_nat-IsShown n in
    elim (Bool-cases (scale == 0)) [
      | inl whole ↦ rw whole shown
      | inr some_after ↦ elim (Bool-cases (ltb scale (length ds))) [
        | inl below ↦ rw (some_after, below) (insert_point-IsShown (length ds - scale) ds shown)
        | inr above ↦ elim (Bool-cases (ltb scale (length ds + 6))) [
          | inl near ↦
              rw (some_after, above, near)
                (
                  marks.3,
                  (
                    marks.1,
                    All-append IsShown (zeros (scale - length ds)) ds
                        (zeros-IsShown (scale - length ds)) shown,
                  ),
                )
          | inr far ↦
              rw (some_after, above, far)
                (All-append IsShown (first_point ds)
                  (b'E' ∷ b'-' ∷ show_nat (scale + 1 - length ds)) (first_point-IsShown ds shown)
                  (marks.2, (marks.0, show_nat-IsShown (scale + 1 - length ds))))
        ]
      ]
    ]

show_decimal-IsShown :
    (x : ℤ) (scale : ℕ) → All IsShown (show_decimal (record { coefficient = x; scale = scale }))
unfolding show_decimal
show_decimal-IsShown (pos n) scale = show_magnitude-IsShown n scale
show_decimal-IsShown (negsuc n) scale = (marks.0, show_magnitude-IsShown (suc n) scale)

pub decimal_of_text-decimal_text : (d : Decimal) → decimal_of_text (decimal_text d) ≡ some d
unfolding decimal_of_text decimal_text
decimal_of_text-decimal_text d =
    ap decimal_of_codes
      (codes-text_of_codes (show_decimal d) (show_decimal-IsShown d.coefficient d.scale))
    ∙ decimal_of_codes-show_decimal d
