-- ===== src/Domain/Money/Laws.antt =====
-- Rounding and normalisation of money: `quantize` is the nearest multiple of the quantum with ties
-- to even, and a normalised amount is read back from the database unchanged.
use wallet_ledger_assesment.Base.{
  ℕ, zero, suc, ◌+◌, ◌-◌, ◌*◌, ◌/◌, ◌%◌, ◌^◌, ◌≤◌, ◌<◌, ◌≡◌, refl, ◌⊎◌, inl, inr, String, arith,
  ltb, ltb→lt, ltb→le, Bool-cases, ap,
}
use native.Mathlib.Nat.{div-add-mod', mod-lt, mul-mod_left}
use wallet_ledger_assesment.Base.Int.{ℤ, pos, negsuc, ◌+ℤ◌, ◌*ℤ◌, magnitude, +ℤ_parts, parts_apart}
use wallet_ledger_assesment.Base.Text.{upper, upper_idem}
use wallet_ledger_assesment.Domain.Decimals.{
  Decimal, round_half_even, with_magnitude, quantize, nearest,
}
use wallet_ledger_assesment.Domain.Money.{
  Money, money, of_amount, decimals_of, decimals_for, quantum,
}

-- Which neighbour is taken, and why.
nearest-cases :
    (q r b : ℕ)
    → r < b
    → ((nearest q r b ≡ q) × ((r + r < b) ⊎ ((r + r ≡ b) × (q % 2 ≡ 0))))
      ⊎ ((nearest q r b ≡ q + 1) × ((b < r + r) ⊎ ((r + r ≡ b) × ((q + 1) % 2 ≡ 0))))
unfolding nearest
nearest-cases q r b h = ground arith

nearest-bounds :
    (q r b : ℕ)
    → r < b
    → let n = nearest q r b in
      (2 * (n * b) ≤ 2 * (q * b + r) + b)
      × (2 * (q * b + r) ≤ 2 * (n * b) + b)
      × ((2 * (n * b) ≡ 2 * (q * b + r) + b) ⊎ (2 * (q * b + r) ≡ 2 * (n * b) + b) → n % 2 ≡ 0)
nearest-bounds q r b h = elim (nearest-cases q r b h) [
  | inl (same, why) ↦ rw same (omega arith)
  | inr (next, why) ↦ rw next (omega arith)
]

-- Bounds that are met, and evenness at a tie.
tie_even :
    (x y u v n : ℕ)
    → x ≤ y
    → u ≤ v
    → ((x ≡ y) ⊎ (u ≡ v) → n % 2 ≡ 0)
    → ((x < y) × (u < v)) ⊎ (n % 2 ≡ 0)
tie_even x y u v n h k even = elim (Bool-cases (ltb x y)) [
  | inl p ↦ elim (Bool-cases (ltb u v)) [
    | inl q ↦ inl (ltb→lt x y p, ltb→lt u v q)
    | inr q ↦ let b = ltb→le u v q in inr (even (inr (omega arith)))
  ]
  | inr p ↦ let b = ltb→le x y p in inr (even (inl (omega arith)))
]

-- The result is within half a unit of a / b, and where it is not nearer than that it is even.
pub round_half_even_nearest :
    (a b : ℕ)
    → 0 < b
    → let n = round_half_even a b in
      (2 * (n * b) ≤ 2 * a + b)
      × (2 * a ≤ 2 * (n * b) + b)
      × (((2 * (n * b) < 2 * a + b) × (2 * a < 2 * (n * b) + b)) ⊎ (n % 2 ≡ 0))
unfolding round_half_even
round_half_even_nearest a b h =
    let (low, high, even) =
      rw (div-add-mod' a b) at (nearest-bounds (a / b) (a % b) b (mod-lt a h)) in
    (low, high, tie_even _ _ _ _ _ low high even)

pub round_half_even_exact : (a b : ℕ) → 0 < b → a % b ≡ 0 → round_half_even a b * b ≡ a
unfolding round_half_even nearest
round_half_even_exact a b h e = grind arith

pub decimals_for-cases : (c : String) → (decimals_for c ≡ 0) ⊎ (decimals_for c ≡ 2)
unfolding decimals_for decimals_of
decimals_for-cases c = ground arith

pub quantum-cases : (c : String) → (quantum c ≡ 10 ^ 8) ⊎ (quantum c ≡ 10 ^ 6)
unfolding quantum
quantum-cases c = elim (decimals_for-cases c) [
  | inl whole ↦ inl (ap (λ (d : ℕ). 10 ^ (8 - d)) whole)
  | inr two ↦ inr (ap (λ (d : ℕ). 10 ^ (8 - d)) two)
]

-- A multiple of the quantum of its currency, which is in upper case.
abbrev pub IsMultiple : ℕ → ℤ → Type 0
IsMultiple q a = magnitude a % q ≡ 0

pub record IsNormal (m : Money) : Type 0 where
  pub multiple : IsMultiple (quantum m.currency) m.amount
  pub upper_case : upper m.currency ≡ m.currency

pub with_magnitude-*ℤ : (a : ℤ) (n q : ℕ) → n * q ≡ magnitude a → with_magnitude a n *ℤ pos q ≡ a
unfolding with_magnitude ◌*ℤ◌
with_magnitude-*ℤ (pos m) n q h = ground arith
with_magnitude-*ℤ (negsuc m) zero q h = ground arith
with_magnitude-*ℤ (negsuc m) (suc n) q h = ground arith

magnitude-*ℤ : (a : ℤ) (n : ℕ) → magnitude (a *ℤ pos n) ≡ magnitude a * n
unfolding ◌*ℤ◌
magnitude-*ℤ (pos m) n = ground arith
magnitude-*ℤ (negsuc m) n = ground arith

IsMultiple-*ℤ : (a : ℤ) (q : ℕ) → IsMultiple q (a *ℤ pos q)
IsMultiple-*ℤ a q = rw magnitude-*ℤ (mul-mod_left _ _)

quantize_rounds :
    (a : ℤ) (digits : ℕ)
    → digits < 8
    → quantize digits (record { coefficient = a; scale = 8 })
      ≡ with_magnitude a (round_half_even (magnitude a) (10 ^ (8 - digits)))
unfolding quantize
quantize_rounds a digits h = ground arith

quantum-upper : (c : String) → quantum (upper c) ≡ quantum c
unfolding quantum decimals_for
quantum-upper c = rw upper_idem

-- Reading back, in decimals and in quanta that match.
requantize :
    (a : ℤ) (digits q : ℕ)
    → digits < 8
    → 10 ^ (8 - digits) ≡ q
    → 0 < q
    → IsMultiple q a
    → quantize digits (record { coefficient = a; scale = 8 }) *ℤ pos q ≡ a
requantize a digits q h e p m =
    rw (quantize_rounds a digits h, e) (with_magnitude-*ℤ a _ q (round_half_even_exact _ q p m))

pub decimals_for-lt : (c : String) → decimals_for c < 8
decimals_for-lt c = omega (arith, decimals_for-cases c)

pub quantum-pos : (c : String) → 0 < quantum c
quantum-pos c = omega (arith, quantum-cases c)

-- Reading an amount that is a multiple of the quantum rounds nothing away.
pub of_amount-amount :
    (a : ℤ) (currency : String)
    → IsMultiple (quantum currency) a
    → (of_amount a currency).amount ≡ a
unfolding of_amount money
of_amount-amount a currency h =
    let c = upper currency in
    requantize a (decimals_for c) (quantum c) (decimals_for-lt c) (unfold quantum in refl)
      (quantum-pos c) (rw quantum-upper h)

of_amount-currency : (a : ℤ) (c : String) → upper c ≡ c → (of_amount a c).currency ≡ c
unfolding of_amount money
of_amount-currency a c h = h

-- Every money that the constructor builds is normalised, and building it again from its own amount
-- and currency, as a read from the database does, gives it back.
pub money-IsNormal : (d : Decimal) (currency : String) → IsNormal (money d currency)
unfolding money
money-IsNormal d currency = record {
  multiple = IsMultiple-*ℤ _ _;
  upper_case = upper_idem currency;
}

pub IsNormal-round_trip : {m : Money} → IsNormal m → of_amount m.amount m.currency ≡ m
IsNormal-round_trip {m} h = λ i. record {
  amount = of_amount-amount m.amount m.currency h.multiple i;
  currency = of_amount-currency m.amount m.currency h.upper_case i;
}

-- Money is a multiple of the smallest amount of its currency, which is in upper case, and made again
-- from its own amount and currency, as a read from the database does, it is the same.
pub of_amount_round_trip :
    (d : Decimal) (currency : String)
    → let m = money d currency in IsNormal m × (of_amount m.amount m.currency ≡ m)
of_amount_round_trip d currency = let h = money-IsNormal d currency in (h, IsNormal-round_trip h)

IsMultiple-sum8 :
    (a b : ℤ) → IsMultiple (10 ^ 8) a → IsMultiple (10 ^ 8) b → IsMultiple (10 ^ 8) (a +ℤ b)
IsMultiple-sum8 a b h k =
    omega (arith, +ℤ_parts a b, parts_apart a, parts_apart b, parts_apart (a +ℤ b))

IsMultiple-sum6 :
    (a b : ℤ) → IsMultiple (10 ^ 6) a → IsMultiple (10 ^ 6) b → IsMultiple (10 ^ 6) (a +ℤ b)
IsMultiple-sum6 a b h k =
    omega (arith, +ℤ_parts a b, parts_apart a, parts_apart b, parts_apart (a +ℤ b))

-- Sums and differences of multiples are multiples.
pub IsMultiple-+ℤ :
    (c : String) (a b : ℤ)
    → IsMultiple (quantum c) a
    → IsMultiple (quantum c) b
    → IsMultiple (quantum c) (a +ℤ b)
IsMultiple-+ℤ c a b h k = elim (quantum-cases c) [
  | inl e ↦ rw e (IsMultiple-sum8 a b (rw e at h) (rw e at k))
  | inr e ↦ rw e (IsMultiple-sum6 a b (rw e at h) (rw e at k))
]
