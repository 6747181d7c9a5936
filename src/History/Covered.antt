-- ===== src/History/Covered.antt =====
-- No step of the abstract bank overdraws an account, but those that ask nothing.
use wallet_ledger_assesment.Base.{
  ℕ, ◌≡◌, inl, inr, Bool, false, ◌||◌, arith, ◌==◌, ==_iff, Bool-cases, subst,
}
use wallet_ledger_assesment.Base.Int.{ℤ, pos, neg, ◌+ℤ◌, ◌≤ℤ◌, int_laws}
use wallet_ledger_assesment.History.Bank.{
  Bank, free, share, Changes, BankStep, overdraws, idle, paid, held, captured, freed, paid_in,
  changed, given_back, BankRun, run_overdraws, rest, further,
}

-- What is free after changes that sum to something not negative.
free_after :
    (b b' : Bank) (d r : ℕ → ℤ) (a : ℕ)
    → Changes b b' d r
    → pos 0 ≤ℤ (b.settled_of a +ℤ d a) +ℤ (b.reserved_of a +ℤ r a)
    → pos 0 ≤ℤ free b' a
free_after b b' d r a c h = rw (c.settled_change a, c.reserved_change a) h

-- What an account spends is free.
spent :
    (from a : ℕ) (x : ℤ) (b : Bank)
    → pos 0 ≤ℤ free b a
    → x ≤ℤ free b from
    → pos 0 ≤ℤ free b a +ℤ share from (neg x) a
spent from a x b h covered = elim (Bool-cases (from == a)) [
  | inl t ↦
      let same : from ≡ a = (==_iff _ _).0 t in
      let enough : x ≤ℤ free b a = subst (λ (i : ℕ). x ≤ℤ free b i) same covered in
      rw t (omega int_laws)
  | inr n ↦ rw n (omega int_laws)
]

gained : (i a : ℕ) (x : ℤ) → pos 0 ≤ℤ x → pos 0 ≤ℤ share i x a
gained i a x h = elim (Bool-cases (i == a)) [ inl t ↦ rw t h | inr n ↦ rw n (omega arith) ]

pub BankStep-free :
    {b b' : Bank} (s : BankStep b b') (a : ℕ)
    → overdraws s a ≡ false
    → pos 0 ≤ℤ free b a
    → pos 0 ≤ℤ free b' a
BankStep-free {b} {b'} (idle c) a n h = free_after b b' _ _ a c (omega int_laws)
BankStep-free {b} {b'} (paid from to x positive covered c) a n h =
    let left = spent from a x b h covered in
    let more = gained to a x (omega arith) in free_after b b' _ _ a c (omega int_laws)
BankStep-free {b} {b'} (held from x positive covered c) a n h =
    let left = spent from a x b h covered in free_after b b' _ _ a c (omega int_laws)
BankStep-free {b} {b'} (captured from to x positive c) a n h =
    let more = gained to a x positive in
    free_after b b' _ _ a c (elim (Bool-cases (from == a)) [
      | inl t ↦ rw t (omega int_laws)
      | inr f ↦ rw f (omega int_laws)
    ])
BankStep-free {b} {b'} (freed y positive c) a n h =
    let more = positive a in free_after b b' _ _ a c (omega int_laws)
BankStep-free {b} {b'} (paid_in clearing to x positive c) a n h =
    let more = gained to a x positive in free_after b b' _ _ a c (rw n (omega int_laws))
BankStep-free {b} {b'} (changed from pool_from pool_to to x y positive received covered c) a n h =
    let left = spent from a x b h covered in
    let pooled = gained pool_from a x (omega arith) in
    let more = gained to a y received in free_after b b' _ _ a c (rw n (omega int_laws))
BankStep-free {b} {b'} (given_back y c) a n h =
    let more : pos 0 ≤ℤ y a = ground arith in free_after b b' _ _ a c (omega int_laws)

neither : (x y : Bool) → (x || y) ≡ false → (x ≡ false) × (y ≡ false)
neither x y h = ground arith

pub BankRun-free :
    {b b' : Bank} (r : BankRun b b') (a : ℕ)
    → run_overdraws r a ≡ false
    → pos 0 ≤ℤ free b a
    → pos 0 ≤ℤ free b' a
BankRun-free rest a n h = h
BankRun-free (further r s) a n h =
    let (n1, n2) = neither (run_overdraws r a) (overdraws s a) n in
    BankStep-free s a n2 (BankRun-free r a n1 h)
