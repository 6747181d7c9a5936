-- ===== src/History/Bank.antt =====
-- A bank in the abstract, which the operations of the ledger come down to: what every account holds
-- and what of it is reserved, without rows, snapshots, transactions or events.
use wallet_ledger_assesment.Base.{ℕ, ◌≡◌, List, [], ◌∷◌, Bool, false, ◌||◌, ◌==◌, if◌then◌else◌}
use wallet_ledger_assesment.Base.Int.{ℤ, pos, neg, ◌+ℤ◌, ◌≤ℤ◌, ◌<ℤ◌, ltb_ℤ}

pub record Bank : Type 0 where
  pub settled_of : ℕ → ℤ
  pub reserved_of : ℕ → ℤ

-- Reservations are negative, so what is free is a sum.
abbrev pub free : Bank → ℕ → ℤ
free b a = b.settled_of a +ℤ b.reserved_of a

-- What one account gets.
abbrev pub share : ℕ → ℤ → ℕ → ℤ
share i x a = if i == a then x else pos 0

abbrev pub nothing : ℕ → ℤ
nothing a = pos 0

-- An amount goes from one account to another.
abbrev pub between : ℕ → ℕ → ℤ → ℕ → ℤ
between from to x a = share from (neg x) a +ℤ share to x a

-- An amount goes to a pool, and another one from a pool.
abbrev pub through : ℕ → ℕ → ℕ → ℕ → ℤ → ℤ → ℕ → ℤ
through from pool_from pool_to to x y a =
    share from (neg x) a +ℤ (share pool_from x a +ℤ (share pool_to (neg y) a +ℤ share to y a))

pub record Changes (b b' : Bank) (settled_by reserved_by : ℕ → ℤ) : Type 0 where
  pub settled_change : (a : ℕ) → b'.settled_of a ≡ b.settled_of a +ℤ settled_by a
  pub reserved_change : (a : ℕ) → b'.reserved_of a ≡ b.reserved_of a +ℤ reserved_by a

-- What a bank may do. Customers spend what is free; the accounts that deposits and exchanges are
-- booked against, and whoever a reversal takes back from, may be overdrawn.
pub data BankStep (b b' : Bank) : Type 0 where
  idle : Changes b b' nothing nothing → BankStep b b'
  paid :
      (from to : ℕ) (x : ℤ)
      → pos 0 <ℤ x
      → x ≤ℤ free b from
      → Changes b b' (between from to x) nothing
      → BankStep b b'
  held :
      (from : ℕ) (x : ℤ)
      → pos 0 <ℤ x
      → x ≤ℤ free b from
      → Changes b b' nothing (share from (neg x))
      → BankStep b b'
  captured :
      (from to : ℕ) (x : ℤ)
      → pos 0 ≤ℤ x
      → Changes b b' (between from to x) (share from x)
      → BankStep b b'
  freed : (y : ℕ → ℤ) → ((a : ℕ) → pos 0 ≤ℤ y a) → Changes b b' nothing y → BankStep b b'
  paid_in :
      (clearing to : ℕ) (x : ℤ)
      → pos 0 ≤ℤ x
      → Changes b b' (between clearing to x) nothing
      → BankStep b b'
  changed :
      (from pool_from pool_to to : ℕ) (x y : ℤ)
      → pos 0 <ℤ x
      → pos 0 ≤ℤ y
      → x ≤ℤ free b from
      → Changes b b' (through from pool_from pool_to to x y) nothing
      → BankStep b b'
  given_back : (y : ℕ → ℤ) → Changes b b' y nothing → BankStep b b'

-- A step without the states that it leads between: who, whom and how much.
pub data Deed : Type 0 where
  does_nothing : Deed
  pays : (from to : ℕ) (x : ℤ) → Deed
  holds : (from : ℕ) (x : ℤ) → Deed
  captures : (from to : ℕ) (x : ℤ) → Deed
  frees : (y : ℕ → ℤ) → Deed
  pays_in : (clearing to : ℕ) (x : ℤ) → Deed
  changes : (from pool_from pool_to to : ℕ) (x y : ℤ) → Deed
  gives_back : (y : ℕ → ℤ) → Deed

abbrev pub deed_of : {b b' : Bank} → BankStep b b' → Deed
deed_of (idle _) = does_nothing
deed_of (paid from to x _ _ _) = pays from to x
deed_of (held from x _ _ _) = holds from x
deed_of (captured from to x _ _) = captures from to x
deed_of (freed y _ _) = frees y
deed_of (paid_in clearing to x _ _) = pays_in clearing to x
deed_of (changed from pool_from pool_to to x y _ _ _ _) = changes from pool_from pool_to to x y
deed_of (given_back y _) = gives_back y

-- Whether a step takes from an account without asking what is free.
abbrev pub overdraws : {b b' : Bank} → BankStep b b' → ℕ → Bool
overdraws (idle _) a = false
overdraws (paid _ _ _ _ _ _) a = false
overdraws (held _ _ _ _ _) a = false
overdraws (captured _ _ _ _ _) a = false
overdraws (freed _ _ _) a = false
overdraws (paid_in clearing _ _ _ _) a = clearing == a
overdraws (changed _ _ pool_to _ _ _ _ _ _ _) a = pool_to == a
overdraws (given_back y _) a = ltb_ℤ (y a) (pos 0)

-- A step that is ordered, and one that also asks what is free before it takes anything.
abbrev pub Does : (Deed → Type 0) → Bank → Bank → Type 0
Does P b b' = (m : BankStep b b') × P (deed_of m)

abbrev pub Asked : (Deed → Type 0) → Bank → Bank → Type 0
Asked P b b' = (m : BankStep b b') × P (deed_of m) × ((a : ℕ) → overdraws m a ≡ false)

-- A sequence of steps.
pub data BankRun (b : Bank) : Bank → Type 0 where
  rest : BankRun b b
  further : {b1 b2 : Bank} → BankRun b b1 → BankStep b1 b2 → BankRun b b2

-- What a run does, the last step first.
abbrev pub deeds_of : {b b' : Bank} → BankRun b b' → List Deed
deeds_of rest = []
deeds_of (further r s) = deed_of s ∷ deeds_of r

abbrev pub run_overdraws : {b b' : Bank} → BankRun b b' → ℕ → Bool
run_overdraws rest a = false
run_overdraws (further r s) a = run_overdraws r a || overdraws s a
