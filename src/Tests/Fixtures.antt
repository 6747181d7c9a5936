-- ===== src/Tests/Fixtures.antt =====
-- A small ledger to run on: two accounts in USD, one in EUR and the clearing account, where the first
-- holds 50 dollars.
use wallet_ledger_assesment.Base.{
  ℕ, ◌*◌, ◌≡◌, refl, inl, inr, Bool, true, false, Option, none, some, List, [], ◌∷◌, arith,
  Bool-cases,
}
use wallet_ledger_assesment.Base.Int.{ℤ, pos, int_laws}
use wallet_ledger_assesment.Base.Text.{str_eq}
use wallet_ledger_assesment.Domain.Enums.{EntryStatus, TransactionType, TransactionStatus}
use wallet_ledger_assesment.Domain.Errors.{Result, ok, err}
use wallet_ledger_assesment.Domain.Decimals.{Decimal}
use wallet_ledger_assesment.Store.{Db, add_entries}
use wallet_ledger_assesment.Store.Models.{Account, LedgerEntry, Details, debit_entry, credit_entry}
use wallet_ledger_assesment.Ledger.{latest_snapshot}
use wallet_ledger_assesment.Ledger.Snapshots.{AllSound}
use wallet_ledger_assesment.Ledger.Numbering.{add_entries-AllSound}
use wallet_ledger_assesment.Ledger.Posting.{IsBalanced}
use wallet_ledger_assesment.Ledger.Invariant.{IsValid}
use wallet_ledger_assesment.Transfers.{Outcome}

abbrev pub alice : Account
alice = record { id = 1; number = 2_000_000_001; owner_id = "alice"; currency = "USD" }

abbrev pub bob : Account
bob = record { id = 2; number = 2_000_000_002; owner_id = "bob"; currency = "USD" }

abbrev pub clearing : Account
clearing = record {
  id = 3;
  number = 2_000_000_003;
  owner_id = "PLATFORM_CLEARING";
  currency = "USD";
}

abbrev pub claire : Account
claire = record { id = 4; number = 2_000_000_004; owner_id = "claire"; currency = "EUR" }

-- Units of 10 ^ -8 in a dollar.
abbrev pub dollars : ℕ → ℤ
dollars n = pos (n * 100_000_000)

abbrev pub whole : ℕ → Decimal
whole n = record { coefficient = pos n; scale = 0 }

abbrev pub opened : Db
opened = record {
  accounts = alice ∷ bob ∷ clearing ∷ claire ∷ [];
  transactions = [];
  entries = [];
  snapshots = [];
  notifications = [];
  next_seq = 1;
  next_id = 10;
}

abbrev pub funding : List (ℕ → LedgerEntry)
funding =
    debit_entry 3 5 (dollars 50) "USD" EntryStatus.success
    ∷ credit_entry 1 5 (dollars 50) "USD" EntryStatus.success
    ∷ []

abbrev pub funded : Db
funded = add_entries funding opened

opened-AllSound : AllSound opened
opened-AllSound = record {
  at = λ a. unfold latest_snapshot in refl;
  started = omega arith;
  rows = tt;
  increasing = tt;
  cursors = tt;
}

funded-IsBalanced : IsBalanced funded
funded-IsBalanced = record {
  at = λ c. elim (Bool-cases (str_eq "USD" c)) [
    | inl t ↦ rw t (omega int_laws)
    | inr f ↦ rw f (omega int_laws)
  ];
}

pub funded-IsValid : IsValid funded
funded-IsValid = record {
  snapshots = add_entries-AllSound funding opened (λ n. refl, (λ n. refl, tt)) opened-AllSound;
  double_entry = funded-IsBalanced;
}

-- What a run returned; a run that raised has no value.
abbrev pub value_of {ℓ} : {A : Type ℓ} → Result A → Option A
value_of (ok a) = some a
value_of (err e) = none

abbrev pub or_else {ℓ} : {A : Type ℓ} → A → Result A → A
or_else d (ok a) = a
or_else d (err e) = d

abbrev pub is_ok {ℓ} : {A : Type ℓ} → Result A → Bool
is_ok (ok a) = true
is_ok (err e) = false

-- A run that returns, by its value.
pub returned {ℓ} : {A : Type ℓ} (d : A) (r : Result A) → is_ok r ≡ true → r ≡ ok (or_else d r)
returned d (ok a) h = refl
returned d (err e) h = cc

-- A value for runs that raise.
abbrev pub nothing : Outcome
nothing = (
  record {
    id = 0;
    transaction_type = TransactionType.transfer;
    status = TransactionStatus.pending;
    amount = pos 0;
    currency = "";
    details = Details.no_details;
    reference = none;
    correlation_id = none;
  },
  record { event_type = ""; payload = []; correlation_id = none },
  funded,
)
