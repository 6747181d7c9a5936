-- ===== src/History/Refining.antt =====
-- The ledger refines the abstract bank: every careful history is a run of the bank, and no history
-- overdraws an account whose operations ask what is free.
use wallet_ledger_assesment.Base.{ℕ, ◌≡◌, Bool, true, false, ◌&&◌}
use wallet_ledger_assesment.Base.Int.{ℤ}
use wallet_ledger_assesment.Store.{Db}
use wallet_ledger_assesment.Fx.{Rates}
use wallet_ledger_assesment.Payments.{Config, Remote}
use wallet_ledger_assesment.History.{
  Step, account_opened, transferred, initiated, committed, failed, deposit_initiated,
  deposit_settled, exchanged, reversed,
}
use wallet_ledger_assesment.History.Careful.{Careful, start, after}
use wallet_ledger_assesment.History.Bank.{Bank, BankStep, deed_of, overdraws}
use wallet_ledger_assesment.History.Orders.{Orders}
use wallet_ledger_assesment.History.Deeds.{bank_of, IsExactFor}

module _ (config : Config) (remote : Remote) (rates : Rates) (limit : ℤ) (threshold : ℕ) where
  -- The rows of whoever spends are multiples of the smallest amount of the currency.
  abbrev pub IsExactStep : {db db' : Db} → Step config remote rates limit threshold db db' → Type 0
  IsExactStep {db} {db'} (transferred sender_id _ _ _ _ _ _) = IsExactFor sender_id db
  IsExactStep {db} {db'} (initiated sender_id _ _ _ _ _ _) = IsExactFor sender_id db
  IsExactStep {db} {db'} (exchanged _ _ sender_id _ _ _ _ _ _) = IsExactFor sender_id db
  IsExactStep (account_opened _ _ _ _ _) = Unit
  IsExactStep (committed _ _ _ _) = Unit
  IsExactStep (failed _ _ _ _) = Unit
  IsExactStep (deposit_initiated _ _ _ _ _ _ _) = Unit
  IsExactStep (deposit_settled _ _ _ _ _ _ _) = Unit
  IsExactStep (reversed _ _ _ _) = Unit

  abbrev pub IsExactRun :
      {db db' : Db} → Careful config remote rates limit threshold db db' → Type 0
  IsExactRun start = Unit
  IsExactRun (after r s care) = IsExactRun r × IsExactStep s

  -- Operations that ask what is free before they take anything: all but the settlement of deposits,
  -- exchanges, and reversals.
  abbrev pub asks : {db db' : Db} → Step config remote rates limit threshold db db' → Bool
  asks (deposit_settled _ _ _ _ _ _ _) = false
  asks (exchanged _ _ _ _ _ _ _ _ _) = false
  asks (reversed _ _ _ _) = false
  asks (account_opened _ _ _ _ _) = true
  asks (transferred _ _ _ _ _ _ _) = true
  asks (initiated _ _ _ _ _ _ _) = true
  asks (committed _ _ _ _) = true
  asks (failed _ _ _ _) = true
  asks (deposit_initiated _ _ _ _ _ _ _) = true

  abbrev pub all_ask : {db db' : Db} → Careful config remote rates limit threshold db db' → Bool
  all_ask start = true
  all_ask (after r s care) = let before = all_ask r in before && asks s

  -- The step of the bank that the operation orders, and that it overdraws nobody if the operation asks.
  abbrev Refined : {db db' : Db} → Step config remote rates limit threshold db db' → Type 0
  Refined {db} {db'} s =
      (m : BankStep (bank_of db) (bank_of db')) × Orders config remote rates limit threshold s
        (deed_of m)
      × (asks s ≡ true → (a : ℕ) → overdraws m a ≡ false)
