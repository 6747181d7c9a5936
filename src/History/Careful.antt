-- ===== src/History/Careful.antt =====
-- Histories in which no snapshot passes a reserved debit before its commit keep the whole invariant,
-- sound snapshots included.
use wallet_ledger_assesment.Base.{ℕ, ◌<◌, inl, inr, Bool, List, [], ◌∷◌, Bool-cases}
use wallet_ledger_assesment.Base.Int.{ℤ}
use wallet_ledger_assesment.Base.Lists.{All, filter}
use wallet_ledger_assesment.Store.{Db}
use wallet_ledger_assesment.Store.Models.{Transaction, LedgerEntry}
use wallet_ledger_assesment.Ledger.{latest_snapshot, cursor_of}
use wallet_ledger_assesment.Ledger.Invariant.{IsValid, SameLedger-IsValid}
use wallet_ledger_assesment.Transfers.Effects.{execute-Transferred}
use wallet_ledger_assesment.Transfers.Phases.{initiate-Reserved}
use wallet_ledger_assesment.Transfers.Status.{fail-Failed}
use wallet_ledger_assesment.Transfers.Halves.{IsRead}
use wallet_ledger_assesment.Transfers.Passed.{commit-IsValid}
use wallet_ledger_assesment.Deposits.Crediting.{settle-Deposited}
use wallet_ledger_assesment.Fx.{Rates}
use wallet_ledger_assesment.Fx.Exchanging.{execute_fx_transfer-Exchanged}
use wallet_ledger_assesment.Reversals.Mirroring.{IsProper}
use wallet_ledger_assesment.Reversals.{is_original}
use wallet_ledger_assesment.Reversals.Reversing.{reverse-Reversed}
use wallet_ledger_assesment.Payments.{Config, Remote}
use wallet_ledger_assesment.History.{
  Step, account_opened, transferred, initiated, committed, failed, deposit_initiated,
  deposit_settled, exchanged, reversed,
}
use wallet_ledger_assesment.History.Books.{IsBooked}
use wallet_ledger_assesment.History.Writes.{create-SameLedger, deposit_initiate-SameLedger}
use wallet_ledger_assesment.History.Reaching.{Step-IsBooked}

pub All-filter :
    (P : LedgerEntry → Type 0) (q : LedgerEntry → Bool) (es : List LedgerEntry)
    → All P es
    → All P (filter q es)
All-filter P q [] h = tt
All-filter P q (e ∷ es) h = elim (Bool-cases (q e)) [
  | inl t ↦ rw t (h.0, All-filter P q es h.1)
  | inr n ↦ rw n (All-filter P q es h.1)
]

-- A debit and the transaction that it is reserved for, which no snapshot has passed.
pub record Unpassed (id : ℕ) (db : Db) : Type 0 where
  pub txn : Transaction
  pub reserved_debit : LedgerEntry
  pub read : IsRead id db txn reserved_debit
  pub ahead : cursor_of (latest_snapshot reserved_debit.account_id db) < reserved_debit.seq

-- Every part of the invariant.
pub record IsKept (db : Db) : Type 0 where
  pub valid : IsValid db
  pub booked : IsBooked db

module _ (config : Config) (remote : Remote) (rates : Rates) (limit : ℤ) (threshold : ℕ) where
  abbrev pub IsCareful : {db db' : Db} → Step config remote rates limit threshold db db' → Type 0
  IsCareful {db} {db'} (committed id txn event e) = Unpassed id db
  IsCareful (account_opened _ _ _ _ _) = Unit
  IsCareful (transferred _ _ _ _ _ _ _) = Unit
  IsCareful (initiated _ _ _ _ _ _ _) = Unit
  IsCareful (failed _ _ _ _) = Unit
  IsCareful (deposit_initiated _ _ _ _ _ _ _) = Unit
  IsCareful (deposit_settled _ _ _ _ _ _ _) = Unit
  IsCareful (exchanged _ _ _ _ _ _ _ _ _) = Unit
  IsCareful (reversed _ _ _ _) = Unit

  -- A history whose commits are all ahead of the snapshots.
  pub data Careful (db : Db) : Db → Type 0 where
    start : Careful db db
    after :
        {db1 db2 : Db}
        → Careful db db1
        → (s : Step config remote rates limit threshold db1 db2) → IsCareful s
        → Careful db db2

  Step-IsValid :
      {db db' : Db} (s : Step config remote rates limit threshold db db')
      → 0 < threshold
      → IsCareful s
      → IsKept db
      → IsValid db'
  Step-IsValid {db} {db'} (account_opened owner currency drawn a e) positive c k =
      SameLedger-IsValid (create-SameLedger owner currency drawn db (a, db') e) k.valid
  Step-IsValid {db} {db'} (transferred s r amount c txn event e) positive care k =
      (execute-Transferred threshold s r amount c db txn event db' positive k.valid e).1.valid
  Step-IsValid {db} {db'} (initiated s r amount c txn event e) positive care k =
      (initiate-Reserved s r amount c db txn event db' k.valid e).1.valid
  Step-IsValid {db} {db'} (committed id txn event e) positive care k =
      commit-IsValid limit threshold id db care.txn care.reserved_debit txn event db' positive
        k.valid care.read care.ahead e
  Step-IsValid {db} {db'} (failed id txn event e) positive care k =
      (fail-Failed id db txn event db' k.valid e).released.valid
  Step-IsValid {db} {db'} (deposit_initiated i amount p context c txn e) positive care k =
      SameLedger-IsValid
        (deposit_initiate-SameLedger config remote i amount p context c db (txn, db') e) k.valid
  Step-IsValid {db} {db'} (deposit_settled drawn reference amount currency txn event e) positive
        care k =
      (settle-Deposited threshold drawn reference amount currency db txn event db' positive k.valid
        e).credited.valid
  Step-IsValid {db} {db'} (exchanged drawn drawn' s r amount c txn event e) positive care k =
      (execute_fx_transfer-Exchanged rates threshold drawn drawn' s r amount c db txn event db'
        positive k.valid e).1.valid
  Step-IsValid {db} {db'} (reversed id c reversal e) positive care k =
      (reverse-Reversed threshold id c db reversal db' k.valid
        (All-filter IsProper (is_original id) db.entries k.booked.ordered.proper) e).3.valid

  -- With a positive snapshot threshold, a history in which every commit finds its reserved debit ahead
  -- of the sender's last snapshot keeps the whole invariant: every snapshot is sound, the settled rows
  -- of every currency sum to zero, and the rows are in order, signed and rounded.
  pub Careful-IsKept : {db db' : Db} → 0 < threshold → IsKept db → Careful db db' → IsKept db'
  Careful-IsKept positive k start = k
  Careful-IsKept positive k (after r s care) =
      let before = Careful-IsKept positive k r in
      record {
        valid = Step-IsValid s positive care before;
        booked = Step-IsBooked config remote rates limit threshold s before.booked;
      }
