-- ===== src/History/Reaching.antt =====
-- Every history of operations keeps the books.
use wallet_ledger_assesment.Base.{ℕ, refl}
use wallet_ledger_assesment.Base.Int.{ℤ}
use wallet_ledger_assesment.Store.{Db, empty_db}
use wallet_ledger_assesment.Payments.{Config, Remote}
use wallet_ledger_assesment.Fx.{Rates}
use wallet_ledger_assesment.History.{
  Step, account_opened, transferred, initiated, committed, failed, deposit_initiated,
  deposit_settled, exchanged, reversed, Reach, here, next,
}
use wallet_ledger_assesment.History.Books.{IsBooked, IsBooked-same}
use wallet_ledger_assesment.History.Bookings.{Booking-IsBooked, execute-Booking}
use wallet_ledger_assesment.History.Writes.{
  create-SameLedger, initiate-IsBooked, commit-IsBooked, fail-IsBooked, deposit_initiate-SameLedger,
}
use wallet_ledger_assesment.History.Services.{settle-Booking, execute_fx_transfer-Booking}
use wallet_ledger_assesment.History.Mirrors.{reverse-Booking}

module _ (config : Config) (remote : Remote) (rates : Rates) (limit : ℤ) (threshold : ℕ) where
  pub Step-IsBooked :
      {db db' : Db} → Step config remote rates limit threshold db db' → IsBooked db → IsBooked db'
  Step-IsBooked {db} {db'} (account_opened owner currency drawn a e) b =
      let same = create-SameLedger owner currency drawn db (a, db') e in
      IsBooked-same db db' same.entries same.next_seq b
  Step-IsBooked {db} {db'} (transferred s r amount c txn event e) b =
      Booking-IsBooked (execute-Booking threshold s r amount c db (txn, event, db') e) b
  Step-IsBooked {db} {db'} (initiated s r amount c txn event e) b =
      initiate-IsBooked s r amount c db (txn, event, db') e b
  Step-IsBooked {db} {db'} (committed id txn event e) b =
      commit-IsBooked limit threshold id db (txn, event, db') e b
  Step-IsBooked {db} {db'} (failed id txn event e) b = fail-IsBooked id db (txn, event, db') e b
  Step-IsBooked {db} {db'} (deposit_initiated i amount p context c txn e) b =
      let same = deposit_initiate-SameLedger config remote i amount p context c db (txn, db') e in
      IsBooked-same db db' same.entries same.next_seq b
  Step-IsBooked {db} {db'} (deposit_settled drawn reference amount currency txn event e) b =
      Booking-IsBooked
        (settle-Booking threshold drawn reference amount currency db (txn, event, db') e) b
  Step-IsBooked {db} {db'} (exchanged drawn drawn' s r amount c txn event e) b =
      Booking-IsBooked
        (execute_fx_transfer-Booking rates threshold drawn drawn' s r amount c db (txn, event, db')
          e)
        b
  Step-IsBooked {db} {db'} (reversed id c reversal e) b =
      Booking-IsBooked (reverse-Booking threshold id c db (reversal, db') e) b

  -- Whatever operations run one after another, in whatever order and on whatever arguments, commits
  -- that a snapshot has passed among them: if the books were in order, then after them the settled
  -- rows of every currency sum to zero, the rows stand in the order of their numbers, and each row
  -- is signed as the debit or credit that it is, by a multiple of the smallest amount of its currency.
  pub Reach-IsBooked :
      {db db' : Db} → IsBooked db → Reach config remote rates limit threshold db db' → IsBooked db'
  Reach-IsBooked b here = b
  Reach-IsBooked b (next r s) = Step-IsBooked s (Reach-IsBooked b r)

-- The books of an empty database.
pub empty_db-IsBooked : IsBooked empty_db
empty_db-IsBooked = record {
  double_entry = record { at = λ c. refl };
  ordered = record { rows = tt; increasing = tt; proper = tt };
}
