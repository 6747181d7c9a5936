-- ===== src/Transfers/Phases.antt =====
-- The first phase of a transfer, and its cancellation: a reservation lowers what is available and
-- no balance, and `fail` gives the reserved amount back.
use wallet_ledger_assesment.Base.{
  ℕ, ◌<◌, ◌≡◌, refl, ap, ◌∙◌, true, not, ◌&&◌, String, Option, List, [], ◌∷◌, arith, ◌==◌, subst,
  if◌then◌else◌,
}
use wallet_ledger_assesment.Base.Int.{ℤ, pos, ◌+ℤ◌, neg, ◌<ℤ◌, int_laws, abs-nonneg, +ℤ-zero}
use wallet_ledger_assesment.Domain.Enums.{EntryStatus, TransactionType, TransactionStatus}
use wallet_ledger_assesment.Domain.Errors.{ok, ok-injective}
use wallet_ledger_assesment.Domain.Decimals.{Decimal}
use wallet_ledger_assesment.Domain.Money.{Money}
use wallet_ledger_assesment.Domain.Events.{DomainEvent}
use wallet_ledger_assesment.Store.{Db, add_entry}
use wallet_ledger_assesment.Store.Models.{Account, Transaction, LedgerEntry, debit_entry}
use wallet_ledger_assesment.Store.Sums.{
  counted, sum_where, sum_where-append, sum_where-update, sum_where-released,
}
use wallet_ledger_assesment.Ledger.{reserved_debit}
use wallet_ledger_assesment.Ledger.Snapshots.{settled, settled_upto, full_balance}
use wallet_ledger_assesment.Ledger.Numbering.{add_entries-AllSound}
use wallet_ledger_assesment.Ledger.Posting.{settled_in, IsBalanced}
use wallet_ledger_assesment.Ledger.Updates.{update-AllSound}
use wallet_ledger_assesment.Ledger.Invariant.{IsValid, SameLedger, SameLedger-IsValid, reserved}
use wallet_ledger_assesment.Transfers.{
  Outcome, or_fresh, new_transaction, reserve, initiate, is_held, failed_copy, release_rows,
}
use wallet_ledger_assesment.Transfers.Effects.{Request, Request-checked, new_transaction-SameLedger}

-- The invariant holds after, no balance has moved, and the sender's reservations have grown.
pub record Reserved (sender : Account) (x : ℤ) (db db' : Db) : Type 0 where
  pub valid : IsValid db'
  pub balances : (a : ℕ) → full_balance a db' ≡ full_balance a db
  pub reservations :
      (a : ℕ) → reserved a db' ≡ reserved a db +ℤ (if sender.id == a then neg x else pos 0)

module _ (account_id id : ℕ) (x : ℤ) (currency : String) (db : Db) where
  abbrev pub hold : ℕ → LedgerEntry
  hold = debit_entry account_id id x currency EntryStatus.pending

  hold-settled : (a n : ℕ) → counted (settled a) (hold n) ≡ pos 0
  hold-settled a n = ground arith

  hold-settled_in : (c : String) (n : ℕ) → counted (settled_in c) (hold n) ≡ pos 0
  hold-settled_in c n = ground arith

  hold-reserved :
      (a n : ℕ)
      → 0 < n
      → pos 0 <ℤ x
      → counted (reserved_debit a) (hold n) ≡ (if account_id == a then neg x else pos 0)
  hold-reserved a n p h = rw (abs-nonneg x (omega arith)) (ground arith)

  hold-full_balance : (a : ℕ) → full_balance a (add_entry hold db) ≡ full_balance a db
  hold-full_balance a = rw (sum_where-append, hold-settled a db.next_seq) (omega int_laws)

  hold-reserved_sum :
      (a : ℕ)
      → 0 < db.next_seq
      → pos 0 <ℤ x
      → reserved a (add_entry hold db) ≡ reserved a db +ℤ (if account_id == a then neg x else pos 0)
  hold-reserved_sum a p h =
      rw (sum_where-append, hold-reserved a db.next_seq p h)
        (ap (λ (t : ℤ). reserved a db +ℤ t) (+ℤ-zero _))

  pub hold-IsBalanced : IsBalanced db → IsBalanced (add_entry hold db)
  hold-IsBalanced h = record {
    at = λ c. rw (sum_where-append, hold-settled_in c db.next_seq, h.at c) (omega int_laws);
  }

  hold-IsValid : IsValid db → IsValid (add_entry hold db)
  hold-IsValid v = record {
    snapshots = add_entries-AllSound (hold ∷ []) db (λ n. refl, tt) v.snapshots;
    double_entry = hold-IsBalanced v.double_entry;
  }

reserve-Reserved :
    (sender receiver : Account) (m : Money) (c : Option ℕ) (db : Db) (txn : Transaction)
    (event : DomainEvent) (db' : Db)
    → IsValid db
    → pos 0 <ℤ m.amount
    → reserve sender receiver m c db ≡ ok (txn, event, db')
    → Reserved sender m.amount db db'
unfolding reserve
reserve-Reserved sender receiver m c db txn event db' v h e =
    let (correlation, db1) = or_fresh c db in
    let (new, db2) =
      new_transaction TransactionType.transfer TransactionStatus.pending m sender receiver
        correlation db1 in
    let same : SameLedger db db2 =
      new_transaction-SameLedger TransactionType.transfer TransactionStatus.pending m sender
        receiver c db in
    let v2 : IsValid db2 = SameLedger-IsValid same v in
    subst (Reserved sender m.amount db) (ap (λ (o : Outcome). o.2) (ok-injective e)) (record {
      valid = hold-IsValid sender.id new.id m.amount m.currency db2 v2;
      balances = λ a.
          hold-full_balance sender.id new.id m.amount m.currency db2 a
          ∙ ap (sum_where (settled a)) same.entries;
      reservations = λ a.
          hold-reserved_sum sender.id new.id m.amount m.currency db2 a v2.snapshots.started h
          ∙ ap
              (λ (es : List LedgerEntry).
                sum_where (reserved_debit a) es +ℤ (if sender.id == a then neg m.amount else pos 0))
              same.entries;
    })

-- On a valid ledger, an initiated transfer that returns has reserved a positive amount that was
-- available: every balance stays, the reservations of the sender and of no other account grow by that
-- amount, and the ledger is valid after.
pub initiate-Reserved :
    (sender_id receiver_id : ℕ) (amount : Decimal) (c : Option ℕ) (db : Db) (txn : Transaction)
    (event : DomainEvent) (db' : Db)
    → IsValid db
    → initiate sender_id receiver_id amount c db ≡ ok (txn, event, db')
    → (r : Request sender_id receiver_id amount db) × Reserved r.sender r.m.amount db db'
unfolding initiate
initiate-Reserved sender_id receiver_id amount c db txn event db' v e =
    let (r, done) =
      Request-checked sender_id receiver_id amount db
        (λ sender receiver m. reserve sender receiver m c db) (txn, event, db') e in
    (r, reserve-Reserved r.sender r.receiver r.m c db txn event db' v r.accepted.positive done)

-- Released rows were pending, so no settled sum has them.
released-settled :
    (id a : ℕ) (e : LedgerEntry)
    → is_held id e ≡ true
    → counted (settled a) (failed_copy e) ≡ counted (settled a) e
released-settled id a e h = ground arith

released-settled_in :
    (id : ℕ) (c : String) (e : LedgerEntry)
    → is_held id e ≡ true
    → counted (settled_in c) (failed_copy e) ≡ counted (settled_in c) e
released-settled_in id c e h = ground arith

released-upto :
    (id a n : ℕ) (e : LedgerEntry)
    → is_held id e ≡ true
    → counted (settled_upto a n) (failed_copy e) ≡ counted (settled_upto a n) e
released-upto id a n e h = ground arith

released-reserved :
    (id a : ℕ) (e : LedgerEntry)
    → is_held id e ≡ true
    → counted (reserved_debit a) (failed_copy e) ≡ pos 0
released-reserved id a e h = ground arith

-- What an account has reserved for other transactions.
abbrev pub reserved_elsewhere : ℕ → ℕ → Db → ℤ
reserved_elsewhere id a db = sum_where (λ e. reserved_debit a e && not (is_held id e)) db.entries

-- The invariant holds after, no balance has moved, and of the reservations only those of other
-- transactions are left.
pub record Released (id : ℕ) (db db' : Db) : Type 0 where
  pub valid : IsValid db'
  pub balances : (a : ℕ) → full_balance a db' ≡ full_balance a db
  pub reservations : (a : ℕ) → reserved a db' ≡ reserved_elsewhere id a db

pub release_rows-IsBalanced : (id : ℕ) (db : Db) → IsBalanced db → IsBalanced (release_rows id db)
release_rows-IsBalanced id db h = record {
  at = λ c.
      sum_where-update (settled_in c) _ failed_copy db.entries (released-settled_in id c) ∙ h.at c;
}

pub release_rows-Released : (id : ℕ) (db : Db) → IsValid db → Released id db (release_rows id db)
release_rows-Released id db v = record {
  valid = record {
    snapshots =
        update-AllSound (is_held id) failed_copy db (λ e. refl)
          (λ a. sum_where-update _ _ failed_copy db.entries (released-upto id a _)) v.snapshots;
    double_entry = release_rows-IsBalanced id db v.double_entry;
  };
  balances = λ a. sum_where-update (settled a) _ failed_copy db.entries (released-settled id a);
  reservations =
      λ a. sum_where-released (reserved_debit a) _ failed_copy db.entries (released-reserved id a);
}
