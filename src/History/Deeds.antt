-- ===== src/History/Deeds.antt =====
-- The operations of the ledger as steps of the abstract bank.
use wallet_ledger_assesment.Base.{ℕ, ◌<◌, ◌≡◌, refl, sym, ap, ◌∙◌, Option, some}
use wallet_ledger_assesment.Base.Int.{ℤ, pos, ◌+ℤ◌, ◌≤ℤ◌, +ℤ-zero}
use wallet_ledger_assesment.Domain.Decimals.{Decimal}
use wallet_ledger_assesment.Domain.Errors.{ok}
use wallet_ledger_assesment.Domain.Money.{Money}
use wallet_ledger_assesment.Domain.Events.{DomainEvent}
use wallet_ledger_assesment.Store.{Db, get_account}
use wallet_ledger_assesment.Store.Models.{Account, Transaction}
use wallet_ledger_assesment.Ledger.Snapshots.{full_balance}
use wallet_ledger_assesment.Ledger.Invariant.{IsValid, SameLedger, reserved}
use wallet_ledger_assesment.Ledger.Exact.{IsExact}
use wallet_ledger_assesment.Transfers.{execute, initiate}
use wallet_ledger_assesment.Transfers.Effects.{Request, execute-Transferred}
use wallet_ledger_assesment.Transfers.Phases.{initiate-Reserved}
use wallet_ledger_assesment.Transfers.Cover.{covered-available}
use wallet_ledger_assesment.History.Bank.{
  Bank, free, Asked, idle, paid, held, does_nothing, pays, holds,
}
use wallet_ledger_assesment.History.Orders.{Pays, Holds}

-- What the rows of the ledger come to.
abbrev pub bank_of : Db → Bank
bank_of db = record { settled_of = λ a. full_balance a db; reserved_of = λ a. reserved a db }

-- The rows of an account are multiples of its smallest amount, if it is there.
abbrev pub IsExactFor : ℕ → Db → Type 0
IsExactFor i db = (a : Account) → get_account i db ≡ some a → IsExact a db

pub SameLedger-idle :
    {db db' : Db} → SameLedger db db' → Asked (λ d. d ≡ does_nothing) (bank_of db) (bank_of db')
SameLedger-idle {db} {db'} s = (
  idle (record {
    settled_change = λ a. rw s.entries (sym (+ℤ-zero _));
    reserved_change = λ a. rw s.entries (sym (+ℤ-zero _));
  }),
  refl,
  λ a. refl,
)

-- Reservations that stay.
pub stays : {x y : ℤ} → x ≡ y → x ≡ y +ℤ pos 0
stays e = e ∙ sym (+ℤ-zero _)

module _ (sender_id receiver_id : ℕ) (amount : Decimal) (db : Db) (v : IsValid db)
    (exact : IsExactFor sender_id db) where
  request-free :
      (r : Request sender_id receiver_id amount db) → r.m.amount ≤ℤ free (bank_of db) r.sender.id
  request-free r =
      (covered-available sender_id receiver_id amount db r.sender r r.sender_found
        (exact r.sender r.sender_found) v).1

  pub execute-paid :
      (threshold : ℕ) (c : Option ℕ) (txn : Transaction) (event : DomainEvent) (db' : Db)
      → 0 < threshold
      → execute threshold sender_id receiver_id amount c db ≡ ok (txn, event, db')
      → Asked (Pays sender_id receiver_id amount db) (bank_of db) (bank_of db')
  execute-paid threshold c txn event db' positive e =
      let (r, t) =
        execute-Transferred threshold sender_id receiver_id amount c db txn event db' positive v
          e in
      (
        paid r.sender.id r.receiver.id r.m.amount r.accepted.positive (request-free r) (record {
          settled_change = t.balances;
          reserved_change = λ a. stays (t.reservations a);
        }),
        record {
          sender = r.sender;
          receiver = r.receiver;
          sender_found = r.sender_found;
          receiver_found = r.receiver_found;
          is = ap (λ (m : Money). pays r.sender.id r.receiver.id m.amount) r.accepted.normalized;
        },
        λ a. refl,
      )

  pub initiate-held :
      (c : Option ℕ) (txn : Transaction) (event : DomainEvent) (db' : Db)
      → initiate sender_id receiver_id amount c db ≡ ok (txn, event, db')
      → Asked (Holds sender_id amount db) (bank_of db) (bank_of db')
  initiate-held c txn event db' e =
      let (r, t) = initiate-Reserved sender_id receiver_id amount c db txn event db' v e in
      (
        held r.sender.id r.m.amount r.accepted.positive (request-free r) (record {
          settled_change = λ a. stays (t.balances a);
          reserved_change = t.reservations;
        }),
        record {
          sender = r.sender;
          sender_found = r.sender_found;
          is = ap (λ (m : Money). holds r.sender.id m.amount) r.accepted.normalized;
        },
        λ a. refl,
      )
