-- ===== src/History/Bookings.antt =====
-- Each operation that posts adds its rows through a balanced aggregate of proper lines, and writes
-- nothing else to the ledger's rows.
use wallet_ledger_assesment.Base.{ℕ, ◌≡◌, refl, sym, ap, ◌∙◌, String, Option, List, [], ◌∷◌, subst}
use wallet_ledger_assesment.Base.Int.{ℤ, neg, abs, magnitude, int_laws}
use wallet_ledger_assesment.Base.Lists.{All, All-append}
use wallet_ledger_assesment.Domain.Enums.{TransactionType, TransactionStatus, EntryStatus}
use wallet_ledger_assesment.Domain.Errors.{ok, >>=-eq-ok, ok-injective}
use wallet_ledger_assesment.Domain.Decimals.{Decimal}
use wallet_ledger_assesment.Domain.Money.{Money, money, of_amount, quantum}
use wallet_ledger_assesment.Domain.Money.Laws.{IsMultiple, money-IsNormal}
use wallet_ledger_assesment.Domain.Aggregates.{TransactionAggregate, new_aggregate, debit, credit}
use wallet_ledger_assesment.Store.{Db}
use wallet_ledger_assesment.Store.Models.{Account, debit_entry, credit_entry}
use wallet_ledger_assesment.Ledger.{post, snapshot_all}
use wallet_ledger_assesment.Ledger.Keeping.{snapshot_all-balance}
use wallet_ledger_assesment.Ledger.Posting.{IsSettled}
use wallet_ledger_assesment.Ledger.Invariant.{SameLedger, SameLedger-refl}
use wallet_ledger_assesment.Transfers.{
  Outcome, or_fresh, new_transaction, transfer_lines, settle_transfer, execute,
}
use wallet_ledger_assesment.Transfers.Effects.{
  Request-checked, new_transaction-SameLedger, transfer_lines-IsSettled,
}
use wallet_ledger_assesment.History.Books.{
  IsBooked, IsBooked-same, Builds, IsProperLine, post-IsBooked,
}

pub record Booking (db db' : Db) : Type 0 where
  pub lines : TransactionAggregate
  pub id : ℕ
  pub before : Db
  pub posted_to : Db
  pub settled_lines : All IsSettled lines.lines
  pub proper : All IsProperLine lines.lines
  pub same : SameLedger db before
  pub posted : post lines id before ≡ ok posted_to
  pub entries : db'.entries ≡ posted_to.entries
  pub next_seq : db'.next_seq ≡ posted_to.next_seq

pub Booking-IsBooked : {db db' : Db} → Booking db db' → IsBooked db → IsBooked db'
Booking-IsBooked {db} {db'} k b = IsBooked-same k.posted_to db' k.entries k.next_seq (
    post-IsBooked k.lines k.id k.before k.posted_to k.settled_lines k.proper k.posted
      (IsBooked-same db k.before k.same.entries k.same.next_seq b))

-- An amount of its currency makes proper lines.
abbrev pub IsExact : Money → Type 0
IsExact m = IsMultiple (quantum m.currency) m.amount

pub money-IsExact : (d : Decimal) (c : String) → IsExact (money d c)
money-IsExact d c = (money-IsNormal d c).multiple

pub of_amount-IsExact : (x : ℤ) (c : String) → IsExact (of_amount x c)
unfolding of_amount
of_amount-IsExact x c = money-IsExact _ c

magnitude-abs : (x : ℤ) → magnitude (abs x) ≡ magnitude x
magnitude-abs x = omega int_laws

magnitude-neg-abs : (x : ℤ) → magnitude (neg (abs x)) ≡ magnitude x
magnitude-neg-abs x = omega int_laws

debited_sign : (x : ℤ) → neg (abs x) ≡ neg (abs (neg (abs x)))
debited_sign x = omega int_laws

credited_sign : (x : ℤ) → abs x ≡ abs (abs x)
credited_sign x = omega int_laws

module _ (a : ℕ) (m : Money) (t : TransactionAggregate) (exact : IsExact m)
    (h : All IsProperLine t.lines) where
  pub debit-proper : All IsProperLine (debit a m t).lines
  unfolding debit
  debit-proper =
      All-append IsProperLine t.lines _ h
        (record { sign = debited_sign m.amount; exact = rw magnitude-neg-abs exact }, tt)

  pub credit-proper : All IsProperLine (credit a m t).lines
  unfolding credit
  credit-proper =
      All-append IsProperLine t.lines _ h
        (record { sign = credited_sign m.amount; exact = rw magnitude-abs exact }, tt)

-- Posting and cutting, with a mark on a transaction between.
pub cut-Booking :
    (threshold : ℕ) (t : TransactionAggregate) (id : ℕ) (accounts : List Account)
    (db db2 db3 marked db4 : Db)
    → All IsSettled t.lines
    → All IsProperLine t.lines
    → SameLedger db db2
    → post t id db2 ≡ ok db3
    → SameLedger db3 marked
    → snapshot_all threshold accounts marked ≡ ok db4
    → Booking db db4
cut-Booking threshold t id accounts db db2 db3 marked db4 settled_lines proper same posted marking
      cut =
    let rows = (snapshot_all-balance threshold accounts marked db4 cut).0 in
    record {
      lines = t;
      id = id;
      before = db2;
      posted_to = db3;
      settled_lines = settled_lines;
      proper = proper;
      same = same;
      posted = posted;
      entries = rows.entries ∙ marking.entries;
      next_seq = rows.next_seq ∙ marking.next_seq;
    }

transfer_lines-proper :
    (s r : ℕ) (m : Money) → IsExact m → All IsProperLine (transfer_lines s r m).lines
transfer_lines-proper s r m exact =
    credit-proper r m _ exact (debit-proper s m (new_aggregate m.currency) exact tt)

settle_transfer-Booking :
    (threshold : ℕ) (sender receiver : Account) (m : Money) (c : Option ℕ) (db : Db) (o : Outcome)
    → IsExact m
    → settle_transfer threshold sender receiver m c db ≡ ok o
    → Booking db o.2
unfolding settle_transfer
settle_transfer-Booking threshold sender receiver m c db o exact e =
    let (correlation, db1) = or_fresh c db in
    let (new, db2) =
      new_transaction TransactionType.transfer TransactionStatus.success m sender receiver
        correlation db1 in
    let lines = transfer_lines sender.id receiver.id m in
    let (db3, posted, r1) = >>=-eq-ok (post lines new.id db2) _ e in
    let (db4, cut, r2) = >>=-eq-ok (snapshot_all threshold (sender ∷ receiver ∷ []) db3) _ r1 in
    subst (Booking db) (ap (λ (x : Outcome). x.2) (ok-injective r2)) (
      cut-Booking threshold lines new.id (sender ∷ receiver ∷ []) db db2 db3 db3 db4
        (transfer_lines-IsSettled sender.id receiver.id m)
        (transfer_lines-proper sender.id receiver.id m exact)
        (new_transaction-SameLedger TransactionType.transfer TransactionStatus.success m sender
          receiver c db)
        posted (SameLedger-refl db3) cut)

pub execute-Booking :
    (threshold sender_id receiver_id : ℕ) (amount : Decimal) (c : Option ℕ) (db : Db) (o : Outcome)
    → execute threshold sender_id receiver_id amount c db ≡ ok o
    → Booking db o.2
unfolding execute
execute-Booking threshold sender_id receiver_id amount c db o e =
    let (r, done) =
      Request-checked sender_id receiver_id amount db
        (λ sender receiver m. settle_transfer threshold sender receiver m c db) o e in
    settle_transfer-Booking threshold r.sender r.receiver r.m c db o
      (subst IsExact (sym r.accepted.normalized) (money-IsExact amount r.sender.currency)) done

-- The rows that are built outside an aggregate.
pub debit_entry-Builds :
    (a id : ℕ) (m : Money) (status : EntryStatus)
    → IsExact m
    → Builds (debit_entry a id m.amount m.currency status)
debit_entry-Builds a id m status exact =
    (λ n. refl, λ n. record { sign = debited_sign m.amount; exact = rw magnitude-neg-abs exact })

pub credit_entry-Builds :
    (a id : ℕ) (m : Money) (status : EntryStatus)
    → IsExact m
    → Builds (credit_entry a id m.amount m.currency status)
credit_entry-Builds a id m status exact =
    (λ n. refl, λ n. record { sign = credited_sign m.amount; exact = rw magnitude-abs exact })
