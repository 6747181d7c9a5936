-- ===== src/History/Settlements.antt =====
-- What closes a transaction, as a step of the abstract bank: commits and failures of transfers,
-- settlements of deposits, exchanges and reversals.
use wallet_ledger_assesment.Base.{
  ℕ, ◌<◌, ◌≡◌, refl, sym, ap, ◌∙◌, subst, inl, inr, Bool, true, ◌&&◌, String, Option, List, [], ◌∷◌,
  arith, ◌==◌, Bool-cases,
}
use wallet_ledger_assesment.Base.Int.{
  ℤ, pos, neg, abs, ◌+ℤ◌, ◌≤ℤ◌, ◌<ℤ◌, int_laws, cross, abs-nonneg,
}
use wallet_ledger_assesment.Base.Lists.{All, find-holds}
use wallet_ledger_assesment.Domain.Decimals.{Decimal}
use wallet_ledger_assesment.Domain.Enums.{is_debit}
use wallet_ledger_assesment.Domain.Errors.{ok}
use wallet_ledger_assesment.Domain.Events.{DomainEvent}
use wallet_ledger_assesment.Domain.Money.{money, of_amount}
use wallet_ledger_assesment.Store.{Db}
use wallet_ledger_assesment.Store.Models.{Transaction, LedgerEntry, Reference}
use wallet_ledger_assesment.Store.Sums.{counted, sum_where, sum_where-split}
use wallet_ledger_assesment.Ledger.{reserved_debit}
use wallet_ledger_assesment.Ledger.Snapshots.{full_balance}
use wallet_ledger_assesment.Ledger.Invariant.{IsValid, reserved, available}
use wallet_ledger_assesment.Ledger.Exact.{balance_exact}
use wallet_ledger_assesment.Transfers.{commit, fail, is_held, is_reserved}
use wallet_ledger_assesment.Transfers.Commit.{pair-sum}
use wallet_ledger_assesment.Transfers.Status.{fail-Failed}
use wallet_ledger_assesment.Transfers.Settlement.{IsWritten-of-commit, commit_rows-Settled}
use wallet_ledger_assesment.Deposits.{settle}
use wallet_ledger_assesment.Deposits.Crediting.{settle-Deposited}
use wallet_ledger_assesment.Fx.{Rates, execute_fx_transfer}
use wallet_ledger_assesment.Fx.Exchanging.{execute_fx_transfer-Exchanged}
use wallet_ledger_assesment.Reversals.{is_original, reverse}
use wallet_ledger_assesment.Reversals.Mirroring.{IsProper, of_account}
use wallet_ledger_assesment.Reversals.Reversing.{originals, reverse-Reversed}
use wallet_ledger_assesment.History.Careful.{Unpassed, IsKept, All-filter}
use wallet_ledger_assesment.History.Bank.{
  share, Asked, Does, captured, freed, paid_in, changed, given_back,
}
use wallet_ledger_assesment.History.Orders.{Captures, Frees, PaysIn, ExchangesFor, GivesBack}
use wallet_ledger_assesment.History.Deeds.{bank_of, IsExactFor, stays}

-- A reserved debit takes its amount from its account's reservations.
reserved-share :
    (id a : ℕ) (d : LedgerEntry)
    → is_reserved id d ≡ true
    → 0 < d.seq
    → counted (reserved_debit a) d ≡ share d.account_id d.amount a
reserved-share id a d h p = ground arith

add_back : (r r' x y : ℤ) → r' +ℤ x ≡ r → x +ℤ y ≡ pos 0 → r' ≡ r +ℤ y
add_back r r' x y h k = omega (int_laws, cross h, cross k)

share-cancels : (i a : ℕ) (x y : ℤ) → x +ℤ y ≡ pos 0 → share i x a +ℤ share i y a ≡ pos 0
share-cancels i a x y h = elim (Bool-cases (i == a)) [
  | inl t ↦ rw t h
  | inr n ↦ rw n (omega int_laws)
]

pub commit-captured :
    (limit : ℤ) (threshold id : ℕ) (db : Db) (txn : Transaction) (event : DomainEvent) (db' : Db)
    → IsValid db
    → Unpassed id db
    → commit limit threshold id db ≡ ok (txn, event, db')
    → Asked (Captures id db) (bank_of db) (bank_of db')
commit-captured limit threshold id db txn event db' v care e =
    let d = care.reserved_debit in
    let m = of_amount care.txn.amount care.txn.currency in
    let w = IsWritten-of-commit limit threshold id db care.txn d txn event db' care.read e in
    let s = commit_rows-Settled threshold id care.txn d db db' v care.read w in
    let sum = pair-sum care.txn d w.receiver m db w.checked in
    let out : d.amount ≡ neg (abs m.amount) = omega (int_laws, cross sum) in
    let waiting = find-holds (is_reserved care.txn.id) db.entries d care.read.debit_found in
    let numbered : 0 < d.seq = let ahead = care.ahead in omega arith in
    (
      captured d.account_id w.receiver.id (abs m.amount) (omega int_laws) (record {
        settled_change = λ a.
            s.balances a
            ∙ ap
                (λ (x : ℤ).
                  full_balance a db
                  +ℤ (share d.account_id x a +ℤ share w.receiver.id (abs m.amount) a))
                out;
        reserved_change = λ a.
            add_back (reserved a db) (reserved a db') (share d.account_id d.amount a)
              (share d.account_id (abs m.amount) a)
              (ap (λ (x : ℤ). reserved a db' +ℤ x)
                  (sym (reserved-share care.txn.id a d waiting numbered))
                ∙ s.reservations a)
              (share-cancels d.account_id a d.amount (abs m.amount) sum);
      }),
      record {
        txn = care.txn;
        held_row = d;
        receiver_id = w.receiver.id;
        txn_found = care.read.txn_found;
        row_found = care.read.debit_found;
        receiver_named = w.receiver_named;
        is = refl;
      },
      λ a. refl,
    )

-- Reserved rows are debits, so their sum is not positive.
reserved-nonpositive :
    (p : LedgerEntry → Bool) (a : ℕ) (es : List LedgerEntry)
    → All IsProper es
    → sum_where (λ e. reserved_debit a e && p e) es ≤ℤ pos 0
reserved-nonpositive p a [] h = omega arith
reserved-nonpositive p a (e ∷ es) h =
    let rest = reserved-nonpositive p a es h.1 in
    elim (Bool-cases (reserved_debit a e && p e)) [
      | inl t ↦
          let debit : is_debit e.entry_type ≡ true = ground arith in
          let sign : e.amount ≡ neg (abs e.amount) = rw debit at h.0.sign in
          rw t (omega (int_laws, cross sign))
      | inr n ↦ rw n (omega int_laws)
    ]

pub fail-freed :
    (id : ℕ) (db : Db) (txn : Transaction) (event : DomainEvent) (db' : Db)
    → IsKept db
    → fail id db ≡ ok (txn, event, db')
    → Asked (Frees id db) (bank_of db) (bank_of db')
fail-freed id db txn event db' k e =
    let f = (fail-Failed id db txn event db' k.valid e).released in
    let gone : ℕ → ℤ = λ a. sum_where (λ x. reserved_debit a x && is_held id x) db.entries in
    (
      freed (λ a. neg (gone a))
          (λ a.
            let below = reserved-nonpositive (is_held id) a db.entries k.booked.ordered.proper in
            omega int_laws)
          (record {
            settled_change = λ a. stays (f.balances a);
            reserved_change = λ a.
                let split = sum_where-split (reserved_debit a) (is_held id) db.entries in
                let after = f.reservations a in omega (int_laws, cross split, cross after);
          }),
      refl,
      λ a. refl,
    )

pub settle-paid_in :
    (threshold drawn : ℕ) (reference : Reference) (amount : Option Decimal)
    (currency : Option String) (db : Db) (txn : Transaction) (event : DomainEvent) (db' : Db)
    → 0 < threshold
    → IsValid db
    → settle threshold drawn reference amount currency db ≡ ok (txn, event, db')
    → Does (PaysIn reference db) (bank_of db) (bank_of db')
settle-paid_in threshold drawn reference amount currency db txn event db' positive v e =
    let d =
      settle-Deposited threshold drawn reference amount currency db txn event db' positive v e in
    (
      paid_in d.clearing.id d.account.id (abs (of_amount d.txn.amount d.txn.currency).amount)
          (omega int_laws)
          (record {
            settled_change = d.credited.balances;
            reserved_change = λ a. stays (d.credited.reservations a);
          }),
      record {
        txn = d.txn;
        account = d.account;
        clearing = d.clearing;
        txn_found = d.found;
        account_named = d.account_named;
        clearing_owned = d.clearing_owned;
        is = refl;
      },
    )

pub execute_fx_transfer-changed :
    (rates : Rates) (threshold drawn_from drawn_to sender_id receiver_id : ℕ) (amount : Decimal)
    (c : Option ℕ) (db : Db) (txn : Transaction) (event : DomainEvent) (db' : Db)
    → 0 < threshold
    → IsValid db
    → IsExactFor sender_id db
    → execute_fx_transfer rates threshold drawn_from drawn_to sender_id receiver_id amount c db
      ≡ ok (txn, event, db')
    → Does (ExchangesFor rates sender_id receiver_id amount db) (bank_of db) (bank_of db')
execute_fx_transfer-changed rates threshold drawn_from drawn_to sender_id receiver_id amount c db
      txn event db' positive v exact e =
    let (r, x) =
      execute_fx_transfer-Exchanged rates threshold drawn_from drawn_to sender_id receiver_id amount
        c db txn event db' positive v e in
    let sent = (money amount r.sender.currency).amount in
    let same : abs sent ≡ sent = let p = r.positive in abs-nonneg sent (omega arith) in
    let enough : sent ≤ℤ available r.sender.id db =
      subst (λ (y : ℤ). sent ≤ℤ y)
        (balance_exact r.sender db v.snapshots (exact r.sender r.sender_found)).1 r.covered in
    (
      changed r.sender.id x.pool_from.id x.pool_to.id r.receiver.id (abs sent)
          (abs r.received.amount) (subst (λ (y : ℤ). pos 0 <ℤ y) (sym same) r.positive)
          (omega int_laws) (subst (λ (y : ℤ). y ≤ℤ available r.sender.id db) (sym same) enough)
          (record { settled_change = x.balances; reserved_change = λ a. stays (x.reservations a) }),
      record {
        sender = r.sender;
        receiver = r.receiver;
        received = r.received;
        pool_from = x.pool_from;
        pool_to = x.pool_to;
        sender_found = r.sender_found;
        receiver_found = r.receiver_found;
        converted = r.converted;
        from_owned = x.from_owned;
        to_owned = x.to_owned;
        is = refl;
      },
    )

pub reverse-given_back :
    (threshold id : ℕ) (c : Option ℕ) (db : Db) (reversal : Transaction) (db' : Db)
    → IsKept db
    → reverse threshold id c db ≡ ok (reversal, db')
    → Does (GivesBack id db) (bank_of db) (bank_of db')
reverse-given_back threshold id c db reversal db' k e =
    let r =
      (reverse-Reversed threshold id c db reversal db' k.valid
        (All-filter IsProper (is_original id) db.entries k.booked.ordered.proper) e).3 in
    (
      given_back (λ a. neg (sum_where (of_account a) (originals id db)))
          (record { settled_change = r.balances; reserved_change = λ a. stays (r.reservations a) }),
      refl,
    )
