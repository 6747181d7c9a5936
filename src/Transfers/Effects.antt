-- ===== src/Transfers/Effects.antt =====
-- What a transfer that goes through has done to every balance.
use wallet_ledger_assesment.Base.{
  ℕ, ◌<◌, ◌≡◌, refl, sym, ap, ◌∙◌, String, Option, none, some, [], ◌∷◌, arith, ◌==◌, subst,
  if◌then◌else◌,
}
use wallet_ledger_assesment.Base.Int.{ℤ, pos, ◌+ℤ◌, neg, ◌≤ℤ◌, ◌<ℤ◌, abs-nonneg, +ℤ-zero}
use wallet_ledger_assesment.Base.Lists.{All}
use wallet_ledger_assesment.Base.Text.{upper, eq_iff}
use wallet_ledger_assesment.Domain.Enums.{TransactionType, TransactionStatus}
use wallet_ledger_assesment.Domain.Errors.{Result, ok, ok-injective, >>=-eq-ok, ◌>>=◌, ◌>>◌}
use wallet_ledger_assesment.Domain.Decimals.{Decimal}
use wallet_ledger_assesment.Domain.Money.{Money, money, of_amount, is_positive, lt}
use wallet_ledger_assesment.Domain.Aggregates.{debit, credit, ensure_can_debit}
use wallet_ledger_assesment.Domain.Events.{DomainEvent}
use wallet_ledger_assesment.Store.{Db, get_account}
use wallet_ledger_assesment.Store.Models.{Account, Transaction}
use wallet_ledger_assesment.Ledger.{post, available_balance, snapshot_all}
use wallet_ledger_assesment.Ledger.Snapshots.{full_balance}
use wallet_ledger_assesment.Ledger.Posting.{IsSettled}
use wallet_ledger_assesment.Ledger.Invariant.{
  IsValid, SameLedger, SameLedger-refl, reserved, account_total, Posted, post-snapshot_all-Posted,
}
use wallet_ledger_assesment.Accounts
use wallet_ledger_assesment.Accounts.Lookup.{get-found, lock-found}
use wallet_ledger_assesment.Transfers.{
  Outcome, validate, ensure_funds, or_fresh, new_transaction, transfer_lines, settle_transfer,
  execute,
}

-- The validated part of a request.
pub record IsAccepted (sender receiver : Account) (amount : Decimal) (m : Money) : Type 0 where
  pub same_currency : sender.currency ≡ receiver.currency
  pub normalized : m ≡ money amount sender.currency
  pub positive : pos 0 <ℤ m.amount

pub validate-IsAccepted :
    (sender receiver : Account) (amount : Decimal) (m : Money)
    → validate sender receiver amount ≡ ok m
    → IsAccepted sender receiver amount m
unfolding validate is_positive
validate-IsAccepted sender receiver amount m e =
    ground (arith, eq_iff sender.currency receiver.currency)

pub ensure_can_debit-covers :
    (sender : Account) (m : Money) (db : Db)
    → m.currency ≡ (available_balance sender db).currency
    → ensure_funds sender m db ≡ ok tt
    → m.amount ≤ℤ (available_balance sender db).amount
unfolding ensure_funds ensure_can_debit lt
ensure_can_debit-covers sender m db c e = ground (
  arith,
  eq_iff m.currency (available_balance sender db).currency,
  eq_iff (available_balance sender db).currency m.currency,
)

-- What a row of the transfer adds to an account.
abbrev pub moved : Account → Account → ℤ → ℕ → ℤ
moved sender receiver x a =
    (if sender.id == a then neg x else pos 0) +ℤ (if receiver.id == a then x else pos 0)

transfer_lines-account_total :
    (sender receiver : Account) (m : Money) (a : ℕ)
    → pos 0 <ℤ m.amount
    → account_total a (transfer_lines sender.id receiver.id m).lines
      ≡ moved sender receiver m.amount a
unfolding debit credit
transfer_lines-account_total sender receiver m a h =
    rw (abs-nonneg m.amount (omega arith))
      (ap (λ (t : ℤ). (if sender.id == a then neg m.amount else pos 0) +ℤ t) (+ℤ-zero _))

pub transfer_lines-IsSettled : (s r : ℕ) (m : Money) → All IsSettled (transfer_lines s r m).lines
unfolding debit credit
transfer_lines-IsSettled s r m = (refl, (refl, tt))

pub new_transaction-SameLedger :
    (k : TransactionType) (st : TransactionStatus) (m : Money) (s r : Account) (c : Option ℕ)
    (db : Db)
    → let (correlation, db1) = or_fresh c db in
      SameLedger db (new_transaction k st m s r correlation db1).1
unfolding new_transaction
new_transaction-SameLedger k st m s r none db = record {
  entries = refl;
  snapshots = refl;
  next_seq = refl;
}
new_transaction-SameLedger k st m s r (some c) db = record {
  entries = refl;
  snapshots = refl;
  next_seq = refl;
}

-- The invariant holds after, and each account has moved by what the transfer moved.
pub record Transferred (sender receiver : Account) (x : ℤ) (db db' : Db) : Type 0 where
  pub valid : IsValid db'
  pub balances : (a : ℕ) → full_balance a db' ≡ full_balance a db +ℤ moved sender receiver x a
  pub reservations : (a : ℕ) → reserved a db' ≡ reserved a db

Posted-Transferred :
    (sender receiver : Account) (m : Money) (db db' : Db)
    → pos 0 <ℤ m.amount
    → Posted (transfer_lines sender.id receiver.id m).lines db db'
    → Transferred sender receiver m.amount db db'
Posted-Transferred sender receiver m db db' h p = record {
  valid = p.valid;
  balances = λ a.
      p.balances a
      ∙ ap (λ (t : ℤ). full_balance a db +ℤ t) (transfer_lines-account_total sender receiver m a h);
  reservations = p.reservations;
}

pub settle_transfer-Transferred :
    (threshold : ℕ) (sender receiver : Account) (m : Money) (c : Option ℕ) (db : Db)
    (txn : Transaction) (event : DomainEvent) (db' : Db)
    → 0 < threshold
    → IsValid db
    → pos 0 <ℤ m.amount
    → settle_transfer threshold sender receiver m c db ≡ ok (txn, event, db')
    → Transferred sender receiver m.amount db db'
unfolding settle_transfer
settle_transfer-Transferred threshold sender receiver m c db txn event db' positive v h e =
    let (correlation, db1) = or_fresh c db in
    let (new, db2) =
      new_transaction TransactionType.transfer TransactionStatus.success m sender receiver
        correlation db1 in
    let lines = transfer_lines sender.id receiver.id m in
    let same : SameLedger db db2 =
      new_transaction-SameLedger TransactionType.transfer TransactionStatus.success m sender
        receiver c db in
    let (db3, posted, rest) = >>=-eq-ok (post lines new.id db2) _ e in
    let (db4, cut, done) = >>=-eq-ok (snapshot_all threshold (sender ∷ receiver ∷ []) db3) _ rest in
    let p =
      post-snapshot_all-Posted threshold lines new.id (sender ∷ receiver ∷ []) db db2 db3 db3 db4
        positive (transfer_lines-IsSettled sender.id receiver.id m) v same posted
        (SameLedger-refl db3) cut in
    subst (Transferred sender receiver m.amount db) (ap (λ (o : Outcome). o.2) (ok-injective done))
      (Posted-Transferred sender receiver m db db4 h p)

-- The two accounts and the money of a request that went through.
pub record Request (sender_id receiver_id : ℕ) (amount : Decimal) (db : Db) : Type 0 where
  pub sender : Account
  pub receiver : Account
  pub m : Money
  pub sender_found : get_account sender_id db ≡ some sender
  pub receiver_found : get_account receiver_id db ≡ some receiver
  pub accepted : IsAccepted sender receiver amount m
  pub covered : m.amount ≤ℤ (available_balance sender db).amount

pub available_balance-currency :
    (a : Account) (db : Db) → (available_balance a db).currency ≡ upper a.currency
unfolding available_balance of_amount money
available_balance-currency a db = refl

pub money-currency : (d : Decimal) (c : String) → (money d c).currency ≡ upper c
unfolding money
money-currency d c = refl

-- The checks that `execute` and `initiate` begin with, inverted.
pub Request-checked :
    (sender_id receiver_id : ℕ) (amount : Decimal) (db : Db)
    (next : Account → Account → Money → Result Outcome) (o : Outcome)
    → (Accounts.lock sender_id db >>= λ sender. Accounts.get receiver_id db >>= λ receiver.
        validate sender receiver amount >>= λ m. ensure_funds sender m db >> next sender receiver m)
      ≡ ok o
    → (r : Request sender_id receiver_id amount db) × (next r.sender r.receiver r.m ≡ ok o)
Request-checked sender_id receiver_id amount db next o e =
    let (sender, found, e1) = >>=-eq-ok (Accounts.lock sender_id db) _ e in
    let (receiver, found', e2) = >>=-eq-ok (Accounts.get receiver_id db) _ e1 in
    let (m, valid, e3) = >>=-eq-ok (validate sender receiver amount) _ e2 in
    let (u, funds, e4) = >>=-eq-ok (ensure_funds sender m db) _ e3 in
    let accepted = validate-IsAccepted sender receiver amount m valid in
    (
      record {
        sender = sender;
        receiver = receiver;
        m = m;
        sender_found = lock-found sender_id db sender found;
        receiver_found = get-found receiver_id db receiver found';
        accepted = accepted;
        covered =
            ensure_can_debit-covers sender m db
              (ap (λ (x : Money). x.currency) accepted.normalized
                ∙ money-currency amount sender.currency
                ∙ sym (available_balance-currency sender db))
              funds;
      },
      e4,
    )

-- With a valid ledger and a positive snapshot threshold, a direct transfer that returns has moved a
-- positive amount, which the sender's available balance covered, from the sender to the receiver: no
-- other account's settled sum and no reservation changes, and the ledger is valid after.
pub execute-Transferred :
    (threshold sender_id receiver_id : ℕ) (amount : Decimal) (c : Option ℕ) (db : Db)
    (txn : Transaction) (event : DomainEvent) (db' : Db)
    → 0 < threshold
    → IsValid db
    → execute threshold sender_id receiver_id amount c db ≡ ok (txn, event, db')
    → (r : Request sender_id receiver_id amount db) × Transferred r.sender r.receiver r.m.amount db
        db'
unfolding execute
execute-Transferred threshold sender_id receiver_id amount c db txn event db' positive v e =
    let (r, settled_) =
      Request-checked sender_id receiver_id amount db
        (λ sender receiver m. settle_transfer threshold sender receiver m c db) (txn, event, db')
        e in
    (
      r,
      settle_transfer-Transferred threshold r.sender r.receiver r.m c db txn event db' positive v
          r.accepted.positive settled_,
    )
