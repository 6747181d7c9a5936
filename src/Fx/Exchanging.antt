-- ===== src/Fx/Exchanging.antt =====
-- What a transfer between currencies does to every balance.
use wallet_ledger_assesment.Base.{
  ℕ, ◌<◌, ◌≡◌, ◌≢◌, refl, sym, ap, ◌∙◌, true, false, String, Option, none, some, [], ◌∷◌, arith,
  ◌==◌, subst, if◌then◌else◌,
}
use wallet_ledger_assesment.Base.Int.{ℤ, pos, ◌+ℤ◌, neg, abs, ◌<ℤ◌, ◌≤ℤ◌, +ℤ-zero}
use wallet_ledger_assesment.Base.Lists.{All}
use wallet_ledger_assesment.Base.Text.{upper, str_eq, eq_iff}
use wallet_ledger_assesment.Domain.Errors.{
  ok, guard, ok-injective, >>=-eq-ok, invalid_amount, same_currency,
}
use wallet_ledger_assesment.Domain.Decimals.{Decimal}
use wallet_ledger_assesment.Domain.Money.{Money, money, is_positive}
use wallet_ledger_assesment.Domain.Aggregates.{debit, credit}
use wallet_ledger_assesment.Domain.Events.{DomainEvent}
use wallet_ledger_assesment.Store.{Db, get_account}
use wallet_ledger_assesment.Store.Models.{Account, Transaction}
use wallet_ledger_assesment.Ledger.{post, available_balance, snapshot_all}
use wallet_ledger_assesment.Ledger.Snapshots.{full_balance}
use wallet_ledger_assesment.Ledger.Posting.{IsSettled}
use wallet_ledger_assesment.Ledger.Invariant.{
  IsValid, SameLedger, SameLedger-refl, SameLedger-trans, reserved, account_total,
  post-snapshot_all-Posted,
}
use wallet_ledger_assesment.Accounts
use wallet_ledger_assesment.Accounts.Lookup.{
  get-found, lock-found, get_or_create_internal-Opened, get_or_create_internal-owned,
}
use wallet_ledger_assesment.Transfers.{Outcome, or_fresh, ensure_funds}
use wallet_ledger_assesment.Transfers.Effects.{
  ensure_can_debit-covers, available_balance-currency, money-currency,
}
use wallet_ledger_assesment.Fx.{
  Rates, convert, pool_owner, new_exchange, exchange_lines, exchange, execute_fx_transfer,
}

-- The four lines, per account.
abbrev pub exchanged : ℕ → ℕ → ℕ → ℕ → ℤ → ℤ → ℕ → ℤ
exchanged sender_id pool_from_id pool_to_id receiver_id sent received a =
    (if sender_id == a then neg (abs sent) else pos 0)
    +ℤ ((if pool_from_id == a then abs sent else pos 0)
        +ℤ ((if pool_to_id == a then neg (abs received) else pos 0)
            +ℤ (if receiver_id == a then abs received else pos 0)))

exchange_lines-account_total :
    (s f t r : ℕ) (sent received : Money) (a : ℕ)
    → account_total a (exchange_lines s f t r sent received).lines
      ≡ exchanged s f t r sent.amount received.amount a
unfolding debit credit
exchange_lines-account_total s f t r sent received a =
    ap
      (λ (x : ℤ).
        (if s == a then neg (abs sent.amount) else pos 0)
        +ℤ ((if f == a then abs sent.amount else pos 0)
            +ℤ ((if t == a then neg (abs received.amount) else pos 0) +ℤ x)))
      (+ℤ-zero _)

pub exchange_lines-IsSettled :
    (s f t r : ℕ) (sent received : Money)
    → All IsSettled (exchange_lines s f t r sent received).lines
unfolding debit credit
exchange_lines-IsSettled s f t r sent received = (refl, (refl, (refl, (refl, tt))))

pub new_exchange-SameLedger :
    (sent received : Money) (s r : Account) (c : Option ℕ) (db : Db)
    → let (correlation, db1) = or_fresh c db in
      SameLedger db (new_exchange sent received s r correlation db1).1
unfolding new_exchange
new_exchange-SameLedger sent received s r none db = record {
  entries = refl;
  snapshots = refl;
  next_seq = refl;
}
new_exchange-SameLedger sent received s r (some c) db = record {
  entries = refl;
  snapshots = refl;
  next_seq = refl;
}

-- The invariant holds after, and the four accounts have moved by the four lines.
pub record Exchanged (sender receiver : Account) (sent received : ℤ) (db db' : Db) : Type 0 where
  pub pool_from : Account
  pub pool_to : Account
  pub from_owned : Accounts.owned pool_owner (upper sender.currency) pool_from ≡ true
  pub to_owned : Accounts.owned pool_owner (upper receiver.currency) pool_to ≡ true
  pub valid : IsValid db'
  pub balances :
      (a : ℕ)
      → full_balance a db'
        ≡ full_balance a db
          +ℤ exchanged sender.id pool_from.id pool_to.id receiver.id sent received a
  pub reservations : (a : ℕ) → reserved a db' ≡ reserved a db

steps-Exchanged :
    (threshold : ℕ) (sender receiver from to : Account) (sent received : Money) (c : Option ℕ)
    (db db0 db3 db4 : Db)
    → 0 < threshold
    → IsValid db
    → SameLedger db db0
    → Accounts.owned pool_owner (upper sender.currency) from ≡ true
    → Accounts.owned pool_owner (upper receiver.currency) to ≡ true
    → let (correlation, db1) = or_fresh c db0 in
      let (txn, db2) = new_exchange sent received sender receiver correlation db1 in
      post (exchange_lines sender.id from.id to.id receiver.id sent received) txn.id db2 ≡ ok db3
      → snapshot_all threshold (sender ∷ receiver ∷ from ∷ to ∷ []) db3 ≡ ok db4
      → Exchanged sender receiver sent.amount received.amount db db4
steps-Exchanged threshold sender receiver from to sent received c db db0 db3 db4 positive v o
      owned_from owned_to posted cut =
    let (correlation, db1) = or_fresh c db0 in
    let (txn, db2) = new_exchange sent received sender receiver correlation db1 in
    let lines = exchange_lines sender.id from.id to.id receiver.id sent received in
    let p =
      post-snapshot_all-Posted threshold lines txn.id (sender ∷ receiver ∷ from ∷ to ∷ []) db db2
        db3 db3 db4 positive
        (exchange_lines-IsSettled sender.id from.id to.id receiver.id sent received) v
        (SameLedger-trans o (new_exchange-SameLedger sent received sender receiver c db0)) posted
        (SameLedger-refl db3) cut in
    record {
      pool_from = from;
      pool_to = to;
      from_owned = owned_from;
      to_owned = owned_to;
      valid = p.valid;
      balances = λ a.
          p.balances a
          ∙ ap (λ (x : ℤ). full_balance a db +ℤ x)
              (exchange_lines-account_total sender.id from.id to.id receiver.id sent received a);
      reservations = p.reservations;
    }

exchange-Exchanged :
    (threshold drawn_from drawn_to : ℕ) (sender receiver : Account) (sent received : Money)
    (c : Option ℕ) (db : Db) (txn : Transaction) (event : DomainEvent) (db' : Db)
    → 0 < threshold
    → IsValid db
    → exchange threshold drawn_from drawn_to sender receiver sent received c db
      ≡ ok (txn, event, db')
    → Exchanged sender receiver sent.amount received.amount db db'
unfolding exchange
exchange-Exchanged threshold drawn_from drawn_to sender receiver sent received c db txn event db'
      positive v e =
    let (from, e1, r1) =
      >>=-eq-ok (Accounts.get_or_create_internal pool_owner sender.currency drawn_from db) _ e in
    let (to, e2, r2) =
      >>=-eq-ok (Accounts.get_or_create_internal pool_owner receiver.currency drawn_to from.1) _
        r1 in
    let (correlation, db1) = or_fresh c to.1 in
    let (new, db2) = new_exchange sent received sender receiver correlation db1 in
    let (db3, e3, r3) =
      >>=-eq-ok
        (post (exchange_lines sender.id from.0.id to.0.id receiver.id sent received) new.id db2) _
        r2 in
    let (db4, e4, r4) =
      >>=-eq-ok (snapshot_all threshold (sender ∷ receiver ∷ from.0 ∷ to.0 ∷ []) db3) _ r3 in
    let o1 = get_or_create_internal-Opened pool_owner sender.currency drawn_from db from e1 in
    let o2 = get_or_create_internal-Opened pool_owner receiver.currency drawn_to from.1 to e2 in
    subst (λ (x : Db). Exchanged sender receiver sent.amount received.amount db x)
      (ap (λ (x : Outcome). x.2) (ok-injective r4))
      (steps-Exchanged threshold sender receiver from.0 to.0 sent received c db to.1 db3 db4
        positive v (SameLedger-trans o1.ledger o2.ledger)
        (get_or_create_internal-owned pool_owner sender.currency drawn_from db from e1)
        (get_or_create_internal-owned pool_owner receiver.currency drawn_to from.1 to e2) e3 e4)

-- What an exchange was about.
pub record FxRequest (rates : Rates) (sender_id receiver_id : ℕ) (amount : Decimal) (db : Db)
    : Type 0 where
  pub sender : Account
  pub receiver : Account
  pub received : Money
  pub sender_found : get_account sender_id db ≡ some sender
  pub receiver_found : get_account receiver_id db ≡ some receiver
  pub currencies : sender.currency ≢ receiver.currency
  pub positive : pos 0 <ℤ (money amount sender.currency).amount
  pub covered : (money amount sender.currency).amount ≤ℤ (available_balance sender db).amount
  pub converted : convert rates (money amount sender.currency) receiver.currency ≡ ok received

differs : (s t : String) → guard (if str_eq s t then false else true) same_currency ≡ ok tt → s ≢ t
differs s t h = ground (arith, eq_iff s t)

is_positive-pos : (m : Money) → guard (is_positive m) invalid_amount ≡ ok tt → pos 0 <ℤ m.amount
unfolding is_positive
is_positive-pos m h = ground arith

pub execute_fx_transfer-Exchanged :
    (rates : Rates) (threshold drawn_from drawn_to sender_id receiver_id : ℕ) (amount : Decimal)
    (c : Option ℕ) (db : Db) (txn : Transaction) (event : DomainEvent) (db' : Db)
    → 0 < threshold
    → IsValid db
    → execute_fx_transfer rates threshold drawn_from drawn_to sender_id receiver_id amount c db
      ≡ ok (txn, event, db')
    → (r : FxRequest rates sender_id receiver_id amount db) × Exchanged r.sender r.receiver
        (money amount r.sender.currency).amount
        r.received.amount
        db
        db'
unfolding execute_fx_transfer
execute_fx_transfer-Exchanged rates threshold drawn_from drawn_to sender_id receiver_id amount c db
      txn event db' positive v e =
    let (sender, e1, r1) = >>=-eq-ok (Accounts.lock sender_id db) _ e in
    let (receiver, e2, r2) = >>=-eq-ok (Accounts.get receiver_id db) _ r1 in
    let (u3, e3, r3) =
      >>=-eq-ok
        (guard (if str_eq sender.currency receiver.currency then false else true) same_currency) _
        r2 in
    let sent = money amount sender.currency in
    let (u4, e4, r4) = >>=-eq-ok (guard (is_positive sent) invalid_amount) _ r3 in
    let (u5, e5, r5) = >>=-eq-ok (ensure_funds sender sent db) _ r4 in
    let (received, e6, r6) = >>=-eq-ok (convert rates sent receiver.currency) _ r5 in
    (
      record {
        sender = sender;
        receiver = receiver;
        received = received;
        sender_found = lock-found sender_id db sender e1;
        receiver_found = get-found receiver_id db receiver e2;
        currencies = differs sender.currency receiver.currency e3;
        positive = is_positive-pos sent e4;
        covered =
            ensure_can_debit-covers sender sent db
              (money-currency amount sender.currency ∙ sym (available_balance-currency sender db))
              e5;
        converted = e6;
      },
      exchange-Exchanged threshold drawn_from drawn_to sender receiver sent received c db txn event
          db' positive v r6,
    )
