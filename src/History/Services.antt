-- ===== src/History/Services.antt =====
-- Deposits and exchanges as bookings.
use wallet_ledger_assesment.Base.{
  ℕ, ◌+◌, ◌≡◌, refl, ap, String, Option, [], ◌∷◌, if◌then◌else◌, subst, true, false,
}
use wallet_ledger_assesment.Base.Int.{◌*ℤ◌}
use wallet_ledger_assesment.Base.Lists.{All}
use wallet_ledger_assesment.Base.Text.{str_eq}
use wallet_ledger_assesment.Domain.Enums.{TransactionStatus}
use wallet_ledger_assesment.Domain.Errors.{
  ok, guard, >>=-eq-ok, ok-injective, same_currency, invalid_amount, deposit_amount_mismatch,
}
use wallet_ledger_assesment.Domain.Decimals.{Decimal}
use wallet_ledger_assesment.Domain.Money.{Money, money, of_amount, is_positive, eq, money_scale}
use wallet_ledger_assesment.Domain.Aggregates.{new_aggregate}
use wallet_ledger_assesment.Store.{Db, set_transaction_status}
use wallet_ledger_assesment.Store.Models.{Account, Transaction, Reference}
use wallet_ledger_assesment.Ledger.{post, snapshot_all}
use wallet_ledger_assesment.Ledger.Invariant.{SameLedger-refl, SameLedger-trans}
use wallet_ledger_assesment.Accounts
use wallet_ledger_assesment.Accounts.Lookup.{get_or_create_internal-Opened}
use wallet_ledger_assesment.Transfers.{Outcome, or_fresh, ensure_funds}
use wallet_ledger_assesment.Deposits.{
  clearing_owner, pending_deposit, currency_confirms, confirmed_money, account_id_of, deposit_lines,
  credit_deposit, settle,
}
use wallet_ledger_assesment.Deposits.Crediting.{deposit_lines-IsSettled}
use wallet_ledger_assesment.Fx.{
  Rates, get_rate, convert, pool_owner, new_exchange, exchange_lines, exchange, execute_fx_transfer,
}
use wallet_ledger_assesment.Fx.Exchanging.{exchange_lines-IsSettled, new_exchange-SameLedger}
use wallet_ledger_assesment.History.Books.{IsProperLine}
use wallet_ledger_assesment.History.Bookings.{
  Booking, IsExact, money-IsExact, of_amount-IsExact, debit-proper, credit-proper, cut-Booking,
}

deposit_lines-proper :
    (c a : ℕ) (m : Money) → IsExact m → All IsProperLine (deposit_lines c a m).lines
deposit_lines-proper c a m exact =
    credit-proper a m _ exact (debit-proper c m (new_aggregate m.currency) exact tt)

credit_deposit-Booking :
    (threshold drawn : ℕ) (t : Transaction) (db : Db) (o : Outcome)
    → credit_deposit threshold drawn t db ≡ ok o
    → Booking db o.2
unfolding credit_deposit
credit_deposit-Booking threshold drawn t db o e =
    let m = of_amount t.amount t.currency in
    let (account_id, named, r3) = >>=-eq-ok (account_id_of t.details) _ e in
    let (account, locked, r4) = >>=-eq-ok (Accounts.lock account_id db) _ r3 in
    let (opened, opening, r5) =
      >>=-eq-ok (Accounts.get_or_create_internal clearing_owner account.currency drawn db) _ r4 in
    let lines = deposit_lines opened.0.id account.id m in
    let (db2, posted, r6) = >>=-eq-ok (post lines t.id opened.1) _ r5 in
    let db3 = set_transaction_status t.id TransactionStatus.success db2 in
    let (db4, cut, r7) = >>=-eq-ok (snapshot_all threshold (account ∷ opened.0 ∷ []) db3) _ r6 in
    subst (Booking db) (ap (λ (x : Outcome). x.2) (ok-injective r7)) (
      cut-Booking threshold lines t.id (account ∷ opened.0 ∷ []) db opened.1 db2 db3 db4
        (deposit_lines-IsSettled opened.0.id account.id m)
        (deposit_lines-proper opened.0.id account.id m (of_amount-IsExact t.amount t.currency))
        (get_or_create_internal-Opened clearing_owner account.currency drawn db opened
          opening).ledger
        posted (record { entries = refl; snapshots = refl; next_seq = refl }) cut)

pub settle-Booking :
    (threshold drawn : ℕ) (reference : Reference) (amount : Option Decimal)
    (currency : Option String) (db : Db) (o : Outcome)
    → settle threshold drawn reference amount currency db ≡ ok o
    → Booking db o.2
unfolding settle
settle-Booking threshold drawn reference amount currency db o e =
    let (t, e0, r0) = >>=-eq-ok (pending_deposit reference db) _ e in
    let (u1, e1, r1) =
      >>=-eq-ok (guard (currency_confirms currency t.currency) deposit_amount_mismatch) _ r0 in
    let (u2, e2, r2) =
      >>=-eq-ok
        (guard (eq (confirmed_money amount t) (of_amount t.amount t.currency))
          deposit_amount_mismatch)
        _ r1 in
    credit_deposit-Booking threshold drawn t db o r2

exchange_lines-proper :
    (s f t r : ℕ) (sent received : Money)
    → IsExact sent
    → IsExact received
    → All IsProperLine (exchange_lines s f t r sent received).lines
exchange_lines-proper s f t r sent received exact exact' = credit-proper r received _ exact' (
    debit-proper t received _ exact'
      (credit-proper f sent _ exact (debit-proper s sent (new_aggregate sent.currency) exact tt)))

exchange-Booking :
    (threshold drawn_from drawn_to : ℕ) (sender receiver : Account) (sent received : Money)
    (c : Option ℕ) (db : Db) (o : Outcome)
    → IsExact sent
    → IsExact received
    → exchange threshold drawn_from drawn_to sender receiver sent received c db ≡ ok o
    → Booking db o.2
unfolding exchange
exchange-Booking threshold drawn_from drawn_to sender receiver sent received c db o exact exact' e =
    let (from, e1, r1) =
      >>=-eq-ok (Accounts.get_or_create_internal pool_owner sender.currency drawn_from db) _ e in
    let (to, e2, r2) =
      >>=-eq-ok (Accounts.get_or_create_internal pool_owner receiver.currency drawn_to from.1) _
        r1 in
    let (correlation, db1) = or_fresh c to.1 in
    let (new, db2) = new_exchange sent received sender receiver correlation db1 in
    let lines = exchange_lines sender.id from.0.id to.0.id receiver.id sent received in
    let (db3, e3, r3) = >>=-eq-ok (post lines new.id db2) _ r2 in
    let accounts = sender ∷ receiver ∷ from.0 ∷ to.0 ∷ [] in
    let (db4, e4, r4) = >>=-eq-ok (snapshot_all threshold accounts db3) _ r3 in
    let o1 = get_or_create_internal-Opened pool_owner sender.currency drawn_from db from e1 in
    let o2 = get_or_create_internal-Opened pool_owner receiver.currency drawn_to from.1 to e2 in
    subst (Booking db) (ap (λ (x : Outcome). x.2) (ok-injective r4)) (
      cut-Booking threshold lines new.id accounts db db2 db3 db3 db4
        (exchange_lines-IsSettled sender.id from.0.id to.0.id receiver.id sent received)
        (exchange_lines-proper sender.id from.0.id to.0.id receiver.id sent received exact exact')
        (SameLedger-trans (SameLedger-trans o1.ledger o2.ledger)
          (new_exchange-SameLedger sent received sender receiver c to.1))
        e3 (SameLedger-refl db3) e4)

convert-IsExact :
    (rates : Rates) (m : Money) (to : String) (received : Money)
    → convert rates m to ≡ ok received
    → IsExact received
unfolding convert
convert-IsExact rates m to received e =
    let (rate, e1, r1) = >>=-eq-ok (get_rate rates m.currency to) _ e in
    let product : Decimal = record {
      coefficient = m.amount *ℤ rate.coefficient;
      scale = money_scale + rate.scale;
    } in
    subst IsExact (ok-injective r1) (money-IsExact product to)

pub execute_fx_transfer-Booking :
    (rates : Rates) (threshold drawn_from drawn_to sender_id receiver_id : ℕ) (amount : Decimal)
    (c : Option ℕ) (db : Db) (o : Outcome)
    → execute_fx_transfer rates threshold drawn_from drawn_to sender_id receiver_id amount c db
      ≡ ok o
    → Booking db o.2
unfolding execute_fx_transfer
execute_fx_transfer-Booking rates threshold drawn_from drawn_to sender_id receiver_id amount c db o
      e =
    let (sender, e1, r1) = >>=-eq-ok (Accounts.lock sender_id db) _ e in
    let (receiver, e2, r2) = >>=-eq-ok (Accounts.get receiver_id db) _ r1 in
    let (u3, e3, r3) =
      >>=-eq-ok
        (guard (if str_eq sender.currency receiver.currency then false else true) same_currency) _
        r2 in
    let sent = money amount sender.currency in
    let (u4, e4, r4) = >>=-eq-ok (guard (is_positive sent) invalid_amount) _ r3 in
    let (u5, e5, r5) = >>=-eq-ok (ensure_funds sender sent db) _ r4 in
    let (received, e6, r6) = >>=-eq-ok (convert rates sent receiver.currency) _ r5 in
    exchange-Booking threshold drawn_from drawn_to sender receiver sent received c db o
      (money-IsExact amount sender.currency)
      (convert-IsExact rates sent receiver.currency received e6) r6
