-- ===== src/Fx.antt =====
-- Currency exchange (wallet_ledger/application/fx.py) and its rates
-- (wallet_ledger/infrastructure/fx_rates.py). What the rate service answers is a parameter.
pub mod Exchanging
use wallet_ledger_assesment.Base.{
  ℕ, ◌+◌, ◌*◌, ◌^◌, Bool, true, false, String, Option, none, some, List, [], ◌∷◌, ◌==◌,
  if◌then◌else◌,
}
use wallet_ledger_assesment.Base.Int.{ℤ, pos, ◌*ℤ◌, magnitude}
use wallet_ledger_assesment.Base.Text.{str_eq, upper}
use wallet_ledger_assesment.Domain.Enums.{TransactionType, TransactionStatus}
use wallet_ledger_assesment.Domain.Errors.{
  Result, ok, err, guard, ◌>>=◌, ◌>>◌, invalid_amount, same_currency, unknown_currency,
  decimal_error,
}
use wallet_ledger_assesment.Domain.Decimals.{Decimal, round_half_even, with_magnitude}
use wallet_ledger_assesment.Domain.Money.{Money, money, is_positive, money_scale}
use wallet_ledger_assesment.Domain.Aggregates.{TransactionAggregate, new_aggregate, debit, credit}
use wallet_ledger_assesment.Domain.Events.{DomainEvent, Value, transfer_completed}
use wallet_ledger_assesment.Store.{Db, add_transaction, fresh_id}
use wallet_ledger_assesment.Store.Models.{Account, Transaction, Details}
use wallet_ledger_assesment.Ledger.{post, snapshot_all}
use wallet_ledger_assesment.Accounts
use wallet_ledger_assesment.Transfers.{Outcome, or_fresh, ensure_funds}

-- Units of each currency for one EUR.
abbrev pub Rates : Type 0
Rates = List (String × Decimal)

-- `_REFERENCE_PER_EUR`
abbrev pub reference_per_eur : Rates
reference_per_eur =
    ("EUR", record { coefficient = pos 1; scale = 0 })
    ∷ ("USD", record { coefficient = pos 108; scale = 2 })
    ∷ ("GBP", record { coefficient = pos 85; scale = 2 })
    ∷ ("JPY", record { coefficient = pos 16_950; scale = 2 })
    ∷ ("XAF", record { coefficient = pos 655_957; scale = 3 })
    ∷ ("XOF", record { coefficient = pos 655_957; scale = 3 })
    ∷ []

-- `_rates`: `configured` is whether there is an address, `answer` what the service gives, if it
-- answers at all.
unfoldable pub rates_of : Bool → Option Rates → Rates
rates_of false answer = reference_per_eur
rates_of true none = reference_per_eur
rates_of true (some rates) = rates

abbrev pub rate_of : String → Rates → Result Decimal
rate_of c [] = err unknown_currency
rate_of c ((d, r) ∷ rates) = let rest = rate_of c rates in if str_eq d c then ok r else rest

-- `(rates[quote] / rates[base]).quantize(_RATE_PRECISION)`, eight digits. The quotient is rounded
-- once here; the source first rounds it to the digits of the context.
unfoldable pub cross_rate : Decimal → Decimal → Result Decimal
cross_rate quote base =
    if magnitude base.coefficient == 0
    then err decimal_error
    else ok (record {
      coefficient = with_magnitude (quote.coefficient *ℤ base.coefficient) (
          round_half_even (magnitude quote.coefficient * 10 ^ (base.scale + 8))
            (magnitude base.coefficient * 10 ^ quote.scale));
      scale = 8;
    })

unfoldable pub get_rate : Rates → String → String → Result Decimal
get_rate rates base quote =
    let b = upper base in
    let q = upper quote in
    if str_eq b q then ok (record { coefficient = pos 1; scale = 0 }) else (do
      base_rate ← rate_of b rates
      quote_rate ← rate_of q rates
      cross_rate quote_rate base_rate)

unfoldable pub convert : Rates → Money → String → Result Money
convert rates m to_currency = do
  rate ← get_rate rates m.currency to_currency
  let product : Decimal = record {
    coefficient = m.amount *ℤ rate.coefficient;
    scale = money_scale + rate.scale;
  }
  ok (money product to_currency)

abbrev pub pool_owner : String
pool_owner = "FX_POOL"

unfoldable pub new_exchange : Money → Money → Account → Account → ℕ → Db → Transaction × Db
new_exchange sent received sender receiver correlation_id db =
    let (id, db') = fresh_id db in
    let txn : Transaction = record {
      id = id;
      transaction_type = TransactionType.fx_transfer;
      status = TransactionStatus.success;
      amount = sent.amount;
      currency = sent.currency;
      details = Details.exchange sender.id receiver.id received.amount received.currency;
      reference = none;
      correlation_id = some correlation_id;
    } in
    (txn, add_transaction txn db')

-- Four lines: each currency is balanced by its pool.
abbrev pub exchange_lines : ℕ → ℕ → ℕ → ℕ → Money → Money → TransactionAggregate
exchange_lines sender_id pool_from_id pool_to_id receiver_id sent received =
    credit receiver_id received (
      debit pool_to_id received
        (credit pool_from_id sent (debit sender_id sent (new_aggregate sent.currency))))

abbrev pub exchange_event : Transaction → Account → Account → Money → Money → DomainEvent
exchange_event txn sender receiver sent received = record {
  event_type = transfer_completed;
  payload =
      ("transaction_id", Value.id txn.id)
      ∷ ("sender_id", Value.id sender.id)
      ∷ ("receiver_id", Value.id receiver.id)
      ∷ ("amount", Value.amount sent.amount)
      ∷ ("currency", Value.text sent.currency)
      ∷ ("target_amount", Value.amount received.amount)
      ∷ ("target_currency", Value.text received.currency)
      ∷ [];
  correlation_id = txn.correlation_id;
}

-- The part that moves the money, once the amounts are known.
unfoldable pub exchange :
    ℕ → ℕ → ℕ → Account → Account → Money → Money → Option ℕ → Db → Result Outcome
exchange threshold drawn_from drawn_to sender receiver sent received correlation_id db = do
  from ← Accounts.get_or_create_internal pool_owner sender.currency drawn_from db
  to ← Accounts.get_or_create_internal pool_owner receiver.currency drawn_to from.1
  let (correlation, db1) = or_fresh correlation_id to.1
  let (txn, db2) = new_exchange sent received sender receiver correlation db1
  db3 ← post (exchange_lines sender.id from.0.id to.0.id receiver.id sent received) txn.id db2
  db4 ← snapshot_all threshold (sender ∷ receiver ∷ from.0 ∷ to.0 ∷ []) db3
  ok (txn, exchange_event txn sender receiver sent received, db4)

unfoldable pub execute_fx_transfer :
    Rates → ℕ → ℕ → ℕ → ℕ → ℕ → Decimal → Option ℕ → Db → Result Outcome
execute_fx_transfer rates threshold drawn_from drawn_to sender_id receiver_id amount correlation_id
      db =
    do
      sender ← Accounts.lock sender_id db
      receiver ← Accounts.get receiver_id db
      guard (if str_eq sender.currency receiver.currency then false else true) same_currency
      let sent = money amount sender.currency
      guard (is_positive sent) invalid_amount
      ensure_funds sender sent db
      received ← convert rates sent receiver.currency
      exchange threshold drawn_from drawn_to sender receiver sent received correlation_id db
