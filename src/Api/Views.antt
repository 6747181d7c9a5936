-- ===== src/Api/Views.antt =====
-- The views (wallet_ledger/api/accounts.py, transfers.py, deposits.py, transactions.py, fx.py). A body
-- is the JSON that the framework has parsed, if it could; a path names a transaction by its
-- identifier. `c` is the correlation identifier of the request, and `drawn` are random numbers.
use wallet_ledger_assesment.Base.{ℕ, String, Option, none, some, List, [], ◌∷◌, ◌==◌, if◌then◌else◌}
use wallet_ledger_assesment.Base.Int.{ℤ}
use wallet_ledger_assesment.Base.Text.{upper}
use wallet_ledger_assesment.Domain.Errors.{Result, ok, err, ◌>>=◌, account_not_found}
use wallet_ledger_assesment.Domain.Money.{money}
use wallet_ledger_assesment.Store.{Db}
use wallet_ledger_assesment.Store.Models.{Account}
use wallet_ledger_assesment.Accounts
use wallet_ledger_assesment.Transfers
use wallet_ledger_assesment.Transfers.{Outcome}
use wallet_ledger_assesment.Payments.{Config, Remote, Context}
use wallet_ledger_assesment.Deposits
use wallet_ledger_assesment.Fx
use wallet_ledger_assesment.Fx.{Rates, get_rate}
use wallet_ledger_assesment.Reversals
use wallet_ledger_assesment.Balances.{query_balance}
use wallet_ledger_assesment.Idempotency.{Response}
use wallet_ledger_assesment.Wire.{Json, Fields, payload_of}
use wallet_ledger_assesment.Wire.Numerals.{codes, digits}
use wallet_ledger_assesment.Wire.Numbers.{decimal_text}
use wallet_ledger_assesment.Api.Schemas.{
  Marshmallow, load_create_account, load_transfer, load_deposit, load_fx_rate, load_fx_convert,
}
use wallet_ledger_assesment.Api.Serializers.{
  serialize_account, serialize_balance, serialize_transaction, money_text,
}
use wallet_ledger_assesment.Api.Wiring.{World, published}

-- An account's number has ten digits; no other text is one.
abbrev ten_digits : ℕ × ℕ × List ℕ → Option ℕ
ten_digits (n, k, []) = if k == 10 then some n else none
ten_digits (n, k, c ∷ cs) = none

unfoldable pub number_of_text : String → Option ℕ
unfolding digits
number_of_text s = ten_digits (digits (codes s) 0 0)

abbrev pub account_of_number : Option ℕ → Db → Result Account
account_of_number none db = err account_not_found
account_of_number (some n) db = Accounts.get_by_number n db

unfoldable pub account_by_text : String → Db → Result Account
unfolding number_of_text
account_by_text s db = account_of_number (number_of_text s) db

-- What the application was started with, and what is outside it.
pub record Setup : Type 0 where
  pub marshmallow : Marshmallow
  pub config : Config
  pub remote : Remote
  pub rates : Rates
  pub limit : ℤ
  pub threshold : ℕ
  pub id_text : ℕ → String

abbrev pub respond : ℕ → Json → Response
respond status body = record { status = status; body = body }

module _ (setup : Setup) where
  abbrev pub View : Type 0
  View = World → Result (Response × World)

  -- A service has returned: its event is published, and its transaction is the answer.
  abbrev pub answer : ℕ → Outcome → World → Result (Response × World)
  answer status (txn, event, db') w = ok (
    respond status (serialize_transaction setup.id_text txn),
    published setup.id_text event db' w,
  )

  -- `_resolve_pair`
  unfoldable pub resolve_pair : String → String → Db → Result (ℕ × ℕ)
  resolve_pair sender_number receiver_number db = do
    sender ← account_by_text sender_number db
    receiver ← account_by_text receiver_number db
    ok (sender.id, receiver.id)

  unfoldable pub execute_transfer : Option Json → Option ℕ → View
  execute_transfer body c w = do
    request ← load_transfer setup.marshmallow (payload_of body)
    (sender_id, receiver_id) ←
        resolve_pair request.sender_account_number request.receiver_account_number w.db
    outcome ← Transfers.execute setup.threshold sender_id receiver_id request.amount c w.db
    answer 201 outcome w

  unfoldable pub initiate_transfer : Option Json → Option ℕ → View
  initiate_transfer body c w = do
    request ← load_transfer setup.marshmallow (payload_of body)
    (sender_id, receiver_id) ←
        resolve_pair request.sender_account_number request.receiver_account_number w.db
    outcome ← Transfers.initiate sender_id receiver_id request.amount c w.db
    answer 201 outcome w

  unfoldable pub commit_transfer : ℕ → View
  commit_transfer transaction_id w = do
    outcome ← Transfers.commit setup.limit setup.threshold transaction_id w.db
    answer 200 outcome w

  unfoldable pub fail_transfer : ℕ → View
  fail_transfer transaction_id w = do
    outcome ← Transfers.fail transaction_id w.db
    answer 200 outcome w

  unfoldable pub reverse_transaction : ℕ → Option ℕ → View
  reverse_transaction transaction_id c w = do
    (reversal, db') ← Reversals.reverse setup.threshold transaction_id c w.db
    ok (respond 201 (serialize_transaction setup.id_text reversal), record w { db = db' })

  unfoldable pub create_deposit : Option Json → Option ℕ → View
  create_deposit body c w = do
    request ← load_deposit setup.marshmallow (payload_of body)
    account ← account_by_text request.account_number w.db
    let context : Context = record {
      operator = request.operator;
      phone_number = request.phone_number;
    }
    (txn, db') ←
        Deposits.initiate setup.config setup.remote account.id request.amount request.provider
          context c w.db
    ok (respond 201 (serialize_transaction setup.id_text txn), record w { db = db' })

  unfoldable pub fx_transfer : ℕ → ℕ → Option Json → Option ℕ → View
  fx_transfer drawn_from drawn_to body c w = do
    request ← load_transfer setup.marshmallow (payload_of body)
    sender ← account_by_text request.sender_account_number w.db
    receiver ← account_by_text request.receiver_account_number w.db
    outcome ←
        Fx.execute_fx_transfer setup.rates setup.threshold drawn_from drawn_to sender.id receiver.id
          request.amount c w.db
    answer 201 outcome w

  unfoldable pub create_account : ℕ → Option Json → View
  create_account drawn body w = do
    request ← load_create_account setup.marshmallow (payload_of body)
    (account, db') ← Accounts.create request.owner_id request.currency drawn w.db
    ok (respond 201 (serialize_account setup.id_text account), record w { db = db' })

  unfoldable pub get_account : String → View
  get_account number w = do
    account ← account_by_text number w.db
    ok (respond 200 (serialize_account setup.id_text account), w)

  unfoldable pub get_balance : String → View
  get_balance number w = do
    account ← account_by_text number w.db
    let (balance, client') = query_balance account w.db w.client
    ok (
      respond 200 (serialize_balance setup.id_text account balance),
      record w { client = client' },
    )

  unfoldable pub rate : Json → View
  rate args w = do
    request ← load_fx_rate setup.marshmallow args
    value ← get_rate setup.rates request.from_currency request.to_currency
    ok (
      respond 200 (
          Json.object (
            Fields.field "from" (Json.text (upper request.from_currency)) (
              Fields.field "to" (Json.text (upper request.to_currency))
                (Fields.field "rate" (Json.text (decimal_text value)) Fields.end)))),
      w,
    )

  unfoldable pub convert : Json → View
  convert args w = do
    request ← load_fx_convert setup.marshmallow args
    converted ←
        Fx.convert setup.rates (money request.amount request.from_currency) request.to_currency
    ok (
      respond 200 (
          Json.object (
            Fields.field "converted_amount" (Json.text (money_text converted))
              (Fields.field "currency" (Json.text converted.currency) Fields.end))),
      w,
    )
