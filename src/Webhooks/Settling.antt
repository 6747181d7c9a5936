-- ===== src/Webhooks/Settling.antt =====
-- What a webhook that returns has done, and what its redelivery meets.
use wallet_ledger_assesment.Base.{ℕ, ◌≡◌, ◌⊎◌, inl, inr, true, false, String, Option, some}
use wallet_ledger_assesment.Base.Int.{ℤ}
use wallet_ledger_assesment.Domain.Errors.{Result, ok, err, invalid_transaction_state}
use wallet_ledger_assesment.Domain.Events.{DomainEvent}
use wallet_ledger_assesment.Store.{Db}
use wallet_ledger_assesment.Store.Models.{Transaction, Reference}
use wallet_ledger_assesment.Wire.{Json, payload_of}
use wallet_ledger_assesment.Payments.{Config, Remote, PaymentProvider, get_payment_provider}
use wallet_ledger_assesment.Payments.Signature.{Codes}
use wallet_ledger_assesment.Payments.Authenticity.{IsAuthentic}
use wallet_ledger_assesment.Payments.Callback.{CallbackResult, parse_callback}
use wallet_ledger_assesment.Deposits.{settle}
use wallet_ledger_assesment.Deposits.Crediting.{Deposited}
use wallet_ledger_assesment.Fx.{Rates}
use wallet_ledger_assesment.History.{Reach}
use wallet_ledger_assesment.History.Ages.{IsNumbered}
use wallet_ledger_assesment.History.Closing.{settled_for_good}
use wallet_ledger_assesment.Webhooks.{
  WebhookRequest, signature_of, Processed, ignored, settled, reference_of, settle_with_currency,
  confirm, process,
}
use wallet_ledger_assesment.Webhooks.Processing.{text_option, process-Accepted}

module _ (hmac : String → Codes → Codes) (parse_json : Codes → Option Json)
    (adapt : Json → Result String) where
  -- A success that has been believed: the deposit that it names, credited.
  pub record Credits (result : CallbackResult) (db : Db) (p : Processed) (db' : Db) : Type 0 where
    pub reference : Reference
    pub currency : Option String
    pub referred : reference_of adapt result.reference ≡ ok reference
    pub currency_text : result.currency ≡ text_option currency
    pub deposited : Deposited reference result.amount currency db db'

  pub record Processes (config : Config) (provider_name : String) (r : WebhookRequest) (db : Db)
      (p : Processed) (db' : Db) : Type 0 where
    pub adapter : PaymentProvider
    pub result : CallbackResult
    pub chosen : get_payment_provider config provider_name ≡ ok adapter
    pub authentic : IsAuthentic hmac adapter r.body (signature_of r)
    pub parsed : parse_callback adapter (payload_of (parse_json r.body)) ≡ ok result
    pub effect :
        ((result.is_success ≡ false) × (p ≡ ignored) × (db' ≡ db))
        ⊎ ((result.is_success ≡ true) × Credits result db p db')

  settle_with_currency-again :
      (threshold drawn : ℕ) (reference : Reference) (result : CallbackResult) (c : Option String)
      (db : Db)
      → result.currency ≡ text_option c
      → settle threshold drawn reference result.amount c db ≡ err invalid_transaction_state
      → settle_with_currency threshold drawn reference result.amount result.currency db
        ≡ err invalid_transaction_state
  settle_with_currency-again threshold drawn reference result Option.none db is e = rw is e
  settle_with_currency-again threshold drawn reference result (some s) db is e = rw is e

  module _ (remote : Remote) (rates : Rates) (limit : ℤ) (threshold : ℕ) where
    -- Where transactions are numbered one after another, a webhook that has settled a deposit is
    -- refused when it is delivered again, in every state that any later operations lead to.
    pub processed_for_good :
        (config : Config) (drawn : ℕ) (provider_name : String) (r : WebhookRequest) (db : Db)
        (txn : Transaction) (event : DomainEvent) (db1 : Db)
        → IsNumbered db
        → process hmac parse_json adapt config threshold drawn provider_name r db
          ≡ ok (settled txn event, db1)
        → (db' : Db) → Reach config remote rates limit threshold db1 db'
        → (threshold' drawn' : ℕ)
        → process hmac parse_json adapt config threshold' drawn' provider_name r db'
          ≡ err invalid_transaction_state
    unfolding process confirm
    processed_for_good config drawn provider_name r db txn event db1 n e db' later threshold'
          drawn' =
        let a =
          process-Accepted hmac parse_json adapt config threshold drawn provider_name r db
            (settled txn event) db1 e in
        elim a.outcome [
          | inl (bad, p_ignored, same) ↦ cc
          | inr (good, c) ↦
              let again =
                settle_with_currency-again threshold' drawn' c.reference a.result c.currency db'
                  c.currency_text
                  (settled_for_good config remote rates limit threshold drawn c.reference
                    a.result.amount c.currency db (c.txn, c.event, db1) n c.settling db' later
                    threshold' drawn' a.result.amount c.currency) in
              rw (a.chosen, a.verified, a.parsed, good, c.referred, again)
        ]
