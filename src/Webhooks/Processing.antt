-- ===== src/Webhooks/Processing.antt =====
-- What a webhook that returns has been: whose, and what it says.
use wallet_ledger_assesment.Base.{
  ℕ, ◌≡◌, refl, sym, ap, ◌∙◌, ◌⊎◌, inl, inr, Bool, true, false, String, Option, none, some,
  Bool-cases,
}
use wallet_ledger_assesment.Domain.Errors.{
  Error, Result, ok, err, guard, ◌>>=◌, >>=-eq-ok, ok-injective, webhook_verification,
  attribute_error,
}
use wallet_ledger_assesment.Domain.Decimals.{Decimal}
use wallet_ledger_assesment.Domain.Events.{DomainEvent}
use wallet_ledger_assesment.Store.{Db}
use wallet_ledger_assesment.Store.Models.{Transaction, Reference}
use wallet_ledger_assesment.Wire.{Json, payload_of}
use wallet_ledger_assesment.Payments.{Config, PaymentProvider, get_payment_provider}
use wallet_ledger_assesment.Payments.Signature.{Codes, verify_webhook}
use wallet_ledger_assesment.Payments.Callback.{CallbackResult, parse_callback}
use wallet_ledger_assesment.Deposits.{pending_deposit, settle}
use wallet_ledger_assesment.Webhooks.{
  WebhookRequest, signature_of, Processed, ignored, settled, reference_of, settle_with_currency,
  confirm, process,
}

guard-ok : (b : Bool) → guard b webhook_verification ≡ ok tt → b ≡ true
guard-ok true h = refl
guard-ok false h = cc

abbrev pub text_option : Option String → Option Json
text_option none = none
text_option (some c) = some (Json.text c)

-- What ends by raising does not return.
raises-ne-ok {ℓ κ} :
    {A : Type ℓ} {B : Type κ} (m : Result A) (x : Error) {b : B} → (m >>= λ _. err x) ≡ ok b → ⊥
raises-ne-ok (ok a) x e = cc
raises-ne-ok (err y) x e = cc

-- A settlement that returns had no currency to confirm, or a text.
settle_with_currency-ok :
    (threshold drawn : ℕ) (reference : Reference) (amount : Option Decimal) (currency : Option Json)
    (db : Db) (o : Transaction × DomainEvent × Db)
    → settle_with_currency threshold drawn reference amount currency db ≡ ok o
    → (c : Option String) × (currency ≡ text_option c)
      × (settle threshold drawn reference amount c db ≡ ok o)
settle_with_currency-ok threshold drawn reference amount none db o e = (none, refl, e)
settle_with_currency-ok threshold drawn reference amount (some (Json.text c)) db o e =
    (some c, refl, e)
settle_with_currency-ok threshold drawn reference amount (some Json.null) db o e =
    absurd (raises-ne-ok (pending_deposit reference db) attribute_error e)
settle_with_currency-ok threshold drawn reference amount (some (Json.truth b)) db o e =
    absurd (raises-ne-ok (pending_deposit reference db) attribute_error e)
settle_with_currency-ok threshold drawn reference amount (some (Json.integer n)) db o e =
    absurd (raises-ne-ok (pending_deposit reference db) attribute_error e)
settle_with_currency-ok threshold drawn reference amount (some (Json.float d d')) db o e =
    absurd (raises-ne-ok (pending_deposit reference db) attribute_error e)
settle_with_currency-ok threshold drawn reference amount (some (Json.array xs)) db o e =
    absurd (raises-ne-ok (pending_deposit reference db) attribute_error e)
settle_with_currency-ok threshold drawn reference amount (some (Json.object fs)) db o e =
    absurd (raises-ne-ok (pending_deposit reference db) attribute_error e)

module _ (hmac : String → Codes → Codes) (parse_json : Codes → Option Json)
    (adapt : Json → Result String) where
  -- A success that has been believed, and the settlement that it has made.
  pub record Confirmed (threshold drawn : ℕ) (result : CallbackResult) (db : Db) (p : Processed)
      (db' : Db) : Type 0 where
    pub reference : Reference
    pub currency : Option String
    pub txn : Transaction
    pub event : DomainEvent
    pub answered : p ≡ settled txn event
    pub referred : reference_of adapt result.reference ≡ ok reference
    pub currency_text : result.currency ≡ text_option currency
    pub settling : settle threshold drawn reference result.amount currency db ≡ ok (txn, event, db')

  pub confirm-Confirmed :
      (threshold drawn : ℕ) (result : CallbackResult) (db : Db) (p : Processed) (db' : Db)
      → confirm hmac parse_json adapt threshold drawn result db ≡ ok (p, db')
      → Confirmed threshold drawn result db p db'
  unfolding confirm
  confirm-Confirmed threshold drawn result db p db' e =
      let (s, e1, r1) = >>=-eq-ok (reference_of adapt result.reference) _ e in
      let (o, e2, r2) =
        >>=-eq-ok (settle_with_currency threshold drawn s result.amount result.currency db) _ r1 in
      let (c, is, settling) =
        settle_with_currency-ok threshold drawn s result.amount result.currency db o e2 in
      let last = ok-injective r2 in
      record {
        reference = s;
        currency = c;
        txn = o.0;
        event = o.1;
        answered = sym (ap (λ (x : Processed × Db). x.0) last);
        referred = e1;
        currency_text = is;
        settling =
            settling ∙ ap (λ (d : Db). ok (o.0, o.1, d)) (ap (λ (x : Processed × Db). x.1) last);
      }

  -- What a request was that has been accepted.
  pub record Accepted (config : Config) (threshold drawn : ℕ) (provider_name : String)
      (r : WebhookRequest) (db : Db) (p : Processed) (db' : Db) : Type 0 where
    pub adapter : PaymentProvider
    pub result : CallbackResult
    pub chosen : get_payment_provider config provider_name ≡ ok adapter
    pub verified : verify_webhook hmac adapter r.body (signature_of r) ≡ ok true
    pub parsed : parse_callback adapter (payload_of (parse_json r.body)) ≡ ok result
    pub outcome :
        ((result.is_success ≡ false) × (p ≡ ignored) × (db' ≡ db))
        ⊎ ((result.is_success ≡ true) × Confirmed threshold drawn result db p db')

  pub process-Accepted :
      (config : Config) (threshold drawn : ℕ) (provider_name : String) (r : WebhookRequest)
      (db : Db) (p : Processed) (db' : Db)
      → process hmac parse_json adapt config threshold drawn provider_name r db ≡ ok (p, db')
      → Accepted config threshold drawn provider_name r db p db'
  unfolding process
  process-Accepted config threshold drawn provider_name r db p db' e =
      let (adapter, e1, r1) = >>=-eq-ok (get_payment_provider config provider_name) _ e in
      let (accepted, e2, r2) =
        >>=-eq-ok (verify_webhook hmac adapter r.body (signature_of r)) _ r1 in
      let (u, e2', r2') = >>=-eq-ok (guard accepted webhook_verification) _ r2 in
      let (result, e3, r3) =
        >>=-eq-ok (parse_callback adapter (payload_of (parse_json r.body))) _ r2' in
      record {
        adapter = adapter;
        result = result;
        chosen = e1;
        verified = e2 ∙ ap (λ (b : Bool). ok b) (guard-ok accepted e2');
        parsed = e3;
        outcome = elim (Bool-cases result.is_success) [
          | inl good ↦ inr (good, confirm-Confirmed threshold drawn result db p db' (rw good at r3))
          | inr bad ↦
              let same = ok-injective (rw bad at r3) in
              inl (
                bad,
                sym (ap (λ (x : Processed × Db). x.0) same),
                sym (ap (λ (x : Processed × Db). x.1) same),
              )
        ];
      }
