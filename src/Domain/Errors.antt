-- ===== src/Domain/Errors.antt =====
-- Errors as values (wallet_ledger/domain/errors.py). Each class of the source is a constructor; the
-- messages are not modelled. The last eight stand for exceptions that are no `DomainError`.
use wallet_ledger_assesment.Base.{◌≡◌, refl, Bool, String, if◌then◌else◌}

pub data Error : Type 0 where
  account_not_found duplicate_account insufficient_funds invalid_amount : Error
  currency_mismatch same_currency unknown_currency transaction_not_found : Error
  invalid_transaction_state ledger_not_balanced deposit_amount_mismatch : Error
  webhook_verification unsupported_provider risk_rejected idempotency_conflict : Error
  type_error key_error index_error integrity_error http_error decimal_error : Error
  attribute_error validation_error : Error

-- What a call of the program comes to: it raises, or it returns.
pub data Result {ℓ} (A : Type ℓ) : Type ℓ where
  err : (raised : Error) → Result A
  ok : (value : A) → Result A

-- `if not test: raise error`
abbrev pub guard : Bool → Error → Result (Unit {0})
guard test error = if test then ok tt else err error

-- The rest of a method runs once its first part has returned.
infixl 5 ◌>>=◌ ◌>>◌
abbrev pub ◌>>=◌ {ℓ κ} :
    {Value : Type ℓ} {Answer : Type κ} → Result Value → (Value → Result Answer) → Result Answer
err raised >>= rest = err raised
ok value >>= rest = rest value

abbrev pub ◌>>◌ {ℓ} : {Answer : Type ℓ} → Result (Unit {0}) → Result Answer → Result Answer
check >> rest = check >>= λ done. rest

-- A method that returned got through its first part, and its rest returned.
pub >>=-eq-ok {ℓ κ} :
    {Value : Type ℓ} {Answer : Type κ} (start : Result Value) (rest : Value → Result Answer)
    {answer : Answer}
    → (start >>= rest) ≡ ok answer
    → (value : Value) × (start ≡ ok value) × (rest value ≡ ok answer)
>>=-eq-ok (err raised) rest returned = cc
>>=-eq-ok (ok value) rest returned = (value, refl, returned)

pub ok-injective {ℓ} : {Value : Type ℓ} {v w : Value} → ok v ≡ ok w → v ≡ w
ok-injective same = cc

-- The class attribute `code` of each domain error; the others have none of their own.
unfoldable pub code : Error → String
code account_not_found = "ACCOUNT_NOT_FOUND"
code duplicate_account = "DUPLICATE_ACCOUNT"
code insufficient_funds = "INSUFFICIENT_FUNDS"
code invalid_amount = "INVALID_AMOUNT"
code currency_mismatch = "CURRENCY_MISMATCH"
code same_currency = "SAME_CURRENCY"
code unknown_currency = "UNKNOWN_CURRENCY"
code transaction_not_found = "TRANSACTION_NOT_FOUND"
code invalid_transaction_state = "INVALID_TRANSACTION_STATE"
code ledger_not_balanced = "LEDGER_NOT_BALANCED"
code deposit_amount_mismatch = "DEPOSIT_AMOUNT_MISMATCH"
code webhook_verification = "WEBHOOK_VERIFICATION_FAILED"
code unsupported_provider = "UNSUPPORTED_PROVIDER"
code risk_rejected = "RISK_REJECTED"
code idempotency_conflict = "IDEMPOTENCY_CONFLICT"
code type_error = "DOMAIN_ERROR"
code key_error = "DOMAIN_ERROR"
code index_error = "DOMAIN_ERROR"
code integrity_error = "DOMAIN_ERROR"
code http_error = "DOMAIN_ERROR"
code decimal_error = "DOMAIN_ERROR"
code attribute_error = "DOMAIN_ERROR"
code validation_error = "DOMAIN_ERROR"
