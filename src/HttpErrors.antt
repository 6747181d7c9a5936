-- ===== src/HttpErrors.antt =====
-- The translation of domain errors into HTTP answers (wallet_ledger/api/errors.py).
use wallet_ledger_assesment.Base.{ℕ, String, if◌then◌else◌}
use wallet_ledger_assesment.Base.Text.{str_eq}
use wallet_ledger_assesment.Domain.Errors.{Error, code}

-- `_STATUS_BY_CODE`; a code that is not listed is 400.
unfoldable pub status_by_code : String → ℕ
status_by_code c =
    if str_eq c "ACCOUNT_NOT_FOUND"
    then 404
    else if str_eq c "TRANSACTION_NOT_FOUND"
    then 404
    else if str_eq c "INSUFFICIENT_FUNDS"
    then 422
    else if str_eq c "CURRENCY_MISMATCH"
    then 422
    else if str_eq c "SAME_CURRENCY"
    then 422
    else if str_eq c "INVALID_AMOUNT"
    then 422
    else if str_eq c "UNKNOWN_CURRENCY"
    then 400
    else if str_eq c "INVALID_TRANSACTION_STATE"
    then 409
    else if str_eq c "LEDGER_NOT_BALANCED"
    then 422
    else if str_eq c "DEPOSIT_AMOUNT_MISMATCH"
    then 422
    else if str_eq c "RISK_REJECTED"
    then 422
    else if str_eq c "DUPLICATE_ACCOUNT"
    then 409
    else if str_eq c "IDEMPOTENCY_CONFLICT"
    then 409
    else if str_eq c "WEBHOOK_VERIFICATION_FAILED"
    then 401
    else if str_eq c "UNSUPPORTED_PROVIDER"
    then 400
    else 400

-- The code and the status of the answer to a domain error.
unfoldable pub handle_domain_error : Error → String × ℕ
unfolding status_by_code code
handle_domain_error error = (code error, status_by_code (code error))
