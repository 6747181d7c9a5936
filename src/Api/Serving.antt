-- ===== src/Api/Serving.antt =====
-- A request from end to end: the idempotency key, the view, and the handlers of errors
-- (wallet_ledger/api/errors.py). An exception that has no handler is the framework's 500.
use wallet_ledger_assesment.Base.{ℕ, String, Option}
use wallet_ledger_assesment.Domain.Errors.{
  Error, Result, ok, err, type_error, key_error, index_error, integrity_error, http_error,
  decimal_error, attribute_error, validation_error,
}
use wallet_ledger_assesment.HttpErrors.{handle_domain_error}
use wallet_ledger_assesment.Idempotency.{Response, Keys, idempotent}
use wallet_ledger_assesment.Wire.{Json, Fields}
use wallet_ledger_assesment.Api.Wiring.{World}

abbrev pub coded : String → ℕ → Response
coded c status = record {
  status = status;
  body = Json.object (Fields.field "code" (Json.text c) Fields.end);
}

abbrev pub domain_answer : String × ℕ → Response
domain_answer (c, status) = coded c status

abbrev pub server_error : Response
server_error = record { status = 500; body = Json.null }

-- `register_error_handlers`
unfoldable pub handle_error : Error → Response
unfolding handle_domain_error
handle_error validation_error = coded "VALIDATION_ERROR" 400
handle_error type_error = server_error
handle_error key_error = server_error
handle_error index_error = server_error
handle_error integrity_error = server_error
handle_error http_error = server_error
handle_error decimal_error = server_error
handle_error attribute_error = server_error
handle_error e = domain_answer (handle_domain_error e)

abbrev pub answered : Result Response → Response
answered (ok r) = r
answered (err e) = handle_error e

module _ (request_hash : String → String) where
  -- A view under `idempotent`, as every POST but that of accounts is.
  unfoldable pub serve_idempotent :
      Option String
      → String
      → (World → Result (Response × World))
      → Keys
      → World
      → Response × Keys × World
  unfolding idempotent
  serve_idempotent key body view keys w =
      let (r, keys', w') = idempotent request_hash key body view keys w in (answered r, keys', w')
