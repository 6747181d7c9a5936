-- ===== src/Idempotency.antt =====
-- Idempotent POST requests (wallet_ledger/infrastructure/idempotency.py and
-- wallet_ledger/models/idempotency.py). A view is a function of the state of the other tables; one
-- that raises has written nothing. The digest of a body is a parameter, and the texts of errors are
-- left out.
pub mod Replay
pub mod Persistence
use wallet_ledger_assesment.Base.{
  ℕ, Bool, true, false, not, ◌&&◌, String, Option, none, some, List, [], ◌∷◌, ◌++◌, ◌==◌,
  if◌then◌else◌,
}
use wallet_ledger_assesment.Base.Lists.{find, any}
use wallet_ledger_assesment.Base.Text.{str_eq}
use wallet_ledger_assesment.Domain.Errors.{Result, ok, err}
use wallet_ledger_assesment.Wire.{Json, Fields}
use wallet_ledger_assesment.Store.{update_first}

pub record Response : Type 0 where
  pub status : ℕ
  pub body : Json

-- A row of idempotency_keys: reserved, and completed once it has a response.
pub record IdempotencyKey : Type 0 where
  pub key : String
  pub request_hash : String
  pub response : Option Response

abbrev pub is_completed : IdempotencyKey → Bool
is_completed k = elim k.response [ none ↦ false | some r ↦ true ]

abbrev pub Keys : Type 0
Keys = List IdempotencyKey

abbrev pub has_key : String → IdempotencyKey → Bool
has_key key k = str_eq k.key key

abbrev pub conflict : Response
conflict = record {
  status = 409;
  body = Json.object (Fields.field "code" (Json.text "IDEMPOTENCY_CONFLICT") Fields.end);
}

-- `_resolve_duplicate`: three conflicts, and the stored response.
abbrev pub replay : Option Response → Response
replay none = conflict
replay (some r) = r

abbrev pub resolve : Option IdempotencyKey → String → Response
resolve none request_hash = conflict
resolve (some k) request_hash =
    if str_eq k.request_hash request_hash then replay k.response else conflict

unfoldable pub resolve_duplicate : String → String → Keys → Response
resolve_duplicate key request_hash keys = resolve (find (has_key key) keys) request_hash

-- The key is inserted before the view runs; the unique constraint refuses a second insertion.
unfoldable pub claim : String → String → Keys → Option Keys
claim key request_hash keys =
    if any (has_key key) keys
    then none
    else some (keys ++ (record { key = key; request_hash = request_hash; response = none } ∷ []))

-- `db.session.delete(claim)` of the first row with the key, unless it is completed.
abbrev pub delete_first : (IdempotencyKey → Bool) → Keys → Keys
delete_first p [] = []
delete_first p (k ∷ ks) = let rest = delete_first p ks in if p k then ks else k ∷ rest

abbrev pub release_found : Option IdempotencyKey → String → Keys → Keys
release_found none key keys = keys
release_found (some k) key keys = if is_completed k then keys else delete_first (has_key key) keys

unfoldable pub release : String → Keys → Keys
release key keys = release_found (find (has_key key) keys) key keys

unfoldable pub complete : String → Response → Keys → Keys
complete key r keys = update_first (has_key key) (λ k. record k { response = some r }) keys

module _ {ℓ} {S : Type ℓ} where
  -- The end of a request, when the view has returned or raised.
  unfoldable pub finish : String → Result (Response × S) → Keys → S → Result Response × Keys × S
  finish key (ok (r, s')) keys s = (ok r, complete key r keys, s')
  finish key (err e) keys s = (err e, release key keys, s)

  abbrev pub plain : Result (Response × S) → Keys → S → Result Response × Keys × S
  plain (ok (r, s')) keys s = (ok r, keys, s')
  plain (err e) keys s = (err e, keys, s)

module _ {ℓ} {S : Type ℓ} (request_hash : String → String) where
  abbrev pub claimed :
      Option Keys
      → String
      → String
      → (S → Result (Response × S))
      → Keys
      → S
      → Result Response × Keys × S
  claimed none key body view keys s = (ok (resolve_duplicate key (request_hash body) keys), keys, s)
  claimed (some reserved) key body view keys s = finish key (view s) reserved s

  -- `wrapper`: a request with no key, or an empty one, just runs.
  unfoldable pub idempotent :
      Option String → String → (S → Result (Response × S)) → Keys → S → Result Response × Keys × S
  unfolding finish
  idempotent none body view keys s = plain (view s) keys s
  idempotent (some key) body view keys s =
      if str_eq key ""
      then plain (view s) keys s
      else claimed (claim key (request_hash body) keys) key body view keys s
