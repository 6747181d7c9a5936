-- ===== src/Api/Schemas.antt =====
-- The schemas of requests (wallet_ledger/api/schemas.py) over the library that reads them, which is a
-- parameter.
use wallet_ledger_assesment.Base.{ℕ, Bool, String, Option, none, some, List, [], ◌∷◌}
use wallet_ledger_assesment.Domain.Errors.{Result, ok, err, guard, ◌>>=◌, ◌>>◌, validation_error}
use wallet_ledger_assesment.Domain.Decimals.{Decimal}
use wallet_ledger_assesment.Wire.{Json, Fields, get_field}

-- What marshmallow does for a schema: the fields of a dictionary that has no other field than the
-- named ones, the value of a required or an optional field, and the validators of lengths.
pub record Marshmallow : Type 0 where
  pub read_fields : List String → Json → Option Fields
  pub string : Option Json → Option String
  pub optional_string : Option Json → Option (Option String)
  pub decimal : Option Json → Option Decimal
  pub min_length : ℕ → String → Bool
  pub equal_length : ℕ → String → Bool

-- Whatever is wrong, the body is refused with a `ValidationError`.
abbrev pub valid : {A : Type 0} → Option A → Result A
valid none = err validation_error
valid (some x) = ok x

pub record CreateAccountData : Type 0 where
  pub owner_id : String
  pub currency : String

unfoldable pub load_create_account : Marshmallow → Json → Result CreateAccountData
load_create_account lib body = do
  fs ← valid (lib.read_fields ("owner_id" ∷ "currency" ∷ []) body)
  owner_id ← valid (lib.string (get_field "owner_id" fs))
  guard (lib.min_length 1 owner_id) validation_error
  currency ← valid (lib.string (get_field "currency" fs))
  guard (lib.equal_length 3 currency) validation_error
  ok (record { owner_id = owner_id; currency = currency })

-- `TransferSchema`, and `FxTransferSchema`, which adds nothing to it.
pub record TransferData : Type 0 where
  pub sender_account_number : String
  pub receiver_account_number : String
  pub amount : Decimal

unfoldable pub load_transfer : Marshmallow → Json → Result TransferData
load_transfer lib body = do
  fs ←
      valid
        (lib.read_fields ("sender_account_number" ∷ "receiver_account_number" ∷ "amount" ∷ []) body)
  sender ← valid (lib.string (get_field "sender_account_number" fs))
  receiver ← valid (lib.string (get_field "receiver_account_number" fs))
  amount ← valid (lib.decimal (get_field "amount" fs))
  ok (record {
    sender_account_number = sender;
    receiver_account_number = receiver;
    amount = amount;
  })

pub record DepositData : Type 0 where
  pub account_number : String
  pub amount : Decimal
  pub provider : String
  pub operator : Option String
  pub phone_number : Option String

unfoldable pub load_deposit : Marshmallow → Json → Result DepositData
load_deposit lib body = do
  fs ← valid (
      lib.read_fields ("account_number" ∷ "amount" ∷ "provider" ∷ "operator" ∷ "phone_number" ∷ [])
        body)
  account_number ← valid (lib.string (get_field "account_number" fs))
  amount ← valid (lib.decimal (get_field "amount" fs))
  provider ← valid (lib.string (get_field "provider" fs))
  operator ← valid (lib.optional_string (get_field "operator" fs))
  phone_number ← valid (lib.optional_string (get_field "phone_number" fs))
  ok (record {
    account_number = account_number;
    amount = amount;
    provider = provider;
    operator = operator;
    phone_number = phone_number;
  })

-- The query strings of the two exchange endpoints, whose values are all texts.
pub record FxRateData : Type 0 where
  pub from_currency : String
  pub to_currency : String

unfoldable pub load_fx_rate : Marshmallow → Json → Result FxRateData
load_fx_rate lib args = do
  fs ← valid (lib.read_fields ("from" ∷ "to" ∷ []) args)
  from ← valid (lib.string (get_field "from" fs))
  guard (lib.equal_length 3 from) validation_error
  to ← valid (lib.string (get_field "to" fs))
  guard (lib.equal_length 3 to) validation_error
  ok (record { from_currency = from; to_currency = to })

pub record FxConvertData : Type 0 where
  pub from_currency : String
  pub to_currency : String
  pub amount : Decimal

unfoldable pub load_fx_convert : Marshmallow → Json → Result FxConvertData
load_fx_convert lib args = do
  fs ← valid (lib.read_fields ("from" ∷ "to" ∷ "amount" ∷ []) args)
  from ← valid (lib.string (get_field "from" fs))
  guard (lib.equal_length 3 from) validation_error
  to ← valid (lib.string (get_field "to" fs))
  guard (lib.equal_length 3 to) validation_error
  amount ← valid (lib.decimal (get_field "amount" fs))
  ok (record { from_currency = from; to_currency = to; amount = amount })
