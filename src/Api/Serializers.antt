-- ===== src/Api/Serializers.antt =====
-- The JSON of accounts, balances and transactions (wallet_ledger/api/serializers.py). The text of an
-- identifier is a parameter; the time stamps are left out.
use wallet_ledger_assesment.Base.{ℕ, ◌/◌, String, Option, none, some}
use wallet_ledger_assesment.Base.Int.{ℤ, pos, negsuc, neg}
use wallet_ledger_assesment.Domain.Enums.{TransactionType, TransactionStatus}
use wallet_ledger_assesment.Domain.Money.{Money, money_scale, decimals_for, quantum}
use wallet_ledger_assesment.Store.Models.{Account, Transaction}
use wallet_ledger_assesment.Wire.{Json, Fields}
use wallet_ledger_assesment.Wire.Numbers.{decimal_text}

-- The values of the enumerations.
abbrev pub type_value : TransactionType → String
type_value TransactionType.deposit = "DEPOSIT"
type_value TransactionType.transfer = "TRANSFER"
type_value TransactionType.fx_transfer = "FX_TRANSFER"
type_value TransactionType.reversal = "REVERSAL"

abbrev pub status_value : TransactionStatus → String
status_value TransactionStatus.pending = "PENDING"
status_value TransactionStatus.success = "SUCCESS"
status_value TransactionStatus.failed = "FAILED"
status_value TransactionStatus.reversed = "REVERSED"

-- A stored amount has the scale of its column.
unfoldable pub stored_text : ℤ → String
stored_text x = decimal_text (record { coefficient = x; scale = money_scale })

-- An amount of `Money` has the decimals of its currency.
abbrev pub divided : ℤ → ℕ → ℤ
divided (pos n) q = pos (n / q)
divided (negsuc n) q = neg (pos (ℕ.suc n / q))

unfoldable pub money_text : Money → String
money_text m = decimal_text (record {
  coefficient = divided m.amount (quantum m.currency);
  scale = decimals_for m.currency;
})

module _ (id_text : ℕ → String) where
  abbrev pub optional_id : Option ℕ → Json
  optional_id none = Json.null
  optional_id (some i) = Json.text (id_text i)

  abbrev pub serialize_account : Account → Json
  serialize_account account = Json.object (
      Fields.field "id" (Json.text (id_text account.id)) (
        Fields.field "number"
          (Json.text (decimal_text (record { coefficient = pos account.number; scale = 0 })))
          (Fields.field "owner_id" (Json.text account.owner_id)
            (Fields.field "currency" (Json.text account.currency) Fields.end))))

  abbrev pub serialize_balance : Account → Money → Json
  serialize_balance account balance = Json.object (
      Fields.field "account_number"
        (Json.text (decimal_text (record { coefficient = pos account.number; scale = 0 })))
        (Fields.field "balance" (Json.text (money_text balance))
          (Fields.field "currency" (Json.text balance.currency) Fields.end)))

  abbrev pub serialize_transaction : Transaction → Json
  serialize_transaction t = Json.object (
      Fields.field "transaction_id" (Json.text (id_text t.id)) (
        Fields.field "type" (Json.text (type_value t.transaction_type)) (
          Fields.field "status" (Json.text (status_value t.status)) (
            Fields.field "amount" (Json.text (stored_text t.amount)) (
              Fields.field "currency" (Json.text t.currency)
                (Fields.field "correlation_id" (optional_id t.correlation_id) Fields.end))))))
