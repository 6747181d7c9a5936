-- ===== src/Notifications.antt =====
-- Notifications (wallet_ledger/application/notifications.py and
-- wallet_ledger/infrastructure/notifications.py): the service reacts to events and keeps a row of
-- each message that it sends. Message texts are not modelled. A payload without a key that a handler
-- reads by subscript raises, and the bus logs it.
pub mod Delivery
use wallet_ledger_assesment.Base.{
  ℕ, Bool, true, false, String, Option, none, some, List, [], ◌∷◌, ◌++◌, ◌==◌, if◌then◌else◌,
}
use wallet_ledger_assesment.Domain.Errors.{Result, ok, err, key_error, ◌>>=◌}
use wallet_ledger_assesment.Domain.Events.{
  DomainEvent, Payload, Value, payload_get, EventBus, Handler, subscribe, transfer_completed,
  transfer_failed, deposit_completed,
}
use wallet_ledger_assesment.Store.{Db, get_account}
use wallet_ledger_assesment.Store.Models.{Account, Notification}

-- A channel by its name and what `send` answers for a recipient.
pub record NotificationChannel : Type 0 where
  pub name : String
  pub send : String → Bool

-- The two channels of the program are stubs that log and succeed.
abbrev pub email_channel : NotificationChannel
email_channel = record { name = "EMAIL"; send = λ recipient. true }

abbrev pub sms_channel : NotificationChannel
sms_channel = record { name = "SMS"; send = λ recipient. true }

-- `_recipient_for`: the owner, or the identifier itself, which `text_of` writes as a text.
abbrev pub recipient_of : (ℕ → String) → ℕ → Option Account → String
recipient_of text_of account_id none = text_of account_id
recipient_of text_of account_id (some a) = a.owner_id

unfoldable pub recipient_for : (ℕ → String) → ℕ → Db → String
recipient_for text_of account_id db = recipient_of text_of account_id (get_account account_id db)

abbrev pub notification : NotificationChannel → String → DomainEvent → Notification
notification channel recipient event = record {
  channel = channel.name;
  recipient = recipient;
  event_type = event.event_type;
  sent = channel.send recipient;
  correlation_id = event.correlation_id;
}

unfoldable pub send_all : List NotificationChannel → String → DomainEvent → Db → Db
send_all [] recipient event db = db
send_all (c ∷ channels) recipient event db =
    send_all channels recipient event
      (record db { notifications = db.notifications ++ (notification c recipient event ∷ []) })

module _ (text_of : ℕ → String) (channels : List NotificationChannel) where
  unfoldable pub notify : ℕ → DomainEvent → Db → Db
  notify account_id event db = send_all channels (recipient_for text_of account_id db) event db

  -- `payload[key]` of an identifier.
  abbrev pub notify_party : Option Value → DomainEvent → Db → Result (Unit {0}) × Db
  notify_party (some (Value.id i)) event db = (ok tt, notify i event db)
  notify_party _ event db = (err key_error, db)

  -- The message reads `payload["amount"]` and `payload["currency"]` before anyone is told.
  abbrev pub after_message : Payload → Result (Unit {0}) × Db → Db → Result (Unit {0}) × Db
  after_message payload told db = elim (payload_get "amount" payload) [
    | none ↦ (err key_error, db)
    | some a ↦ elim (payload_get "currency" payload) [ none ↦ (err key_error, db) | some c ↦ told ]
  ]

  unfoldable pub on_transfer_completed : DomainEvent → Db → Result (Unit {0}) × Db
  on_transfer_completed event db =
      after_message event.payload (notify_party (payload_get "sender_id" event.payload) event db) db

  unfoldable pub on_deposit_completed : DomainEvent → Db → Result (Unit {0}) × Db
  on_deposit_completed event db =
      after_message event.payload (notify_party (payload_get "account_id" event.payload) event db)
        db

  -- `payload.get("sender_id") or payload.get("account_id")`, and nothing where there is neither.
  abbrev pub first_party : Option Value → Option Value → Option Value
  first_party (some v) other = some v
  first_party none other = other

  abbrev pub notify_if_any : Option Value → DomainEvent → Db → Result (Unit {0}) × Db
  notify_if_any (some (Value.id i)) event db = (ok tt, notify i event db)
  notify_if_any _ event db = (ok tt, db)

  unfoldable pub on_transfer_failed : DomainEvent → Db → Result (Unit {0}) × Db
  on_transfer_failed event db =
      notify_if_any
        (first_party (payload_get "sender_id" event.payload)
          (payload_get "account_id" event.payload))
        event db

  -- `register`
  unfoldable pub register : EventBus Db → EventBus Db
  unfolding subscribe
  register bus = subscribe deposit_completed on_deposit_completed (
      subscribe transfer_failed on_transfer_failed
        (subscribe transfer_completed on_transfer_completed bus))
