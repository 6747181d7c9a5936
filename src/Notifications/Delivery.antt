-- ===== src/Notifications/Delivery.antt =====
-- Who is told about what, and that the ledger is left alone.
use mathlib.Core.List.{append-nil, append_assoc}
use wallet_ledger_assesment.Base.{ℕ, ◌≡◌, sym, ap, ◌∙◌, String, List, [], ◌∷◌, ◌++◌, map}
use wallet_ledger_assesment.Domain.Errors.{ok, ok-injective, >>=-eq-ok}
use wallet_ledger_assesment.Domain.Events.{DomainEvent}
use wallet_ledger_assesment.Store.{Db}
use wallet_ledger_assesment.Store.Models.{Transaction, Notification}
use wallet_ledger_assesment.Transfers.{Outcome, pending_transaction, fail}
use wallet_ledger_assesment.Notifications.{
  NotificationChannel, notification, send_all, recipient_for, notify, on_transfer_failed,
}

send_all-appends :
    (channels : List NotificationChannel) (recipient : String) (event : DomainEvent) (db : Db)
    → send_all channels recipient event db ≡ record db {
      notifications = db.notifications ++ map (λ c. notification c recipient event) channels;
    }
unfolding send_all
send_all-appends [] recipient event db =
    ap (λ (ns : List Notification). record db { notifications = ns }) (sym (append-nil _))
send_all-appends (c ∷ channels) recipient event db =
    send_all-appends channels recipient event
      (record db { notifications = db.notifications ++ (notification c recipient event ∷ []) })
    ∙ ap (λ (ns : List Notification). record db { notifications = ns })
        (append_assoc db.notifications (notification c recipient event ∷ [])
          (map (λ x. notification x recipient event) channels))

-- Notifying an account adds one row for each channel, in order, for one recipient, and changes
-- nothing else.
pub notify-appends :
    (text_of : ℕ → String) (channels : List NotificationChannel) (account_id : ℕ)
    (event : DomainEvent) (db : Db)
    → notify text_of channels account_id event db ≡ record db {
      notifications =
          db.notifications
          ++ map (λ c. notification c (recipient_for text_of account_id db) event) channels;
    }
unfolding notify
notify-appends text_of channels account_id event db =
    send_all-appends channels (recipient_for text_of account_id db) event db

-- The event of a failed transfer names no account, so its handler tells nobody.
pub fail_unnotified :
    (text_of : ℕ → String) (channels : List NotificationChannel) (id : ℕ) (db : Db)
    (txn : Transaction) (event : DomainEvent) (db' : Db)
    → fail id db ≡ ok (txn, event, db')
    → on_transfer_failed text_of channels event db' ≡ (ok tt, db')
unfolding fail on_transfer_failed
fail_unnotified text_of channels id db txn event db' e =
    let (t, e0, rest) = >>=-eq-ok (pending_transaction id db) _ e in
    let is = ap (λ (o : Outcome). o.1) (ok-injective rest) in rw (← is)
