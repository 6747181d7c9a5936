-- ===== src/Api/Wiring.antt =====
-- The reactions to events (`_wire_event_subscribers` in wallet_ledger/__init__.py): the customer is
-- notified, and the cached balances of the accounts that are named are dropped.
use wallet_ledger_assesment.Base.{ℕ, String, [], ◌∷◌, map}
use wallet_ledger_assesment.Domain.Events.{
  DomainEvent, Handler, EventBus, subscribe, publish, transfer_completed, transfer_failed,
  deposit_completed, funds_reserved,
}
use wallet_ledger_assesment.Store.{Db}
use wallet_ledger_assesment.Notifications.{register, email_channel, sms_channel}
use wallet_ledger_assesment.Balances.{Client, invalidate_balances}

-- What requests change: the database and the cache.
pub record World : Type 0 where
  pub db : Db
  pub client : Client

-- A handler of one of the two.
abbrev pub on_db : Handler Db → Handler World
on_db h event w = let (r, db') = h event w.db in (r, record w { db = db' })

abbrev pub on_client : Handler Client → Handler World
on_client h event w = let (r, client') = h event w.client in (r, record w { client = client' })

abbrev pub bus_on_db : EventBus Db → EventBus World
bus_on_db [] = []
bus_on_db ((t, hs) ∷ bus) = (t, map on_db hs) ∷ bus_on_db bus

module _ (id_text : ℕ → String) where
  -- The subscriptions in their order.
  unfoldable pub wired : EventBus World
  unfolding subscribe
  wired = subscribe funds_reserved (on_client invalidate_balances) (
      subscribe deposit_completed (on_client invalidate_balances) (
        subscribe transfer_failed (on_client invalidate_balances) (
          subscribe transfer_completed (on_client invalidate_balances)
            (bus_on_db (register id_text (email_channel ∷ sms_channel ∷ []) [])))))

  -- The state that a commit has left, and what the handlers of its event make of it.
  unfoldable pub published : DomainEvent → Db → World → World
  unfolding publish wired
  published event db' w = (publish event wired (record w { db = db' })).0
