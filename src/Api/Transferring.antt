-- ===== src/Api/Transferring.antt =====
-- A direct transfer through its view, with the handlers of its event.
use wallet_ledger_assesment.Base.{
  ℕ, ◌<◌, ◌≡◌, refl, sym, ap, ◌∙◌, String, Option, List, [], ◌∷◌, ◌++◌, subst,
}
use wallet_ledger_assesment.Domain.Errors.{ok, >>=-eq-ok, ok-injective}
use wallet_ledger_assesment.Domain.Events.{DomainEvent, transfer_completed}
use wallet_ledger_assesment.Domain.Money.{Money}
use wallet_ledger_assesment.Store.{Db}
use wallet_ledger_assesment.Store.Models.{Account, Transaction, Notification}
use wallet_ledger_assesment.Ledger.{balance, balance_amount, latest_snapshot}
use wallet_ledger_assesment.Ledger.Invariant.{IsValid}
use wallet_ledger_assesment.Transfers
use wallet_ledger_assesment.Transfers.{Outcome, transfer_event, settle_transfer, execute}
use wallet_ledger_assesment.Transfers.Effects.{
  Request, Request-checked, Transferred, settle_transfer-Transferred,
}
use wallet_ledger_assesment.Balances.{Table, Client, invalidate_balances}
use wallet_ledger_assesment.Balances.Coherence.{IsCoherentTable, IsCoherent}
use wallet_ledger_assesment.Balances.Announcing.{IsTransfer, Announced, settle_transfer-Announced}
use wallet_ledger_assesment.Balances.Invalidation.{execute-IsCoherent}
use wallet_ledger_assesment.Notifications.{
  email_channel, sms_channel, notification, recipient_for, notify, on_transfer_completed, register,
}
use wallet_ledger_assesment.Notifications.Delivery.{notify-appends}
use wallet_ledger_assesment.Idempotency.{Response}
use wallet_ledger_assesment.Wire.{Json, payload_of}
use wallet_ledger_assesment.Api.Schemas.{TransferData, load_transfer}
use wallet_ledger_assesment.Api.Serializers.{serialize_transaction}
use wallet_ledger_assesment.Api.Wiring.{World, published}
use wallet_ledger_assesment.Api.Views.{Setup, respond, resolve_pair, execute_transfer}

-- The notifications table alone has changed.
abbrev with_notifications : List Notification → Db → Db
with_notifications ns db = record db { notifications = ns }

IsCoherentTable-notified :
    (ns : List Notification) (db : Db) (t : Table)
    → IsCoherentTable db t
    → IsCoherentTable (with_notifications ns db) t
unfolding balance balance_amount latest_snapshot
IsCoherentTable-notified ns db [] h = tt
IsCoherentTable-notified ns db ((i, x) ∷ t) h = (h.0, IsCoherentTable-notified ns db t h.1)

IsCoherent-notified :
    (ns : List Notification) (db : Db) (client : Client)
    → IsCoherent db client
    → IsCoherent (with_notifications ns db) client
IsCoherent-notified ns db (Client.serving t) h = IsCoherentTable-notified ns db t h
IsCoherent-notified ns db (Client.down t) h = IsCoherentTable-notified ns db t h
IsCoherent-notified ns db Client.absent h = tt

-- The two rows that tell the sender.
abbrev pub told : (ℕ → String) → ℕ → DomainEvent → Db → List Notification
told id_text account_id event db =
    notification email_channel (recipient_for id_text account_id db) event
    ∷ notification sms_channel (recipient_for id_text account_id db) event
    ∷ []

-- The handlers of a completed transfer in their order: the customer is told, then the cache is purged.
published-transfer :
    (id_text : ℕ → String) (txn : Transaction) (m : Money) (sender receiver : Account) (db' db : Db)
    (t : Table)
    → let event = transfer_event transfer_completed txn m sender receiver in
      published id_text event db' (record { db = db; client = Client.serving t }) ≡ record {
        db = notify id_text (email_channel ∷ sms_channel ∷ []) sender.id event db';
        client = (invalidate_balances event (Client.serving t)).1;
      }
unfolding published register on_transfer_completed
published-transfer id_text txn m sender receiver db' db t = refl

notified :
    (id_text : ℕ → String) (account_id : ℕ) (event : DomainEvent) (db : Db)
    → notify id_text (email_channel ∷ sms_channel ∷ []) account_id event db
      ≡ with_notifications (db.notifications ++ told id_text account_id event db) db
notified id_text account_id event db =
    notify-appends id_text (email_channel ∷ sms_channel ∷ []) account_id event db

-- What a transfer has been that the endpoint has answered.
pub record Posted (setup : Setup) (body : Option Json) (db : Db) (r : Response) (w : World)
    : Type 0 where
  pub request : TransferData
  pub sender_id : ℕ
  pub receiver_id : ℕ
  pub txn : Transaction
  pub event : DomainEvent
  pub db' : Db
  pub loaded : load_transfer setup.marshmallow (payload_of body) ≡ ok request
  pub resolved :
      resolve_pair setup request.sender_account_number request.receiver_account_number db
      ≡ ok (sender_id, receiver_id)
  pub parties : Request sender_id receiver_id request.amount db
  pub transferred : Transferred parties.sender parties.receiver parties.m.amount db db'
  pub txn_is : IsTransfer parties.sender parties.receiver parties.m txn
  pub recorded : w.db.transactions ≡ db.transactions ++ (txn ∷ [])
  pub created : r ≡ respond 201 (serialize_transaction setup.id_text txn)
  pub named :
      event ≡ transfer_event transfer_completed txn parties.m parties.sender parties.receiver
  pub written : w.db ≡ record db' {
    notifications = db.notifications ++ told setup.id_text parties.sender.id event db';
  }
  pub coherent : IsCoherent w.db w.client

module _ (setup : Setup) (db : Db) (t : Table) where
  -- The view, once the transfer has returned.
  transfer-published :
      (sender receiver : Account) (m : Money) (txn : Transaction) (event : DomainEvent) (db' : Db)
      → Announced sender receiver m txn event db db'
      → published setup.id_text event db' (record { db = db; client = Client.serving t }) ≡ record {
        db = with_notifications (db.notifications ++ told setup.id_text sender.id event db') db';
        client = (invalidate_balances event (Client.serving t)).1;
      }
  transfer-published sender receiver m txn event db' a =
      let told_event = transfer_event transfer_completed txn m sender receiver in
      subst
        (λ (e : DomainEvent).
          published setup.id_text e db' (record { db = db; client = Client.serving t }) ≡ record {
            db = with_notifications (db.notifications ++ told setup.id_text sender.id e db') db';
            client = (invalidate_balances e (Client.serving t)).1;
          })
        (sym a.event_is)
        (published-transfer setup.id_text txn m sender receiver db' db t
          ∙ ap
              (λ (d : Db).
                let w : World = record {
                  db = d;
                  client = (invalidate_balances told_event (Client.serving t)).1;
                } in
                w)
              (notified setup.id_text sender.id told_event db'
                ∙ ap
                    (λ (ns : List Notification).
                      with_notifications (ns ++ told setup.id_text sender.id told_event db') db')
                    a.notifications_kept))

  -- With a valid ledger, a positive snapshot threshold and a serving cache that agrees with the
  -- ledger: a request for a transfer that is answered by the view had a well-formed body, whose two
  -- account numbers were found; the sender's available balance covered the positive amount, which has
  -- moved to the receiver; the answer is 201 with the transaction, which is a transfer of that amount
  -- between the two with the status SUCCESS, and which has been added to the table; an email and an SMS to the sender
  -- have been recorded, the rest of the database is what the service left, and the cache agrees with
  -- the new ledger.
  pub execute_transfer-Posted :
      (body : Option Json) (c : Option ℕ) (r : Response) (w : World)
      → 0 < setup.threshold
      → IsValid db
      → IsCoherent db (Client.serving t)
      → execute_transfer setup body c (record { db = db; client = Client.serving t }) ≡ ok (r, w)
      → Posted setup body db r w
  unfolding execute_transfer execute
  execute_transfer-Posted body c r w positive v coherent e =
      let (request, loaded, e1) =
        >>=-eq-ok (load_transfer setup.marshmallow (payload_of body)) _ e in
      let (ids, resolved, e2) =
        >>=-eq-ok
          (resolve_pair setup request.sender_account_number request.receiver_account_number db) _
          e1 in
      let (o, executed, e3) =
        >>=-eq-ok (Transfers.execute setup.threshold ids.0 ids.1 request.amount c db) _ e2 in
      let (parties, done) =
        Request-checked ids.0 ids.1 request.amount db
          (λ sender receiver m. settle_transfer setup.threshold sender receiver m c db) o
          executed in
      let a =
        settle_transfer-Announced setup.threshold parties.sender parties.receiver parties.m c db o.0
          o.1 o.2 done in
      let same = ok-injective e3 in
      let world =
        sym (transfer-published parties.sender parties.receiver parties.m o.0 o.1 o.2 a)
        ∙ ap (λ (x : Response × World). x.1) same in
      let after =
        execute-IsCoherent setup.threshold ids.0 ids.1 request.amount c db t o.0 o.1 o.2 positive v
          coherent executed in
      record {
        request = request;
        sender_id = ids.0;
        receiver_id = ids.1;
        txn = o.0;
        event = o.1;
        db' = o.2;
        loaded = loaded;
        resolved = resolved;
        parties = parties;
        transferred =
            settle_transfer-Transferred setup.threshold parties.sender parties.receiver parties.m c
              db o.0 o.1 o.2 positive v parties.accepted.positive done;
        txn_is = a.txn_is;
        recorded = ap (λ (x : World). x.db.transactions) (sym world) ∙ a.recorded;
        created = sym (ap (λ (x : Response × World). x.0) same);
        named = a.event_is;
        written = sym (ap (λ (x : World). x.db) world);
        coherent =
            subst (λ (x : World). IsCoherent x.db x.client) world
              (IsCoherent-notified
                (db.notifications ++ told setup.id_text parties.sender.id o.1 o.2) o.2
                (invalidate_balances o.1 (Client.serving t)).1 after);
      }
