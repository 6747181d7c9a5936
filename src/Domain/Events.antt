-- ===== src/Domain/Events.antt =====
-- Domain events and the in-memory bus (wallet_ledger/domain/events.py). A handler changes a state
-- of any type and may raise; the time stamp of an event is not modelled.
pub mod Isolation
use wallet_ledger_assesment.Base.{ℕ, String, Option, none, some, List, [], ◌∷◌, ◌++◌, if◌then◌else◌}
use wallet_ledger_assesment.Base.Int.{ℤ}
use wallet_ledger_assesment.Base.Text.{str_eq}
use wallet_ledger_assesment.Domain.Errors.{Result, ok, err}

abbrev pub funds_reserved : String
funds_reserved = "FundsReserved"

abbrev pub transfer_completed : String
transfer_completed = "TransferCompleted"

abbrev pub transfer_failed : String
transfer_failed = "TransferFailed"

abbrev pub deposit_completed : String
deposit_completed = "DepositCompleted"

-- What a payload holds: identifiers, amounts and texts.
pub data Value : Type 0 where
  id : ℕ → Value
  amount : ℤ → Value
  text : String → Value

abbrev pub Payload : Type 0
Payload = List (String × Value)

-- `payload.get(key)`
abbrev pub payload_get : String → Payload → Option Value
payload_get k [] = none
payload_get k ((j, v) ∷ p) = let rest = payload_get k p in if str_eq j k then some v else rest

pub record DomainEvent : Type 0 where
  pub event_type : String
  pub payload : Payload
  pub correlation_id : Option ℕ

module _ {ℓ} (S : Type ℓ) where
  abbrev pub Handler : Type ℓ
  Handler = DomainEvent → S → Result (Unit {0}) × S

  -- `_subscribers`: a list of handlers for each event type that has any.
  abbrev pub EventBus : Type ℓ
  EventBus = List (String × List Handler)

-- The number of failures that were logged after one more handler.
abbrev pub log_failure : Result (Unit {0}) → ℕ → ℕ
log_failure (ok _) n = n
log_failure (err _) n = ℕ.suc n

module _ {ℓ} {S : Type ℓ} where
  -- `_subscribers.get(event_type, [])`
  unfoldable pub subscribers : String → EventBus S → List (Handler S)
  subscribers t [] = []
  subscribers t ((u, hs) ∷ bus) = let rest = subscribers t bus in if str_eq u t then hs else rest

  unfoldable pub subscribe : String → Handler S → EventBus S → EventBus S
  subscribe t h [] = (t, h ∷ []) ∷ []
  subscribe t h ((u, hs) ∷ bus) =
      let rest = subscribe t h bus in
      if str_eq u t then (u, hs ++ (h ∷ [])) ∷ bus else (u, hs) ∷ rest

  -- One handler after the other; a handler that raises is logged and the loop goes on.
  unfoldable pub run_handlers : List (Handler S) → DomainEvent → S → ℕ → S × ℕ
  run_handlers [] e s n = (s, n)
  run_handlers (h ∷ hs) e s n = let (r, s') = h e s in run_handlers hs e s' (log_failure r n)

  -- The new state, and how many failures were logged.
  unfoldable pub publish : DomainEvent → EventBus S → S → S × ℕ
  unfolding run_handlers subscribers
  publish e bus s = run_handlers (subscribers e.event_type bus) e s 0

  unfoldable pub clear : EventBus S → EventBus S
  clear bus = []
