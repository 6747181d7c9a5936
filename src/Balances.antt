-- ===== src/Balances.antt =====
-- Balance reads through the cache (wallet_ledger/infrastructure/cache.py and
-- wallet_ledger/application/balance_query.py) and its invalidation on events
-- (`_invalidate_balances` in wallet_ledger/__init__.py). The Redis client is a table that may be
-- absent or out of order; an entry that expires is a read that finds nothing.
pub mod Coherence
pub mod Announcing
pub mod Invalidation
use wallet_ledger_assesment.Base.{
  ℕ, Bool, true, false, not, String, Option, none, some, List, [], ◌∷◌, ◌==◌, if◌then◌else◌,
}
use wallet_ledger_assesment.Base.Int.{ℤ}
use wallet_ledger_assesment.Domain.Errors.{Result, ok}
use wallet_ledger_assesment.Domain.Money.{Money, of_amount}
use wallet_ledger_assesment.Domain.Events.{DomainEvent, Payload, Value, payload_get}
use wallet_ledger_assesment.Store.{Db}
use wallet_ledger_assesment.Store.Models.{Account}
use wallet_ledger_assesment.Ledger.{balance}

-- Amounts by account, as `balance:<id>` names them.
abbrev pub Table : Type 0
Table = List (ℕ × ℤ)

pub data Client : Type 0 where
  absent : Client
  down : Table → Client
  serving : Table → Client

abbrev pub lookup : ℕ → Table → Option ℤ
lookup i [] = none
lookup i ((j, x) ∷ t) = let rest = lookup i t in if j == i then some x else rest

abbrev pub delete : ℕ → Table → Table
delete i [] = []
delete i ((j, x) ∷ t) = let rest = delete i t in if j == i then rest else (j, x) ∷ rest

abbrev pub cached_money : Option ℤ → String → Option Money
cached_money none currency = none
cached_money (some x) currency = some (of_amount x currency)

-- `BalanceCache.get`, `set` and `invalidate`: a failure is logged and goes no further.
unfoldable pub cache_get : Client → ℕ → String → Option Money
cache_get Client.absent account_id currency = none
cache_get (Client.down t) account_id currency = none
cache_get (Client.serving t) account_id currency = cached_money (lookup account_id t) currency

unfoldable pub cache_set : ℕ → Money → Client → Client
cache_set account_id m Client.absent = Client.absent
cache_set account_id m (Client.down t) = Client.down t
cache_set account_id m (Client.serving t) =
    Client.serving ((account_id, m.amount) ∷ delete account_id t)

unfoldable pub cache_invalidate : ℕ → Client → Client
cache_invalidate account_id Client.absent = Client.absent
cache_invalidate account_id (Client.down t) = Client.down t
cache_invalidate account_id (Client.serving t) = Client.serving (delete account_id t)

-- `BalanceQuery.get`: cache-aside.
abbrev pub query_miss : Account → Db → Option Money → Client → Money × Client
query_miss account db (some m) client = (m, client)
query_miss account db none client =
    (balance account db, cache_set account.id (balance account db) client)

unfoldable pub query_balance : Account → Db → Client → Money × Client
query_balance account db client =
    query_miss account db (cache_get client account.id account.currency) client

-- One key of the payload, where it is there.
abbrev pub invalidate_key : Option Value → Client → Client
invalidate_key (some (Value.id i)) client = cache_invalidate i client
invalidate_key _ client = client

-- `_invalidate_balances`
unfoldable pub invalidate_balances : DomainEvent → Client → Result (Unit {0}) × Client
invalidate_balances event client = (
  ok tt,
  invalidate_key (payload_get "account_id" event.payload) (
      invalidate_key (payload_get "receiver_id" event.payload)
        (invalidate_key (payload_get "sender_id" event.payload) client)),
)
