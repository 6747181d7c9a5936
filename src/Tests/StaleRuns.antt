-- ===== src/Tests/StaleRuns.antt =====
-- A reversal through its view while the cache holds the sender's balance.
use wallet_ledger_assesment.Base.{◌≡◌, ◌≢◌, refl, none, some, [], ◌∷◌}
use wallet_ledger_assesment.Base.Int.{◌+ℤ◌, ◌*ℤ◌, neg, abs, pos}
use wallet_ledger_assesment.Base.Text.{upper}
use wallet_ledger_assesment.Domain.Decimals.{round_half_even, nearest}
use wallet_ledger_assesment.Domain.Errors.{ok}
use wallet_ledger_assesment.Domain.Money.{money, of_amount, decimals_for, quantum, is_positive, lt}
use wallet_ledger_assesment.Domain.Aggregates.{ensure_can_debit, assert_balanced, credit, debit}
use wallet_ledger_assesment.Store.{get_account}
use wallet_ledger_assesment.Ledger.{
  available_balance, balance, balance_amount, latest_snapshot, post, snapshot_all, maybe_snapshot,
  order_by_seq, add_snapshot, add_amounts,
}
use wallet_ledger_assesment.Ledger.Exact.{IsExact}
use wallet_ledger_assesment.Accounts
use wallet_ledger_assesment.Transfers.{
  validate, ensure_funds, settle_transfer, new_transaction, execute,
}
use wallet_ledger_assesment.Balances.{Client}
use wallet_ledger_assesment.Balances.Coherence.{IsCoherent}
use wallet_ledger_assesment.Idempotency.{Response}
use wallet_ledger_assesment.Api.Serializers.{serialize_transaction}
use wallet_ledger_assesment.Api.Wiring.{World}
use wallet_ledger_assesment.Api.Views.{respond, reverse_transaction}
use wallet_ledger_assesment.Api.Reversing.{brought, reverse_transaction_stale}
use wallet_ledger_assesment.Tests.Fixtures.{alice, dollars}
use wallet_ledger_assesment.Tests.TransferRuns.{direct}
use wallet_ledger_assesment.Tests.ServiceRuns.{
  direct-IsValid, direct-IsProper, undone, undone_returns,
}
use wallet_ledger_assesment.Tests.ApiRuns.{started_app}

-- After the transfer of 30 dollars the cache holds the 20 that alice has left.
abbrev cached : Client
cached = Client.serving ((1, dollars 20) ∷ [])

abbrev answer : Response × World
answer = (
  respond 201 (serialize_transaction started_app.id_text undone.0),
  record { db = undone.1; client = cached },
)

answer_returns :
    reverse_transaction started_app 11 none (record { db = direct.2; client = cached }) ≡ ok answer
unfolding reverse_transaction
answer_returns = rw undone_returns refl

direct_cached :
    (get_account 1 direct.2 ≡ some alice)
    × IsExact alice direct.2
    × (brought direct.2 alice 11 ≡ neg (dollars 30))
    × IsCoherent direct.2 cached
unfolding quantum execute Accounts.lock Accounts.get validate settle_transfer new_transaction post
    assert_balanced credit debit snapshot_all maybe_snapshot order_by_seq add_snapshot add_amounts
    ensure_funds ensure_can_debit available_balance balance balance_amount latest_snapshot lt
    is_positive money of_amount decimals_for upper round_half_even nearest ◌+ℤ◌ ◌*ℤ◌ neg abs
direct_cached = (refl, (λ h. refl, (λ h. refl, (λ h. refl, (λ h. refl, tt)))), refl, (refl, tt))

some_brought : brought direct.2 alice 11 ≢ pos 0
unfolding neg
some_brought h = let is = direct_cached.2 in cc

reverse_transaction_stale_example : ¬ IsCoherent answer.1.db answer.1.client
reverse_transaction_stale_example =
    reverse_transaction_stale direct.2 alice 11 started_app none [] (dollars 20) answer.0 answer.1
      direct-IsValid direct-IsProper direct_cached.0 direct_cached.1 some_brought direct_cached.3
      answer_returns
