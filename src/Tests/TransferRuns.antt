-- ===== src/Tests/TransferRuns.antt =====
-- Transfers at concrete inputs: alice sends 30 of her 50 dollars to bob, at once.
use wallet_ledger_assesment.Base.{◌≡◌, refl, none, [], ◌∷◌, arith}
use wallet_ledger_assesment.Base.Int.{pos, ◌+ℤ◌, ◌*ℤ◌, neg, abs, ◌≤ℤ◌, ◌<ℤ◌}
use wallet_ledger_assesment.Base.Text.{upper}
use wallet_ledger_assesment.Domain.Decimals.{round_half_even, nearest}
use wallet_ledger_assesment.Domain.Errors.{ok, err, insufficient_funds}
use wallet_ledger_assesment.Domain.Money.{money, of_amount, decimals_for, quantum, is_positive, lt}
use wallet_ledger_assesment.Domain.Aggregates.{ensure_can_debit, assert_balanced, credit, debit}
use wallet_ledger_assesment.Ledger.{
  available_balance, balance, balance_amount, latest_snapshot, post, snapshot_all, maybe_snapshot,
  order_by_seq, add_snapshot, add_amounts,
}
use wallet_ledger_assesment.Ledger.Snapshots.{full_balance}
use wallet_ledger_assesment.Ledger.Exact.{IsExact, balance_exact}
use wallet_ledger_assesment.Ledger.Invariant.{available}
use wallet_ledger_assesment.Accounts
use wallet_ledger_assesment.Transfers.{
  Outcome, validate, ensure_funds, settle_transfer, new_transaction, execute, initiate,
}
use wallet_ledger_assesment.Transfers.Effects.{Request, Transferred, execute-Transferred}
use wallet_ledger_assesment.Transfers.Success.{execute_succeeds, execute_insufficient}
use wallet_ledger_assesment.Balances.{Client, invalidate_balances}
use wallet_ledger_assesment.Balances.Coherence.{IsCoherent}
use wallet_ledger_assesment.Balances.Invalidation.{execute-IsCoherent}
use wallet_ledger_assesment.Tests.Fixtures.{
  alice, bob, whole, dollars, funded, funded-IsValid, or_else, returned, nothing,
}

abbrev pub direct : Outcome
direct = or_else nothing (execute 100 1 2 (whole 30) none funded)

pub direct_returns : execute 100 1 2 (whole 30) none funded ≡ ok direct
unfolding execute Accounts.lock Accounts.get validate settle_transfer new_transaction post
    assert_balanced credit debit snapshot_all maybe_snapshot order_by_seq add_snapshot add_amounts
    ensure_funds ensure_can_debit available_balance balance balance_amount latest_snapshot lt
    is_positive money of_amount decimals_for upper round_half_even nearest ◌+ℤ◌ ◌*ℤ◌ neg abs
direct_returns = returned nothing (execute 100 1 2 (whole 30) none funded) refl

execute-Transferred_example :
    (r : Request 1 2 (whole 30) funded) × Transferred r.sender r.receiver r.m.amount funded direct.2
execute-Transferred_example =
    execute-Transferred 100 1 2 (whole 30) none funded direct.0 direct.1 direct.2 (omega arith)
      funded-IsValid direct_returns

pub cached_amount : IsCoherent funded (Client.serving ((1, dollars 50) ∷ []))
unfolding balance balance_amount latest_snapshot money of_amount decimals_for upper round_half_even
    nearest ◌+ℤ◌ ◌*ℤ◌ neg abs
cached_amount = (refl, tt)

execute-IsCoherent_example :
    IsCoherent direct.2 (invalidate_balances direct.1 (Client.serving ((1, dollars 50) ∷ []))).1
execute-IsCoherent_example =
    execute-IsCoherent 100 1 2 (whole 30) none funded ((1, dollars 50) ∷ []) direct.0 direct.1
      direct.2 (omega arith) funded-IsValid cached_amount direct_returns

pub funded-IsExact : IsExact alice funded
unfolding quantum decimals_for upper neg abs
funded-IsExact = (λ h. refl, (λ h. refl, tt))

balance_exact_example :
    ((balance alice funded).amount ≡ full_balance alice.id funded)
    × ((available_balance alice funded).amount ≡ available alice.id funded)
balance_exact_example = balance_exact alice funded funded-IsValid.snapshots funded-IsExact

enough : (money (whole 30) "USD").amount ≤ℤ (available_balance alice funded).amount
unfolding ensure_funds ensure_can_debit available_balance balance balance_amount latest_snapshot lt
    is_positive money of_amount decimals_for upper round_half_even nearest ◌+ℤ◌ ◌*ℤ◌ neg abs
enough = omega arith

more_than_zero : pos 0 <ℤ (money (whole 30) "USD").amount
unfolding money of_amount decimals_for upper round_half_even nearest ◌+ℤ◌ ◌*ℤ◌ neg abs
more_than_zero = omega arith

execute_succeeds_example : (o : Outcome) × (execute 100 1 2 (whole 30) none funded ≡ ok o)
execute_succeeds_example =
    execute_succeeds 100 1 2 (whole 30) none funded alice bob (omega arith) funded-IsValid refl refl
      refl more_than_zero enough

short : (available_balance alice funded).amount <ℤ (money (whole 60) "USD").amount
unfolding ensure_funds ensure_can_debit available_balance balance balance_amount latest_snapshot lt
    is_positive money of_amount decimals_for upper round_half_even nearest ◌+ℤ◌ ◌*ℤ◌ neg abs
short = omega arith

more_than_zero' : pos 0 <ℤ (money (whole 60) "USD").amount
unfolding money of_amount decimals_for upper round_half_even nearest ◌+ℤ◌ ◌*ℤ◌ neg abs
more_than_zero' = omega arith

execute_insufficient_example :
    (execute 100 1 2 (whole 60) none funded ≡ err insufficient_funds)
    × (initiate 1 2 (whole 60) none funded ≡ err insufficient_funds)
execute_insufficient_example =
    execute_insufficient 100 1 2 (whole 60) none funded alice bob refl refl refl more_than_zero'
      short
