-- ===== src/Tests/SeedRuns.antt =====
-- The demonstration data, loaded into an empty database and loaded again, and an account opened.
use wallet_ledger_assesment.Base.{ℕ, ◌≡◌, ◌+◌, ◌⊎◌, arith, refl, String, List, []}
use wallet_ledger_assesment.Base.Int.{◌+ℤ◌, ◌*ℤ◌, neg, abs}
use wallet_ledger_assesment.Base.Text.{upper}
use wallet_ledger_assesment.Domain.Errors.{ok}
use wallet_ledger_assesment.Domain.Decimals.{round_half_even, nearest}
use wallet_ledger_assesment.Domain.Money.{money, of_amount, decimals_for, is_positive, lt}
use wallet_ledger_assesment.Domain.Aggregates.{
  ensure_can_debit, assert_balanced, credit, debit, record_line,
}
use wallet_ledger_assesment.Store.{Db}
use wallet_ledger_assesment.Store.Models.{generate_account_number}
use wallet_ledger_assesment.Ledger.{
  available_balance, balance, balance_amount, latest_snapshot, post, post_entries, snapshot_all,
  maybe_snapshot, order_by_seq, add_snapshot, add_amounts, assert_entries_balanced,
}
use wallet_ledger_assesment.Accounts
use wallet_ledger_assesment.Accounts.Creation.{IsDistinct, Created, Refused, create-cases}
use wallet_ledger_assesment.Transfers.{
  validate, ensure_funds, settle_transfer, new_transaction, execute,
}
use wallet_ledger_assesment.Seeds.{seed, ensure, fund, new_funding, first_transfer}
use wallet_ledger_assesment.Seeds.Replaying.{seed_again}
use wallet_ledger_assesment.Tests.Fixtures.{funded, or_else, returned}

abbrev empty : Db
empty = record {
  accounts = [];
  transactions = [];
  entries = [];
  snapshots = [];
  notifications = [];
  next_seq = 1;
  next_id = 1;
}

abbrev in_order : ℕ → ℕ
in_order i = i

abbrev loaded : List (String × ℕ) × Db
loaded = or_else ([], empty) (seed 100 in_order empty)

loaded_returns : seed 100 in_order empty ≡ ok loaded
unfolding seed ensure fund new_funding first_transfer Accounts.create
    Accounts.get_or_create_internal generate_account_number post_entries assert_entries_balanced
    record_line execute Accounts.lock Accounts.get validate settle_transfer new_transaction post
    assert_balanced credit debit snapshot_all maybe_snapshot order_by_seq add_snapshot add_amounts
    ensure_funds ensure_can_debit available_balance balance balance_amount latest_snapshot lt
    is_positive money of_amount decimals_for upper round_half_even nearest ◌+ℤ◌ ◌*ℤ◌ neg abs
loaded_returns = returned ([], empty) (seed 100 in_order empty) refl

seed_again_example : seed 50 (λ i. i + 7) loaded.1 ≡ ok loaded
seed_again_example = seed_again 100 in_order empty loaded.0 loaded.1 loaded_returns 50 (λ i. i + 7)

-- Four accounts, apart from each other.
funded-IsDistinct : IsDistinct funded
funded-IsDistinct = record {
  drawn_ids = (omega arith, (omega arith, (omega arith, (omega arith, tt))));
  apart = ((refl, (refl, (refl, tt))), ((refl, (refl, tt)), ((refl, tt), (tt, tt))));
}

create-cases_example : Created "dave" "usd" 9 funded ⊎ Refused "dave" "usd" 9 funded
create-cases_example = create-cases "dave" "usd" 9 funded funded-IsDistinct
