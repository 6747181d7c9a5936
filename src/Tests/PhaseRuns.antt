-- ===== src/Tests/PhaseRuns.antt =====
-- Transfers at concrete inputs: alice sends 30 of her 50 dollars to bob in two phases.
use wallet_ledger_assesment.Base.{◌<◌, ◌≤◌, ◌≡◌, ◌≢◌, refl, none, ◌==◌, arith, if◌then◌else◌}
use wallet_ledger_assesment.Base.Int.{pos, ◌+ℤ◌, ◌*ℤ◌, neg, abs}
use wallet_ledger_assesment.Base.Text.{upper}
use wallet_ledger_assesment.Domain.Decimals.{round_half_even, nearest}
use wallet_ledger_assesment.Domain.Enums.{EntryType, EntryStatus}
use wallet_ledger_assesment.Domain.Errors.{ok}
use wallet_ledger_assesment.Domain.Money.{money, of_amount, decimals_for, is_positive, lt}
use wallet_ledger_assesment.Domain.Aggregates.{
  ensure_can_debit, assert_balanced, credit, debit, record_line,
}
use wallet_ledger_assesment.Store.{Db}
use wallet_ledger_assesment.Store.Models.{Account, Transaction, LedgerEntry}
use wallet_ledger_assesment.Ledger.{
  available_balance, balance, balance_amount, latest_snapshot, cursor_of, post, snapshot_all,
  maybe_snapshot, order_by_seq, add_snapshot, add_amounts, assert_entries_balanced,
}
use wallet_ledger_assesment.Ledger.Snapshots.{full_balance}
use wallet_ledger_assesment.Ledger.Invariant.{IsValid}
use wallet_ledger_assesment.Risk.{assess, auto_approval_limit}
use wallet_ledger_assesment.Accounts
use wallet_ledger_assesment.Transfers.{
  Outcome, validate, ensure_funds, settle_transfer, new_transaction, execute, reserve, initiate,
  pending_transaction, receiver_id_of, commit_read, commit_write, commit, fail,
}
use wallet_ledger_assesment.Transfers.Effects.{Request, execute-Transferred}
use wallet_ledger_assesment.Transfers.Phases.{Reserved, initiate-Reserved}
use wallet_ledger_assesment.Transfers.Status.{Failed, fail-Failed}
use wallet_ledger_assesment.Transfers.Halves.{IsRead, commit_read-IsRead}
use wallet_ledger_assesment.Transfers.Settlement.{Settled, commit-Settled}
use wallet_ledger_assesment.Transfers.Passed.{commit_overstates}
use wallet_ledger_assesment.Transfers.Race.{commit_race}
use wallet_ledger_assesment.Tests.Fixtures.{
  whole, funded, funded-IsValid, or_else, returned, nothing,
}

-- The first phase.
abbrev pub first : Outcome
first = or_else nothing (initiate 1 2 (whole 30) none funded)

abbrev pub held : Db
held = first.2

pub first_returns : initiate 1 2 (whole 30) none funded ≡ ok first
unfolding initiate reserve Accounts.lock Accounts.get validate new_transaction ensure_funds
    ensure_can_debit available_balance balance balance_amount latest_snapshot lt is_positive money
    of_amount decimals_for upper round_half_even nearest ◌+ℤ◌ ◌*ℤ◌ neg abs
first_returns = returned nothing (initiate 1 2 (whole 30) none funded) refl

initiate-Reserved_example :
    (r : Request 1 2 (whole 30) funded) × Reserved r.sender r.m.amount funded held
initiate-Reserved_example =
    initiate-Reserved 1 2 (whole 30) none funded first.0 first.1 first.2 funded-IsValid
      first_returns

held-IsValid : IsValid held
held-IsValid =
    (initiate-Reserved 1 2 (whole 30) none funded first.0 first.1 first.2 funded-IsValid
      first_returns).1.valid

-- The transaction of the first phase, whose correlation identifier took the number 10.
abbrev pub cancelled : Outcome
cancelled = or_else nothing (fail 11 held)

pub cancelled_returns : fail 11 held ≡ ok cancelled
unfolding fail pending_transaction initiate reserve Accounts.lock Accounts.get validate
    new_transaction ensure_funds ensure_can_debit available_balance balance balance_amount
    latest_snapshot lt is_positive money of_amount decimals_for upper round_half_even nearest ◌+ℤ◌
    ◌*ℤ◌ neg abs
cancelled_returns = returned nothing (fail 11 held) refl

fail-Failed_example : Failed 11 held cancelled.2
fail-Failed_example =
    fail-Failed 11 held cancelled.0 cancelled.1 cancelled.2 held-IsValid cancelled_returns

abbrev pub second : Outcome
second = or_else nothing (commit auto_approval_limit 100 11 held)

pub second_returns : commit auto_approval_limit 100 11 held ≡ ok second
unfolding execute Accounts.lock Accounts.get validate settle_transfer new_transaction post
    assert_balanced credit debit snapshot_all maybe_snapshot order_by_seq add_snapshot add_amounts
    initiate reserve commit commit_read commit_write pending_transaction assess
    assert_entries_balanced record_line ensure_funds ensure_can_debit available_balance balance
    balance_amount latest_snapshot lt is_positive money of_amount decimals_for upper round_half_even
    nearest ◌+ℤ◌ ◌*ℤ◌ neg abs
second_returns = returned nothing (commit auto_approval_limit 100 11 held) refl

commit-Settled_example :
    (t : Transaction) × (d : LedgerEntry) × (receiver : Account) × IsRead 11 held t d
    × (receiver_id_of t.details ≡ ok receiver.id)
    × Settled 11 d receiver (of_amount t.amount t.currency) held second.2
commit-Settled_example =
    commit-Settled auto_approval_limit 100 11 held second.0 second.1 second.2 held-IsValid
      second_returns

abbrev no_read : Transaction × LedgerEntry
no_read = (
  nothing.0,
  record {
    seq = 0;
    account_id = 0;
    transaction_id = 0;
    amount = pos 0;
    entry_type = EntryType.debit;
    status = EntryStatus.failed;
    currency = "";
    metadata = none;
  },
)

abbrev pub read : Transaction × LedgerEntry
read = or_else no_read (commit_read auto_approval_limit 11 held)

pub read_returns : commit_read auto_approval_limit 11 held ≡ ok read
unfolding execute Accounts.lock Accounts.get validate settle_transfer new_transaction post
    assert_balanced credit debit snapshot_all maybe_snapshot order_by_seq add_snapshot add_amounts
    initiate reserve commit commit_read commit_write pending_transaction assess
    assert_entries_balanced record_line ensure_funds ensure_can_debit available_balance balance
    balance_amount latest_snapshot lt is_positive money of_amount decimals_for upper round_half_even
    nearest ◌+ℤ◌ ◌*ℤ◌ neg abs
read_returns = returned no_read (commit_read auto_approval_limit 11 held) refl

pub held-IsRead : IsRead 11 held read.0 read.1
held-IsRead = commit_read-IsRead auto_approval_limit 11 held read.0 read.1 read_returns

pub not_passed : cursor_of (latest_snapshot read.1.account_id held) < read.1.seq
unfolding execute Accounts.lock Accounts.get validate settle_transfer new_transaction post
    assert_balanced credit debit snapshot_all maybe_snapshot order_by_seq add_snapshot add_amounts
    initiate reserve commit commit_read commit_write pending_transaction assess
    assert_entries_balanced record_line ensure_funds ensure_can_debit available_balance balance
    balance_amount latest_snapshot lt is_positive money of_amount decimals_for upper round_half_even
    nearest ◌+ℤ◌ ◌*ℤ◌ neg abs
not_passed = omega arith

-- A snapshot is cut between the two phases: a direct transfer with the threshold 1.
abbrev pub between : Outcome
between = or_else nothing (execute 1 1 2 (whole 5) none held)

abbrev pub passed : Db
passed = between.2

pub between_returns : execute 1 1 2 (whole 5) none held ≡ ok between
unfolding execute Accounts.lock Accounts.get validate settle_transfer new_transaction post
    assert_balanced credit debit snapshot_all maybe_snapshot order_by_seq add_snapshot add_amounts
    initiate reserve commit commit_read commit_write pending_transaction assess
    assert_entries_balanced record_line ensure_funds ensure_can_debit available_balance balance
    balance_amount latest_snapshot lt is_positive money of_amount decimals_for upper round_half_even
    nearest ◌+ℤ◌ ◌*ℤ◌ neg abs
between_returns = returned nothing (execute 1 1 2 (whole 5) none held) refl

passed-IsValid : IsValid passed
passed-IsValid =
    (execute-Transferred 1 1 2 (whole 5) none held between.0 between.1 between.2 (omega arith)
      held-IsValid between_returns).1.valid

abbrev late_read : Transaction × LedgerEntry
late_read = or_else no_read (commit_read auto_approval_limit 11 passed)

late_read_returns : commit_read auto_approval_limit 11 passed ≡ ok late_read
unfolding execute Accounts.lock Accounts.get validate settle_transfer new_transaction post
    assert_balanced credit debit snapshot_all maybe_snapshot order_by_seq add_snapshot add_amounts
    initiate reserve commit commit_read commit_write pending_transaction assess
    assert_entries_balanced record_line ensure_funds ensure_can_debit available_balance balance
    balance_amount latest_snapshot lt is_positive money of_amount decimals_for upper round_half_even
    nearest ◌+ℤ◌ ◌*ℤ◌ neg abs
late_read_returns = returned no_read (commit_read auto_approval_limit 11 passed) refl

abbrev pub late : Outcome
late = or_else nothing (commit auto_approval_limit 100 11 passed)

pub late_returns : commit auto_approval_limit 100 11 passed ≡ ok late
unfolding execute Accounts.lock Accounts.get validate settle_transfer new_transaction post
    assert_balanced credit debit snapshot_all maybe_snapshot order_by_seq add_snapshot add_amounts
    initiate reserve commit commit_read commit_write pending_transaction assess
    assert_entries_balanced record_line ensure_funds ensure_can_debit available_balance balance
    balance_amount latest_snapshot lt is_positive money of_amount decimals_for upper round_half_even
    nearest ◌+ℤ◌ ◌*ℤ◌ neg abs
late_returns = returned nothing (commit auto_approval_limit 100 11 passed) refl

late_named : receiver_id_of late_read.0.details ≡ ok 2
unfolding execute Accounts.lock Accounts.get validate settle_transfer new_transaction post
    assert_balanced credit debit snapshot_all maybe_snapshot order_by_seq add_snapshot add_amounts
    initiate reserve commit commit_read commit_write pending_transaction assess
    assert_entries_balanced record_line ensure_funds ensure_can_debit available_balance balance
    balance_amount latest_snapshot lt is_positive money of_amount decimals_for upper round_half_even
    nearest ◌+ℤ◌ ◌*ℤ◌ neg abs
late_named = refl

late_apart : late_read.1.account_id ≢ 2
unfolding execute Accounts.lock Accounts.get validate settle_transfer new_transaction post
    assert_balanced credit debit snapshot_all maybe_snapshot order_by_seq add_snapshot add_amounts
    initiate reserve commit commit_read commit_write pending_transaction assess
    assert_entries_balanced record_line ensure_funds ensure_can_debit available_balance balance
    balance_amount latest_snapshot lt is_positive money of_amount decimals_for upper round_half_even
    nearest ◌+ℤ◌ ◌*ℤ◌ neg abs
late_apart h = omega arith

late_passed : late_read.1.seq ≤ cursor_of (latest_snapshot late_read.1.account_id passed)
unfolding execute Accounts.lock Accounts.get validate settle_transfer new_transaction post
    assert_balanced credit debit snapshot_all maybe_snapshot order_by_seq add_snapshot add_amounts
    initiate reserve commit commit_read commit_write pending_transaction assess
    assert_entries_balanced record_line ensure_funds ensure_can_debit available_balance balance
    balance_amount latest_snapshot lt is_positive money of_amount decimals_for upper round_half_even
    nearest ◌+ℤ◌ ◌*ℤ◌ neg abs
late_passed = omega arith

commit_overstates_example :
    (balance_amount late_read.1.account_id late.2 ≡ balance_amount late_read.1.account_id passed)
    × (full_balance late_read.1.account_id late.2
        ≡ full_balance late_read.1.account_id passed +ℤ late_read.1.amount)
commit_overstates_example =
    commit_overstates auto_approval_limit 100 11 passed late_read.0 late_read.1 2 late.0 late.1
      late.2 passed-IsValid
      (commit_read-IsRead auto_approval_limit 11 passed late_read.0 late_read.1 late_read_returns)
      late_named late_apart late_passed late_returns

-- Two sessions that have read the same state write one after the other.
abbrev winner : Outcome
winner = or_else nothing (commit_write 100 read held)

abbrev loser : Outcome
loser = or_else nothing (commit_write 100 read winner.2)

winner_returns : commit_write 100 read held ≡ ok winner
unfolding execute Accounts.lock Accounts.get validate settle_transfer new_transaction post
    assert_balanced credit debit snapshot_all maybe_snapshot order_by_seq add_snapshot add_amounts
    initiate reserve commit commit_read commit_write pending_transaction assess
    assert_entries_balanced record_line ensure_funds ensure_can_debit available_balance balance
    balance_amount latest_snapshot lt is_positive money of_amount decimals_for upper round_half_even
    nearest ◌+ℤ◌ ◌*ℤ◌ neg abs
winner_returns = returned nothing (commit_write 100 read held) refl

loser_returns : commit_write 100 read winner.2 ≡ ok loser
unfolding execute Accounts.lock Accounts.get validate settle_transfer new_transaction post
    assert_balanced credit debit snapshot_all maybe_snapshot order_by_seq add_snapshot add_amounts
    initiate reserve commit commit_read commit_write pending_transaction assess
    assert_entries_balanced record_line ensure_funds ensure_can_debit available_balance balance
    balance_amount latest_snapshot lt is_positive money of_amount decimals_for upper round_half_even
    nearest ◌+ℤ◌ ◌*ℤ◌ neg abs
loser_returns = returned nothing (commit_write 100 read winner.2) refl

read_named : receiver_id_of read.0.details ≡ ok 2
unfolding execute Accounts.lock Accounts.get validate settle_transfer new_transaction post
    assert_balanced credit debit snapshot_all maybe_snapshot order_by_seq add_snapshot add_amounts
    initiate reserve commit commit_read commit_write pending_transaction assess
    assert_entries_balanced record_line ensure_funds ensure_can_debit available_balance balance
    balance_amount latest_snapshot lt is_positive money of_amount decimals_for upper round_half_even
    nearest ◌+ℤ◌ ◌*ℤ◌ neg abs
read_named = refl

commit_race_example :
    let credit = if 2 == 2 then abs (of_amount read.0.amount read.0.currency).amount else pos 0 in
    full_balance 2 loser.2
    ≡ full_balance 2 held
      +ℤ ((if read.1.account_id == 2 then read.1.amount else pos 0) +ℤ credit)
      +ℤ credit
commit_race_example =
    commit_race auto_approval_limit 100 11 read.0 read.1 2 held winner.0 loser.0 winner.1 loser.1
      winner.2 loser.2 held-IsValid read_returns read_named winner_returns loser_returns 2
