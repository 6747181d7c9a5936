-- ===== src/Tests/HistoryRuns.antt =====
-- Two histories of the small ledger: a transfer in two phases, and the same with a snapshot between.
use wallet_ledger_assesment.Base.{refl, none, arith}
use wallet_ledger_assesment.Base.Int.{neg, abs}
use wallet_ledger_assesment.Base.Text.{upper}
use wallet_ledger_assesment.Domain.Money.{quantum, decimals_for}
use wallet_ledger_assesment.Risk.{auto_approval_limit}
use wallet_ledger_assesment.Fx.{reference_per_eur}
use wallet_ledger_assesment.History.{Step, initiated, committed, here, next}
use wallet_ledger_assesment.History.Books.{IsBooked, add_entries-IsOrdered}
use wallet_ledger_assesment.History.Reaching.{Reach-IsBooked}
use wallet_ledger_assesment.History.Careful.{IsKept, Careful, start, after, Careful-IsKept}
use wallet_ledger_assesment.Tests.Fixtures.{whole, opened, funding, funded, funded-IsValid}
use wallet_ledger_assesment.Tests.ServiceRuns.{offline, unreachable}
use wallet_ledger_assesment.Tests.PhaseRuns.{
  first, held, first_returns, second, second_returns, read, held-IsRead, not_passed,
}

funded-IsBooked : IsBooked funded
unfolding quantum decimals_for upper abs neg
funded-IsBooked = record {
  double_entry = funded-IsValid.double_entry;
  ordered =
      add_entries-IsOrdered funding opened
        (
          (λ n. refl, λ n. record { sign = refl; exact = refl }),
          ((λ n. refl, λ n. record { sign = refl; exact = refl }), tt),
        )
        (record { rows = tt; increasing = tt; proper = tt });
}

initiation : Step offline unreachable reference_per_eur auto_approval_limit 100 funded held
initiation = initiated 1 2 (whole 30) none first.0 first.1 first_returns

settlement : Step offline unreachable reference_per_eur auto_approval_limit 100 held second.2
settlement = committed 11 second.0 second.1 second_returns

Reach-IsBooked_example : IsBooked second.2
Reach-IsBooked_example =
    Reach-IsBooked offline unreachable reference_per_eur auto_approval_limit 100 funded-IsBooked
      (next (next here initiation) settlement)

funded-IsKept : IsKept funded
funded-IsKept = record { valid = funded-IsValid; booked = funded-IsBooked }

-- The two phases, with the reserved debit ahead of every snapshot.
abbrev two_phases :
    Careful offline unreachable reference_per_eur auto_approval_limit 100 funded second.2
two_phases =
    after (after start (initiated 1 2 (whole 30) none first.0 first.1 first_returns) tt)
      (committed 11 second.0 second.1 second_returns)
      (record { txn = read.0; reserved_debit = read.1; read = held-IsRead; ahead = not_passed })

Careful-IsKept_example : IsKept second.2
Careful-IsKept_example =
    Careful-IsKept offline unreachable reference_per_eur auto_approval_limit 100 (omega arith)
      funded-IsKept two_phases
