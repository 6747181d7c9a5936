-- ===== src/Risk.antt =====
-- The internal risk check (wallet_ledger/application/risk.py): silence is approval.
use wallet_ledger_assesment.Base.{◌*◌, ◌^◌, if◌then◌else◌}
use wallet_ledger_assesment.Base.Int.{ℤ, pos, ltb_ℤ}
use wallet_ledger_assesment.Domain.Errors.{Result, ok, err, risk_rejected}
use wallet_ledger_assesment.Domain.Money.{Money}

-- `Decimal("1000000")`, in units of 10 ^ -8.
abbrev pub auto_approval_limit : ℤ
auto_approval_limit = pos (1_000_000 * 10 ^ 8)

unfoldable pub assess : ℤ → Money → Result (Unit {0})
assess limit m = if ltb_ℤ limit m.amount then err risk_rejected else ok tt
