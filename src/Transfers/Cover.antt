-- ===== src/Transfers/Cover.antt =====
-- What a transfer checks before it spends: the amount is covered by the ledger itself.
use mathlib.Core.Option.{some-injective}
use wallet_ledger_assesment.Base.{ℕ, ◌≡◌, sym, ap, ◌∙◌, some, subst}
use wallet_ledger_assesment.Base.Int.{ℤ, ◌≤ℤ◌}
use wallet_ledger_assesment.Domain.Decimals.{Decimal}
use wallet_ledger_assesment.Store.{Db, get_account}
use wallet_ledger_assesment.Store.Models.{Account}
use wallet_ledger_assesment.Ledger.{available_balance}
use wallet_ledger_assesment.Ledger.Exact.{IsExact, balance_exact}
use wallet_ledger_assesment.Ledger.Invariant.{IsValid, available}
use wallet_ledger_assesment.Transfers.Effects.{Request}

-- The funds check, read on the ledger itself.
pub covered-available :
    (sender_id receiver_id : ℕ) (amount : Decimal) (db : Db) (sender : Account)
    (r : Request sender_id receiver_id amount db)
    → get_account sender_id db ≡ some sender
    → IsExact sender db
    → IsValid db
    → (r.sender.id ≡ sender.id) × (r.m.amount ≤ℤ available sender.id db)
covered-available sender_id receiver_id amount db sender r found exact v =
    let same : r.sender ≡ sender = some-injective _ _ (sym r.sender_found ∙ found) in
    (
      ap (λ (a : Account). a.id) same,
      subst (λ (x : ℤ). r.m.amount ≤ℤ x) (balance_exact sender db v.snapshots exact).1
          (subst (λ (a : Account). r.m.amount ≤ℤ (available_balance a db).amount) same r.covered),
    )
