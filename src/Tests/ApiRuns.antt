-- ===== src/Tests/ApiRuns.antt =====
-- Requests at concrete inputs: a transfer through its endpoint, and its retries.
use wallet_ledger_assesment.Base.{
  ℕ, ◌≡◌, ◌≢◌, refl, String, Option, none, some, List, [], ◌∷◌, ◌+◌, arith, if◌then◌else◌,
}
use wallet_ledger_assesment.Base.Int.{◌+ℤ◌, ◌*ℤ◌, neg, abs}
use wallet_ledger_assesment.Base.Text.{upper, str_eq, eq_iff}
use wallet_ledger_assesment.Domain.Decimals.{round_half_even, nearest}
use wallet_ledger_assesment.Domain.Errors.{Result, ok, err, insufficient_funds}
use wallet_ledger_assesment.Domain.Money.{money, of_amount, decimals_for, is_positive, lt}
use wallet_ledger_assesment.Domain.Aggregates.{ensure_can_debit, assert_balanced, credit, debit}
use wallet_ledger_assesment.Risk.{auto_approval_limit}
use wallet_ledger_assesment.Ledger.{
  available_balance, balance, balance_amount, latest_snapshot, post, snapshot_all, maybe_snapshot,
  order_by_seq, add_snapshot, add_amounts,
}
use wallet_ledger_assesment.Accounts
use wallet_ledger_assesment.Transfers.{
  validate, ensure_funds, settle_transfer, new_transaction, execute,
}
use wallet_ledger_assesment.Balances.{Client}
use wallet_ledger_assesment.Fx.{reference_per_eur}
use wallet_ledger_assesment.Idempotency.{Response, conflict, idempotent}
use wallet_ledger_assesment.Idempotency.Persistence.{Request, serve_all, idempotent_forever}
use wallet_ledger_assesment.Wire.{Json, Fields}
use wallet_ledger_assesment.Wire.Numerals.{decimal_of_text}
use wallet_ledger_assesment.Api.Schemas.{load_transfer}
use wallet_ledger_assesment.Api.Wiring.{World}
use wallet_ledger_assesment.Api.Views.{Setup, resolve_pair, account_by_text, execute_transfer}
use wallet_ledger_assesment.Api.Transferring.{Posted, execute_transfer-Posted}
use wallet_ledger_assesment.Tests.Fixtures.{dollars, funded, funded-IsValid, or_else, returned}
use wallet_ledger_assesment.Tests.TransferRuns.{cached_amount}
use wallet_ledger_assesment.Tests.Marshmallow.{documented}
use wallet_ledger_assesment.Tests.ServiceRuns.{offline, unreachable}

abbrev pub started_app : Setup
started_app = record {
  marshmallow = documented;
  config = offline;
  remote = unreachable;
  rates = reference_per_eur;
  limit = auto_approval_limit;
  threshold = 100;
  id_text = λ i. "id";
}

abbrev transfer_body : Option Json
transfer_body = some (
    Json.object (
      Fields.field "sender_account_number" (Json.text "2000000001") (
        Fields.field "receiver_account_number" (Json.text "2000000002")
          (Fields.field "amount" (Json.text "30.00") Fields.end))))

abbrev before : World
before = record { db = funded; client = Client.serving ((1, dollars 50) ∷ []) }

abbrev posted : Response × World
posted = or_else (conflict, before) (execute_transfer started_app transfer_body none before)

posted_returns : execute_transfer started_app transfer_body none before ≡ ok posted
unfolding execute_transfer load_transfer decimal_of_text resolve_pair account_by_text
    Accounts.get_by_number execute Accounts.lock Accounts.get validate settle_transfer
    new_transaction post assert_balanced credit debit snapshot_all maybe_snapshot order_by_seq
    add_snapshot add_amounts ensure_funds ensure_can_debit available_balance balance balance_amount
    latest_snapshot lt is_positive money of_amount decimals_for upper round_half_even nearest ◌+ℤ◌
    ◌*ℤ◌ neg abs
posted_returns =
    returned (conflict, before) (execute_transfer started_app transfer_body none before) refl

execute_transfer-Posted_example : Posted started_app transfer_body funded posted.0 posted.1
execute_transfer-Posted_example =
    execute_transfer-Posted started_app funded ((1, dollars 50) ∷ []) transfer_body none posted.0
      posted.1 (omega arith) funded-IsValid cached_amount posted_returns

abbrev digest : String → String
digest body = body

abbrev count_up : ℕ → Result (Response × ℕ)
count_up n = ok (record { status = 201; body = Json.text "done" }, n + 1)

abbrev give_up : ℕ → Result (Response × ℕ)
give_up n = err insufficient_funds

k_set : ◌≢◌ {A = String} "k" ""
k_set h = let t = (eq_iff "k" "").1 h in cc

-- Others come between: one with another key, one with none, one that raises.
abbrev others : List (Request ℕ)
others =
    record { key = some "j"; body = "b"; view = count_up }
    ∷ record { key = none; body = "b"; view = count_up }
    ∷ record { key = some "k"; body = "b"; view = give_up }
    ∷ []

idempotent_forever_example :
    let (_, keys1, s1) = idempotent digest (some "k") "b" count_up [] 4 in
    let (keys2, s2) = serve_all digest others keys1 s1 in
    idempotent digest (some "k") "b" count_up keys2 s2 ≡ (
      ok (if str_eq "b" "b" then record { status = 201; body = Json.text "done" } else conflict),
      keys2,
      s2,
    )
idempotent_forever_example =
    idempotent_forever digest "k" "b" count_up [] 4 5
      (record { status = 201; body = Json.text "done" }) k_set refl refl others "b" count_up
