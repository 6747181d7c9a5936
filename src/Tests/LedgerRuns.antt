-- ===== src/Tests/LedgerRuns.antt =====
-- The ledger, the value objects and the layers around the services at concrete inputs.
use wallet_ledger_assesment.Base.{
  ℕ, ◌+◌, ◌*◌, ◌%◌, ◌<◌, ◌≤◌, ◌≡◌, ◌≢◌, ◌↔◌, ◌⊎◌, refl, true, String, none, some, List, [], ◌∷◌,
  ◌++◌, map, arith, if◌then◌else◌,
}
use wallet_ledger_assesment.Base.Int.{pos}
use wallet_ledger_assesment.Base.Text.{str_eq, eq_iff}
use wallet_ledger_assesment.Domain.Errors.{
  Result, ok, err, ledger_not_balanced, insufficient_funds, key_error,
}
use wallet_ledger_assesment.Domain.Decimals.{round_half_even}
use wallet_ledger_assesment.Domain.Money.{Money, money, of_amount}
use wallet_ledger_assesment.Domain.Money.Laws.{
  IsNormal, round_half_even_nearest, of_amount_round_trip,
}
use wallet_ledger_assesment.Domain.Aggregates.{TransactionAggregate, assert_balanced}
use wallet_ledger_assesment.Domain.Aggregates.Balance.{line_total, assert_balanced_iff}
use wallet_ledger_assesment.Domain.Events.{
  DomainEvent, Handler, EventBus, publish, subscribe, log_failure, transfer_completed,
}
use wallet_ledger_assesment.Domain.Events.Isolation.{publish-subscribe}
use wallet_ledger_assesment.Store.{Db}
use wallet_ledger_assesment.Store.Sums.{sum_where}
use wallet_ledger_assesment.Ledger.{entry_of_line, post, maybe_snapshot, balance, balance_amount}
use wallet_ledger_assesment.Ledger.Snapshots.{AllSound}
use wallet_ledger_assesment.Ledger.Keeping.{SameRows, maybe_snapshot-keeps}
use wallet_ledger_assesment.Ledger.Numbering.{numbered}
use wallet_ledger_assesment.Ledger.Posting.{in_currency, post-conserves}
use wallet_ledger_assesment.Transfers.{transfer_lines}
use wallet_ledger_assesment.Payments.{PaymentProvider}
use wallet_ledger_assesment.Payments.Signature.{Codes, verify_webhook}
use wallet_ledger_assesment.Payments.Authenticity.{IsAuthentic, verify_webhook-IsAuthentic}
use wallet_ledger_assesment.Wire.{Json}
use wallet_ledger_assesment.Idempotency.{Response, Keys, conflict, claim, idempotent}
use wallet_ledger_assesment.Idempotency.Replay.{idempotent_raise, idempotent_in_progress}
use wallet_ledger_assesment.Balances.{Client, query_balance}
use wallet_ledger_assesment.Balances.Coherence.{IsCoherent, query_balance-balance}
use wallet_ledger_assesment.Notifications.{
  NotificationChannel, email_channel, sms_channel, notification, recipient_for, notify,
  on_transfer_failed,
}
use wallet_ledger_assesment.Notifications.Delivery.{notify-appends, fail_unnotified}
use wallet_ledger_assesment.Tests.Fixtures.{alice, dollars, funded, funded-IsValid}
use wallet_ledger_assesment.Tests.PhaseRuns.{held, cancelled, cancelled_returns}

abbrev ten : Money
ten = record { amount = dollars 10; currency = "USD" }

abbrev lines : TransactionAggregate
lines = transfer_lines 1 2 ten

post-conserves_example :
    ((post lines 11 funded ≡ err ledger_not_balanced)
      × ¬ ((c : String) → line_total c lines.lines ≡ pos 0))
    ⊎ ((db' : Db) × (post lines 11 funded ≡ ok db')
        × (db'.entries ≡ funded.entries ++ numbered (map (entry_of_line 11) lines.lines) 3)
        × ((c : String)
            → sum_where (in_currency c) db'.entries ≡ sum_where (in_currency c) funded.entries))
post-conserves_example = post-conserves lines 11 funded

assert_balanced_iff_example :
    (assert_balanced lines ≡ ok tt) ↔ ((c : String) → line_total c lines.lines ≡ pos 0)
assert_balanced_iff_example = assert_balanced_iff lines

maybe_snapshot-keeps_example :
    (db' : Db) × (maybe_snapshot 1 alice funded ≡ ok db')
    × AllSound db'
    × SameRows funded db'
    × ((a : ℕ) → balance_amount a db' ≡ balance_amount a funded)
maybe_snapshot-keeps_example =
    maybe_snapshot-keeps 1 alice funded (omega arith) funded-IsValid.snapshots

-- 2.5 goes to the even 2.
round_half_even_nearest_example :
    let n = round_half_even 25 10 in
    (2 * (n * 10) ≤ 2 * 25 + 10)
    × (2 * 25 ≤ 2 * (n * 10) + 10)
    × (((2 * (n * 10) < 2 * 25 + 10) × (2 * 25 < 2 * (n * 10) + 10)) ⊎ (n % 2 ≡ 0))
round_half_even_nearest_example = round_half_even_nearest 25 10 (omega arith)

of_amount_round_trip_example :
    let m = money (record { coefficient = pos 12_345; scale = 3 }) "usd" in
    IsNormal m × (of_amount m.amount m.currency ≡ m)
of_amount_round_trip_example =
    of_amount_round_trip (record { coefficient = pos 12_345; scale = 3 }) "usd"

-- A handler that counts, and one that raises.
abbrev counting : Handler ℕ
counting e s = (ok tt, s + 1)

abbrev raising : Handler ℕ
raising e s = (err key_error, s)

abbrev happened : DomainEvent
happened = record { event_type = transfer_completed; payload = []; correlation_id = none }

abbrev one_handler : EventBus ℕ
one_handler = (transfer_completed, raising ∷ []) ∷ []

publish-subscribe_example :
    publish happened (subscribe transfer_completed counting one_handler) 5 ≡ (
      if str_eq transfer_completed happened.event_type
      then (let (s', n) = publish happened one_handler 5 in
          let (r, s'') = counting happened s' in (s'', log_failure r n))
      else publish happened one_handler 5)
publish-subscribe_example = publish-subscribe transfer_completed counting one_handler happened 5

-- A digest that shows the secret's place is enough to run on.
abbrev plain_hmac : String → Codes → Codes
plain_hmac secret body = 7 ∷ body

signed :
    verify_webhook plain_hmac (PaymentProvider.paypal "" "" "" "s") (1 ∷ []) (7 ∷ 1 ∷ []) ≡ ok true
unfolding verify_webhook
signed = refl

verify_webhook-IsAuthentic_example :
    IsAuthentic plain_hmac (PaymentProvider.paypal "" "" "" "s") (1 ∷ []) (7 ∷ 1 ∷ [])
verify_webhook-IsAuthentic_example =
    verify_webhook-IsAuthentic plain_hmac (PaymentProvider.paypal "" "" "" "s") (1 ∷ [])
      (7 ∷ 1 ∷ []) signed

abbrev same_text : String → String
same_text body = body

abbrev created : Response
created = record { status = 201; body = Json.text "done" }

abbrev increment : ℕ → Result (Response × ℕ)
increment n = ok (created, n + 1)

abbrev refuse : ℕ → Result (Response × ℕ)
refuse n = err insufficient_funds

not_empty : ◌≢◌ {A = String} "k" ""
not_empty h = let t = (eq_iff "k" "").1 h in cc

idempotent_raise_example :
    idempotent same_text (some "k") "b" refuse [] 4 ≡ (err insufficient_funds, [], 4)
idempotent_raise_example =
    idempotent_raise same_text "k" "b" refuse [] 4 insufficient_funds not_empty refl refl

abbrev one_claim : Keys
one_claim = record { key = "k"; request_hash = "b"; response = none } ∷ []

claim_made : claim "k" "b" [] ≡ some one_claim
unfolding claim
claim_made = refl

idempotent_in_progress_example :
    idempotent same_text (some "k") "b" increment one_claim 4 ≡ (ok conflict, one_claim, 4)
idempotent_in_progress_example =
    idempotent_in_progress same_text "k" "b" "b" increment [] one_claim 4 not_empty claim_made

query_balance-balance_example :
    ((query_balance alice funded (Client.serving [])).0 ≡ balance alice funded)
    × IsCoherent funded (query_balance alice funded (Client.serving [])).1
query_balance-balance_example = query_balance-balance alice funded refl (Client.serving []) tt

abbrev no_text : ℕ → String
no_text i = "?"

abbrev both_channels : List NotificationChannel
both_channels = email_channel ∷ sms_channel ∷ []

notify-appends_example : notify no_text both_channels 1 happened funded ≡ record funded {
  notifications =
      [] ++ map (λ c. notification c (recipient_for no_text 1 funded) happened) both_channels;
}
notify-appends_example = notify-appends no_text both_channels 1 happened funded

fail_unnotified_example :
    on_transfer_failed no_text both_channels cancelled.1 cancelled.2 ≡ (ok tt, cancelled.2)
fail_unnotified_example =
    fail_unnotified no_text both_channels 11 held cancelled.0 cancelled.1 cancelled.2
      cancelled_returns
