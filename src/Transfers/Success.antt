-- ===== src/Transfers/Success.antt =====
-- A direct transfer goes through whenever its request is good, and is refused where funds are short.
use wallet_ledger_assesment.Base.{ℕ, ◌<◌, ◌≡◌, sym, ◌∙◌, String, Option, some, [], ◌∷◌, map, arith}
use wallet_ledger_assesment.Base.Int.{pos, ◌≤ℤ◌, ◌<ℤ◌}
use wallet_ledger_assesment.Base.Text.{eq_iff}
use wallet_ledger_assesment.Domain.Enums.{TransactionType, TransactionStatus}
use wallet_ledger_assesment.Domain.Errors.{ok, err, insufficient_funds}
use wallet_ledger_assesment.Domain.Decimals.{Decimal}
use wallet_ledger_assesment.Domain.Money.{Money, money, is_positive, lt}
use wallet_ledger_assesment.Domain.Aggregates.{
  TransactionAggregate, new_aggregate, ensure_can_debit,
}
use wallet_ledger_assesment.Domain.Aggregates.Balance.{
  line_total, assert_balanced_iff, debit-credit-line_total,
}
use wallet_ledger_assesment.Domain.Events.{transfer_completed}
use wallet_ledger_assesment.Store.{Db, get_account, add_entries}
use wallet_ledger_assesment.Store.Models.{Account}
use wallet_ledger_assesment.Ledger.{entry_of_line, post, available_balance}
use wallet_ledger_assesment.Ledger.Keeping.{snapshot_all-keeps}
use wallet_ledger_assesment.Ledger.Invariant.{IsValid, SameLedger-IsValid, post-IsValid}
use wallet_ledger_assesment.Accounts
use wallet_ledger_assesment.Transfers.{
  Outcome, validate, ensure_funds, or_fresh, new_transaction, transfer_lines, transfer_event,
  settle_transfer, execute, initiate,
}
use wallet_ledger_assesment.Transfers.Effects.{
  available_balance-currency, money-currency, new_transaction-SameLedger, transfer_lines-IsSettled,
}

validate-ok :
    (sender receiver : Account) (amount : Decimal)
    → sender.currency ≡ receiver.currency
    → pos 0 <ℤ (money amount sender.currency).amount
    → validate sender receiver amount ≡ ok (money amount sender.currency)
unfolding validate is_positive
validate-ok sender receiver amount same positive =
    ground (arith, eq_iff sender.currency receiver.currency)

ensure_funds-ok :
    (sender : Account) (m : Money) (db : Db)
    → (available_balance sender db).currency ≡ m.currency
    → m.amount ≤ℤ (available_balance sender db).amount
    → ensure_funds sender m db ≡ ok tt
unfolding ensure_funds ensure_can_debit lt
ensure_funds-ok sender m db same covered =
    ground (arith, eq_iff (available_balance sender db).currency m.currency)

post-succeeds :
    (t : TransactionAggregate) (id : ℕ) (db : Db)
    → ((c : String) → line_total c t.lines ≡ pos 0)
    → (db' : Db) × (post t id db ≡ ok db')
unfolding post
post-succeeds t id db zero_sums =
    let checked = (assert_balanced_iff t).1 zero_sums in
    (add_entries (map (entry_of_line id) t.lines) db, rw checked)

settle_transfer-ok :
    (threshold : ℕ) (sender receiver : Account) (m : Money) (c : Option ℕ) (db : Db)
    → 0 < threshold
    → IsValid db
    → (o : Outcome) × (settle_transfer threshold sender receiver m c db ≡ ok o)
unfolding settle_transfer
settle_transfer-ok threshold sender receiver m c db positive v =
    let (correlation, db1) = or_fresh c db in
    let (new, db2) =
      new_transaction TransactionType.transfer TransactionStatus.success m sender receiver
        correlation db1 in
    let lines = transfer_lines sender.id receiver.id m in
    let (db3, posted) =
      post-succeeds lines new.id db2
        (λ c. debit-credit-line_total c sender.id receiver.id m (new_aggregate m.currency)) in
    let v3 =
      post-IsValid lines new.id db2 db3 (transfer_lines-IsSettled sender.id receiver.id m) posted (
        SameLedger-IsValid
          (new_transaction-SameLedger TransactionType.transfer TransactionStatus.success m sender
            receiver c db)
          v) in
    let (db4, cut, _, _) =
      snapshot_all-keeps threshold (sender ∷ receiver ∷ []) db3 positive v3.snapshots in
    ((new, transfer_event transfer_completed new m sender receiver, db4), rw (posted, cut))

-- With a valid ledger and a positive snapshot threshold, a direct transfer of a positive amount
-- between two accounts of one currency returns if the sender's available balance covers it.
pub execute_succeeds :
    (threshold sender_id receiver_id : ℕ) (amount : Decimal) (c : Option ℕ) (db : Db)
    (sender receiver : Account)
    → 0 < threshold
    → IsValid db
    → get_account sender_id db ≡ some sender
    → get_account receiver_id db ≡ some receiver
    → sender.currency ≡ receiver.currency
    → pos 0 <ℤ (money amount sender.currency).amount
    → (money amount sender.currency).amount ≤ℤ (available_balance sender db).amount
    → (o : Outcome) × (execute threshold sender_id receiver_id amount c db ≡ ok o)
unfolding execute
execute_succeeds threshold sender_id receiver_id amount c db sender receiver positive v found found'
      same more covered =
    let m = money amount sender.currency in
    let locked : Accounts.lock sender_id db ≡ ok sender = unfold Accounts.lock in (rw found) in
    let got : Accounts.get receiver_id db ≡ ok receiver = unfold Accounts.get in (rw found') in
    let valid = validate-ok sender receiver amount same more in
    let funds =
      ensure_funds-ok sender m db
        (available_balance-currency sender db ∙ sym (money-currency amount sender.currency))
        covered in
    let (o, done) = settle_transfer-ok threshold sender receiver m c db positive v in
    (o, rw (locked, got, valid, funds) done)

ensure_funds-short :
    (sender : Account) (m : Money) (db : Db)
    → (available_balance sender db).currency ≡ m.currency
    → (available_balance sender db).amount <ℤ m.amount
    → ensure_funds sender m db ≡ err insufficient_funds
unfolding ensure_funds ensure_can_debit lt
ensure_funds-short sender m db same short =
    ground (arith, eq_iff (available_balance sender db).currency m.currency)

-- A direct transfer and a reservation of a positive amount between two accounts of one currency are
-- both refused for insufficient funds if the sender's available balance is below the amount.
pub execute_insufficient :
    (threshold sender_id receiver_id : ℕ) (amount : Decimal) (c : Option ℕ) (db : Db)
    (sender receiver : Account)
    → get_account sender_id db ≡ some sender
    → get_account receiver_id db ≡ some receiver
    → sender.currency ≡ receiver.currency
    → pos 0 <ℤ (money amount sender.currency).amount
    → (available_balance sender db).amount <ℤ (money amount sender.currency).amount
    → (execute threshold sender_id receiver_id amount c db ≡ err insufficient_funds)
      × (initiate sender_id receiver_id amount c db ≡ err insufficient_funds)
unfolding execute initiate
execute_insufficient threshold sender_id receiver_id amount c db sender receiver found found' same
      more short =
    let m = money amount sender.currency in
    let locked : Accounts.lock sender_id db ≡ ok sender = unfold Accounts.lock in (rw found) in
    let got : Accounts.get receiver_id db ≡ ok receiver = unfold Accounts.get in (rw found') in
    let valid = validate-ok sender receiver amount same more in
    let refused =
      ensure_funds-short sender m db
        (available_balance-currency sender db ∙ sym (money-currency amount sender.currency))
        short in
    (rw (locked, got, valid, refused), rw (locked, got, valid, refused))
