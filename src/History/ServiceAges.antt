-- ===== src/History/ServiceAges.antt =====
-- What deposits and exchanges do to the table of transactions.
use wallet_ledger_assesment.Base.{
  ℕ, ◌<◌, ◌≡◌, refl, ap, ◌∙◌, inl, true, false, String, Option, some, List, [], ◌∷◌, ◌++◌, arith,
  ◌==◌, ==_iff, subst, if◌then◌else◌,
}
use wallet_ledger_assesment.Base.Lists.{find, All}
use wallet_ledger_assesment.Base.Text.{str_eq}
use wallet_ledger_assesment.Domain.Decimals.{Decimal}
use wallet_ledger_assesment.Domain.Enums.{TransactionStatus}
use wallet_ledger_assesment.Domain.Errors.{
  ok, guard, >>=-eq-ok, ok-injective, invalid_amount, same_currency, deposit_amount_mismatch,
}
use wallet_ledger_assesment.Domain.Money.{Money, money, of_amount, eq, is_positive}
use wallet_ledger_assesment.Store.{Db, get_transaction, set_transaction_status, update_first}
use wallet_ledger_assesment.Store.Models.{Account, Transaction, Reference}
use wallet_ledger_assesment.Ledger.{post, snapshot_all}
use wallet_ledger_assesment.Ledger.Posting.{post-transactions}
use wallet_ledger_assesment.Accounts
use wallet_ledger_assesment.Accounts.{violates, new_account}
use wallet_ledger_assesment.Accounts.Lookup.{get_or_create_internal-Opened}
use wallet_ledger_assesment.Transfers.{Outcome, or_fresh, ensure_funds}
use wallet_ledger_assesment.Payments.{Config, Remote, Context, get_payment_provider, create_deposit}
use wallet_ledger_assesment.Deposits
use wallet_ledger_assesment.Deposits.{
  new_deposit, has_reference, pending_deposit, settle, credit_deposit, currency_confirms,
  confirmed_money, account_id_of, deposit_lines, clearing_owner,
}
use wallet_ledger_assesment.Deposits.Crediting.{pending_deposit-found}
use wallet_ledger_assesment.Fx.{
  Rates, convert, pool_owner, new_exchange, exchange_lines, exchange, execute_fx_transfer,
}
use wallet_ledger_assesment.History.Ages.{
  Ages, added, marked, older, ids, IsNumbered, Ages-IsNumbered, find-id,
}
use wallet_ledger_assesment.History.Aging.{post-Ages, snapshot_all-Ages, Opened-Ages, or_fresh-Ages}

-- An assignment to the row that was added last.
update_first-last :
    (f : Transaction → Transaction) (ts : List Transaction) (n : ℕ) (t : Transaction)
    → All (λ m. m < n) (ids ts)
    → t.id ≡ n
    → update_first (λ x. x.id == n) f (ts ++ (t ∷ [])) ≡ ts ++ (f t ∷ [])
update_first-last f [] n t h e =
    let chosen : (t.id == n) ≡ true = (==_iff _ _).1 e in rw chosen refl
update_first-last f (x ∷ xs) n t h e =
    let before : x.id < n = h.0 in
    let other : (x.id == n) ≡ false = ground arith in
    rw other (ap (λ (l : List Transaction). x ∷ l) (update_first-last f xs n t h.1 e))

pub deposit_initiate-Ages :
    (config : Config) (remote : Remote) (account_id : ℕ) (amount : Decimal) (provider_name : String)
    (context : Context) (c : Option ℕ) (db : Db) (r : Transaction × Db)
    → IsNumbered db
    → Deposits.initiate config remote account_id amount provider_name context c db ≡ ok r
    → Ages db r.1
unfolding Deposits.initiate new_deposit
deposit_initiate-Ages config remote account_id amount provider_name context c db r n e =
    let (account, e1, r1) = >>=-eq-ok (Accounts.get account_id db) _ e in
    let m = money amount account.currency in
    let (u2, e2, r2) = >>=-eq-ok (guard (is_positive m) invalid_amount) _ r1 in
    let (correlation, db1) = or_fresh c db in
    let (txn, db2) = new_deposit account m provider_name context correlation db1 in
    let (provider, e3, r3) = >>=-eq-ok (get_payment_provider config provider_name) _ r2 in
    let (reference, e4, r4) =
      >>=-eq-ok (create_deposit remote provider m.amount m.currency txn.id context) _ r3 in
    let numbered = Ages-IsNumbered (or_fresh-Ages c db) n in
    subst (λ (x : Transaction × Db). Ages db x.1) (ok-injective r4)
      (older (or_fresh-Ages c db) (
        added (record txn { reference = some reference })
          (update_first-last (λ t. record t { reference = some reference }) db1.transactions txn.id
            txn numbered.drawn refl)
          (omega arith) (omega arith)))

credit_deposit-Ages :
    (threshold drawn : ℕ) (t : Transaction) (db : Db) (o : Outcome)
    → get_transaction t.id db ≡ some t
    → t.status ≡ TransactionStatus.pending
    → credit_deposit threshold drawn t db ≡ ok o
    → Ages db o.2
unfolding credit_deposit
credit_deposit-Ages threshold drawn t db o there waiting e =
    let m = of_amount t.amount t.currency in
    let (account_id, named, r3) = >>=-eq-ok (account_id_of t.details) _ e in
    let (account, locked, r4) = >>=-eq-ok (Accounts.lock account_id db) _ r3 in
    let (opened, opening, r5) =
      >>=-eq-ok (Accounts.get_or_create_internal clearing_owner account.currency drawn db) _ r4 in
    let lines = deposit_lines opened.0.id account.id m in
    let (db2, posted, r6) = >>=-eq-ok (post lines t.id opened.1) _ r5 in
    let db3 = set_transaction_status t.id TransactionStatus.success db2 in
    let (db4, cut, r7) = >>=-eq-ok (snapshot_all threshold (account ∷ opened.0 ∷ []) db3) _ r6 in
    let opens =
      get_or_create_internal-Opened clearing_owner account.currency drawn db opened opening in
    let there2 : get_transaction t.id db2 ≡ some t =
      ap (find (λ x. x.id == t.id))
        (post-transactions lines t.id opened.1 db2 posted ∙ opens.transactions)
      ∙ there in
    subst (λ (x : Outcome). Ages db x.2) (ok-injective r7)
      (older (Opened-Ages db opened.1 opens) (
        older (post-Ages lines t.id opened.1 db2 posted) (
          older
            (marked {db = db2} {db' = db3} t.id t TransactionStatus.success there2
              (inl (waiting, λ h. cc)) refl (omega arith))
            (snapshot_all-Ages threshold (account ∷ opened.0 ∷ []) db3 db4 cut))))

pub settle-Ages :
    (threshold drawn : ℕ) (reference : Reference) (amount : Option Decimal)
    (currency : Option String) (db : Db) (o : Outcome)
    → IsNumbered db
    → settle threshold drawn reference amount currency db ≡ ok o
    → Ages db o.2
unfolding settle
settle-Ages threshold drawn reference amount currency db o n e =
    let (t, e0, r0) = >>=-eq-ok (pending_deposit reference db) _ e in
    let (u1, e1, r1) =
      >>=-eq-ok (guard (currency_confirms currency t.currency) deposit_amount_mismatch) _ r0 in
    let (u2, e2, r2) =
      >>=-eq-ok
        (guard (eq (confirmed_money amount t) (of_amount t.amount t.currency))
          deposit_amount_mismatch)
        _ r1 in
    let (found, waiting) = pending_deposit-found reference db t e0 in
    credit_deposit-Ages threshold drawn t db o
      (find-id (has_reference reference) db.transactions t n.increasing found) waiting r2

exchange-Ages :
    (threshold drawn_from drawn_to : ℕ) (sender receiver : Account) (sent received : Money)
    (c : Option ℕ) (db : Db) (o : Outcome)
    → exchange threshold drawn_from drawn_to sender receiver sent received c db ≡ ok o
    → Ages db o.2
unfolding exchange new_exchange
exchange-Ages threshold drawn_from drawn_to sender receiver sent received c db o e =
    let (from, e1, r1) =
      >>=-eq-ok (Accounts.get_or_create_internal pool_owner sender.currency drawn_from db) _ e in
    let (to, e2, r2) =
      >>=-eq-ok (Accounts.get_or_create_internal pool_owner receiver.currency drawn_to from.1) _
        r1 in
    let (correlation, db1) = or_fresh c to.1 in
    let (new, db2) = new_exchange sent received sender receiver correlation db1 in
    let lines = exchange_lines sender.id from.0.id to.0.id receiver.id sent received in
    let (db3, e3, r3) = >>=-eq-ok (post lines new.id db2) _ r2 in
    let accounts = sender ∷ receiver ∷ from.0 ∷ to.0 ∷ [] in
    let (db4, e4, r4) = >>=-eq-ok (snapshot_all threshold accounts db3) _ r3 in
    let o1 = get_or_create_internal-Opened pool_owner sender.currency drawn_from db from e1 in
    let o2 = get_or_create_internal-Opened pool_owner receiver.currency drawn_to from.1 to e2 in
    subst (λ (x : Outcome). Ages db x.2) (ok-injective r4)
      (older (older (Opened-Ages db from.1 o1) (Opened-Ages from.1 to.1 o2)) (
        older (older (or_fresh-Ages c to.1) (added new refl (omega arith) (omega arith))) (
          older (post-Ages lines new.id db2 db3 e3)
            (snapshot_all-Ages threshold accounts db3 db4 e4))))

pub execute_fx_transfer-Ages :
    (rates : Rates) (threshold drawn_from drawn_to sender_id receiver_id : ℕ) (amount : Decimal)
    (c : Option ℕ) (db : Db) (o : Outcome)
    → execute_fx_transfer rates threshold drawn_from drawn_to sender_id receiver_id amount c db
      ≡ ok o
    → Ages db o.2
unfolding execute_fx_transfer
execute_fx_transfer-Ages rates threshold drawn_from drawn_to sender_id receiver_id amount c db o e =
    let (sender, e1, r1) = >>=-eq-ok (Accounts.lock sender_id db) _ e in
    let (receiver, e2, r2) = >>=-eq-ok (Accounts.get receiver_id db) _ r1 in
    let (u3, e3, r3) =
      >>=-eq-ok
        (guard (if str_eq sender.currency receiver.currency then false else true) same_currency) _
        r2 in
    let sent = money amount sender.currency in
    let (u4, e4, r4) = >>=-eq-ok (guard (is_positive sent) invalid_amount) _ r3 in
    let (u5, e5, r5) = >>=-eq-ok (ensure_funds sender sent db) _ r4 in
    let (received, e6, r6) = >>=-eq-ok (convert rates sent receiver.currency) _ r5 in
    exchange-Ages threshold drawn_from drawn_to sender receiver sent received c db o r6
