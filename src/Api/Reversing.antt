-- ===== src/Api/Reversing.antt =====
-- A reversal through its view publishes no event, so a balance that the cache holds goes stale
-- (wallet_ledger/api/transactions.py, wallet_ledger/application/reversals.py).
use wallet_ledger_assesment.Base.{
  ℕ, ◌≡◌, ◌≢◌, true, ◌==◌, sym, ap, ◌∙◌, subst, String, Option, some, ◌∷◌,
}
use wallet_ledger_assesment.Base.Int.{ℤ, pos, neg, ◌+ℤ◌, magnitude, int_laws, cross}
use wallet_ledger_assesment.Base.Lists.{All, find}
use wallet_ledger_assesment.Domain.Errors.{ok, >>=-eq-ok, ok-injective}
use wallet_ledger_assesment.Domain.Money.{quantum}
use wallet_ledger_assesment.Domain.Money.Laws.{IsMultiple, IsMultiple-+ℤ, of_amount-amount}
use wallet_ledger_assesment.Store.{Db, get_account}
use wallet_ledger_assesment.Store.Models.{Account}
use wallet_ledger_assesment.Store.Sums.{sum_where}
use wallet_ledger_assesment.Ledger.{balance}
use wallet_ledger_assesment.Ledger.Snapshots.{full_balance, balance-eq-full}
use wallet_ledger_assesment.Ledger.Invariant.{IsValid}
use wallet_ledger_assesment.Ledger.Exact.{IsExact, sum-IsMultiple, full-IsMultiple, balance_exact}
use wallet_ledger_assesment.Reversals
use wallet_ledger_assesment.Reversals.{is_original}
use wallet_ledger_assesment.Reversals.Mirroring.{IsProper, of_account}
use wallet_ledger_assesment.Reversals.Reversing.{originals, reverse-Reversed}
use wallet_ledger_assesment.History.Careful.{All-filter}
use wallet_ledger_assesment.Balances.{Table, Client}
use wallet_ledger_assesment.Balances.Coherence.{IsCoherent, Agrees-found}
use wallet_ledger_assesment.Idempotency.{Response}
use wallet_ledger_assesment.Api.Wiring.{World}
use wallet_ledger_assesment.Api.Views.{Setup, reverse_transaction}

neg-IsMultiple : (c : String) (x : ℤ) → IsMultiple (quantum c) x → IsMultiple (quantum c) (neg x)
neg-IsMultiple c x h = let same : magnitude (neg x) ≡ magnitude x = omega int_laws in rw same h

module _ (db : Db) (account : Account) (id : ℕ) where
  -- What the rows of the transaction have brought the account.
  abbrev pub brought : ℤ
  brought = sum_where (of_account account.id) (originals id db)

  brought-IsMultiple : IsExact account db → IsMultiple (quantum account.currency) brought
  brought-IsMultiple exact =
      sum-IsMultiple account.currency (of_account account.id) (originals id db) (
        All-filter
          (λ e. of_account account.id e ≡ true → IsMultiple (quantum account.currency) e.amount)
          (is_original id) db.entries exact)

  -- On a valid ledger, let the settled rows of a transaction be signed as debits and credits and
  -- rounded, let the rows of an account be multiples of the smallest amount of its currency, and let
  -- the sum of the transaction's rows on it not be zero. Then a reversal through its view leaves a
  -- cache that holds the account's balance out of agreement with the ledger.
  pub reverse_transaction_stale :
      (setup : Setup) (c : Option ℕ) (t : Table) (x : ℤ) (r : Response) (w : World)
      → IsValid db
      → All IsProper (originals id db)
      → get_account account.id db ≡ some account
      → IsExact account db
      → brought ≢ pos 0
      → IsCoherent db (Client.serving ((account.id, x) ∷ t))
      → reverse_transaction setup id c
          (record { db = db; client = Client.serving ((account.id, x) ∷ t) })
        ≡ ok (r, w)
      → ¬ IsCoherent w.db w.client
  unfolding reverse_transaction balance
  reverse_transaction_stale setup c t x r w v proper found exact some_brought coherent e after =
      let (o, reversed, done) = >>=-eq-ok (Reversals.reverse setup.threshold id c db) _ e in
      let is = (reverse-Reversed setup.threshold id c db o.0 o.1 v proper reversed).3 in
      let left : w ≡ record { db = o.1; client = Client.serving ((account.id, x) ∷ t) } =
        sym (ap (λ (p : Response × World). p.1) (ok-injective done)) in
      let coherent' : IsCoherent o.1 (Client.serving ((account.id, x) ∷ t)) =
        subst (λ (y : World). IsCoherent y.db y.client) left after in
      let found' : get_account account.id o.1 ≡ some account =
        ap (find (λ a. a.id == account.id)) is.accounts_kept ∙ found in
      let x_before : x ≡ (balance account db).amount =
        Agrees-found db account.id x account found coherent.0 in
      let x_after : x ≡ (balance account o.1).amount =
        Agrees-found o.1 account.id x account found' coherent'.0 in
      let before : x ≡ full_balance account.id db =
        x_before ∙ (balance_exact account db v.snapshots exact).0 in
      let multiple : IsMultiple (quantum account.currency) (full_balance account.id o.1) =
        rw (is.balances account.id) (
          IsMultiple-+ℤ account.currency _ _ (full-IsMultiple account db v.snapshots exact)
            (neg-IsMultiple account.currency brought (brought-IsMultiple exact))) in
      let now : (balance account o.1).amount ≡ full_balance account.id o.1 =
        rw (balance-eq-full account.id o.1 (is.valid.snapshots.at account.id))
          (of_amount-amount _ account.currency multiple) in
      let same : full_balance account.id db ≡ full_balance account.id db +ℤ neg brought =
        sym before ∙ x_after ∙ now ∙ is.balances account.id in
      let nothing : brought ≡ pos 0 = omega (int_laws, cross same) in some_brought nothing
