-- ===== src/Seeds/Replaying.antt =====
-- The demonstration data may be loaded again and again (wallet_ledger/seeds.py): what is there stays.
use wallet_ledger_assesment.Base.{
  ℕ, ◌≡◌, refl, sym, ap, ◌∙◌, inl, inr, Bool, true, false, String, Option, none, some, List, [],
  ◌∷◌, Option-cases, subst,
}
use wallet_ledger_assesment.Base.Int.{ℤ, pos}
use wallet_ledger_assesment.Base.Lists.{find}
use wallet_ledger_assesment.Base.Text.{upper}
use wallet_ledger_assesment.Domain.Decimals.{Decimal}
use wallet_ledger_assesment.Domain.Errors.{ok, >>=-eq-ok, ok-injective}
use wallet_ledger_assesment.Domain.Enums.{EntryStatus}
use wallet_ledger_assesment.Store.{Db}
use wallet_ledger_assesment.Store.Models.{Account, LedgerEntry, debit_entry, credit_entry}
use wallet_ledger_assesment.Ledger.{post_entries, assert_entries_balanced, preview}
use wallet_ledger_assesment.Ledger.Posting.{add_entries-accounts}
use wallet_ledger_assesment.Accounts
use wallet_ledger_assesment.Accounts.{owned}
use wallet_ledger_assesment.Accounts.Opening.{
  KeepsFound, same-KeepsFound, get_or_create_internal-KeepsFound, create-found,
}
use wallet_ledger_assesment.Deposits.{clearing_owner}
use wallet_ledger_assesment.Transfers
use wallet_ledger_assesment.Transfers.{Outcome, settle_transfer}
use wallet_ledger_assesment.Transfers.Effects.{Request-checked}
use wallet_ledger_assesment.Balances.Announcing.{settle_transfer-Announced}
use wallet_ledger_assesment.Seeds.{new_funding, fund, fund_new, ensure, units, first_transfer, seed}

post_entries-accounts :
    (es : List (ℕ → LedgerEntry)) (db db' : Db)
    → post_entries es db ≡ ok db'
    → db'.accounts ≡ db.accounts
unfolding post_entries
post_entries-accounts es db db' e =
    let (u, checked, done) = >>=-eq-ok (assert_entries_balanced (preview es)) _ e in
    ap (λ (x : Db). x.accounts) (sym (ok-injective done)) ∙ add_entries-accounts es db

fund-KeepsFound :
    (drawn : ℕ) (account : Account) (amount : ℤ) (db db' : Db)
    → fund drawn account amount db ≡ ok db'
    → KeepsFound db db'
unfolding fund new_funding
fund-KeepsFound drawn account amount db db' e q a found =
    let (opened, e1, e2) =
      >>=-eq-ok (Accounts.get_or_create_internal clearing_owner account.currency drawn db) _ e in
    let (txn, db1) = new_funding account amount opened.1 in
    let kept =
      get_or_create_internal-KeepsFound clearing_owner account.currency drawn db opened e1 q a
        found in
    ap (find q) (
      post_entries-accounts
        (debit_entry opened.0.id txn.id amount account.currency EntryStatus.success
          ∷ credit_entry account.id txn.id amount account.currency EntryStatus.success
          ∷ [])
        db1 db' e2)
    ∙ kept

-- What `_ensure` returns is found by its owner and currency.
record Ensured (owner_id currency : String) (a : Account) (db db' : Db) : Type 0 where
  there : find (owned owner_id currency) db'.accounts ≡ some a
  kept : KeepsFound db db'

fund_new-KeepsFound :
    (drawn : ℕ) (amount : Option ℤ) (opened : Account × Db) (r : Account × Bool × Db)
    → fund_new drawn amount opened ≡ ok r
    → (r.0 ≡ opened.0) × KeepsFound opened.1 r.2
fund_new-KeepsFound drawn none (account, db) r e =
    subst (λ (x : Account × Bool × Db). (x.0 ≡ account) × KeepsFound db x.2) (ok-injective e)
      (refl, λ q a found. found)
fund_new-KeepsFound drawn (some amount) (account, db) r e =
    let (db1, funded, done) = >>=-eq-ok (fund drawn account amount db) _ e in
    subst (λ (x : Account × Bool × Db). (x.0 ≡ account) × KeepsFound db x.2) (ok-injective done)
      (refl, fund-KeepsFound drawn account amount db db1 funded)

ensure-Ensured :
    (drawn drawn' : ℕ) (owner_id currency : String) (amount : Option ℤ) (db : Db)
    (r : Account × Bool × Db)
    → upper currency ≡ currency
    → ensure drawn drawn' owner_id currency amount db ≡ ok r
    → Ensured owner_id currency r.0 db r.2
unfolding ensure
ensure-Ensured drawn drawn' owner_id currency amount db r capital e =
    elim (Option-cases (find (owned owner_id currency) db.accounts)) [
      | inl missing ↦
          let (opened, created, rest) =
            >>=-eq-ok (Accounts.create owner_id currency drawn db) (fund_new drawn' amount)
              (rw missing at e) in
          let (there, kept) =
            create-found owner_id currency drawn db opened capital missing created in
          let (same, further) = fund_new-KeepsFound drawn' amount opened r rest in
          record {
            there =
                further (owned owner_id currency) opened.0 there
                ∙ ap (λ (x : Account). some x) (sym same);
            kept = λ q a found. further q a (kept q a found);
          }
      | inr (a, found) ↦
          let h = rw found at e in
          subst (λ (x : Account × Bool × Db). Ensured owner_id currency x.0 db x.2) (ok-injective h)
            (record { there = found; kept = λ q b there. there })
    ]

ensure-again :
    (drawn drawn' : ℕ) (owner_id currency : String) (amount : Option ℤ) (db : Db) (a : Account)
    → find (owned owner_id currency) db.accounts ≡ some a
    → ensure drawn drawn' owner_id currency amount db ≡ ok (a, false, db)
unfolding ensure
ensure-again drawn drawn' owner_id currency amount db a found = rw found

first_transfer-KeepsFound :
    (threshold : ℕ) (created : Bool) (alice bob : Account) (db db' : Db)
    → first_transfer threshold created alice bob db ≡ ok db'
    → KeepsFound db db'
unfolding first_transfer Transfers.execute
first_transfer-KeepsFound threshold false alice bob db db' e =
    subst (KeepsFound db) (ok-injective e) (λ q a found. found)
first_transfer-KeepsFound threshold true alice bob db db' e =
    let amount : Decimal = record { coefficient = pos 30; scale = 0 } in
    let (o, moved, done) =
      >>=-eq-ok (Transfers.execute threshold alice.id bob.id amount none db) _ e in
    let (r, settled_) =
      Request-checked alice.id bob.id amount db
        (λ sender receiver m. settle_transfer threshold sender receiver m none db) o moved in
    let a =
      settle_transfer-Announced threshold r.sender r.receiver r.m none db o.0 o.1 o.2 settled_ in
    subst (KeepsFound db) (ok-injective done) (same-KeepsFound db o.2 a.accounts_kept)

-- Once the demonstration data has been loaded, loading it again changes nothing and returns the same
-- numbers, whatever is drawn and whatever the snapshot threshold is.
pub seed_again :
    (threshold : ℕ) (draws : ℕ → ℕ) (db : Db) (numbers : List (String × ℕ)) (db' : Db)
    → seed threshold draws db ≡ ok (numbers, db')
    → (threshold' : ℕ) (draws' : ℕ → ℕ) → seed threshold' draws' db' ≡ ok (numbers, db')
unfolding seed upper first_transfer
seed_again threshold draws db numbers db' e threshold' draws' =
    let (alice, e1, r1) =
      >>=-eq-ok (ensure (draws 0) (draws 1) "alice" "USD" (some (units 200)) db) _ e in
    let (bob, e2, r2) = >>=-eq-ok (ensure (draws 2) (draws 3) "bob" "USD" none alice.2) _ r1 in
    let (kamga, e3, r3) =
      >>=-eq-ok (ensure (draws 4) (draws 5) "kamga" "XAF" (some (units 5_000)) bob.2) _ r2 in
    let (claire, e4, r4) =
      >>=-eq-ok (ensure (draws 6) (draws 7) "claire" "EUR" (some (units 100)) kamga.2) _ r3 in
    let (db1, e5, r5) = >>=-eq-ok (first_transfer threshold alice.1 alice.0 bob.0 claire.2) _ r4 in
    let a = ensure-Ensured (draws 0) (draws 1) "alice" "USD" _ db alice refl e1 in
    let b = ensure-Ensured (draws 2) (draws 3) "bob" "USD" _ alice.2 bob refl e2 in
    let k = ensure-Ensured (draws 4) (draws 5) "kamga" "XAF" _ bob.2 kamga refl e3 in
    let c = ensure-Ensured (draws 6) (draws 7) "claire" "EUR" _ kamga.2 claire refl e4 in
    let last = first_transfer-KeepsFound threshold alice.1 alice.0 bob.0 claire.2 db1 e5 in
    let result = ok-injective r5 in
    let same : db1 ≡ db' = ap (λ (x : List (String × ℕ) × Db). x.1) result in
    rw (← same) (
      rw
        (
          ensure-again (draws' 0) (draws' 1) "alice" "USD" (some (units 200)) db1 alice.0
              (last _ _ (c.kept _ _ (k.kept _ _ (b.kept _ _ a.there)))),
          ensure-again (draws' 2) (draws' 3) "bob" "USD" none db1 bob.0
              (last _ _ (c.kept _ _ (k.kept _ _ b.there))),
          ensure-again (draws' 4) (draws' 5) "kamga" "XAF" (some (units 5_000)) db1 kamga.0
              (last _ _ (c.kept _ _ k.there)),
          ensure-again (draws' 6) (draws' 7) "claire" "EUR" (some (units 100)) db1 claire.0
              (last _ _ c.there),
        )
        (ap (λ (x : List (String × ℕ) × Db). ok (x.0, db1)) result))
