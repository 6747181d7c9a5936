-- ===== src/Balances/Invalidation.antt =====
-- After a direct transfer and its event, the cache agrees with the ledger again.
use wallet_ledger_assesment.Base.{
  ℕ, ◌<◌, ◌≡◌, refl, inl, inr, sym, ap, ◌∙◌, false, Option, List, [], ◌∷◌, arith, ◌==◌, ==_iff,
  Bool-cases, Option-cases, subst,
}
use wallet_ledger_assesment.Base.Int.{ℤ, pos, ◌+ℤ◌, +ℤ-zero}
use wallet_ledger_assesment.Base.Lists.{find, find-holds}
use wallet_ledger_assesment.Domain.Errors.{ok}
use wallet_ledger_assesment.Domain.Decimals.{Decimal}
use wallet_ledger_assesment.Domain.Money.{Money, of_amount}
use wallet_ledger_assesment.Domain.Events.{DomainEvent, transfer_completed}
use wallet_ledger_assesment.Store.{Db, get_account}
use wallet_ledger_assesment.Store.Models.{Account, Transaction}
use wallet_ledger_assesment.Ledger.{balance, balance_amount}
use wallet_ledger_assesment.Ledger.Snapshots.{full_balance, balance-eq-full}
use wallet_ledger_assesment.Ledger.Invariant.{IsValid}
use wallet_ledger_assesment.Transfers.{transfer_event, settle_transfer, execute}
use wallet_ledger_assesment.Transfers.Effects.{
  Request-checked, Transferred, moved, settle_transfer-Transferred,
}
use wallet_ledger_assesment.Balances.Announcing.{settle_transfer-Announced}
use wallet_ledger_assesment.Balances.{Table, Client, delete, cache_invalidate, invalidate_balances}
use wallet_ledger_assesment.Balances.Coherence.{Agrees, IsCoherentTable, IsCoherent}

module _ (s r : ℕ) (db db' : Db) (accounts_kept : db'.accounts ≡ db.accounts)
    (others : (i : ℕ)
      → (i == s) ≡ false
      → (i == r) ≡ false
      → balance_amount i db' ≡ balance_amount i db) where
  same_account : (i : ℕ) → get_account i db' ≡ get_account i db
  same_account i = ap (λ (rows : List Account). find (λ a. a.id == i) rows) accounts_kept

  Agrees-kept :
      (i : ℕ) (x : ℤ) → (i == s) ≡ false → (i == r) ≡ false → Agrees db i x → Agrees db' i x
  Agrees-kept i x ns nr h = elim (Option-cases (get_account i db)) [
    | inl missing ↦ rw (same_account i ∙ missing, Agrees) tt
    | inr (a, found) ↦
        let there : a.id ≡ i = (==_iff _ _).0 (find-holds _ db.accounts a found) in
        let same : balance_amount a.id db' ≡ balance_amount a.id db =
          subst (λ (j : ℕ). balance_amount j db' ≡ balance_amount j db) (sym there)
            (others i ns nr) in
        let was : x ≡ (balance a db).amount = rw (found, Agrees) at h in
        rw (same_account i ∙ found, Agrees)
          (was ∙ unfold balance in ap (λ (y : ℤ). (of_amount y a.currency).amount) (sym same))
  ]

  delete-kept : (t : Table) → IsCoherentTable db t → IsCoherentTable db' (delete r (delete s t))
  delete-kept [] h = tt
  delete-kept ((i, x) ∷ t) h = elim (Bool-cases (i == s)) [
    | inl is ↦ rw is (delete-kept t h.1)
    | inr ns ↦ elim (Bool-cases (i == r)) [
      | inl is ↦ rw (ns, is) (delete-kept t h.1)
      | inr nr ↦ rw (ns, nr) (Agrees-kept i x ns nr h.0, delete-kept t h.1)
    ]
  ]

-- An account that is neither end of a transfer has not moved.
unmoved :
    (sender receiver : Account) (x : ℤ) (i : ℕ)
    → (i == sender.id) ≡ false
    → (i == receiver.id) ≡ false
    → moved sender receiver x i ≡ pos 0
unmoved sender receiver x i ns nr =
    let a : (sender.id == i) ≡ false = ground arith in
    let b : (receiver.id == i) ≡ false = ground arith in rw (a, b) (+ℤ-zero _)

Transferred-others :
    (sender receiver : Account) (x : ℤ) (db db' : Db)
    → IsValid db
    → Transferred sender receiver x db db'
    → (i : ℕ) → (i == sender.id) ≡ false
    → (i == receiver.id) ≡ false
    → balance_amount i db' ≡ balance_amount i db
Transferred-others sender receiver x db db' v t i ns nr =
    balance-eq-full i db' (t.valid.snapshots.at i)
    ∙ t.balances i
    ∙ ap (λ (y : ℤ). full_balance i db +ℤ y) (unmoved sender receiver x i ns nr)
    ∙ +ℤ-zero _
    ∙ sym (balance-eq-full i db (v.snapshots.at i))

pub event-invalidates :
    (txn : Transaction) (m : Money) (sender receiver : Account) (t : Table)
    → (invalidate_balances
        (transfer_event transfer_completed txn m sender receiver)
        (Client.serving t)).1
      ≡ Client.serving (delete receiver.id (delete sender.id t))
unfolding invalidate_balances cache_invalidate
event-invalidates txn m sender receiver t = refl

-- With a valid ledger and a positive snapshot threshold, if a cache that serves agrees with the
-- ledger, then after a direct transfer that returns, and the handler of its event, the cache agrees
-- with the new ledger.
pub execute-IsCoherent :
    (threshold sender_id receiver_id : ℕ) (amount : Decimal) (c : Option ℕ) (db : Db) (t : Table)
    (txn : Transaction) (event : DomainEvent) (db' : Db)
    → 0 < threshold
    → IsValid db
    → IsCoherent db (Client.serving t)
    → execute threshold sender_id receiver_id amount c db ≡ ok (txn, event, db')
    → IsCoherent db' (invalidate_balances event (Client.serving t)).1
unfolding execute
execute-IsCoherent threshold sender_id receiver_id amount c db t txn event db' positive v h e =
    let (r, done) =
      Request-checked sender_id receiver_id amount db
        (λ sender receiver m. settle_transfer threshold sender receiver m c db) (txn, event, db')
        e in
    let moved_ =
      settle_transfer-Transferred threshold r.sender r.receiver r.m c db txn event db' positive v
        r.accepted.positive done in
    let told =
      settle_transfer-Announced threshold r.sender r.receiver r.m c db txn event db' done in
    subst (IsCoherent db')
      (sym (event-invalidates txn r.m r.sender r.receiver t)
        ∙ ap (λ (x : DomainEvent). (invalidate_balances x (Client.serving t)).1)
            (sym told.event_is))
      (delete-kept r.sender.id r.receiver.id db db' told.accounts_kept
        (Transferred-others r.sender r.receiver r.m.amount db db' v moved_) t h)
