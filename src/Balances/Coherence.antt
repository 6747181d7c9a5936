-- ===== src/Balances/Coherence.antt =====
-- A cache that agrees with the ledger gives the balance that the ledger gives, and it agrees again
-- after a transfer whose event has been handled.
use mathlib.Core.Option.{some-injective}
use wallet_ledger_assesment.Base.{
  ℕ, ◌≡◌, refl, inl, inr, sym, ap, ◌∙◌, String, Option, none, some, [], ◌∷◌, ◌==◌, ==_iff,
  Bool-cases, Option-cases, subst,
}
use wallet_ledger_assesment.Base.Int.{ℤ}
use wallet_ledger_assesment.Base.Text.{upper, upper_idem}
use wallet_ledger_assesment.Domain.Money.{Money, money, of_amount, money_scale}
use wallet_ledger_assesment.Domain.Money.Laws.{of_amount_round_trip}
use wallet_ledger_assesment.Store.{Db, get_account}
use wallet_ledger_assesment.Store.Models.{Account}
use wallet_ledger_assesment.Ledger.{balance, balance_amount}
use wallet_ledger_assesment.Balances.{
  Table, Client, lookup, delete, cached_money, cache_get, cache_set, query_balance,
}

-- What the cache may hold for an account of the table.
abbrev pub Agrees : Db → ℕ → ℤ → Type 0
Agrees db i x = elim (get_account i db) [ none ↦ Unit {0} | some a ↦ x ≡ (balance a db).amount ]

pub Agrees-found :
    (db : Db) (i : ℕ) (x : ℤ) (a : Account)
    → get_account i db ≡ some a
    → Agrees db i x
    → x ≡ (balance a db).amount
Agrees-found db i x a found h = rw (found, Agrees) at h

abbrev pub IsCoherentTable : Db → Table → Type 0
IsCoherentTable db [] = Unit
IsCoherentTable db ((i, x) ∷ t) = Agrees db i x × IsCoherentTable db t

abbrev pub IsCoherent : Db → Client → Type 0
IsCoherent db Client.absent = Unit
IsCoherent db (Client.down t) = IsCoherentTable db t
IsCoherent db (Client.serving t) = IsCoherentTable db t

lookup-Agrees :
    (db : Db) (i : ℕ) (t : Table) (x : ℤ)
    → IsCoherentTable db t
    → lookup i t ≡ some x
    → Agrees db i x
lookup-Agrees db i [] x h e = cc
lookup-Agrees db i ((j, y) ∷ t) x h e = elim (Bool-cases (j == i)) [
  | inl same ↦
      let is : y ≡ x = some-injective _ _ (rw same at e) in
      let at_i : j ≡ i = (==_iff _ _).0 same in
      subst (λ (k : ℕ). Agrees db k x) at_i (subst (λ (z : ℤ). Agrees db j z) is h.0)
  | inr other ↦ lookup-Agrees db i t x h.1 (rw other at e)
]

delete-IsCoherentTable :
    (db : Db) (i : ℕ) (t : Table) → IsCoherentTable db t → IsCoherentTable db (delete i t)
delete-IsCoherentTable db i [] h = tt
delete-IsCoherentTable db i ((j, y) ∷ t) h = elim (Bool-cases (j == i)) [
  | inl same ↦ rw same (delete-IsCoherentTable db i t h.1)
  | inr other ↦ rw other (h.0, delete-IsCoherentTable db i t h.1)
]

-- A balance that was stored and read back.
of_amount-upper : (x : ℤ) (c : String) → of_amount x (upper c) ≡ of_amount x c
unfolding of_amount money
of_amount-upper x c = rw upper_idem

balance-currency : (a : Account) (db : Db) → (balance a db).currency ≡ upper a.currency
unfolding balance of_amount money
balance-currency a db = refl

balance_read_back :
    (a : Account) (db : Db) → of_amount (balance a db).amount a.currency ≡ balance a db
balance_read_back a db =
    sym (of_amount-upper _ a.currency)
    ∙ ap (of_amount (balance a db).amount) (sym (balance-currency a db))
    ∙ normal a db
  where
    normal :
        (a : Account) (db : Db)
        → of_amount (balance a db).amount (balance a db).currency ≡ balance a db
    normal a db =
        unfold balance of_amount in
        (of_amount_round_trip (record { coefficient = balance_amount a.id db; scale = money_scale })
          a.currency).1

module _ (a : Account) (db : Db) (found : get_account a.id db ≡ some a) where
  Agrees-balance : (x : ℤ) → Agrees db a.id x → x ≡ (balance a db).amount
  Agrees-balance x h = Agrees-found db a.id x a found h

  balance-Agrees : Agrees db a.id (balance a db).amount
  balance-Agrees = rw (found, Agrees) refl

  hit-balance :
      (o : Option ℤ) (m : Money)
      → ((x : ℤ) → o ≡ some x → Agrees db a.id x)
      → cached_money o a.currency ≡ some m
      → m ≡ balance a db
  hit-balance none m h e = cc
  hit-balance (some x) m h e =
      sym (some-injective _ _ e)
      ∙ ap (λ (y : ℤ). of_amount y a.currency) (Agrees-balance x (h x refl))
      ∙ balance_read_back a db

  cached-balance :
      (client : Client) (m : Money)
      → IsCoherent db client
      → cache_get client a.id a.currency ≡ some m
      → m ≡ balance a db
  unfolding cache_get
  cached-balance Client.absent m h e = cc
  cached-balance (Client.down t) m h e = cc
  cached-balance (Client.serving t) m h e =
      hit-balance (lookup a.id t) m (λ x. lookup-Agrees db a.id t x h) e

  cache_set-IsCoherent :
      (client : Client)
      → IsCoherent db client
      → IsCoherent db (cache_set a.id (balance a db) client)
  unfolding cache_set
  cache_set-IsCoherent Client.absent h = tt
  cache_set-IsCoherent (Client.down t) h = h
  cache_set-IsCoherent (Client.serving t) h = (balance-Agrees, delete-IsCoherentTable db a.id t h)

  -- A cache that agrees with the ledger, absent, out of order or serving, makes no difference to the
  -- balance that is read, and it agrees after the read.
  pub query_balance-balance :
      (client : Client)
      → IsCoherent db client
      → ((query_balance a db client).0 ≡ balance a db) × IsCoherent db (query_balance a db client).1
  unfolding query_balance
  query_balance-balance client h = elim (Option-cases (cache_get client a.id a.currency)) [
    | inl miss ↦ rw miss (refl, cache_set-IsCoherent client h)
    | inr (m, hit) ↦ rw hit (cached-balance client m h hit, h)
  ]
