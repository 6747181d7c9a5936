-- ===== src/History/Ages.antt =====
-- How the table of transactions grows old: rows are added with new identifiers, and the status of a
-- row goes forward, from PENDING, or from SUCCESS to REVERSED.
use mathlib.Core.Option.{some-injective}
use wallet_ledger_assesment.Base.{
  ℕ, ◌<◌, ◌≤◌, ◌≡◌, ◌≢◌, refl, sym, ap, ◌∙◌, ◌⊎◌, inl, inr, Bool, true, false, some, List, [], ◌∷◌,
  ◌++◌, map, arith, ◌==◌, ==_iff, Bool-cases, subst,
}
use wallet_ledger_assesment.Base.Lists.{find, find-append, All, All-append, All-imp}
use wallet_ledger_assesment.Domain.Enums.{TransactionStatus}
use wallet_ledger_assesment.Store.{Db, get_transaction, update_first}
use wallet_ledger_assesment.Store.Models.{Transaction}

abbrev pub Follows : TransactionStatus → TransactionStatus → Type 0
Follows a s =
    ((a ≡ TransactionStatus.pending) × (s ≢ TransactionStatus.pending))
    ⊎ ((a ≡ TransactionStatus.success) × (s ≡ TransactionStatus.reversed))

abbrev pub Later : TransactionStatus → TransactionStatus → Type 0
Later a b = (b ≡ a) ⊎ Follows a b

Later-trans : (a b c : TransactionStatus) → Later a b → Later b c → Later a c
Later-trans a b c (inl e) k = subst (λ (x : TransactionStatus). Later x c) e k
Later-trans a b c (inr f) (inl e) = subst (λ (x : TransactionStatus). Later a x) (sym e) (inr f)
Later-trans a b c (inr (inl (p, n))) (inr (inl (q, m))) = absurd (n q)
Later-trans a b c (inr (inl (p, n))) (inr (inr (q, r))) = inr (inl (p, λ h. cc))
Later-trans a b c (inr (inr (p, n))) (inr (inl (q, m))) = cc
Later-trans a b c (inr (inr (p, n))) (inr (inr (q, r))) = cc

abbrev pub with_status : TransactionStatus → Transaction → Transaction
with_status s t = record t { status = s }

pub data Ages : Db → Db → Type 0 where
  kept : {db db' : Db} → db'.transactions ≡ db.transactions → db.next_id ≤ db'.next_id → Ages db db'
  added :
      {db db' : Db} (t : Transaction)
      → db'.transactions ≡ db.transactions ++ (t ∷ [])
      → db.next_id ≤ t.id
      → t.id < db'.next_id
      → Ages db db'
  marked :
      {db db' : Db} (i : ℕ) (t : Transaction) (s : TransactionStatus)
      → get_transaction i db ≡ some t
      → Follows t.status s
      → db'.transactions ≡ update_first (λ x. x.id == i) (with_status s) db.transactions
      → db.next_id ≤ db'.next_id
      → Ages db db'
  older : {db db1 db' : Db} → Ages db db1 → Ages db1 db' → Ages db db'

pub Ages-refl : (db : Db) → Ages db db
Ages-refl db = kept refl (omega arith)

-- A query that does not read the status.
abbrev pub IsBlind : (Transaction → Bool) → Type 0
IsBlind q = (t : Transaction) (s : TransactionStatus) → q (with_status s t) ≡ q t

find-marked :
    (q p : Transaction → Bool) (s : TransactionStatus) (ts : List Transaction) (a b : Transaction)
    → IsBlind q
    → find q ts ≡ some a
    → find p ts ≡ some b
    → (find q (update_first p (with_status s) ts) ≡ some a)
      ⊎ ((b ≡ a) × (find q (update_first p (with_status s) ts) ≡ some (with_status s a)))
find-marked q p s [] a b blind h k = cc
find-marked q p s (x ∷ xs) a b blind h k = elim (Bool-cases (q x)) [
  | inl t ↦
      let is : x ≡ a = some-injective _ _ (rw t at h) in
      elim (Bool-cases (p x)) [
        | inl u ↦
            let was : x ≡ b = some-injective _ _ (rw u at k) in
            inr (
              sym was ∙ is,
              rw u (rw (blind x s, t) (ap (λ (y : Transaction). some (with_status s y)) is)),
            )
        | inr n ↦ inl (rw (n, t) (ap (λ (y : Transaction). some y) is))
      ]
  | inr n ↦ elim (Bool-cases (p x)) [
    | inl u ↦ inl (rw u (rw (blind x s, n) (rw n at h)))
    | inr m ↦ rw (m, n) (find-marked q p s xs a b blind (rw n at h) (rw m at k))
  ]
]

-- A row that a query finds, it finds later, with the same status or one that may follow.
pub Ages-find :
    {db db' : Db}
    → Ages db db'
    → (q : Transaction → Bool) (t : Transaction) → IsBlind q
    → find q db.transactions ≡ some t
    → (t' : Transaction) × (find q db'.transactions ≡ some t') × Later t.status t'.status
Ages-find (kept same grown) q t blind found = (t, ap (find q) same ∙ found, inl refl)
Ages-find {db} (added u same later_id drawn) q t blind found =
    (t, ap (find q) same ∙ find-append q db.transactions (u ∷ []) t found, inl refl)
Ages-find {db} (marked i u s there follows same grown) q t blind found =
    elim (find-marked q (λ x. x.id == i) s db.transactions t u blind found there) [
      | inl left ↦ (t, ap (find q) same ∙ left, inl refl)
      | inr (is, now) ↦ (
        with_status s t,
        ap (find q) same ∙ now,
        inr (subst (λ (x : Transaction). Follows x.status s) is follows),
      )
    ]
Ages-find (older first second) q t blind found =
    let (t1, found1, later1) = Ages-find first q t blind found in
    let (t2, found2, later2) = Ages-find second q t1 blind found1 in
    (t2, found2, Later-trans t.status t1.status t2.status later1 later2)

-- Identifiers are drawn from the counter, one after the other.
abbrev pub Increasing : List ℕ → Type 0
Increasing [] = Unit
Increasing (n ∷ ns) = All (λ m. n < m) ns × Increasing ns

abbrev pub ids : List Transaction → List ℕ
ids = map (λ t. t.id)

pub record IsNumbered (db : Db) : Type 0 where
  pub drawn : All (λ n. n < db.next_id) (ids db.transactions)
  pub increasing : Increasing (ids db.transactions)

Increasing-append :
    (ns : List ℕ) (n : ℕ) → All (λ m. m < n) ns → Increasing ns → Increasing (ns ++ (n ∷ []))
Increasing-append [] n h i = (tt, tt)
Increasing-append (m ∷ ns) n h i =
    (All-append (λ k. m < k) ns (n ∷ []) i.0 (h.0, tt), Increasing-append ns n h.1 i.1)

ids-append :
    (ts : List Transaction) (t : Transaction) → ids (ts ++ (t ∷ [])) ≡ ids ts ++ (t.id ∷ [])
ids-append [] t = refl
ids-append (x ∷ ts) t = ap (λ (l : List ℕ). x.id ∷ l) (ids-append ts t)

ids-marked :
    (p : Transaction → Bool) (s : TransactionStatus) (ts : List Transaction)
    → ids (update_first p (with_status s) ts) ≡ ids ts
ids-marked p s [] = refl
ids-marked p s (x ∷ xs) = elim (Bool-cases (p x)) [
  | inl t ↦ rw t refl
  | inr n ↦ rw n (ap (λ (l : List ℕ). x.id ∷ l) (ids-marked p s xs))
]

same_ids :
    (db db' : Db)
    → ids db'.transactions ≡ ids db.transactions
    → db.next_id ≤ db'.next_id
    → IsNumbered db
    → IsNumbered db'
same_ids db db' same grown n = record {
  drawn =
      rw same (All-imp _ _ (ids db.transactions) (λ m (h : m < db.next_id). omega arith) n.drawn);
  increasing = rw same n.increasing;
}

pub Ages-IsNumbered : {db db' : Db} → Ages db db' → IsNumbered db → IsNumbered db'
Ages-IsNumbered {db} {db'} (kept same grown) n = same_ids db db' (ap ids same) grown n
Ages-IsNumbered {db} {db'} (added t same fresh drawn) n =
    let all : ids db'.transactions ≡ ids db.transactions ++ (t.id ∷ []) =
      ap ids same ∙ ids-append db.transactions t in
    record {
      drawn = rw all (
          All-append (λ m. m < db'.next_id) (ids db.transactions) (t.id ∷ [])
            (All-imp _ _ (ids db.transactions) (λ m (h : m < db.next_id). omega arith) n.drawn)
            (drawn, tt));
      increasing = rw all (
          Increasing-append (ids db.transactions) t.id
            (All-imp _ _ (ids db.transactions) (λ m (h : m < db.next_id). omega arith) n.drawn)
            n.increasing);
    }
Ages-IsNumbered {db} {db'} (marked i t s there follows same grown) n =
    same_ids db db' (ap ids same ∙ ids-marked (λ x. x.id == i) s db.transactions) grown n
Ages-IsNumbered (older first second) n = Ages-IsNumbered second (Ages-IsNumbered first n)

All-found :
    (P : ℕ → Type 0) (q : Transaction → Bool) (ts : List Transaction) (t : Transaction)
    → All P (ids ts)
    → find q ts ≡ some t
    → P t.id
All-found P q [] t h e = cc
All-found P q (x ∷ xs) t h e = elim (Bool-cases (q x)) [
  | inl y ↦ subst (λ (z : Transaction). P z.id) (some-injective _ _ (rw y at e)) h.0
  | inr n ↦ All-found P q xs t h.1 (rw n at e)
]

-- The identifier of a row finds it.
pub find-id :
    (q : Transaction → Bool) (ts : List Transaction) (t : Transaction)
    → Increasing (ids ts)
    → find q ts ≡ some t
    → find (λ x. x.id == t.id) ts ≡ some t
find-id q [] t h e = cc
find-id q (x ∷ xs) t h e = elim (Bool-cases (q x)) [
  | inl y ↦
      let is : x ≡ t = some-injective _ _ (rw y at e) in
      let chosen : (x.id == t.id) ≡ true = (==_iff _ _).1 (ap (λ (z : Transaction). z.id) is) in
      rw chosen (ap (λ (z : Transaction). some z) is)
  | inr n ↦
      let there = rw n at e in
      let before : x.id < t.id = All-found (λ m. x.id < m) q xs t h.0 there in
      let other : (x.id == t.id) ≡ false = ground arith in rw other (find-id q xs t h.1 there)
]
