-- ===== src/Idempotency/Persistence.antt =====
-- A completed key stays, whatever requests come after.
use wallet_ledger_assesment.Base.{
  ◌≡◌, ◌≢◌, refl, ap, ◌∙◌, ◌⊎◌, inl, inr, false, String, Option, none, some, List, [], ◌∷◌, ◌++◌,
  Bool-cases, if◌then◌else◌,
}
use wallet_ledger_assesment.Base.Lists.{find, find-append, any}
use wallet_ledger_assesment.Base.Text.{str_eq, eq_refl}
use wallet_ledger_assesment.Domain.Errors.{Result, ok, err}
use wallet_ledger_assesment.Idempotency.{
  Response, IdempotencyKey, Keys, has_key, conflict, claim, complete, release, finish, idempotent,
  plain,
}
use wallet_ledger_assesment.Idempotency.Replay.{
  find_added, delete_added, find_completed, taken, first_request,
}

abbrev reserved_row : String → String → IdempotencyKey
reserved_row key hash = record { key = key; request_hash = hash; response = none }

complete_added :
    (key hash : String) (r : Response) (keys : Keys)
    → any (has_key key) keys ≡ false
    → complete key r (keys ++ (reserved_row key hash ∷ []))
      ≡ keys ++ (record { key = key; request_hash = hash; response = some r } ∷ [])
unfolding complete
complete_added key hash r [] h = rw (eq_refl key)
complete_added key hash r (k ∷ ks) h = elim (Bool-cases (has_key key k)) [
  | inl t ↦ let h' = rw t at h in cc
  | inr f ↦ rw f (ap (λ (x : Keys). k ∷ x) (complete_added key hash r ks (rw f at h)))
]

release_added :
    (key hash : String) (keys : Keys)
    → any (has_key key) keys ≡ false
    → release key (keys ++ (reserved_row key hash ∷ [])) ≡ keys
unfolding release
release_added key hash keys h =
    rw (find_added key (reserved_row key hash) (eq_refl key) keys h)
      (delete_added key (reserved_row key hash) (eq_refl key) keys h)

-- The table after one request: as before, or with one more row.
abbrev Grows : Keys → Keys → Type 0
Grows keys keys' = (keys' ≡ keys) ⊎ ((row : IdempotencyKey) × (keys' ≡ keys ++ (row ∷ [])))

Grows-found :
    (key : String) (row : IdempotencyKey) (keys keys' : Keys)
    → Grows keys keys'
    → find (has_key key) keys ≡ some row
    → find (has_key key) keys' ≡ some row
Grows-found key row keys keys' (inl same) h = ap (find (has_key key)) same ∙ h
Grows-found key row keys keys' (inr (new, grown)) h =
    ap (find (has_key key)) grown ∙ find-append (has_key key) keys (new ∷ []) row h

-- A request of a client.
pub record Request {ℓ} (S : Type ℓ) : Type ℓ where
  pub key : Option String
  pub body : String
  pub view : S → Result (Response × S)

module _ {ℓ} {S : Type ℓ} where
  finish-Grows :
      (key hash : String) (returned : Result (Response × S)) (keys : Keys) (s : S)
      → any (has_key key) keys ≡ false
      → Grows keys (finish key returned (keys ++ (reserved_row key hash ∷ [])) s).1
  unfolding finish
  finish-Grows key hash (ok (r, s')) keys s h = inr (_, complete_added key hash r keys h)
  finish-Grows key hash (err e) keys s h = inl (release_added key hash keys h)

  plain-Grows : (r : Result (Response × S)) (keys : Keys) (s : S) → Grows keys (plain r keys s).1
  plain-Grows (ok (r, s')) keys s = inl refl
  plain-Grows (err e) keys s = inl refl

module _ {ℓ} {S : Type ℓ} (request_hash : String → String) where
  idempotent-Grows :
      (key : Option String) (body : String) (view : S → Result (Response × S)) (keys : Keys) (s : S)
      → Grows keys (idempotent request_hash key body view keys s).1
  unfolding idempotent claim
  idempotent-Grows none body view keys s = plain-Grows (view s) keys s
  idempotent-Grows (some key) body view keys s = elim (Bool-cases (str_eq key "")) [
    | inl empty ↦ rw empty (plain-Grows (view s) keys s)
    | inr set ↦ elim (Bool-cases (any (has_key key) keys)) [
      | inl old ↦ rw (set, old) (inl refl)
      | inr new ↦ rw (set, new) (finish-Grows key (request_hash body) (view s) keys s new)
    ]
  ]

  -- One request after the other; the answers are not looked at here.
  unfoldable pub serve_all : List (Request S) → Keys → S → Keys × S
  serve_all [] keys s = (keys, s)
  serve_all (r ∷ rs) keys s =
      let (answer, keys', s') = idempotent request_hash r.key r.body r.view keys s in
      serve_all rs keys' s'

  serve_all-found :
      (rs : List (Request S)) (key : String) (row : IdempotencyKey) (keys : Keys) (s : S)
      → find (has_key key) keys ≡ some row
      → find (has_key key) (serve_all rs keys s).0 ≡ some row
  unfolding serve_all
  serve_all-found [] key row keys s h = h
  serve_all-found (r ∷ rs) key row keys s h =
      let (answer, keys', s') = idempotent request_hash r.key r.body r.view keys s in
      serve_all-found rs key row keys' s'
        (Grows-found key row keys keys' (idempotent-Grows r.key r.body r.view keys s) h)

  -- Once a request with a nonempty key has been answered by its view, then after any further requests,
  -- with this key or others or none, of any bodies and views, returning or raising, a request with the
  -- key is still answered from the table, with the first response if it has the same digest and with
  -- a conflict otherwise, and it changes nothing: no retry, however late, runs the operation again.
  pub idempotent_forever :
      (key body : String) (view : S → Result (Response × S)) (keys : Keys) (s s' : S) (r : Response)
      → key ≢ ""
      → any (has_key key) keys ≡ false
      → view s ≡ ok (r, s')
      → (rs : List (Request S)) (body' : String) (view' : S → Result (Response × S))
      → let (_, keys1, s1) = idempotent request_hash (some key) body view keys s in
        let (keys2, s2) = serve_all rs keys1 s1 in
        idempotent request_hash (some key) body' view' keys2 s2
        ≡ (ok (if str_eq (request_hash body) (request_hash body') then r else conflict), keys2, s2)
  unfolding finish
  idempotent_forever key body view keys s s' r nonempty new returned rs body' view' =
      let hash = request_hash body in
      let row : IdempotencyKey = record { key = key; request_hash = hash; response = some r } in
      let keys1 = complete key r (keys ++ (reserved_row key hash ∷ [])) in
      let first : idempotent request_hash (some key) body view keys s ≡ (ok r, keys1, s') =
        first_request request_hash key body view keys s nonempty new
        ∙ ap (λ (x : Result (Response × S)). finish key x (keys ++ (reserved_row key hash ∷ [])) s)
            returned in
      let found =
        serve_all-found rs key row keys1 s'
          (find_completed key (reserved_row key hash) (eq_refl key) r keys new) in
      let (keys2, s2) = serve_all rs keys1 s' in
      rw first (taken request_hash key body' view' keys2 s2 row nonempty found)
