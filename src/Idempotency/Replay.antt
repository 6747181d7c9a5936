-- ===== src/Idempotency/Replay.antt =====
-- A request is carried out at most once for its key.
use mathlib.Core.Option.{some-injective}
use wallet_ledger_assesment.Base.{
  ◌≡◌, ◌≢◌, refl, inl, inr, ap, ◌∙◌, Bool, true, false, String, none, some, [], ◌∷◌, ◌++◌, arith,
  Bool-cases, subst, if◌then◌else◌,
}
use wallet_ledger_assesment.Base.Lists.{find, any}
use wallet_ledger_assesment.Base.Text.{str_eq, eq_iff, eq_refl}
use wallet_ledger_assesment.Domain.Errors.{Error, Result, ok, err}
use wallet_ledger_assesment.Idempotency.{
  Response, IdempotencyKey, Keys, has_key, conflict, resolve, resolve_duplicate, claim,
  delete_first, release, complete, finish, idempotent,
}

-- Where the key is new, the row that is added is the one that is found.
module _ (key : String) (row : IdempotencyKey) (named : has_key key row ≡ true) where
  pub find_added :
      (keys : Keys)
      → any (has_key key) keys ≡ false
      → find (has_key key) (keys ++ (row ∷ [])) ≡ some row
  find_added [] h = rw named
  find_added (k ∷ ks) h = elim (Bool-cases (has_key key k)) [
    | inl t ↦ let h' = rw t at h in cc
    | inr f ↦ rw f (find_added ks (rw f at h))
  ]

  pub delete_added :
      (keys : Keys)
      → any (has_key key) keys ≡ false
      → delete_first (has_key key) (keys ++ (row ∷ [])) ≡ keys
  delete_added [] h = rw named
  delete_added (k ∷ ks) h = elim (Bool-cases (has_key key k)) [
    | inl t ↦ let h' = rw t at h in cc
    | inr f ↦ rw f (ap (λ (r : Keys). k ∷ r) (delete_added ks (rw f at h)))
  ]

  pub find_completed :
      (r : Response) (keys : Keys)
      → any (has_key key) keys ≡ false
      → find (has_key key) (complete key r (keys ++ (row ∷ [])))
        ≡ some (record row { response = some r })
  unfolding complete
  find_completed r [] h = rw named (rw named)
  find_completed r (k ∷ ks) h = elim (Bool-cases (has_key key k)) [
    | inl t ↦ let h' = rw t at h in cc
    | inr f ↦ rw f (rw f (find_completed r ks (rw f at h)))
  ]

any-find :
    (key : String) (keys : Keys) (k : IdempotencyKey)
    → find (has_key key) keys ≡ some k
    → any (has_key key) keys ≡ true
any-find key [] k h = cc
any-find key (x ∷ xs) k h = elim (Bool-cases (has_key key x)) [
  | inl t ↦ rw t
  | inr f ↦ rw f (any-find key xs k (rw f at h))
]

module _ {ℓ} {S : Type ℓ} (request_hash : String → String) where
  -- A request whose key is taken answers from the table and changes nothing.
  pub taken :
      (key body : String) (view : S → Result (Response × S)) (keys : Keys) (s : S)
      (k : IdempotencyKey)
      → key ≢ ""
      → find (has_key key) keys ≡ some k
      → idempotent request_hash (some key) body view keys s
        ≡ (ok (resolve (some k) (request_hash body)), keys, s)
  unfolding idempotent claim resolve_duplicate
  taken key body view keys s k nonempty found =
      let set : str_eq key "" ≡ false = ground (arith, eq_iff key "") in
      rw (set, any-find key keys k found, found)

  -- What the first request with a key leaves, on both ends of the view.
  pub first_request :
      (key body : String) (view : S → Result (Response × S)) (keys : Keys) (s : S)
      → key ≢ ""
      → any (has_key key) keys ≡ false
      → idempotent request_hash (some key) body view keys s
        ≡ finish key
            (view s)
            (keys ++ (record { key = key; request_hash = request_hash body; response = none } ∷ []))
            s
  unfolding idempotent claim
  first_request key body view keys s nonempty new =
      let set : str_eq key "" ≡ false = ground (arith, eq_iff key "") in rw (set, new)

  -- If the view of the first request with a nonempty key raises, the error goes on, the key is free again, and
  -- nothing has changed.
  pub idempotent_raise :
      (key body : String) (view : S → Result (Response × S)) (keys : Keys) (s : S) (e : Error)
      → key ≢ ""
      → any (has_key key) keys ≡ false
      → view s ≡ err e
      → idempotent request_hash (some key) body view keys s ≡ (err e, keys, s)
  unfolding finish release
  idempotent_raise key body view keys s e nonempty new raised =
      let row : IdempotencyKey = record {
        key = key;
        request_hash = request_hash body;
        response = none;
      } in
      first_request key body view keys s nonempty new
      ∙ rw (
        raised,
        find_added key row (eq_refl key) keys new,
        delete_added key row (eq_refl key) keys new,
      )

  -- While the first request with a nonempty key runs, another one with it is answered with a conflict and
  -- changes nothing.
  pub idempotent_in_progress :
      (key hash body : String) (view : S → Result (Response × S)) (keys reserved : Keys) (s : S)
      → key ≢ ""
      → claim key hash keys ≡ some reserved
      → idempotent request_hash (some key) body view reserved s ≡ (ok conflict, reserved, s)
  unfolding claim
  idempotent_in_progress key hash body view keys reserved s nonempty claimed_ =
      elim (Bool-cases (any (has_key key) keys)) [
        | inl t ↦ let h = rw t at claimed_ in cc
        | inr new ↦
            let row : IdempotencyKey = record { key = key; request_hash = hash; response = none } in
            let is : keys ++ (row ∷ []) ≡ reserved = some-injective _ _ (rw new at claimed_) in
            subst
              (λ (ks : Keys).
                idempotent request_hash (some key) body view ks s ≡ (ok conflict, ks, s))
              is
              (taken key body view (keys ++ (row ∷ [])) s row nonempty
                  (find_added key row (eq_refl key) keys new)
                ∙ ap (λ (x : Response). (ok x, keys ++ (row ∷ []), s))
                    (either_way (str_eq hash (request_hash body))))
      ]
    where
      either_way : (b : Bool) → (if b then conflict else conflict) ≡ conflict
      either_way true = refl
      either_way false = refl
