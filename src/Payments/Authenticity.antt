-- ===== src/Payments/Authenticity.antt =====
-- A webhook is accepted only with a signature that the secret's holder can make.
use wallet_ledger_assesment.Base.{
  ◌≡◌, refl, ◌≢◌, ◌&&◌, false, inl, inr, ap, sym, ◌∙◌, true, String, Option, none, some, [], ◌∷◌,
  ◌++◌, arith, Bool-cases,
}
use wallet_ledger_assesment.Base.Text.{str_eq, eq_iff}
use wallet_ledger_assesment.Domain.Errors.{ok, ok-injective}
use wallet_ledger_assesment.Payments.{PaymentProvider}
use wallet_ledger_assesment.Payments.Signature.{
  Codes, compare_digest, compare_texts, is_ascii, is_empty, header_part, stripe_check, plain_check,
  verify_webhook,
}

pub compare_digest-eq : (a b : Codes) → compare_digest a b ≡ true → a ≡ b
unfolding compare_digest
compare_digest-eq [] [] h = refl
compare_digest-eq [] (d ∷ ds) h = cc
compare_digest-eq (c ∷ cs) [] h = cc
compare_digest-eq (c ∷ cs) (d ∷ ds) h = ground (arith, compare_digest-eq cs ds)

compare_texts-eq : (a b : Codes) → compare_texts a b ≡ ok true → a ≡ b
unfolding compare_texts
compare_texts-eq a b h = elim (Bool-cases (is_ascii a && is_ascii b)) [
  | inl t ↦ compare_digest-eq a b (ok-injective (rw t at h))
  | inr n ↦ let h' = rw n at h in cc
]

abbrev pub webhook_secret : PaymentProvider → String
webhook_secret (PaymentProvider.stripe _ secret) = secret
webhook_secret (PaymentProvider.pawapay _ _ secret) = secret
webhook_secret (PaymentProvider.paypal _ _ _ secret) = secret

-- What a header presents: the text that is signed before the body, and the digest. Stripe's header
-- names a time stamp and the digest, the other two are the digest.
abbrev pub Presents : PaymentProvider → Codes → Codes → Codes → Type 0
Presents (PaymentProvider.stripe _ _) signature prefix provided =
    (t : Codes) × (header_part (b't' ∷ []) signature ≡ some t)
    × (header_part (b'v' ∷ b'1' ∷ []) signature ≡ some provided)
    × (prefix ≡ t ++ (b'.' ∷ []))
Presents _ signature prefix provided = (prefix ≡ []) × (provided ≡ signature)

module _ (hmac : String → Codes → Codes) where
  pub record IsAuthentic (p : PaymentProvider) (body signature : Codes) : Type 0 where
    pub prefix : Codes
    pub provided : Codes
    pub secret_set : webhook_secret p ≢ ""
    pub presented : Presents p signature prefix provided
    pub nonempty : provided ≢ []
    pub genuine : provided ≡ hmac (webhook_secret p) (prefix ++ body)

  plain-genuine :
      (secret : String) (body signature : Codes)
      → plain_check hmac secret body signature ≡ ok true
      → (secret ≢ "") × (signature ≢ []) × (signature ≡ hmac secret body)
  unfolding plain_check
  plain-genuine secret body signature h = elim (Bool-cases (str_eq secret "")) [
    | inl unset ↦ let h' = rw unset at h in cc
    | inr set ↦
        let given = rw set at h in
        elim (Bool-cases (is_empty signature)) [
          | inl empty ↦ let h' = rw empty at given in cc
          | inr full ↦ (
            ground (arith, eq_iff secret ""),
            λ e. let none_left : true ≡ false = ap is_empty (sym e) ∙ full in cc,
            sym (compare_texts-eq (hmac secret body) signature (rw full at given)),
          )
        ]
  ]

  append_dot : (t body : Codes) → (t ++ (b'.' ∷ [])) ++ body ≡ t ++ (b'.' ∷ body)
  append_dot [] body = refl
  append_dot (c ∷ t) body = ap (λ (r : Codes). c ∷ r) (append_dot t body)

  stripe-genuine :
      (secret : String) (body signature : Codes) (t v : Option Codes)
      → stripe_check hmac secret body t v ≡ ok true
      → (t' v' : Codes) × (t ≡ some t')
        × (v ≡ some v')
        × (v' ≢ [])
        × (v' ≡ hmac secret (t' ++ (b'.' ∷ body)))
  unfolding stripe_check
  stripe-genuine secret body signature none v h = cc
  stripe-genuine secret body signature (some []) v h = cc
  stripe-genuine secret body signature (some (c ∷ cs)) none h = cc
  stripe-genuine secret body signature (some (c ∷ cs)) (some []) h = cc
  stripe-genuine secret body signature (some (c ∷ cs)) (some (d ∷ ds)) h =
      (c ∷ cs, d ∷ ds, refl, refl, λ e. cc, sym (compare_texts-eq _ (d ∷ ds) h))

  -- A webhook that is accepted carries a nonempty digest of what was signed, made with a secret that
  -- is set.
  pub verify_webhook-IsAuthentic :
      (p : PaymentProvider) (body signature : Codes)
      → verify_webhook hmac p body signature ≡ ok true
      → IsAuthentic p body signature
  unfolding verify_webhook
  verify_webhook-IsAuthentic (PaymentProvider.stripe k secret) body [] h =
      elim (Bool-cases (str_eq secret "")) [
        | inl unset ↦ let h' = rw unset at h in cc
        | inr set ↦ let h' = rw set at h in cc
      ]
  verify_webhook-IsAuthentic (PaymentProvider.stripe k secret) body (c ∷ cs) h =
      elim (Bool-cases (str_eq secret "")) [
        | inl unset ↦ let h' = rw unset at h in cc
        | inr set ↦
            let (t, v, et, ev, ne, g) =
              stripe-genuine secret body (c ∷ cs) (header_part (b't' ∷ []) (c ∷ cs))
                (header_part (b'v' ∷ b'1' ∷ []) (c ∷ cs)) (rw set at h) in
            record {
              prefix = t ++ (b'.' ∷ []);
              provided = v;
              secret_set = ground (arith, eq_iff secret "");
              presented = (t, et, ev, refl);
              nonempty = ne;
              genuine = g ∙ ap (hmac secret) (sym (append_dot t body));
            }
      ]
  verify_webhook-IsAuthentic (PaymentProvider.pawapay u k secret) body signature h =
      let (set, ne, g) = plain-genuine secret body signature h in
      record {
        prefix = [];
        provided = signature;
        secret_set = set;
        presented = (refl, refl);
        nonempty = ne;
        genuine = g;
      }
  verify_webhook-IsAuthentic (PaymentProvider.paypal u i k secret) body signature h =
      let (set, ne, g) = plain-genuine secret body signature h in
      record {
        prefix = [];
        provided = signature;
        secret_set = set;
        presented = (refl, refl);
        nonempty = ne;
        genuine = g;
      }
