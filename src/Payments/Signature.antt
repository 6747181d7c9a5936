-- ===== src/Payments/Signature.antt =====
-- `verify_webhook` of the three providers. A signature header is the list of its characters, a body
-- the list of its bytes; the digest HMAC-SHA256, in hexadecimal characters, is a parameter.
use wallet_ledger_assesment.Base.{
  ℕ, Bool, true, false, ◌&&◌, String, Option, none, some, List, [], ◌∷◌, ◌++◌, ◌==◌, ltb,
  if◌then◌else◌,
}
use wallet_ledger_assesment.Base.Text.{str_eq}
use wallet_ledger_assesment.Domain.Errors.{Result, ok, err, type_error}
use wallet_ledger_assesment.Payments.{PaymentProvider}

abbrev pub Codes : Type 0
Codes = List ℕ

-- Equality of texts.
unfoldable pub compare_digest : Codes → Codes → Bool
compare_digest [] [] = true
compare_digest [] (d ∷ ds) = false
compare_digest (c ∷ cs) [] = false
compare_digest (c ∷ cs) (d ∷ ds) = let rest = compare_digest cs ds in (c == d) && rest

unfoldable pub is_ascii : Codes → Bool
is_ascii [] = true
is_ascii (c ∷ cs) = let rest = is_ascii cs in ltb c 128 && rest

-- `hmac.compare_digest`: equality, in constant time; it raises where one of two texts is not ASCII.
unfoldable pub compare_texts : Codes → Codes → Result Bool
unfolding compare_digest is_ascii
compare_texts a b = if is_ascii a && is_ascii b then ok (compare_digest a b) else err type_error

abbrev pub is_empty : Codes → Bool
is_empty [] = true
is_empty (c ∷ cs) = false

abbrev onto_first : ℕ → List Codes → List Codes
onto_first c [] = (c ∷ []) ∷ []
onto_first c (p ∷ ps) = (c ∷ p) ∷ ps

-- `split(",")`
pub pieces : Codes → List Codes
pieces [] = [] ∷ []
pieces (c ∷ cs) = let rest = pieces cs in if c == b',' then [] ∷ rest else onto_first c rest

abbrev with_key : ℕ → Option (Codes × Codes) → Option (Codes × Codes)
with_key c none = none
with_key c (some (k, v)) = some (c ∷ k, v)

-- `split("=", 1)`, where there is one.
pub key_value : Codes → Option (Codes × Codes)
key_value [] = none
key_value (c ∷ cs) = let rest = key_value cs in if c == b'=' then some ([], cs) else with_key c rest

unfoldable pub keep : Codes → Option (Codes × Codes) → Option Codes → Option Codes
unfolding compare_digest
keep key none found = found
keep key (some (k, v)) found = if compare_digest k key then some v else found

-- `dict(...).get(key)`: of two pieces with one key the last counts.
unfoldable pub part : Codes → List Codes → Option Codes → Option Codes
unfolding keep
part key [] found = found
part key (p ∷ ps) found = part key ps (keep key (key_value p) found)

unfoldable pub header_part : Codes → Codes → Option Codes
unfolding keep part pieces key_value
header_part key signature = part key (pieces signature) none

module _ (hmac : String → Codes → Codes) where
  -- `if not timestamp or not provided` and the comparison.
  unfoldable pub stripe_check : String → Codes → Option Codes → Option Codes → Result Bool
  unfolding compare_texts
  stripe_check secret body (some (t ∷ ts)) (some (v ∷ vs)) =
      compare_texts (hmac secret ((t ∷ ts) ++ (b'.' ∷ body))) (v ∷ vs)
  stripe_check secret body _ _ = ok false

  unfoldable pub plain_check : String → Codes → Codes → Result Bool
  unfolding compare_texts
  plain_check secret body signature =
      if str_eq secret ""
      then ok false
      else if is_empty signature
      then ok false
      else compare_texts (hmac secret body) signature

  unfoldable pub verify_webhook : PaymentProvider → Codes → Codes → Result Bool
  unfolding header_part stripe_check plain_check
  verify_webhook (PaymentProvider.stripe _ secret) body signature =
      if str_eq secret ""
      then ok false
      else if is_empty signature
      then ok false
      else stripe_check secret body (header_part (b't' ∷ []) signature)
          (header_part (b'v' ∷ b'1' ∷ []) signature)
  verify_webhook (PaymentProvider.pawapay _ _ secret) body signature =
      plain_check secret body signature
  verify_webhook (PaymentProvider.paypal _ _ _ secret) body signature =
      plain_check secret body signature
