-- ===== src/Base/Text.antt =====
-- Texts are compared whole and upper- or lower-cased; case is that of ASCII letters.
use Prim.Native.Nat.{ℕ, zero, suc, ◌-◌, ◌<◌}
use Prim.Native.Char.{Char, code}
use Prim.Native.String.{String}
use mathlib.Core.Path.{◌≡◌, refl, ap}
use mathlib.Core.Bool.{true, false, ◌&&◌}
use text.Mathlib.Text.{◌==◌ as str_eq}
use text.Mathlib.TextEquality.{eq_iff}
use text.Mathlib.TextPositions.{eq_refl}
use mathlib.Core.Logic.{inl, inr}
use native.Mathlib.Omega.{arith}
use wallet_ledger_assesment.Base.Tests.{leb, if◌then◌else◌, Bool-cases}
pub use Prim.Native.String.{◌++◌ as add_text}
pub use text.Mathlib.Text.{◌==◌ as str_eq}
pub use text.Mathlib.TextEquality.{eq_iff}
pub use text.Mathlib.TextPositions.{eq_refl}

-- The character at a position, or the second argument past the end.
abbrev pub letter_at : ℕ → String → Char → Char
letter_at n String.[] c = c
letter_at zero (String.◌∷◌ d s) c = d
letter_at (suc n) (String.◌∷◌ d s) c = letter_at n s c

upper_char : Char → Char
upper_char c =
    if leb b'a' (code c) && leb (code c) b'z'
    then letter_at (code c - b'a') "ABCDEFGHIJKLMNOPQRSTUVWXYZ" c
    else c

lower_char : Char → Char
lower_char c =
    if leb b'A' (code c) && leb (code c) b'Z'
    then letter_at (code c - b'A') "abcdefghijklmnopqrstuvwxyz" c
    else c

-- `str.upper` and `str.lower`
unfoldable pub upper : String → String
unfolding upper_char
upper String.[] = String.[]
upper (String.◌∷◌ c s) = String.◌∷◌ (upper_char c) (upper s)

unfoldable pub lower : String → String
unfolding lower_char
lower String.[] = String.[]
lower (String.◌∷◌ c s) = String.◌∷◌ (lower_char c) (lower s)

upper_test : (upper "eUr" ≡ "EUR") × (lower "PawaPay" ≡ "pawapay")
unfolding upper lower
upper_test = (refl, refl)

-- How many characters a text has, for the bound of `letter_at`.
abbrev size : String → ℕ
size String.[] = 0
size (String.◌∷◌ c s) = suc (size s)

-- Every character of a text is left alone by `upper_char`.
abbrev IsUpper : String → Type 0
IsUpper String.[] = Unit
IsUpper (String.◌∷◌ c s) = (upper_char c ≡ c) × IsUpper s

letter_at-IsUpper :
    (n : ℕ) (s : String) (c : Char)
    → n < size s
    → IsUpper s
    → upper_char (letter_at n s c) ≡ letter_at n s c
letter_at-IsUpper n String.[] c h u = elim h [ ]
letter_at-IsUpper zero (String.◌∷◌ d s) c h u = u.0
letter_at-IsUpper (suc n) (String.◌∷◌ d s) c h u = letter_at-IsUpper n s c (omega arith) u.1

capitals-IsUpper : IsUpper "ABCDEFGHIJKLMNOPQRSTUVWXYZ"
unfolding upper_char
capitals-IsUpper = assumption refl

upper_char-low :
    (c : Char)
    → (leb b'a' (code c) && leb (code c) b'z') ≡ true
    → upper_char c ≡ letter_at (code c - b'a') "ABCDEFGHIJKLMNOPQRSTUVWXYZ" c
unfolding upper_char
upper_char-low c h = rw h

upper_char-other : (c : Char) → (leb b'a' (code c) && leb (code c) b'z') ≡ false → upper_char c ≡ c
unfolding upper_char
upper_char-other c h = rw h

below_alphabet : (n : ℕ) → (leb b'a' n && leb n b'z') ≡ true → n - b'a' < 26
below_alphabet n h = ground arith

upper_char_idem : (c : Char) → upper_char (upper_char c) ≡ upper_char c
upper_char_idem c = elim (Bool-cases (leb b'a' (code c) && leb (code c) b'z')) [
  | inl low ↦ rw (upper_char-low c low) (
      letter_at-IsUpper (code c - b'a') "ABCDEFGHIJKLMNOPQRSTUVWXYZ" c (below_alphabet (code c) low)
        capitals-IsUpper)
  | inr other ↦ ap upper_char (upper_char-other c other)
]

pub upper_idem : (s : String) → upper (upper s) ≡ upper s
unfolding upper
upper_idem String.[] = refl
upper_idem (String.◌∷◌ c s) = cc (upper_char_idem c, upper_idem s)
