-- ===== src/Common/Text.antt =====
-- Go's `strings` package, where the program's texts are taken apart; bytes are code points, so this
-- is for ASCII at the places that it compares.
use Prim.Native.Char.{code}
use Prim.Native.String.{String}
use mailhook.Common.Tests.{if◌then◌else◌, ◌==◌, ltb, ◌⧺◌}
use text.Mathlib.Text.{◌==◌ as str_eq}
use mathlib.Core.Bool.{Bool, true, false, ◌||◌}
use mathlib.Core.Option.{Option, none, some}
use Prim.Native.Nat.{ℕ, zero, suc, ◌+◌}
use mathlib.Core.Path.{◌≡◌}
use native.Mathlib.Omega.{arith}

unfoldable pub after_prefix : String → String → Option String
after_prefix String.[] s = some s
after_prefix (String.◌∷◌ c p) String.[] = none
after_prefix (String.◌∷◌ c p) (String.◌∷◌ d s) = if code c == code d then after_prefix p s else none

abbrev is_some {ℓ} : {A : Type ℓ} → Option A → Bool
is_some none = false
is_some (some _) = true

-- `strings.HasPrefix(s, p)`
unfoldable pub has_prefix : String → String → Bool
unfolding after_prefix
has_prefix p s = is_some (after_prefix p s)

-- `strings.HasSuffix(s, p)`
unfoldable pub has_suffix : String → String → Bool
has_suffix p String.[] = str_eq p ""
has_suffix p (String.◌∷◌ c s) = str_eq p (String.◌∷◌ c s) || has_suffix p s

-- `strings.TrimPrefix(s, p)`
unfoldable pub trim_prefix : String → String → String
unfolding after_prefix
trim_prefix p s = elim (after_prefix p s) [ none ↦ s | some rest ↦ rest ]

-- What follows the first such byte.
unfoldable pub after_byte : ℕ → String → Option String
after_byte b String.[] = none
after_byte b (String.◌∷◌ c s) = if code c == b then some s else after_byte b s

-- What stands before the first such byte, or the whole.
unfoldable pub before_byte : ℕ → String → String
before_byte b String.[] = ""
before_byte b (String.◌∷◌ c s) = if code c == b then "" else String.◌∷◌ c (before_byte b s)

unfoldable pub text_length : String → ℕ
text_length String.[] = 0
text_length (String.◌∷◌ c s) = suc (text_length s)

unfoldable pub text_take : ℕ → String → String
text_take zero s = ""
text_take (suc n) String.[] = ""
text_take (suc n) (String.◌∷◌ c s) = String.◌∷◌ c (text_take n s)

-- A text that is cut off after so many bytes.
unfoldable pub clip : ℕ → String → String
unfolding text_length text_take
clip n s = if ltb n (text_length s) then text_take n s ⧺ "…" else s

unfoldable pub text_drop : ℕ → String → String
text_drop zero s = s
text_drop (suc n) String.[] = ""
text_drop (suc n) (String.◌∷◌ c s) = text_drop n s

infixr 66 ◌⊹◌
-- The concatenation of texts, for proofs that go through the first.
unfoldable pub ◌⊹◌ : String → String → String
String.[] ⊹ t = t
(String.◌∷◌ c s) ⊹ t = String.◌∷◌ c (s ⊹ t)

pub text_length-append : (s t : String) → text_length (s ⊹ t) ≡ text_length s + text_length t
unfolding text_length ◌⊹◌
text_length-append String.[] t = omega arith
text_length-append (String.◌∷◌ c s) t = omega (arith, text_length-append s t)
