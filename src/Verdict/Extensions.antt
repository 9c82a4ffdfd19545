-- ===== src/Verdict/Extensions.antt =====
-- The extensions that the reason of a quarantined executable lists.
use mailhook.Common.{
  Bool, false, not, ◌&&◌, String, List, [], ◌∷◌, ◌≡◌, refl, arith, any, str_eq, eq_iff,
}
use mailhook.Email.{Attachment}
use mailhook.Verdict.{contains, executable_extensions, executable_extensions_from}

-- No text stands twice in the list.
abbrev pub IsDistinct : List String → Type 0
IsDistinct [] = Unit
IsDistinct (x ∷ xs) = (contains xs x ≡ false) × IsDistinct xs

abbrev pub is_dangerous_with : String → Attachment → Bool
is_dangerous_with e a = a.is_dangerous && str_eq a.extension e

contains-from :
    (e : String) (atts : List Attachment) (seen : List String)
    → contains (executable_extensions_from seen atts) e
      ≡ (any (is_dangerous_with e) atts && not (contains seen e))
unfolding executable_extensions_from
contains-from e [] seen = refl
contains-from e (a ∷ atts) seen = ground (
  arith,
  contains-from e atts seen,
  contains-from e atts (a.extension ∷ seen),
  eq_iff a.extension e,
)

IsDistinct-from :
    (atts : List Attachment) (seen : List String)
    → IsDistinct (executable_extensions_from seen atts)
unfolding executable_extensions_from
IsDistinct-from [] seen = tt
IsDistinct-from (a ∷ atts) seen = ground (
  arith,
  IsDistinct-from atts seen,
  IsDistinct-from atts (a.extension ∷ seen),
  contains-from a.extension atts (a.extension ∷ seen),
  eq_iff a.extension a.extension,
)

-- The reason lists each extension once, and just the extensions of the dangerous attachments.
pub executable_extensions_lem :
    (atts : List Attachment)
    → IsDistinct (executable_extensions atts)
      × ((e : String) → contains (executable_extensions atts) e ≡ any (is_dangerous_with e) atts)
unfolding executable_extensions
executable_extensions_lem atts =
    (IsDistinct-from atts [], λ e. ground (arith, contains-from e atts []))
