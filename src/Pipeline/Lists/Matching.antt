-- ===== src/Pipeline/Lists/Matching.antt =====
-- Which entry of a list applies to a sender.
use mailhook.Common.{Bool, true, String, List, [], ◌∷◌, str_eq, ◌≡◌}
use mailhook.Pipeline.Lists.{is_one_of}

module _ {A : Type 0} (entry_of : A → String) where
  abbrev is_entry : String → A → Bool
  is_entry c x = str_eq (entry_of x) c

  abbrev is_candidate : List String → A → Bool
  is_candidate cs x = is_one_of cs (entry_of x)

  -- Every candidate of the first list is one of the second.
  abbrev Within : List String → List String → Type 0
  Within [] cs = Unit
  Within (c ∷ part) cs = (is_one_of cs c ≡ true) × Within part cs
