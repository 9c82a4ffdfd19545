-- ===== src/Common/Dict.antt =====
-- Go's maps with string keys, as association lists.
use mathlib.Core.Path.{◌≡◌, refl}
use mathlib.Core.Bool.{Bool}
use mathlib.Core.Logic.{inl, inr}
use mathlib.Core.Option.{Option, none, some}
use mathlib.Core.List.{List, [], ◌∷◌}
use native.Mathlib.Omega.{arith}
use Prim.Native.String.{String}
use text.Mathlib.Text.{◌==◌ as str_eq}
use text.Mathlib.TextEquality.{eq_iff}
use mailhook.Common.Tests.{if◌then◌else◌, Bool-cases}

abbrev pub Entries {ℓ} : Type ℓ → Type ℓ
Entries V = List (String × V)

module _ {ℓ} {V : Type ℓ} where
  -- `delete(m, k)`
  unfoldable pub remove : String → List (String × V) → List (String × V)
  remove k [] = []
  remove k ((j, w) ∷ m) = let rest = remove k m in if str_eq j k then rest else (j, w) ∷ rest

  -- `m[k]`
  unfoldable pub lookup : String → Entries V → Option V
  lookup key [] = none
  lookup key (entry ∷ more) = if str_eq entry.0 key then some entry.1 else lookup key more

  -- A `range` loop that deletes the entries that fail the test.
  unfoldable pub retain : (V → Bool) → List (String × V) → List (String × V)
  retain p [] = []
  retain p ((j, w) ∷ m) = let rest = retain p m in if p w then (j, w) ∷ rest else rest

  -- `m[k] = v`
  unfoldable pub insert : String → V → Entries V → Entries V
  insert key new [] = (key, new) ∷ []
  insert key new (entry ∷ more) =
      let more' = insert key new more in
      if str_eq entry.0 key then (key, new) ∷ more else entry ∷ more'

  abbrev pub keep : (V → Bool) → Option V → Option V
  keep p none = none
  keep p (some v) = if p v then some v else none

  -- No key stands twice.
  abbrev pub IsMap : List (String × V) → Type ℓ
  IsMap [] = Unit
  IsMap ((k, v) ∷ m) = (lookup k m ≡ none) × IsMap m

  pub lookup-insert :
      (key other : String) (new : V) (table : Entries V)
      → lookup other (insert key new table)
        ≡ (if str_eq key other then some new else lookup other table)
  unfolding insert lookup
  lookup-insert key other new [] = ground arith
  lookup-insert key other new (entry ∷ more) = ground (
    lookup-insert key other new more,
    eq_iff entry.0 key,
    eq_iff entry.0 other,
    eq_iff key other,
    arith,
  )

  pub lookup-remove :
      (k j : String) (m : List (String × V))
      → lookup j (remove k m) ≡ (if str_eq k j then none else lookup j m)
  unfolding lookup remove
  lookup-remove k j [] = ground arith
  lookup-remove k j ((i, w) ∷ m) =
      ground (arith, eq_iff k j, eq_iff i k, eq_iff i j, lookup-remove k j m)

  lookup-retain-none :
      (p : V → Bool) (j : String) (m : List (String × V))
      → lookup j m ≡ none
      → lookup j (retain p m) ≡ none
  unfolding lookup retain
  lookup-retain-none p j [] h = refl
  lookup-retain-none p j ((i, w) ∷ m) h = ground (arith, lookup-retain-none p j m)

  pub lookup-retain :
      (p : V → Bool) (j : String) (m : List (String × V))
      → IsMap m
      → lookup j (retain p m) ≡ keep p (lookup j m)
  unfolding lookup retain
  lookup-retain p j [] u = refl
  lookup-retain p j ((i, w) ∷ m) (n, u) =
      ground (arith, eq_iff i j, lookup-retain p j m u, lookup-retain-none p i m n)

  pub insert-IsMap : (k : String) (v : V) (m : List (String × V)) → IsMap m → IsMap (insert k v m)
  unfolding insert lookup
  insert-IsMap k v [] u = (refl, tt)
  insert-IsMap k v ((i, w) ∷ m) (n, u) =
      ground (arith, eq_iff i k, insert-IsMap k v m u, lookup-insert k i v m, eq_iff k i)

  pub remove-IsMap : (k : String) (m : List (String × V)) → IsMap m → IsMap (remove k m)
  unfolding remove
  remove-IsMap k [] u = tt
  remove-IsMap k ((i, w) ∷ m) (n, u) = ground (arith, remove-IsMap k m u, lookup-remove k i m)

  pub retain-IsMap : (p : V → Bool) (m : List (String × V)) → IsMap m → IsMap (retain p m)
  unfolding retain
  retain-IsMap p [] u = tt
  retain-IsMap p ((i, w) ∷ m) (n, u) =
      ground (arith, retain-IsMap p m u, lookup-retain-none p i m n)

  pub lookup-insert_self :
      (key : String) (new : V) (table : Entries V) → lookup key (insert key new table) ≡ some new
  lookup-insert_self key new table = ground (eq_iff key key, lookup-insert key key new table, arith)

  -- What holds of an entry holds after an insertion, if it holds of the new value.
  pub lookup-insert_elim {κ} :
      (P : Option V → Type κ) (k j : String) (v : V) (m : List (String × V))
      → P (lookup j m)
      → (k ≡ j → P (some v))
      → P (lookup j (insert k v m))
  lookup-insert_elim P k j v m old new = elim (Bool-cases (str_eq k j)) [
    | inl same ↦ rw (lookup-insert, same) (new ((eq_iff k j).0 same))
    | inr other ↦ rw (lookup-insert, other) old
  ]
