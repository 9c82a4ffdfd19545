-- ===== src/Floats.antt =====
-- The `float64` operations and the formatting verbs that the program uses. They belong to Go and
-- its `fmt` package, so the modules that need them take such a record.
use mailhook.Common.{ℕ, Bool, String}
use mailhook.Common.Int.{ℤ}

pub record Floats : Type 1 where
  pub Float : Type 0
  -- The constant n / 10 ^ k, `decimal n k`.
  pub decimal : ℕ → ℕ → Float
  pub le : Float → Float → Bool
  pub lt : Float → Float → Bool
  pub plus : Float → Float → Float
  pub minus : Float → Float → Float
  pub times : Float → Float → Float
  pub quotient : Float → Float → Float
  -- `int(x)`
  pub to_int : Float → ℤ
  -- the verbs `%.1f` and `%d`
  pub format_float : Float → String
  pub format_int : ℤ → String
