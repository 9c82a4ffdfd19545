-- ===== src/Notify/Tests.antt =====
-- The alerts at concrete times.
use mailhook.Common.{ℕ, String, List, [], ◌∷◌, ◌≡◌, refl, arith, some}
use mailhook.Common.Dict.{lookup}
use mailhook.Notify.Debounce.{alerts, alerts-within_hour}

abbrev last : List (String × ℕ)
last = ("clamav", 100) ∷ []

abbrev calls : List (ℕ × String)
calls = (200, "clamav") ∷ (300, "yara") ∷ (400, "clamav") ∷ []

clamav_down : lookup "clamav" last ≡ some 100
unfolding lookup
clamav_down = refl

alerts-within_hour_example : alerts "clamav" calls last ≡ 0
alerts-within_hour_example =
    alerts-within_hour 100 "clamav" calls last clamav_down
      (omega arith, (omega arith, (omega arith, tt)))
