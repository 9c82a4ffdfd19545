-- ===== src/Notify/Debounce.antt =====
-- The alerts of a run of calls.
use mailhook.Common.{
  ℕ, ◌+◌, ◌-◌, ◌<◌, true, false, String, List, [], ◌∷◌, some, if◌then◌else◌, ltb, ◌&&◌, ◌≡◌, refl,
  arith, str_eq, eq_iff, Bool-cases, inl, inr, ◌∙◌,
}
use mailhook.Common.Dict.{lookup, lookup-insert}
use mailhook.Notify.{hour, is_recent, notify_engine_down}

-- The number of alerts about the component among calls at given times for given components.
abbrev pub alerts : String → List (ℕ × String) → List (String × ℕ) → ℕ
alerts component [] last = 0
alerts component ((now, name) ∷ calls) last =
    let (last', posted) = notify_engine_down true now name last in
    (if posted && str_eq name component then 1 else 0) + alerts component calls last'

abbrev pub AllBefore : ℕ → List (ℕ × String) → Type 0
AllBefore end [] = Unit
AllBefore end ((now, name) ∷ calls) = (now < end) × AllBefore end calls

recent : (t now : ℕ) → now < t + hour → ltb (now - t) hour ≡ true
recent t now h = ground arith

-- A call before the hour is over neither alerts about the component nor forgets its last alert.
keeps :
    (t now : ℕ) (component name : String) (last : List (String × ℕ))
    → lookup component last ≡ some t
    → now < t + hour
    → (lookup component (notify_engine_down true now name last).0 ≡ some t)
      × (((notify_engine_down true now name last).1 && str_eq name component) ≡ false)
unfolding notify_engine_down
keeps t now component name last h early = elim (Bool-cases (str_eq name component)) [
  | inl same ↦ let e = (eq_iff name component).0 same in rw (e, h, recent t now early) (h, refl)
  | inr other ↦ elim (Bool-cases (is_recent now (lookup name last))) [
    | inl r ↦ rw r (h, refl)
    | inr r ↦ rw (r, other) (lookup-insert name component now last ∙ rw other h, refl)
  ]
]

-- Within an hour of an alert about a component there is no other about it, whatever calls for
-- whatever components come in between.
pub alerts-within_hour :
    (t : ℕ) (component : String) (calls : List (ℕ × String)) (last : List (String × ℕ))
    → lookup component last ≡ some t
    → AllBefore (t + hour) calls
    → alerts component calls last ≡ 0
alerts-within_hour t component [] last h early = refl
alerts-within_hour t component ((now, name) ∷ calls) last h (soon, early) =
    let (kept, silent) = keeps t now component name last h soon in
    let none_left =
      alerts-within_hour t component calls (notify_engine_down true now name last).0 kept early in
    rw silent (omega (arith, none_left))
