-- ===== src/Scanners/Domains/Young.antt =====
-- What a young domain does to its message.
use mailhook.Common.{
  ℕ, Bool, true, false, ◌||◌, String, List, [], ◌∷◌, ◌++◌, Option, none, some, leb, ◌≡◌, ◌≢◌, refl,
  ap, ◌∙◌, arith,
}
use mailhook.Email.{Email}
use mailhook.Floats.{Floats}
use mailhook.Scanners.Domains.{
  NrdHit, Cache, World, NameLib, domains_of, check_domain, age_days, add_young, check_domains,
  report, scan,
}
use mailhook.Verdict.Collect.{ScanResult, is_suspicious}
use mailhook.Verdict.Pass.{Harmless, decide-harmful}
use mailhook.Verdict.{Decision, Thresholds, decide}

module _ (lib : NameLib) where
  abbrev pub is_young : World → Option (Option ℕ) → Bool
  is_young w none = false
  is_young w (some none) = false
  is_young w (some (some t)) = leb (age_days lib w t) w.max_age_days

  -- Some domain is found to be young, the cache being what the lookups before it left.
  unfoldable pub any_young : World → List (String × String) → Cache → Bool
  any_young w [] cache = false
  any_young w (d ∷ ds) cache =
      is_young w (check_domain lib w d.0 cache).0 || any_young w ds (check_domain lib w d.0 cache).1

  module _ (fl : Floats) (marshal : List NrdHit → List ℕ) where
    open fl use {Float}

    report-add :
        (w : World) (d : String × String) (o : Option (Option ℕ)) (hits : List NrdHit)
        → is_suspicious (report lib fl marshal (add_young lib w d o hits)).verdict
          ≡ (is_young w o || is_suspicious (report lib fl marshal hits).verdict)
    report-add w d none hits = refl
    report-add w d (some none) hits = refl
    report-add w d (some (some t)) hits = ground arith

    report-any :
        (w : World) (ds : List (String × String)) (cache : Cache)
        → is_suspicious (report lib fl marshal (check_domains lib w ds cache).0).verdict
          ≡ any_young w ds cache
    unfolding check_domains any_young
    report-any w [] cache = refl
    report-any w (d ∷ ds) cache =
        report-add w d (check_domain lib w d.0 cache).0 _
        ∙ ap (λ b. is_young w (check_domain lib w d.0 cache).0 || b)
            (report-any w ds (check_domain lib w d.0 cache).1)

    report-open :
        (hits : List NrdHit)
        → is_suspicious (report lib fl marshal hits).verdict ≡ true
        → Harmless (report lib fl marshal hits).scanner (report lib fl marshal hits).verdict
        → ⊥
    report-open [] h k = ground (arith, h)
    report-open (_ ∷ _) h k = ground (arith, k)

    -- Where the domain of the sender or of a link is found to be registered within the days of the
    -- limit, the enabled scanner's result keeps `Decide` from letting the message pass, whatever the
    -- other results are.
    pub decide-young :
        (t : Thresholds Float) (w : World) (email : Email) (cache : Cache)
        (before after : List (ScanResult Float))
        → any_young w (domains_of lib email) cache ≡ true
        → (decide fl t email
            (before ++ (scan lib fl marshal w true email cache).0 ∷ after)).decision
          ≢ Decision.pass
    decide-young t w email cache before after h =
        decide-harmful fl t email before (scan lib fl marshal w true email cache).0 after (
          unfold scan in
          report-open (check_domains lib w (domains_of lib email) cache).0
            (report-any w (domains_of lib email) cache ∙ h))
