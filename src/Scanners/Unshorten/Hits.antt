-- ===== src/Scanners/Unshorten/Hits.antt =====
-- What a link that leads to a listed one does to its message.
use mailhook.Common.{
  ℕ, suc, Bool, true, false, not, ◌&&◌, ◌||◌, String, List, [], ◌∷◌, ◌++◌, Option, none, some,
  if◌then◌else◌, ◌==◌, ◌≡◌, refl, ◌∙◌, any-middle, arith,
}
use mailhook.Email.{Email}
use mailhook.Feeds.{UrlLib, Manager}
use mailhook.Feeds.Lookup.{is_found}
use mailhook.Floats.{Floats}
use mailhook.Scanners.UrlCheck.Held.{is_held, names_link, decide_link}
use mailhook.Scanners.Unshorten.{
  Web, Followed, follow_redirects, ResolvedUrlHit, Progress, found, add_found, note, check_links,
  start, report, checked, scan,
}
use mailhook.Scanners.{Limiter}
use mailhook.Verdict.Collect.{ScanResult}
use mailhook.Verdict.{Thresholds, decide}

module _ (limiter : Limiter) (webs : ℕ → Web) (lib : UrlLib) (feeds : Manager) (max_hops : ℕ) where
  open limiter use {State, allow}

  -- A chain that ended without an error, after a redirect, at a listed URL.
  abbrev pub is_bad : Followed → Bool
  is_bad f = not f.err && not f.blocked && not (f.hops == 0) && is_found (found lib feeds f)

  unfoldable pub any_bad : ℕ → List String → Bool
  any_bad i [] = false
  any_bad i (u ∷ us) = is_bad (follow_redirects (webs i) max_hops u) || any_bad (suc i) us

  malicious-add :
      (u : String) (f : Followed) (o : Option (String × String))
      (p : Progress limiter webs lib feeds max_hops)
      → (add_found limiter webs lib feeds max_hops u f o p).malicious ≡ (p.malicious || is_found o)
  malicious-add u f none p = ground arith
  malicious-add u f (some _) p = ground arith

  malicious-note :
      (u : String) (f : Followed) (p : Progress limiter webs lib feeds max_hops)
      → (note limiter webs lib feeds max_hops u f p).malicious ≡ (p.malicious || is_bad f)
  malicious-note u f p = ground (arith, malicious-add u f (found lib feeds f) p)

  -- The limiter gives a token whenever it is asked.
  abbrev pub IsGenerous : Type 0
  IsGenerous = (tokens : State) → (allow tokens).0 ≡ true

  malicious-check_links :
      (i : ℕ) (us : List String) (p : Progress limiter webs lib feeds max_hops)
      → IsGenerous
      → (check_links limiter webs lib feeds max_hops i us p).malicious
        ≡ (p.malicious || any_bad i us)
  unfolding check_links any_bad
  malicious-check_links i [] p free = ground arith
  malicious-check_links i (u ∷ us) p free =
      rw (free p.tokens, check_links, if◌then◌else◌)
        (ground (
          arith,
          malicious-check_links (suc i) us
              (note limiter webs lib feeds max_hops u (follow_redirects (webs i) max_hops u)
                (record p { tokens = (allow p.tokens).1 }))
              free,
          malicious-note u (follow_redirects (webs i) max_hops u)
              (record p { tokens = (allow p.tokens).1 }),
        ))

  abbrev nonempty : List ResolvedUrlHit → Bool
  nonempty [] = false
  nonempty (_ ∷ _) = true

  nonempty-append :
      (hits : List ResolvedUrlHit) (h : ResolvedUrlHit) → nonempty (hits ++ h ∷ []) ≡ true
  nonempty-append [] h = refl
  nonempty-append (_ ∷ _) h = refl

  -- The flag is only set with a hit.
  abbrev IsShown : Progress limiter webs lib feeds max_hops → Type 0
  IsShown p = (p.malicious && nonempty p.hits) ≡ p.malicious

  and_right : (p q : Bool) → q ≡ true → (p && q) ≡ p
  and_right p q h = ground (arith, h)

  add_found-IsShown :
      (u : String) (f : Followed) (o : Option (String × String))
      (p : Progress limiter webs lib feeds max_hops)
      → IsShown (add_found limiter webs lib feeds max_hops u f o p)
  add_found-IsShown u f none p = and_right p.malicious _ (nonempty-append p.hits _)
  add_found-IsShown u f (some _) p = nonempty-append p.hits _

  choice-IsShown :
      (b : Bool) (p q : Progress limiter webs lib feeds max_hops)
      → IsShown p
      → IsShown q
      → IsShown (if b then p else q)
  choice-IsShown true p q h k = h
  choice-IsShown false p q h k = k

  check_links-IsShown :
      (i : ℕ) (us : List String) (p : Progress limiter webs lib feeds max_hops)
      → IsShown p
      → IsShown (check_links limiter webs lib feeds max_hops i us p)
  unfolding check_links
  check_links-IsShown i [] p h = h
  check_links-IsShown i (u ∷ us) p h =
      let f = follow_redirects (webs i) max_hops u in
      check_links-IsShown (suc i) us _ (
        choice-IsShown (allow p.tokens).0 _ _
          (choice-IsShown (f.err || (f.hops == 0 && not f.blocked)) _ _ h
            (add_found-IsShown u f (found lib feeds f) (record p { tokens = (allow p.tokens).1 })))
          h)

  module _ (fl : Floats) (marshal : List ResolvedUrlHit → List ℕ) where
    open fl use {Float}

    names-report :
        (hits : List ResolvedUrlHit) (bad : Bool)
        → names_link fl (report limiter webs lib feeds max_hops fl marshal hits bad)
          ≡ (bad && nonempty hits)
    names-report [] bad = ground arith
    names-report (_ ∷ _) bad = ground arith

    names-checked :
        (us : List String) (tokens : State)
        → IsGenerous
        → names_link fl (checked limiter webs lib feeds max_hops fl marshal us tokens).0
          ≡ any_bad 0 us
    unfolding any_bad
    names-checked [] tokens free = refl
    names-checked (u ∷ us) tokens free =
        names-report _ _
        ∙ check_links-IsShown 0 (u ∷ us) (start limiter webs lib feeds max_hops tokens) refl
        ∙ malicious-check_links 0 (u ∷ us) (start limiter webs lib feeds max_hops tokens) free

    -- Where some link leads, without an error and over at least one redirect, to a listed URL, and the
    -- limiter refuses nothing, the enabled scanner's result makes `Decide` quarantine or delete the
    -- message, whatever the other results are.
    pub decide-resolved :
        (t : Thresholds Float) (email : Email) (tokens : State)
        (before after : List (ScanResult Float))
        → IsGenerous
        → any_bad 0 email.urls ≡ true
        → is_held
            (decide fl t email (
              before
              ++ (scan limiter webs lib feeds max_hops fl marshal true email tokens).0
                ∷ after)).decision
          ≡ true
    decide-resolved t email tokens before after free h =
        let r : ScanResult Float =
          (scan limiter webs lib feeds max_hops fl marshal true email tokens).0 in
        decide_link fl t email (before ++ r ∷ after) (
          any-middle (names_link fl) before r after
            (unfold scan in names-checked email.urls tokens free ∙ h))
