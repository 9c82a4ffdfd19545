-- ===== src/Scanners/Unshorten/Guard.antt =====
-- Which requests the redirects of a message can cause.
use mailhook.Common.{
  ℕ, zero, suc, ◌+◌, ◌≤◌, ◌||◌, Bool, true, false, String, Option, none, some, if◌then◌else◌, ◌≡◌,
  refl, ◌⊎◌, inl, inr, All, length, arith, leb, ltb, str_eq,
}
use mailhook.Scanners.Unshorten.{
  Web, Followed, Step, is_ssrf_target, stop, target_step, response_step, step, requested, follow,
  blocks_first, follow_redirects,
}

module _ (web : Web) where
  open web use {Url, parse, hostname, resolve_reference, text, is_request, head}

  -- The URL passed the check that comes before its request: the first URL's, or a redirect's.
  abbrev pub IsGuarded : String → Type 0
  IsGuarded u =
      (blocks_first web (parse u) ≡ false)
      ⊎ ((i : ℕ) × (to : Url) × (text to ≡ u) × (is_ssrf_target web i (hostname to) ≡ false))

  abbrev IsSafe : Step web → Type 0
  IsSafe (Step.next to) = IsGuarded (text to)
  IsSafe (Step.end _ _) = Unit

  redirect-IsSafe :
      (i : ℕ) (to : Url) (target : Bool)
      → is_ssrf_target web i (hostname to) ≡ target
      → IsSafe (if target then Step.end true false else Step.next to)
  redirect-IsSafe i to true e = tt
  redirect-IsSafe i to false e = inr (i, to, refl, e)

  target_step-IsSafe : (i : ℕ) (base target : Option Url) → IsSafe (target_step web i base target)
  target_step-IsSafe i none target = tt
  target_step-IsSafe i (some base) none = tt
  target_step-IsSafe i (some base) (some target) =
      redirect-IsSafe (suc i) (resolve_reference base target) _ refl

  ending-IsSafe :
      (last : Bool) (s : Step web) → IsSafe s → IsSafe (if last then Step.end false false else s)
  ending-IsSafe true s h = tt
  ending-IsSafe false s h = h

  response_step-IsSafe :
      (i : ℕ) (current : String) (response : Option (ℕ × String))
      → IsSafe (response_step web i current response)
  response_step-IsSafe i current none = tt
  response_step-IsSafe i current (some (status, location)) =
      ending-IsSafe (ltb status 300 || leb 400 status || str_eq location "") _
        (target_step-IsSafe i (parse current) (parse location))

  step-IsSafe : (i : ℕ) (current : String) → IsSafe (step web i current)
  unfolding step
  step-IsSafe i current = response_step-IsSafe i current (head i current)

  -- The requests passed the check, there are at most so many, and each redirect followed took one.
  abbrev pub IsBounded : ℕ → ℕ → Followed → Type 0
  IsBounded n hops f =
      All IsGuarded f.requests × (length f.requests ≤ n) × (f.hops ≤ hops + length f.requests)

  abbrev after : ℕ → ℕ → String → Step web → Followed
  after n hops current (Step.end blocked err) = stop web current hops blocked err
  after n hops current (Step.next to) = follow web n (suc hops) (text to)

  after-IsBounded :
      (n hops : ℕ) (current : String) (s : Step web)
      → ((u : String) → IsGuarded u → IsBounded n (suc hops) (follow web n (suc hops) u))
      → IsGuarded current
      → IsSafe s
      → IsBounded (suc n) hops (requested web current (after n hops current s))
  after-IsBounded n hops current (Step.end blocked err) ih g h =
      ((g, tt), ground arith, ground arith)
  after-IsBounded n hops current (Step.next to) ih g h =
      let (guarded, few, counted) = ih (text to) h in ((g, guarded), grind arith, grind arith)

  start-IsBounded :
      (n hops : ℕ) (current : String) (ok : Bool) (f : Followed)
      → IsBounded (suc n) hops f
      → IsBounded (suc n) hops (if ok then f else stop web current hops false true)
  start-IsBounded n hops current true f h = h
  start-IsBounded n hops current false f h = (tt, ground arith, ground arith)

  follow-IsBounded :
      (n hops : ℕ) (current : String)
      → IsGuarded current
      → IsBounded n hops (follow web n hops current)
  unfolding follow
  follow-IsBounded zero hops current g = (tt, ground arith, ground arith)
  follow-IsBounded (suc n) hops current g = start-IsBounded n hops current (is_request current) _ (
      after-IsBounded n hops current (step web hops current)
        (λ u h. follow-IsBounded n (suc hops) u h) g (step-IsSafe hops current))

  guarded_start :
      (max_hops : ℕ) (raw_url : String) (blocked : Bool)
      → blocks_first web (parse raw_url) ≡ blocked
      → IsBounded max_hops 0
          (if blocked then stop web raw_url 0 true false else follow web max_hops 0 raw_url)
  guarded_start max_hops raw_url true e = (tt, ground arith, ground arith)
  guarded_start max_hops raw_url false e = follow-IsBounded max_hops 0 raw_url (inl e)

  -- Every request that a link causes is for a URL whose host passed the check that comes before the
  -- request (a link that does not parse or has no host passes it); there are at most so many requests
  -- as the limit of hops allows, and no more redirects are counted than requests were made.
  pub follow_redirects-IsBounded :
      (max_hops : ℕ) (raw_url : String)
      → IsBounded max_hops 0 (follow_redirects web max_hops raw_url)
  unfolding follow_redirects
  follow_redirects-IsBounded max_hops raw_url = guarded_start max_hops raw_url _ refl
