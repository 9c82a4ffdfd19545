-- ===== src/Feeds/Lookup.antt =====
-- What the lookups find, and what a refresh leaves of a feed that could not be fetched.
use mailhook.Common.{
  ℕ, Bool, true, false, not, ◌&&◌, ◌||◌, String, List, [], ◌∷◌, Option, none, some, str_eq, eq_iff,
  any, ◌≡◌, refl, sym, ap, subst, ◌∙◌, arith, Bool-cases, Option-cases, inl, inr,
}
use mailhook.Common.Dict.{lookup}
use mailhook.Feeds.Index.{is_in_feed, IsIndexed, refresh-IsIndexed}
use mailhook.Feeds.{
  UrlLib, has, Manager, new_manager, normalize_url, host_of, add_urls, is_host_feed, refresh,
  first_feed, matches, lookup_url, lookup_url_exact, host_listed, contains_url,
}

abbrev pub is_found {ℓ} : {A : Type ℓ} → Option A → Bool
is_found none = false
is_found (some p) = true

first_feed-any :
    (p : List String → Bool) (feeds : List (String × List String))
    → is_found (first_feed p feeds) ≡ any (λ f. p f.1) feeds
unfolding first_feed
first_feed-any p [] = refl
first_feed-any p ((name, urls) ∷ more) = elim (Bool-cases (p urls)) [
  | inl e ↦ rw e refl
  | inr e ↦ rw e (first_feed-any p more)
]

spread : (a b c x y : Bool) → ((a || (c && b)) || (x || (c && y))) ≡ ((a || x) || (c && (b || y)))
spread a b c x y = ground arith

any-matches :
    (lib : UrlLib) (u : String) (feeds : List (String × List String))
    → any (λ f. matches lib u f.1) feeds ≡ (
        is_in_feed (normalize_url lib u) feeds
        || (not (str_eq (host_of lib u) "") && is_in_feed (host_of lib u) feeds))
any-matches lib u [] = ground arith
any-matches lib u ((name, urls) ∷ more) =
    ap (λ b. matches lib u urls || b) (any-matches lib u more)
    ∙ spread (has (normalize_url lib u) urls) (has (host_of lib u) urls)
        (not (str_eq (host_of lib u) "")) (is_in_feed (normalize_url lib u) more)
        (is_in_feed (host_of lib u) more)

pub lookup_url-found :
    (lib : UrlLib) (m : Manager) (u : String)
    → is_found (lookup_url lib m u) ≡ (
        is_in_feed (normalize_url lib u) m.feed_urls
        || (not (str_eq (host_of lib u) "") && is_in_feed (host_of lib u) m.feed_urls))
unfolding lookup_url
lookup_url-found lib m u =
    first_feed-any (matches lib u) m.feed_urls ∙ any-matches lib u m.feed_urls

pub lookup_url_exact-found :
    (lib : UrlLib) (m : Manager) (u : String)
    → is_found (lookup_url_exact lib m u) ≡ is_in_feed (normalize_url lib u) m.feed_urls
unfolding lookup_url_exact
lookup_url_exact-found lib m u = first_feed-any (has (normalize_url lib u)) m.feed_urls

module _ (lib : UrlLib) where
  -- The manager after some refreshes, each with what its feeds gave.
  abbrev pub refreshed : List (ℕ × (String → Option (List String))) → Manager → Manager
  refreshed [] m = m
  refreshed ((now, fetch) ∷ more) m = refreshed more (refresh lib now fetch m)

  new_manager-IsIndexed : IsIndexed lib new_manager
  unfolding new_manager
  new_manager-IsIndexed = record { union = λ x. refl; no_empty = refl }

  refreshed-IsIndexed :
      (h : List (ℕ × (String → Option (List String)))) (m : Manager)
      → IsIndexed lib m
      → IsIndexed lib (refreshed h m)
  refreshed-IsIndexed [] m v = v
  refreshed-IsIndexed ((now, fetch) ∷ more) m v =
      refreshed-IsIndexed more (refresh lib now fetch m) (refresh-IsIndexed lib now fetch m v)

  host_of-none : (u : String) → lib.parse u ≡ none → host_of lib u ≡ ""
  unfolding host_of
  host_of-none u e = rw (e, host_of) refl

  host_listed-IsIndexed :
      (m : Manager) (u : String)
      → IsIndexed lib m
      → host_listed lib m u
        ≡ (not (str_eq (host_of lib u) "") && is_in_feed (host_of lib u) m.feed_urls)
  host_listed-IsIndexed m u v = elim (Option-cases (lib.parse u)) [
    | inl e ↦ rw (e, host_listed, host_of-none u e) refl
    | inr (p, e) ↦ elim (Bool-cases (str_eq (host_of lib u) "")) [
      | inl k ↦
          rw (e, host_listed, k)
            (v.union (host_of lib u)
              ∙ subst (λ x. is_in_feed x m.feed_urls ≡ false)
                  (sym ((eq_iff (host_of lib u) "").0 k)) v.no_empty)
      | inr k ↦ rw (e, host_listed, k) (v.union (host_of lib u))
    ]
  ]

  -- After any refreshes, `ContainsURL` says yes to just the URLs that `LookupURL` finds, and to those
  -- with a host that a custom entry matches.
  pub contains_url-lookup_url :
      (h : List (ℕ × (String → Option (List String)))) (custom : Bool) (u : String)
      → contains_url lib custom (refreshed h new_manager) u ≡ (
          is_found (lookup_url lib (refreshed h new_manager) u)
          || (not (str_eq (host_of lib u) "") && custom))
  unfolding contains_url lookup_url
  contains_url-lookup_url h custom u =
      let m = refreshed h new_manager in
      let v = refreshed-IsIndexed h new_manager new_manager-IsIndexed in
      ap (λ b. b || (not (str_eq (host_of lib u) "") && custom))
        (ap (λ b. b || host_listed lib m u) (v.union (normalize_url lib u))
          ∙ ap (λ b. is_in_feed (normalize_url lib u) m.feed_urls || b)
              (host_listed-IsIndexed m u v)
          ∙ sym (first_feed-any (matches lib u) m.feed_urls ∙ any-matches lib u m.feed_urls))

  -- The set of a feed after a refresh: what was fetched, or else what it was.
  abbrev pub set_after :
      List (String × List String) → String → Option (List String) → Option (List String)
  set_after prev name none = lookup name prev
  set_after prev name (some urls) = some (add_urls lib (is_host_feed name) urls [])
