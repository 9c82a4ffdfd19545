-- ===== src/Email/Urls/Found.antt =====
-- Which links a message keeps.
use mailhook.Common.{
  ℕ, suc, ◌≤◌, Bool, true, false, not, ◌&&◌, ◌||◌, String, List, [], ◌∷◌, ◌++◌, if◌then◌else◌,
  str_eq, eq_iff, leb, any, length, and_true, ◌≡◌, refl, ap, arith, Bool-cases, inl, inr,
}
use mailhook.Email.SafeLinks.{LinkLib, decode_safe_link}
use mailhook.Email.Urls.{
  UrlText, normalize_url, max_urls_per_email, is_new, add_new, add_decoded, add_url, add_all,
  extract_urls,
}

-- No URL stands twice.
abbrev pub IsDistinct : List String → Type 0
IsDistinct [] = Unit
IsDistinct (u ∷ us) = (any (str_eq u) us ≡ false) × IsDistinct us

length-snoc : (us : List String) (u : String) → length (us ++ u ∷ []) ≡ suc (length us)
length-snoc [] u = ground arith
length-snoc (v ∷ us) u = ap suc (length-snoc us u)

any-snoc :
    (v : String) (us : List String) (u : String)
    → any (str_eq v) (us ++ u ∷ []) ≡ (any (str_eq v) us || str_eq v u)
any-snoc v [] u = ground arith
any-snoc v (w ∷ us) u = ground (arith, any-snoc v us u)

IsDistinct-snoc :
    (us : List String) (u : String)
    → IsDistinct us
    → any (str_eq u) us ≡ false
    → IsDistinct (us ++ u ∷ [])
IsDistinct-snoc [] u d h = (refl, tt)
IsDistinct-snoc (v ∷ us) u (e, d) h = (
  ground (arith, any-snoc v us u, eq_iff u v, eq_iff v u, h, e),
  IsDistinct-snoc us u d (ground (arith, h)),
)

-- At most so many, and each once.
abbrev pub IsCapped : ℕ → List String → Type 0
IsCapped n us = (length us ≤ n) × IsDistinct us

IsCapped-snoc :
    (n : ℕ) (us : List String) (u : String)
    → IsCapped n us
    → is_new u us ≡ true
    → IsCapped (suc n) (us ++ u ∷ [])
IsCapped-snoc n us u (small, d) h =
    (ground (arith, length-snoc us u, small), IsDistinct-snoc us u d (ground (arith, h)))

below_cap :
    (us : List String)
    → leb max_urls_per_email (length us) ≡ false
    → IsCapped 100 us
    → IsCapped 99 us
below_cap us h (small, d) = (ground (arith, h), d)

choice-IsCapped :
    {A : Type 0} (n : ℕ) (b : Bool) (x y : A × List String)
    → (b ≡ true → IsCapped n x.1)
    → (b ≡ false → IsCapped n y.1)
    → IsCapped n (if b then x else y).1
choice-IsCapped n true x y h k = h refl
choice-IsCapped n false x y h k = k refl

add_new-IsCapped : (u : String) (us : List String) → IsCapped 99 us → IsCapped 100 (add_new u us)
add_new-IsCapped u us c = elim (Bool-cases (is_new u us)) [
  | inl e ↦ rw (e, if◌then◌else◌) (IsCapped-snoc 99 us u c e)
  | inr e ↦ rw (e, if◌then◌else◌) (ground (arith, c.0), c.1)
]

module _ (lib : UrlText) where
  add_decoded-IsCapped :
      (decoded : String) (us : List String)
      → IsCapped 100 us
      → IsCapped 100 (add_decoded lib decoded us).1
  add_decoded-IsCapped decoded us c =
      choice-IsCapped 100 (not (str_eq decoded "") && is_new (normalize_url lib decoded) us) _
        (true, us)
        (λ e.
          choice-IsCapped 100 (leb max_urls_per_email (length us)) (false, us)
            (true, us ++ normalize_url lib decoded ∷ []) (λ _. c)
            (λ h.
              IsCapped-snoc 99 us (normalize_url lib decoded) (below_cap us h c)
                (and_true (not (str_eq decoded "")) _ e).1))
        (λ e. c)

  module _ (links : LinkLib) where
    add_url-IsCapped :
        (raw : String) (us : List String)
        → IsCapped 100 us
        → IsCapped 100 (add_url lib links raw us).1
    unfolding add_url
    add_url-IsCapped raw us c =
        choice-IsCapped 100 (leb max_urls_per_email (length us)) (false, us) _ (λ e. c)
          (λ e.
            add_decoded-IsCapped (decode_safe_link links raw) _
              (add_new-IsCapped (normalize_url lib raw) us (below_cap us e c)))

    list-IsCapped :
        (b : Bool) (us vs : List String)
        → IsCapped 100 us
        → IsCapped 100 vs
        → IsCapped 100 (if b then us else vs)
    list-IsCapped true us vs c d = c
    list-IsCapped false us vs c d = d

    add_all-IsCapped :
        (raws us : List String) → IsCapped 100 us → IsCapped 100 (add_all lib links raws us)
    unfolding add_all
    add_all-IsCapped [] us c = c
    add_all-IsCapped (raw ∷ raws) us c =
        let next = add_url-IsCapped raw us c in
        list-IsCapped (add_url lib links raw us).0 _ _ (add_all-IsCapped raws _ next) next

    -- A message keeps at most 100 links from its text and its HTML, and none twice.
    pub extract_urls-IsCapped :
        (matches attributes : List String)
        → IsCapped 100 (extract_urls lib links matches attributes)
    unfolding extract_urls
    extract_urls-IsCapped matches attributes =
        let text = add_all-IsCapped matches [] (ground arith, tt) in
        list-IsCapped _ _ _ (add_all-IsCapped _ _ text) text
