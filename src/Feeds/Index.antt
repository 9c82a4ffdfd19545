-- ===== src/Feeds/Index.antt =====
-- The index holds what the feeds' sets hold.
use mailhook.Common.{
  ℕ, Bool, true, false, ◌||◌, String, List, [], ◌∷◌, Option, none, some, str_eq, eq_iff, any, All,
  ◌≡◌, refl, sym, ap, ◌∙◌, arith, Bool-cases, inl, inr,
}
use mailhook.Common.Dict.{lookup, insert, lookup-insert}
use mailhook.Feeds.{
  UrlLib, has, add, Manager, new_manager, feed_names, normalize_url, host_of, keys_of, add_all,
  add_urls, is_host_feed, load_feed, load_feeds, refresh, retained,
}

or_assoc : (a b c : Bool) → ((a || b) || c) ≡ (a || (b || c))
or_assoc a b c = ground arith

or_left_comm : (a b c : Bool) → (a || (b || c)) ≡ (b || (a || c))
or_left_comm a b c = ground arith

or_nil : (a : Bool) → (a || false) ≡ a
or_nil a = ground arith

or_same : (a b : Bool) → (a ≡ true → b ≡ true) → b ≡ (a || b)
or_same true b h = h refl
or_same false b h = refl

pub has-add : (x y : String) (set : List String) → has x (add y set) ≡ (str_eq x y || has x set)
unfolding add
has-add x y set = elim (Bool-cases (has y set)) [
  | inl e ↦ rw e (or_same (str_eq x y) (has x set) (λ h. rw ((eq_iff x y).0 h) e))
  | inr e ↦ rw e refl
]

pub has-add_all :
    (x : String) (ks set : List String) → has x (add_all ks set) ≡ (has x ks || has x set)
unfolding add_all
has-add_all x [] set = refl
has-add_all x (k ∷ ks) set =
    has-add_all x ks (add k set)
    ∙ ap (λ b. has x ks || b) (has-add x k set)
    ∙ or_left_comm (has x ks) (str_eq x k) (has x set)
    ∙ sym (or_assoc (str_eq x k) (has x ks) (has x set))

module _ (lib : UrlLib) where
  -- The text is a key of a URL of the list.
  abbrev pub is_key : Bool → String → List String → Bool
  is_key host_index x urls = any (λ u. has x (keys_of lib host_index u)) urls

  pub has-add_urls :
      (x : String) (h : Bool) (urls set : List String)
      → has x (add_urls lib h urls set) ≡ (is_key h x urls || has x set)
  unfolding add_urls
  has-add_urls x h [] set = refl
  has-add_urls x h (u ∷ us) set =
      let ks = keys_of lib h u in
      has-add_urls x h us (add_all ks set)
      ∙ ap (λ b. is_key h x us || b) (has-add_all x ks set)
      ∙ or_left_comm (is_key h x us) (has x ks) (has x set)
      ∙ sym (or_assoc (has x ks) (is_key h x us) (has x set))

-- Some feed lists the text.
abbrev pub is_in_feed : String → List (String × List String) → Bool
is_in_feed x feeds = any (λ f. has x f.1) feeds

is_in_feed-insert :
    (x name : String) (set : List String) (feeds : List (String × List String))
    → lookup name feeds ≡ none
    → is_in_feed x (insert name set feeds) ≡ (has x set || is_in_feed x feeds)
unfolding lookup insert
is_in_feed-insert x name set [] h = refl
is_in_feed-insert x name set ((j, w) ∷ feeds) h = elim (Bool-cases (str_eq j name)) [
  | inl e ↦ ground arith
  | inr e ↦ rw e (
      ap (λ b. has x w || b) (is_in_feed-insert x name set feeds (ground arith))
      ∙ or_left_comm (has x w) (has x set) (is_in_feed x feeds))
]

is_in_feed-lookup :
    (x name : String) (set : List String) (feeds : List (String × List String))
    → lookup name feeds ≡ some set
    → is_in_feed x feeds ≡ false
    → has x set ≡ false
unfolding lookup
is_in_feed-lookup x name set [] h k = ground arith
is_in_feed-lookup x name set ((j, w) ∷ feeds) h k =
    ground (arith, is_in_feed-lookup x name set feeds)

module _ (lib : UrlLib) where
  -- The index is the union of the feeds' sets, and no set holds the empty text.
  pub record IsIndexed (m : Manager) : Type 0 where
    pub union : (x : String) → has x m.index ≡ is_in_feed x m.feed_urls
    pub no_empty : is_in_feed "" m.feed_urls ≡ false

  keys_of_empty : (h : Bool) (u : String) → has "" (keys_of lib h u) ≡ false
  unfolding keys_of
  keys_of_empty h u = ground (
    arith,
    eq_iff "" (normalize_url lib u),
    eq_iff (normalize_url lib u) "",
    eq_iff "" (host_of lib u),
    eq_iff (host_of lib u) "",
  )

  is_key_empty : (h : Bool) (us : List String) → is_key lib h "" us ≡ false
  is_key_empty h [] = refl
  is_key_empty h (u ∷ us) = rw (keys_of_empty h u) (is_key_empty h us)

  retained-IsIndexed :
      (prev : List (String × List String)) (name : String) (o : Option (List String)) (m : Manager)
      → lookup name prev ≡ o
      → is_in_feed "" prev ≡ false
      → lookup name m.feed_urls ≡ none
      → IsIndexed m
      → IsIndexed (retained name o m)
  retained-IsIndexed prev name none m e p fresh v = v
  retained-IsIndexed prev name (some urls) m e p fresh v = record {
    union = λ x.
        has-add_all x urls m.index
        ∙ ap (λ b. has x urls || b) (v.union x)
        ∙ sym (is_in_feed-insert x name urls m.feed_urls fresh);
    no_empty =
        is_in_feed-insert "" name urls m.feed_urls fresh
        ∙ rw (is_in_feed-lookup "" name urls prev e p, v.no_empty) refl;
  }

  load_feed-IsIndexed :
      (prev : List (String × List String)) (name : String) (o : Option (List String)) (m : Manager)
      → is_in_feed "" prev ≡ false
      → lookup name m.feed_urls ≡ none
      → IsIndexed m
      → IsIndexed (load_feed lib prev name o m)
  unfolding load_feed
  load_feed-IsIndexed prev name (some urls) m p fresh v =
      let h = is_host_feed name in
      record {
        union = λ x.
            has-add_urls lib x h urls m.index
            ∙ ap (λ b. is_key lib h x urls || b) (v.union x)
            ∙ sym (
                is_in_feed-insert x name (add_urls lib h urls []) m.feed_urls fresh
                ∙ ap (λ b. b || is_in_feed x m.feed_urls)
                    (has-add_urls lib x h urls [] ∙ or_nil _));
        no_empty =
            is_in_feed-insert "" name (add_urls lib h urls []) m.feed_urls fresh
            ∙ rw (has-add_urls lib "" h urls [], is_key_empty h urls, v.no_empty) refl;
      }
  load_feed-IsIndexed prev name none m p fresh v =
      retained-IsIndexed prev name (lookup name prev) m refl p fresh v

  -- No feed of the list has a set yet, and none stands twice.
  abbrev pub AllFresh : List String → List (String × List String) → Type 0
  AllFresh names feeds = All (λ n. lookup n feeds ≡ none) names

  abbrev pub IsDistinct : List String → Type 0
  IsDistinct [] = Unit
  IsDistinct (n ∷ ns) = All (λ k. str_eq n k ≡ false) ns × IsDistinct ns

  AllFresh-insert :
      (name : String) (set : List String) (names : List String)
      (feeds : List (String × List String))
      → All (λ k. str_eq name k ≡ false) names
      → AllFresh names feeds
      → AllFresh names (insert name set feeds)
  AllFresh-insert name set [] feeds d f = tt
  AllFresh-insert name set (k ∷ ks) feeds (e, d) (n, f) =
      (rw (lookup-insert name k set feeds, e) n, AllFresh-insert name set ks feeds d f)

  pub AllFresh-load_feed :
      (prev : List (String × List String)) (name : String) (o : Option (List String)) (m : Manager)
      (names : List String)
      → All (λ k. str_eq name k ≡ false) names
      → AllFresh names m.feed_urls
      → AllFresh names (load_feed lib prev name o m).feed_urls
  unfolding load_feed
  AllFresh-load_feed prev name (some urls) m names d f =
      AllFresh-insert name _ names m.feed_urls d f
  AllFresh-load_feed prev name none m names d f =
      elim (lookup name prev) as (λ o. AllFresh names (retained name o m).feed_urls) [
        | none ↦ f
        | some urls ↦ AllFresh-insert name urls names m.feed_urls d f
      ]

  load_feeds-IsIndexed :
      (prev : List (String × List String)) (fetch : String → Option (List String))
      (names : List String) (m : Manager)
      → is_in_feed "" prev ≡ false
      → IsDistinct names
      → AllFresh names m.feed_urls
      → IsIndexed m
      → IsIndexed (load_feeds lib prev fetch names m)
  unfolding load_feeds
  load_feeds-IsIndexed prev fetch [] m p d f v = v
  load_feeds-IsIndexed prev fetch (n ∷ ns) m p (d, ds) (f, fs) v =
      load_feeds-IsIndexed prev fetch ns (load_feed lib prev n (fetch n) m) p ds
        (AllFresh-load_feed prev n (fetch n) m ns d fs)
        (load_feed-IsIndexed prev n (fetch n) m p f v)

  pub names-IsDistinct : IsDistinct feed_names
  names-IsDistinct = ((refl, (refl, (refl, tt))), ((refl, (refl, tt)), ((refl, tt), (tt, tt))))

  -- A refresh keeps the index in line with the sets, whatever feeds could be fetched.
  pub refresh-IsIndexed :
      (now : ℕ) (fetch : String → Option (List String)) (m : Manager)
      → IsIndexed m
      → IsIndexed (refresh lib now fetch m)
  unfolding refresh new_manager lookup
  refresh-IsIndexed now fetch m v =
      let w =
        load_feeds-IsIndexed m.feed_urls fetch feed_names new_manager v.no_empty names-IsDistinct
          (refl, (refl, (refl, (refl, tt)))) (record { union = λ x. refl; no_empty = refl }) in
      record { union = w.union; no_empty = w.no_empty }
