-- ===== src/Feeds.antt =====
-- app/feeds/manager.go: the index of the listed URLs. A set is a list without repetitions, and the
-- mutex makes each operation atomic; the map of feeds is read in the order of its list, where Go's
-- order varies. What fetching a feed gives, and whether a row of metadata is saved, are arguments.
pub mod Index
pub mod Lookup
mod Tests
use mailhook.Common.{
  ℕ, Bool, true, false, not, ◌&&◌, ◌||◌, ◌⧺◌, String, List, [], ◌∷◌, Option, none, some,
  if◌then◌else◌, str_eq, any, length,
}
use mailhook.Common.Dict.{lookup, insert}
use mailhook.Common.Text.{trim_prefix}

-- `url.Parse`: the host name and the path, or nothing; `strings.ToLower`.
pub record UrlLib : Type 0 where
  pub parse : String → Option (String × String)
  pub to_lower : String → String

-- Membership, and insertion.
abbrev pub has : String → List String → Bool
has x set = any (str_eq x) set

unfoldable pub add : String → List String → List String
add x set = if has x set then set else x ∷ set

pub record Manager : Type 0 where
  pub index : List String
  pub feed_urls : List (String × List String)
  pub feed_counts : List (String × ℕ)
  pub last_loaded : Option ℕ

-- `New`
unfoldable pub new_manager : Manager
new_manager = record { index = []; feed_urls = []; feed_counts = []; last_loaded = none }

abbrev pub feed_names : List String
feed_names = "urlhaus" ∷ "openphish" ∷ "phishtank" ∷ "threatfox" ∷ []

unfoldable pub add_all : List String → List String → List String
add_all [] set = set
add_all (k ∷ ks) set = add_all ks (add k set)

-- `EntryCount`
unfoldable pub entry_count : Manager → ℕ
entry_count m = length m.index

abbrev pub threat_type : String → String
threat_type name =
    if str_eq name "urlhaus" || str_eq name "threatfox" then "malware" else "phishing"

-- The first feed whose set passes the test.
unfoldable pub first_feed :
    (List String → Bool) → List (String × List String) → Option (String × String)
first_feed p [] = none
first_feed p ((name, urls) ∷ more) =
    if p urls then some (name, threat_type name) else first_feed p more

-- A feed that could not be fetched keeps its previous set, if it has one.
abbrev pub retained : String → Option (List String) → Manager → Manager
retained name none m = m
retained name (some urls) m = record m {
  index = add_all urls m.index;
  feed_urls = insert name urls m.feed_urls;
}

-- "hostIndex": phishing feeds list whole hosts.
abbrev pub is_host_feed : String → Bool
is_host_feed name = not (str_eq name "urlhaus") && not (str_eq name "threatfox")

module _ (lib : UrlLib) where
  -- The key of a URL: its host without "www.", and its path.
  unfoldable pub normalize_url : String → String
  normalize_url raw_url = elim (lib.parse raw_url) [
    | none ↦ lib.to_lower raw_url
    | some (host, path) ↦ trim_prefix "www." (lib.to_lower host) ⧺ path
  ]

  -- The host of a URL, or "" where it does not parse.
  unfoldable pub host_of : String → String
  host_of raw_url = elim (lib.parse raw_url) [
    | none ↦ ""
    | some (host, _) ↦ lib.to_lower (trim_prefix "www." host)
  ]

  -- The keys under which a URL of a feed is listed.
  unfoldable pub keys_of : Bool → String → List String
  keys_of host_index raw_url =
      if str_eq (normalize_url raw_url) ""
      then []
      else if host_index && not (str_eq (host_of raw_url) "")
      then normalize_url raw_url ∷ host_of raw_url ∷ []
      else normalize_url raw_url ∷ []

  -- The loop over the URLs of a feed, which fills a set.
  unfoldable pub add_urls : Bool → List String → List String → List String
  add_urls host_index [] set = set
  add_urls host_index (u ∷ us) set = add_urls host_index us (add_all (keys_of host_index u) set)

  -- One round of the loop over the feeds, on the index, the sets and the counts being built. The
  -- previous sets serve a feed that could not be fetched.
  unfoldable pub load_feed :
      List (String × List String) → String → Option (List String) → Manager → Manager
  unfolding add_urls
  load_feed prev name (some urls) m = record m {
    index = add_urls (is_host_feed name) urls m.index;
    feed_urls = insert name (add_urls (is_host_feed name) urls []) m.feed_urls;
    feed_counts = insert name (length urls) m.feed_counts;
  }
  load_feed prev name none m = retained name (lookup name prev) m

  unfoldable pub load_feeds :
      List (String × List String)
      → (String → Option (List String))
      → List String
      → Manager
      → Manager
  load_feeds prev fetch [] m = m
  load_feeds prev fetch (name ∷ names) m =
      load_feeds prev fetch names (load_feed prev name (fetch name) m)

  -- `Refresh`, up to the feeds of hashes; the rows of metadata are left out.
  unfoldable pub refresh : ℕ → (String → Option (List String)) → Manager → Manager
  refresh now fetch m = record (load_feeds m.feed_urls fetch feed_names new_manager) {
    last_loaded = some now;
  }

  abbrev pub matches : String → List String → Bool
  matches raw_url urls =
      has (normalize_url raw_url) urls
      || (not (str_eq (host_of raw_url) "") && has (host_of raw_url) urls)

  unfoldable pub lookup_url : Manager → String → Option (String × String)
  lookup_url m raw_url = first_feed (matches raw_url) m.feed_urls

  unfoldable pub lookup_url_exact : Manager → String → Option (String × String)
  lookup_url_exact m raw_url = first_feed (has (normalize_url raw_url)) m.feed_urls

  abbrev host_listed : Manager → String → Bool
  host_listed m raw_url = elim (lib.parse raw_url) [
    | none ↦ false
    | some _ ↦ has (host_of raw_url) m.index
  ]

  -- `ContainsURL`; the flag is that a custom entry of the database matches the host or the URL.
  unfoldable pub contains_url : Bool → Manager → String → Bool
  contains_url custom m raw_url =
      has (normalize_url raw_url) m.index
      || host_listed m raw_url
      || (not (str_eq (host_of raw_url) "") && custom)
