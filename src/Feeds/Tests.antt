-- ===== src/Feeds/Tests.antt =====
-- The index at concrete feeds.
use mailhook.Common.{String, List, [], ◌∷◌, Option, none, some, if◌then◌else◌, str_eq, refl}
use mailhook.Feeds.Index.{IsIndexed, refresh-IsIndexed}
use mailhook.Feeds.Lookup.{refreshed}
use mailhook.Feeds.{UrlLib, Manager, new_manager, refresh}

-- Every URL has the host "evil.example" and the path "/a".
abbrev lib : UrlLib
lib = record { parse = λ u. some ("evil.example", "/a"); to_lower = λ s. s }

abbrev outage : String → Option (List String)
outage name = none

abbrev phishing : String → Option (List String)
phishing name = if str_eq name "openphish" then some ("http://evil.example/a" ∷ []) else none

start : IsIndexed lib new_manager
unfolding new_manager
start = record { union = λ x. refl; no_empty = refl }

refresh-IsIndexed_example : IsIndexed lib (refresh lib 5 phishing new_manager)
refresh-IsIndexed_example = refresh-IsIndexed lib 5 phishing new_manager start

abbrev twice : Manager
twice = refreshed lib ((5, phishing) ∷ (6, outage) ∷ []) new_manager
