-- ===== src/Scanners/VirusTotal/Cache.antt =====
-- The cache of the answers.
use mailhook.Common.{
  Bool, true, false, String, Option, none, some, if◌then◌else◌, eq_iff, ◌≡◌, ◌≢◌, refl, sym, ap,
  arith,
}
use mailhook.Common.Dict.{lookup, lookup-insert}
use mailhook.Scanners.VirusTotal.{
  VtHashCache, Reply, no_response, not_found, other_status, undecodable, stats, World, Answer,
  Cache, is_fresh, save, ask, cached, from_cache, lookup_hash,
}

abbrev pub row_at : World → Answer → VtHashCache
row_at w a = record { positives = a.positives; total = a.total; fetched_at = w.now }

lookup-save :
    (w : World) (sha256 : String) (a : Answer) (cache : Cache)
    → w.saves sha256 ≡ true
    → lookup sha256 (save w sha256 a.positives a.total cache) ≡ some (row_at w a)
lookup-save w sha256 a cache h = rw h (rw lookup-insert (ground (arith, eq_iff sha256 sha256)))

answer_of : Option Answer → Answer
answer_of none = record { positives = 0; total = 0; source = "" }
answer_of (some a) = a

-- What the service answers is what is saved.
ask-save :
    (w : World) (sha256 : String) (r : Reply) (cache : Cache) (a : Answer)
    → (ask w sha256 r cache).0 ≡ some a
    → (ask w sha256 r cache).1 ≡ save w sha256 a.positives a.total cache
unfolding answer_of
ask-save w sha256 no_response cache a h = cc h
ask-save w sha256 not_found cache a h =
    ap (λ o. save w sha256 (answer_of o).positives (answer_of o).total cache) h
ask-save w sha256 other_status cache a h = cc h
ask-save w sha256 undecodable cache a h = cc h
ask-save w sha256 (stats m s u k) cache a h =
    ap (λ o. save w sha256 (answer_of o).positives (answer_of o).total cache) h

choice-save :
    (w : World) (sha256 : String) (row : VtHashCache) (fresh : Bool) (cache : Cache) (a : Answer)
    → (if fresh then (some (cached row), cache) else ask w sha256 (w.reply sha256) cache).0 ≡ some a
    → a.source ≢ "cache"
    → (if fresh then (some (cached row), cache) else ask w sha256 (w.reply sha256) cache).1
      ≡ save w sha256 a.positives a.total cache
unfolding answer_of
choice-save w sha256 row true cache a h ne = absurd (ne (sym (ap (λ o. (answer_of o).source) h)))
choice-save w sha256 row false cache a h ne = ask-save w sha256 (w.reply sha256) cache a h

from_cache-save :
    (w : World) (sha256 : String) (row : Option VtHashCache) (cache : Cache) (a : Answer)
    → (from_cache w sha256 row cache).0 ≡ some a
    → a.source ≢ "cache"
    → (from_cache w sha256 row cache).1 ≡ save w sha256 a.positives a.total cache
from_cache-save w sha256 none cache a h ne = ask-save w sha256 (w.reply sha256) cache a h
from_cache-save w sha256 (some row) cache a h ne =
    choice-save w sha256 row (is_fresh w row) cache a h ne

-- An answer of the service that could be saved is given again, from the cache and with no request,
-- until its time to live is over.
pub lookup_hash-again :
    (w later : World) (sha256 : String) (cache : Cache) (a : Answer)
    → (lookup_hash w sha256 cache).0 ≡ some a
    → a.source ≢ "cache"
    → w.saves sha256 ≡ true
    → is_fresh later (row_at w a) ≡ true
    → lookup_hash later sha256 (lookup_hash w sha256 cache).1
      ≡ (some (cached (row_at w a)), (lookup_hash w sha256 cache).1)
unfolding lookup_hash
lookup_hash-again w later sha256 cache a h ne saves fresh =
    rw (from_cache-save w sha256 (lookup sha256 cache) cache a h ne)
      (rw (lookup-save w sha256 a cache saves) (rw (fresh, from_cache) refl))
