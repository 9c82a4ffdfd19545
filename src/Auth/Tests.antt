-- ===== src/Auth/Tests.antt =====
-- The login limiter, the sessions and the guards at concrete values.
use mailhook.Common.{
  ℕ, true, false, ◌*◌, String, List, [], ◌∷◌, ◌++◌, none, some, ◌≡◌, refl, arith, if◌then◌else◌,
  str_eq,
}
use mailhook.Common.Dict.{lookup, keep}
use mailhook.Auth.RateLimit.{Buckets, allow}
use mailhook.Auth.RateLimit.Lockout.{record_call, sweep_call, perform_all, allow-perform_all}
use mailhook.Auth.Sessions.{Session, Store, new_store, create, get, persist_to_db, load_from_db}
use mailhook.Auth.Sessions.Lifetime.{view, is_honoured, get-is_honoured}
use mailhook.Auth.Sessions.Expiry
use mailhook.Auth.Sessions.Expiry.{create-perform_all}
use mailhook.Auth.Sessions.Restart.{revive, load_from_db-persist_to_db}
use mailhook.Auth.Middleware.{
  Net, Crypto, client_ip, extract_remote_ip, is_trusted_proxy, csrf, signature, require,
}
use mailhook.Auth.Middleware.Address.{client_ip_forwarded}
use mailhook.Auth.Middleware.Guards.{csrf_sound, require-view, reply_of}

abbrev locked : Buckets
locked = ("1.2.3.4", record { count = 5; window_start = 0; locked_until = some 900 }) ∷ []

allow-perform_all_example :
    (allow 300 "1.2.3.4"
      (perform_all ((100, record_call "1.2.3.4") ∷ (200, sweep_call) ∷ []) locked)).1
    ≡ (false, 600)
unfolding lookup
allow-perform_all_example =
    allow-perform_all 900 300 "1.2.3.4" ((100, record_call "1.2.3.4") ∷ (200, sweep_call) ∷ [])
      locked (refl, tt) refl (omega arith) (omega arith)

abbrev hour : ℕ
hour = 3_600_000_000_000

abbrev ann : Session
ann = record {
  token = "t";
  username = "ann";
  ip_addr = "1.2.3.4";
  created_at = 0;
  expires_at = 24 * hour;
  last_seen_at = 0;
}

abbrev store : Store
store = record { sessions = ("t", ann) ∷ []; ttl = 24 * hour }

get-is_honoured_example :
    ((get hour "t" store).1 ≡ keep (is_honoured hour) (lookup "t" store.sessions))
    × ((get (2 * hour) "u" (get hour "t" store).0).1 ≡ (get (2 * hour) "u" store).1)
get-is_honoured_example = get-is_honoured hour (2 * hour) "t" "u" store (omega arith)

create-perform_all_example :
    view (25 * hour) "u" (
      Expiry.perform_all
        ((hour, Expiry.touch_call "u") ∷ (2 * hour, Expiry.sweep_call) ∷ [])
        (create 5 "u" "bob" "1.2.3.5" store).0)
    ≡ none
unfolding lookup
create-perform_all_example =
    create-perform_all 5 (25 * hour) "u" "bob" "1.2.3.5" store
      ((hour, Expiry.touch_call "u") ∷ (2 * hour, Expiry.sweep_call) ∷ []) (refl, tt) tt
      (omega arith)

load_from_db-persist_to_db_example :
    lookup "t" (load_from_db hour false (persist_to_db 0 false store []) (new_store hour)).sessions
    ≡ revive hour (lookup "t" store.sessions)
unfolding lookup
load_from_db-persist_to_db_example =
    load_from_db-persist_to_db 0 hour hour "t" store [] (omega arith) (refl, tt) (refl, tt)

-- An address is its text, and a range the one address in it.
abbrev net : Net
net = record {
  Ip = String;
  Cidr = String;
  parse_ip = λ s. some s;
  contains = λ c i. str_eq c i;
  split = λ s. "6.6.6.6" ∷ s ∷ "10.0.0.2" ∷ [];
  trim_space = λ s. s;
  host = λ s. some s;
}

abbrev proxies : List String
proxies = "10.0.0.1" ∷ "10.0.0.2" ∷ []

direct : is_trusted_proxy net proxies (extract_remote_ip net "9.9.9.9") ≡ false
unfolding is_trusted_proxy extract_remote_ip
direct = refl

trusted :
    (is_trusted_proxy net proxies (extract_remote_ip net "10.0.0.1") ≡ true)
    × (is_trusted_proxy net proxies "8.8.8.8" ≡ false)
    × (is_trusted_proxy net proxies "10.0.0.2" ≡ true)
unfolding is_trusted_proxy extract_remote_ip
trusted = (refl, refl, refl)

client_ip_forwarded_example : client_ip net proxies "10.0.0.1" "8.8.8.8" ≡ "8.8.8.8"
client_ip_forwarded_example =
    client_ip_forwarded net proxies "10.0.0.1" "8.8.8.8" "8.8.8.8" ("6.6.6.6" ∷ [])
      ("10.0.0.2" ∷ []) trusted.0 (λ e. cc e) refl trusted.1 (trusted.2, tt)

-- Hex that shows nothing, and a keyed sum.
abbrev crypto : Crypto
crypto = record {
  hex_encode = λ bytes. "ab";
  hex_decode = λ s. some (1 ∷ []);
  hmac = λ key bytes. key ++ bytes;
  split_dot = λ s. some ("ab", "ab");
}

csrf_accepts : csrf crypto [] "ab" "" (some "ab.ab") ≡ true
unfolding csrf
csrf_accepts = refl

csrf_sound_example :
    (value nonce : String) × (bytes : List ℕ) × (some "ab.ab" ≡ some value)
    × (crypto.split_dot value ≡ some (nonce, signature crypto [] bytes))
    × (crypto.hex_decode nonce ≡ some bytes)
    × ((if str_eq "ab" "" then "" else "ab") ≡ nonce)
csrf_sound_example = csrf_sound crypto [] "ab" "" (some "ab.ab") csrf_accepts

require-view_example : (require hour (some "t") store).1 ≡ reply_of hour (view hour "t" store)
require-view_example = require-view hour "t" store (λ e. cc e)
