-- ===== src/Auth/Sessions.antt =====
-- app/auth/session.go: the session store, and how it is saved over a restart. `generateToken` is
-- an argument of `create`, and the database's table is a list of rows.
pub mod Lifetime
pub mod Restart
pub mod Expiry
use mailhook.Common.{
  ℕ, ◌+◌, ◌-◌, ◌*◌, Bool, true, false, not, ◌||◌, String, List, [], ◌∷◌, ◌++◌, Option, none, some,
  if◌then◌else◌, ltb,
}
use mailhook.Common.Dict.{lookup, insert, remove, retain}

pub record Session : Type 0 where
  pub token : String
  pub username : String
  pub ip_addr : String
  pub created_at : ℕ
  pub expires_at : ℕ
  pub last_seen_at : ℕ

pub record Store : Type 0 where
  pub sessions : List (String × Session)
  pub ttl : ℕ

-- Four hours, in nanoseconds.
abbrev pub default_idle_timeout : ℕ
default_idle_timeout = 14_400_000_000_000

pub new_store : ℕ → Store
new_store ttl = record { sessions = []; ttl = ttl }

pub create : ℕ → String → String → String → Store → Store × String
create now token username ip s =
    let sess : Session = record {
      token = token;
      username = username;
      ip_addr = ip;
      created_at = now;
      expires_at = now + s.ttl;
      last_seen_at = now;
    } in
    (record s { sessions = insert token sess s.sessions }, token)

-- `now.After(sess.ExpiresAt) || now.Sub(sess.LastSeenAt) > defaultIdleTimeout`
unfoldable pub is_over : ℕ → Session → Bool
is_over now sess = ltb sess.expires_at now || ltb default_idle_timeout (now - sess.last_seen_at)

pub get : ℕ → String → Store → Store × Option Session
get now token s = elim (lookup token s.sessions) [
  | none ↦ (s, none)
  | some sess ↦
      if is_over now sess
      then (record s { sessions = remove token s.sessions }, none)
      else (s, some sess)
]

pub touch : ℕ → String → Store → Store
touch now token s = elim (lookup token s.sessions) [
  | none ↦ s
  | some sess ↦ record s { sessions = insert token (record sess { last_seen_at = now }) s.sessions }
]

pub delete_all : Store → Store
delete_all s = record s { sessions = [] }

pub delete : String → Store → Store
delete token s = record s { sessions = remove token s.sessions }

pub sweep : ℕ → Store → Store
sweep now s = record s { sessions = retain (λ sess. not (is_over now sess)) s.sessions }

-- app/db/models.go, `Session`: a row of the table.
pub record Row : Type 0 where
  pub token : String
  pub username : String
  pub ip_addr : String
  pub created_at : ℕ
  pub expires_at : ℕ

abbrev pub to_row : Session → Row
to_row sess = record {
  token = sess.token;
  username = sess.username;
  ip_addr = sess.ip_addr;
  created_at = sess.created_at;
  expires_at = sess.expires_at;
}

-- The rows that `PersistToDB` collects.
pub valid_rows : ℕ → List (String × Session) → List Row
valid_rows now [] = []
valid_rows now ((_, sess) ∷ m) =
    let rest = valid_rows now m in if ltb now sess.expires_at then to_row sess ∷ rest else rest

-- The table after `PersistToDB`: its rows are deleted first, in the same transaction, which keeps
-- the old ones if the insertion fails.
pub persist_to_db : ℕ → Bool → Store → List Row → List Row
persist_to_db now fails s rows = if fails then rows else valid_rows now s.sessions

abbrev pub of_row : ℕ → Row → Session
of_row now r = record {
  token = r.token;
  username = r.username;
  ip_addr = r.ip_addr;
  created_at = r.created_at;
  expires_at = r.expires_at;
  last_seen_at = now;
}

-- The query keeps the rows with `expires_at > now`.
pub load_rows : ℕ → List Row → List (String × Session) → List (String × Session)
load_rows now [] m = m
load_rows now (r ∷ rows) m =
    load_rows now rows (if ltb now r.expires_at then insert r.token (of_row now r) m else m)

-- `LoadFromDB`: where the query fails it gives no rows, and the error is ignored.
pub load_from_db : ℕ → Bool → List Row → Store → Store
load_from_db now fails rows s =
    if fails then s else record s { sessions = load_rows now rows s.sessions }
