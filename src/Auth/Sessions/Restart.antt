-- ===== src/Auth/Sessions/Restart.antt =====
-- Sessions over a restart of the daemon.
use mailhook.Common.{
  ℕ, ◌-◌, ◌≤◌, ◌<◌, false, String, List, [], ◌∷◌, Option, none, some, ◌≡◌, refl, ◌∙◌, arith,
  if◌then◌else◌, ltb, eq_iff,
}
use mailhook.Common.Dict.{lookup, insert, IsMap, lookup-insert}
use mailhook.Auth.Sessions.{
  Session, Store, Row, default_idle_timeout, is_over, new_store, persist_to_db, load_from_db,
  valid_rows, load_rows, to_row, of_row,
}
use mailhook.Auth.Sessions.Lifetime.{view}

-- Each session stands under its own token, as `Create` and `LoadFromDB` put it.
abbrev pub HasTokens : List (String × Session) → Type 0
HasTokens [] = Unit
HasTokens ((k, sess) ∷ m) = (sess.token ≡ k) × HasTokens m

-- What the restart makes of a session: the rest of its life is what it was, and it was seen now.
abbrev pub revive : ℕ → Option Session → Option Session
revive now none = none
revive now (some sess) =
    if ltb now sess.expires_at then some (record sess { last_seen_at = now }) else none

abbrev or_else : Option Session → Option Session → Option Session
or_else none o = o
or_else (some sess) o = some sess

or_else-none : (o : Option Session) → or_else o none ≡ o
or_else-none none = refl
or_else-none (some sess) = refl

load_rows-lem :
    (saved now : ℕ) (token : String) (m : List (String × Session)) (m' : List (String × Session))
    → saved ≤ now
    → HasTokens m
    → IsMap m
    → lookup token (load_rows now (valid_rows saved m) m')
      ≡ or_else (revive now (lookup token m)) (lookup token m')
unfolding load_rows valid_rows lookup
load_rows-lem saved now token [] m' le h u = refl
load_rows-lem saved now token ((k, sess) ∷ m) m' le (t, h) (n, u) =
    let added = insert sess.token (of_row now (to_row sess)) m' in
    ground (
      arith,
      eq_iff k token,
      eq_iff sess.token token,
      load_rows-lem saved now token m m' le h u,
      load_rows-lem saved now token m added le h u,
      lookup-insert sess.token token (of_row now (to_row sess)) m',
    )

-- Where both the transaction that saves the sessions and the query that loads them succeed, each
-- session stands once and under its own token, and the clock does not go back, a restart keeps each
-- session that has not expired when it is loaded, with its user, address and expiry, and counts it as
-- seen then; it brings up no other session.
pub load_from_db-persist_to_db :
    (saved now ttl : ℕ) (token : String) (s : Store) (rows : List Row)
    → saved ≤ now
    → HasTokens s.sessions
    → IsMap s.sessions
    → lookup token
        (load_from_db now false (persist_to_db saved false s rows) (new_store ttl)).sessions
      ≡ revive now (lookup token s.sessions)
unfolding load_from_db persist_to_db new_store lookup
load_from_db-persist_to_db saved now ttl token s rows le h u =
    load_rows-lem saved now token s.sessions [] le h u ∙ or_else-none _

-- A session that is refused because it was idle for over four hours is honoured again after a
-- restart, if it has not expired.
pub load_from_db_idle :
    (saved now ttl : ℕ) (token : String) (s : Store) (rows : List Row) (sess : Session)
    → saved ≤ now
    → HasTokens s.sessions
    → IsMap s.sessions
    → lookup token s.sessions ≡ some sess
    → default_idle_timeout < saved - sess.last_seen_at
    → now < sess.expires_at
    → (view saved token s ≡ none)
      × (view now token (load_from_db now false (persist_to_db saved false s rows) (new_store ttl))
          ≡ some (record sess { last_seen_at = now }))
unfolding view is_over
load_from_db_idle saved now ttl token s rows sess le h u e idle on = (
  rw e (ground arith),
  rw (load_from_db-persist_to_db saved now ttl token s rows le h u, e) (ground arith),
)
