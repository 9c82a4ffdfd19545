-- ===== src/Auth/Sessions/Expiry.antt =====
-- A session cannot be kept beyond its lifetime.
use mailhook.Common.{
  ℕ, ◌+◌, ◌≤◌, ◌<◌, Bool, String, List, [], ◌∷◌, Option, none, some, ◌≡◌, ◌≢◌, refl, subst, sym,
  arith, str_eq, Option-cases, Bool-cases, inl, inr,
}
use mailhook.Common.Dict.{
  lookup, insert, remove, keep, IsMap, lookup-insert_elim, lookup-remove, lookup-retain,
  insert-IsMap, remove-IsMap, retain-IsMap, lookup-insert_self,
}
use mailhook.Auth.Sessions.{Session, Store, is_over, get, touch, delete, delete_all, create, sweep}
use mailhook.Auth.Sessions.Lifetime.{view, live, get-cases}

-- A call on the store; a login comes with the token that it draws.
pub data Call : Type 0 where
  create_call : String → String → String → Call
  get_call touch_call delete_call : String → Call
  delete_all_call sweep_call : Call

pub perform : ℕ → Call → Store → Store
perform now (create_call token username ip) s = (create now token username ip s).0
perform now (get_call token) s = (get now token s).0
perform now (touch_call token) s = touch now token s
perform now (delete_call token) s = delete token s
perform now delete_all_call s = delete_all s
perform now sweep_call s = sweep now s

pub perform_all : List (ℕ × Call) → Store → Store
perform_all [] s = s
perform_all ((now, c) ∷ cs) s = perform_all cs (perform now c s)

-- No login of the calls draws the token.
abbrev pub IsFresh : String → List (ℕ × Call) → Type 0
IsFresh token [] = Unit
IsFresh token ((_, create_call drawn _ _) ∷ cs) = (drawn ≢ token) × IsFresh token cs
IsFresh token ((_, _) ∷ cs) = IsFresh token cs

-- The session, if there is one, expires by the time.
abbrev EndsBy : ℕ → Option Session → Type 0
EndsBy limit none = Unit
EndsBy limit (some sess) = sess.expires_at ≤ limit

EndsBy-keep :
    (limit : ℕ) (p : Session → Bool) (o : Option Session) → EndsBy limit o → EndsBy limit (keep p o)
EndsBy-keep limit p none h = h
EndsBy-keep limit p (some sess) h = ground arith

EndsBy-remove :
    (limit : ℕ) (token other : String) (m : List (String × Session))
    → EndsBy limit (lookup other m)
    → EndsBy limit (lookup other (remove token m))
EndsBy-remove limit token other m h = elim (Bool-cases (str_eq token other)) [
  | inl same ↦ rw (lookup-remove, same) tt
  | inr differs ↦ rw (lookup-remove, differs) h
]

-- What every call keeps.
record Inv (limit : ℕ) (token : String) (s : Store) : Type 0 where
  unique : IsMap s.sessions
  ends : EndsBy limit (lookup token s.sessions)

Inv-remove :
    (limit : ℕ) (token other : String) (s : Store)
    → Inv limit token s
    → Inv limit token (record s { sessions = remove other s.sessions })
Inv-remove limit token other s i = record {
  unique = remove-IsMap other s.sessions i.unique;
  ends = EndsBy-remove limit other token s.sessions i.ends;
}

touched : ℕ → String → Store → Option Session → Store
touched now token s none = s
touched now token s (some sess) = record s {
  sessions = insert token (record sess { last_seen_at = now }) s.sessions;
}

touch-cases :
    (now : ℕ) (token : String) (s : Store) (o : Option Session)
    → lookup token s.sessions ≡ o
    → touch now token s ≡ touched now token s o
unfolding touch touched
touch-cases now token s none e = rw (e, touch) refl
touch-cases now token s (some sess) e = rw (e, touch) refl

Inv-touch :
    (limit now : ℕ) (token other : String) (s : Store)
    → Inv limit token s
    → Inv limit token (touch now other s)
unfolding touched
Inv-touch limit now token other s i = elim (Option-cases (lookup other s.sessions)) [
  | inl e ↦ subst (Inv limit token) (sym (touch-cases now other s none e)) i
  | inr (sess, e) ↦ subst (Inv limit token) (sym (touch-cases now other s (some sess) e)) (record {
    unique = insert-IsMap other _ s.sessions i.unique;
    ends =
        lookup-insert_elim (EndsBy limit) other token (record sess { last_seen_at = now })
          s.sessions i.ends (λ same. rw (← same, e) at i.ends);
  })
]

Inv-perform :
    (limit now : ℕ) (token : String) (c : Call) (cs : List (ℕ × Call)) (s : Store)
    → IsFresh token ((now, c) ∷ cs)
    → Inv limit token s
    → Inv limit token (perform now c s) × IsFresh token cs
unfolding perform create delete delete_all sweep lookup
Inv-perform limit now token (create_call drawn username ip) cs s (ne, f) i = (
  record {
    unique = insert-IsMap drawn _ s.sessions i.unique;
    ends =
        lookup-insert_elim (EndsBy limit) drawn token _ s.sessions i.ends
          (λ same. absurd (ne same));
  },
  f,
)
Inv-perform limit now token (get_call other) cs s f i = (
  elim (get-cases now other s (lookup other s.sessions) refl).1 [
    | inl same ↦ rw same i
    | inr (_, removed) ↦ rw removed (Inv-remove limit token other s i)
  ],
  f,
)
Inv-perform limit now token (touch_call other) cs s f i = (Inv-touch limit now token other s i, f)
Inv-perform limit now token (delete_call other) cs s f i = (Inv-remove limit token other s i, f)
Inv-perform limit now token delete_all_call cs s f i = (record { unique = tt; ends = tt }, f)
Inv-perform limit now token sweep_call cs s f i = (
  record {
    unique = retain-IsMap (live now) s.sessions i.unique;
    ends =
        rw (lookup-retain (live now) token s.sessions i.unique)
          (EndsBy-keep limit (live now) _ i.ends);
  },
  f,
)

Inv-perform_all :
    (limit : ℕ) (token : String) (cs : List (ℕ × Call)) (s : Store)
    → IsFresh token cs
    → Inv limit token s
    → Inv limit token (perform_all cs s)
unfolding perform_all
Inv-perform_all limit token [] s f i = i
Inv-perform_all limit token ((now, c) ∷ cs) s f i =
    let (i', f') = Inv-perform limit now token c cs s f i in
    Inv-perform_all limit token cs (perform now c s) f' i'

EndsBy-over :
    (limit now : ℕ) (o : Option Session) → limit < now → EndsBy limit o → keep (live now) o ≡ none
unfolding is_over
EndsBy-over limit now none h e = refl
EndsBy-over limit now (some sess) h e = ground arith

-- The token of a login stands for no session once the lifetime of the store has passed, whatever
-- calls come after the login, if no other login draws the same token.
pub create-perform_all :
    (start now : ℕ) (token username ip : String) (s : Store) (cs : List (ℕ × Call))
    → IsMap s.sessions
    → IsFresh token cs
    → start + s.ttl < now
    → view now token (perform_all cs (create start token username ip s).0) ≡ none
unfolding view create
create-perform_all start now token username ip s cs u f h =
    EndsBy-over (start + s.ttl) now _ h
      (Inv-perform_all (start + s.ttl) token cs _ f (record {
        unique = insert-IsMap token _ s.sessions u;
        ends = rw (lookup-insert_self token _ s.sessions) (omega arith);
      })).ends
