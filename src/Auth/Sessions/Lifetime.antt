-- ===== src/Auth/Sessions/Lifetime.antt =====
-- Which tokens are honoured, and until when: the store as a function of the clock and the token.
use mailhook.Common.{
  ℕ, ◌+◌, ◌*◌, ◌≤◌, leb, ◌&&◌, Bool, not, String, List, Option, none, some, ◌≡◌, ◌⊎◌, refl, ap, ◌∙◌,
  sym, arith, if◌then◌else◌, str_eq, eq_iff, Bool-cases, inl, inr,
}
use mailhook.Common.Dict.{lookup, remove, keep, IsMap, lookup-insert, lookup-remove, lookup-retain}
use mailhook.Auth.Sessions.{Session, Store, is_over, get, delete, create, sweep}

abbrev pub live : ℕ → Session → Bool
live now sess = not (is_over now sess)

-- The session that the token stands for at the time: it has not expired, and was seen in the last
-- four hours.
unfoldable pub view : ℕ → String → Store → Option Session
view now token s = keep (live now) (lookup token s.sessions)

keep-live :
    (now later : ℕ) (o : Option Session)
    → now ≤ later
    → keep (live later) (keep (live now) o) ≡ keep (live later) o
unfolding is_over
keep-live now later none h = refl
keep-live now later (some sess) h = ground arith

pub get-cases :
    (now : ℕ) (token : String) (s : Store) (o : Option Session)
    → lookup token s.sessions ≡ o
    → ((get now token s).1 ≡ keep (live now) o)
      × (((get now token s).0 ≡ s)
          ⊎ ((keep (live now) o ≡ none)
              × ((get now token s).0 ≡ record s { sessions = remove token s.sessions })))
unfolding get
get-cases now token s none e = (rw (e, get) refl, inl (rw (e, get) refl))
get-cases now token s (some sess) e = elim (Bool-cases (is_over now sess)) [
  | inl over ↦ (rw (e, get, over) refl, inr (rw over refl, rw (e, get, over) refl))
  | inr on ↦ (rw (e, get, on) refl, inl (rw (e, get, on) refl))
]

view-remove :
    (now later : ℕ) (token other : String) (m : List (String × Session))
    → now ≤ later
    → keep (live now) (lookup token m) ≡ none
    → keep (live later) (lookup other (remove token m)) ≡ keep (live later) (lookup other m)
view-remove now later token other m h dead = elim (Bool-cases (str_eq token other)) [
  | inl same ↦
      rw (lookup-remove, same)
        (sym (
          ap (λ k. keep (live later) (lookup k m)) (sym ((eq_iff token other).0 same))
          ∙ sym (keep-live now later (lookup token m) h)
          ∙ ap (keep (live later)) dead))
  | inr differs ↦ rw (lookup-remove, differs) refl
]

-- `Get` answers with the view, which its clean-up of a dead session leaves as it is at any later time.
pub get-view :
    (now later : ℕ) (token other : String) (s : Store)
    → now ≤ later
    → ((get now token s).1 ≡ view now token s)
      × (view later other (get now token s).0 ≡ view later other s)
unfolding view
get-view now later token other s h =
    let (answer, after) = get-cases now token s (lookup token s.sessions) refl in
    (
      answer,
      elim after [
        | inl same ↦ ap (λ (t : Store). keep (live later) (lookup other t.sessions)) same
        | inr (dead, removed) ↦
            ap (λ (t : Store). keep (live later) (lookup other t.sessions)) removed
            ∙ view-remove now later token other s.sessions h dead
      ],
    )

-- `Sweep` is never seen either.
pub sweep-view :
    (now later : ℕ) (token : String) (s : Store)
    → IsMap s.sessions
    → now ≤ later
    → view later token (sweep now s) ≡ view later token s
unfolding view sweep
sweep-view now later token s u h =
    ap (keep (live later)) (lookup-retain (live now) token s.sessions u)
    ∙ keep-live now later (lookup token s.sessions) h

-- After a login its token stands for the new session, and every other token for what it did.
pub create-view :
    (now : ℕ) (token username ip other : String) (s : Store)
    → view now other (create now token username ip s).0 ≡ (
        if str_eq token other
        then some (record {
          token = token;
          username = username;
          ip_addr = ip;
          created_at = now;
          expires_at = now + s.ttl;
          last_seen_at = now;
        })
        else view now other s)
unfolding view create is_over
create-view now token username ip other s = ground (
  arith,
  lookup-insert token other
      (record {
        token = token;
        username = username;
        ip_addr = ip;
        created_at = now;
        expires_at = now + s.ttl;
        last_seen_at = now;
      })
      s.sessions,
)

-- After a logout its token stands for nothing, and every other token for what it did.
pub delete-view :
    (now : ℕ) (token other : String) (s : Store)
    → view now other (delete token s) ≡ (if str_eq token other then none else view now other s)
unfolding view delete
delete-view now token other s = ground (arith, lookup-remove token other s.sessions)

-- Until when a session is honoured: its expiry, and four hours after it was last seen.
abbrev pub is_honoured : ℕ → Session → Bool
is_honoured now sess =
    leb now sess.expires_at && leb now (sess.last_seen_at + 4 * 60 * 60 * 1_000_000_000)

keep-live-is_honoured :
    (now : ℕ) (o : Option Session) → keep (live now) o ≡ keep (is_honoured now) o
unfolding is_over
keep-live-is_honoured now none = refl
keep-live-is_honoured now (some sess) = ground arith

-- `Get` answers with the stored session of the token exactly where the time is not after its expiry
-- nor more than four hours after it was last seen, and else with nothing; and a `Get` of any token
-- that follows it directly, at the same time or later, answers as if the first had not been made.
pub get-is_honoured :
    (now later : ℕ) (token other : String) (s : Store)
    → now ≤ later
    → ((get now token s).1 ≡ keep (is_honoured now) (lookup token s.sessions))
      × ((get later other (get now token s).0).1 ≡ (get later other s).1)
unfolding view
get-is_honoured now later token other s h =
    let (answer, after) = get-view now later token other s h in
    let again = (get-view later later other other (get now token s).0 (omega arith)).0 in
    let alone = (get-view later later other other s (omega arith)).0 in
    (answer ∙ keep-live-is_honoured now (lookup token s.sessions), again ∙ after ∙ sym alone)
