-- ===== src/Auth/Sessions/Expiry.antt =====
-- What an authenticated request proves about its session, and what becomes of an expired one.
use mprweb.Prelude.{
  ℕ, ◌+◌, ◌≤◌, ◌<◌, ◌≡◌, ◌≢◌, ◌↔◌, refl, String, false, not, Option, none, some, List, [], ◌∷◌,
  find?, find?-none, any-filter-false, any, arith, ◌==◌, str_eq, eq_iff, Option-cases, Bool-cases,
  inl, inr,
}
use mprweb.Models.{User, Session}
use mprweb.Auth.Sessions.{
  Timeouts, SessionCookies, unauthenticated, authenticated, timeout, has_sid, delete_session,
  check_session, authenticate,
}

-- What the branches after the lookup grant, and when.
check_session_iff :
    (users : List User) (now limit : ℕ) (found : Option Session) (sessions : List Session)
    (u : User)
    → ((check_session users now limit found sessions).0 ≡ authenticated u) ↔ (
        (s : Session) × (found ≡ some s)
        × (now ≤ s.last_update_ts + limit)
        × (find? (λ (v : User). v.id == s.users_id) users ≡ some u))
unfolding check_session
check_session_iff users now limit none sessions u = (λ h. absurd (cc), λ (s, e, _, _). absurd (cc))
check_session_iff users now limit (some s) sessions u =
    (λ h. (s, refl, ground arith, ground arith), λ (t, e, fresh, owner). ground arith)

-- An account is authenticated exactly when the request has a non-empty session cookie, the session
-- that it names was updated within the timeout, and the account is that session's user.
pub authenticated_iff :
    (cfg : Timeouts) (users : List User) (now : ℕ) (cookies : SessionCookies)
    (sessions : List Session) (u : User)
    → ((authenticate cfg users now cookies sessions).0 ≡ authenticated u) ↔ (
        (sid : String) × (s : Session) × (cookies.aursid ≡ some sid)
        × (sid ≢ "")
        × (find? (has_sid sid) sessions ≡ some s)
        × (now ≤ s.last_update_ts + timeout cfg cookies.aurremember)
        × (find? (λ (v : User). v.id == s.users_id) users ≡ some u))
unfolding authenticate
authenticated_iff cfg users now cookies sessions u =
    (granted, λ (sid, s, e, ne, f, fresh, owner). regranted sid s e ne f fresh owner)
  where
    limit : ℕ
    limit = timeout cfg cookies.aurremember

    granted :
        (authenticate cfg users now cookies sessions).0 ≡ authenticated u
        → ((sid : String) × (s : Session) × (cookies.aursid ≡ some sid)
            × (sid ≢ "")
            × (find? (has_sid sid) sessions ≡ some s)
            × (now ≤ s.last_update_ts + timeout cfg cookies.aurremember)
            × (find? (λ (v : User). v.id == s.users_id) users ≡ some u))
    granted h = elim (Option-cases cookies.aursid) [
      | inl e ↦ absurd (ground arith)
      | inr (sid, e) ↦ elim (Bool-cases (str_eq sid "")) [
        | inl empty ↦ absurd (ground arith)
        | inr nonempty ↦
            let (s, f, fresh, owner) =
              (check_session_iff users now limit (find? (has_sid sid) sessions) sessions u).0
                (ground arith) in
            (sid, s, e, ground (arith, eq_iff sid ""), f, fresh, owner)
      ]
    ]

    regranted :
        (sid : String) (s : Session)
        → (cookies.aursid ≡ some sid)
        → (sid ≢ "")
        → (find? (has_sid sid) sessions ≡ some s)
        → (now ≤ s.last_update_ts + timeout cfg cookies.aurremember)
        → (find? (λ (v : User). v.id == s.users_id) users ≡ some u)
        → (authenticate cfg users now cookies sessions).0 ≡ authenticated u
    regranted sid s e ne f fresh owner = ground (
      arith,
      eq_iff sid "",
      (check_session_iff users now limit (find? (has_sid sid) sessions) sessions u).1
          (s, f, fresh, owner),
    )

-- Two rows of the Sessions table never share a session ID (a unique index).
abbrev pub HasUniqueSids : List Session → Type 0
HasUniqueSids [] = Unit {0}
HasUniqueSids (s ∷ rest) = (any (has_sid s.session_id) rest ≡ false) × HasUniqueSids rest

-- Once a row is deleted, its session ID names no session.
delete_session-forgets :
    (sid : String) (s : Session) (sessions : List Session)
    → HasUniqueSids sessions
    → find? (has_sid sid) sessions ≡ some s
    → find? (has_sid sid) (delete_session s sessions) ≡ none
delete_session-forgets sid s [] uniq f = refl
delete_session-forgets sid s (x ∷ xs) uniq f = elim (Bool-cases (has_sid sid x)) [
  | inl e ↦
      let same = (eq_iff x.session_id sid).0 e in
      let others : any (has_sid sid) xs ≡ false = rw same at uniq.0 in
      ground (
        arith,
        find?-none (has_sid sid) (delete_session s xs)
            (any-filter-false (has_sid sid) (λ t. not (t.users_id == s.users_id)) xs others),
      )
  | inr e ↦ ground (arith, delete_session-forgets sid s xs uniq.1)
]

-- A request that names an expired session is not authenticated and deletes it, and from then on
-- no request with that session cookie is authenticated, at whatever time and with whatever
-- AURREMEMBER cookie. No two sessions share an ID.
pub expired_for_good :
    (cfg : Timeouts) (users : List User) (now : ℕ) (cookies : SessionCookies)
    (sessions : List Session) (sid : String) (s : Session) (later : ℕ) (remember : Option String)
    → HasUniqueSids sessions
    → cookies.aursid ≡ some sid
    → find? (has_sid sid) sessions ≡ some s
    → sid ≢ ""
    → s.last_update_ts + timeout cfg cookies.aurremember < now
    → let (answer, remaining) = authenticate cfg users now cookies sessions in
      (answer ≡ unauthenticated)
      × (remaining ≡ delete_session s sessions)
      × (authenticate cfg users later
            (record { aursid = some sid; aurremember = remember })
            remaining
          ≡ (unauthenticated, remaining))
unfolding authenticate check_session
expired_for_good cfg users now cookies sessions sid s later remember uniq e f ne old = (
  ground (arith, eq_iff sid ""),
  ground (arith, eq_iff sid ""),
  ground (arith, eq_iff sid "", delete_session-forgets sid s sessions uniq f),
)

-- A request that is not refused for its age leaves the Sessions table as it is.
pub authenticate-keeps :
    (cfg : Timeouts) (users : List User) (now : ℕ) (cookies : SessionCookies)
    (sessions : List Session)
    → (authenticate cfg users now cookies sessions).0 ≢ unauthenticated
    → (authenticate cfg users now cookies sessions).1 ≡ sessions
unfolding authenticate check_session
authenticate-keeps cfg users now cookies sessions h = ground arith
