-- ===== src/Auth/Login/Outcome.antt =====
-- What `login` returns, for every outcome of its tries.
use mprweb.Prelude.{
  ◌↔◌, ℕ, zero, suc, ◌+◌, ◌<◌, ◌≤◌, ◌≡◌, ◌⊎◌, inl, inr, refl, ap, sym, ◌∙◌, ◌==◌, ==_iff, String,
  Bool, true, false, ◌||◌, Option, some, none, arith, Bool-cases,
}
use mprweb.Models.{User, Session}
use mprweb.Auth.Login.{
  Hashing, Tries, Account, denied, integrity_error, logged_in, valid_password, login, login_tries,
  login_once, returned_sid, renew_session, max_tries,
}

-- Every commit from try i on, n of them, conflicts.
abbrev pub AllConflict : Tries → ℕ → ℕ → Type 0
AllConflict t n i = (k : ℕ) → i ≤ k → k < i + n → t.conflict k ≡ true

AllConflict-suc :
    (t : Tries) (n i : ℕ) → t.conflict i ≡ true → AllConflict t n (i + 1) → AllConflict t (suc n) i
AllConflict-suc t n i e all k lo hi = elim (Bool-cases (k == i)) [
  | inl same ↦ rw ((==_iff k i).0 same) e
  | inr other ↦ all k (ground arith) (omega arith)
]

-- The session, if there is one, is the account's own.
abbrev pub IsOwned : Account → Type 0
IsOwned a = (s : Session) → a.session ≡ some s → s.users_id ≡ a.user.id

-- An account as a try at time `now` leaves it: `sid` is its session.
pub record IsFresh (uid : ℕ) (ip : String) (now : ℕ) (sid : String) (a : Account) : Type 0 where
  pub same_user : a.user.id ≡ uid
  pub login_time : a.user.last_login ≡ now
  pub login_ip : a.user.last_login_ip ≡ some ip
  pub own_session :
      a.session ≡ some (record { users_id = uid; session_id = sid; last_update_ts = now })

renew_session-fields :
    (uid : ℕ) (sid : String) (now : ℕ) (o : Option Session)
    → ((s : Session) → o ≡ some s → s.users_id ≡ uid)
    → renew_session uid sid now o ≡ record {
      users_id = uid;
      session_id = (renew_session uid sid now o).session_id;
      last_update_ts = now;
    }
unfolding renew_session
renew_session-fields uid sid now none own = refl
renew_session-fields uid sid now (some s) own = ground (arith, own s refl)

login_once-IsFresh :
    (ip : String) (now : ℕ) (sid : String) (a : Account)
    → IsOwned a
    → IsFresh a.user.id ip now (returned_sid (login_once ip now sid a)) (login_once ip now sid a)
unfolding login_once
login_once-IsFresh ip now sid a own = record {
  same_user = refl;
  login_time = refl;
  login_ip = refl;
  own_session = ap some (renew_session-fields a.user.id sid now a.session own);
}

-- The loop either finds a try that commits, or every try conflicts.
pub login_tries-cases :
    (t : Tries) (ip : String) (n i : ℕ) (stored a : Account)
    → IsOwned stored
    → IsOwned a
    → stored.user.id ≡ a.user.id
    → (AllConflict t n i × (login_tries t ip n i stored a ≡ integrity_error))
      ⊎ ((k : ℕ) × (done : Account) × (sid : String) × (i ≤ k)
          × (k < i + n)
          × (t.conflict k ≡ false)
          × (login_tries t ip n i stored a ≡ logged_in sid done)
          × IsFresh a.user.id ip (t.now k) sid done)
unfolding login_tries
login_tries-cases t ip zero i stored a own_stored own same =
    inl (λ k lo hi. absurd (omega arith), refl)
login_tries-cases t ip (suc n) i stored a own_stored own same = elim (Bool-cases (t.conflict i)) [
  | inl e ↦ elim (login_tries-cases t ip n (i + 1) stored stored own_stored own_stored refl) [
    | inl (all, r) ↦ inl (AllConflict-suc t n i e all, rw e r)
    | inr (k, done, sid, lo, hi, c, r, f) ↦
        inr (k, done, sid, omega arith, omega arith, c, rw e r, rw (← same) f)
  ]
  | inr e ↦
      let done = login_once ip (t.now i) (t.fresh_sid i) a in
      inr (
        i,
        done,
        returned_sid done,
        omega arith,
        omega arith,
        e,
        rw e refl,
        login_once-IsFresh ip (t.now i) (t.fresh_sid i) a own,
      )
]

valid_password-same_id :
    (h : Hashing) (u : User) (p : Option String) → (valid_password h u p).1.id ≡ u.id
unfolding valid_password
valid_password-same_id h u p = ground arith

-- What `login` checks before its tries.
abbrev pub MayLogIn : Hashing → Bool → String → User → Type 0
MayLogIn h banned password u =
    ((banned || u.suspended) ≡ false) × ((valid_password h u (some password)).0 ≡ true)

abbrev pub IsRefused : Hashing → Bool → String → User → Type 0
IsRefused h banned password u =
    ((banned || u.suspended) ≡ true) ⊎ ((valid_password h u (some password)).0 ≡ false)

-- A login is denied exactly when the address is banned, the account is suspended or the password
-- is wrong. Otherwise either all 36 tries conflict and the error is raised, or the first 36 tries
-- hold one that commits, and then the session ID that is returned is the one stored for this
-- account, updated at the time of that try. The session that the account has before is its own.
pub login-cases :
    (h : Hashing) (t : Tries) (banned : Bool) (ip password : String) (a : Account)
    → IsOwned a
    → ((login h t banned ip password a ≡ denied) ↔ IsRefused h banned password a.user)
      × ((IsRefused h banned password a.user × (login h t banned ip password a ≡ denied))
          ⊎ (MayLogIn h banned password a.user
              × AllConflict t max_tries 0
              × (login h t banned ip password a ≡ integrity_error))
          ⊎ (MayLogIn h banned password a.user
              × ((k : ℕ) × (done : Account) × (sid : String) × (k < max_tries)
                  × (t.conflict k ≡ false)
                  × (login h t banned ip password a ≡ logged_in sid done)
                  × IsFresh a.user.id ip (t.now k) sid done)))
unfolding login
login-cases h t banned ip password a own = elim (Bool-cases (banned || a.user.suspended)) [
  | inl e ↦ (((λ q. inl e), λ q. rw e refl), inl (inl e, rw e refl))
  | inr e ↦ elim (Bool-cases (valid_password h a.user (some password)).0) [
    | inr wrong ↦ (((λ q. inr wrong), λ q. rw (e, wrong) refl), inl (inr wrong, rw (e, wrong) refl))
    | inl right ↦
        let user = (valid_password h a.user (some password)).1 in
        let same = valid_password-same_id h a.user (some password) in
        let free : ¬ IsRefused h banned password a.user =
          λ q. elim q [ inl x ↦ absurd (cc (x)) | inr x ↦ absurd (cc (x)) ] in
        elim (login_tries-cases t ip max_tries 0 a (record a { user = user }) own
          (λ s q. own s q ∙ sym same) (sym same)) [
            | inl (all, r) ↦
                let failed : login h t banned ip password a ≡ integrity_error = rw (e, right) r in
                (
                  ((λ q. absurd (cc (q, failed))), λ q. absurd (free q)),
                  inr (inl ((e, right), all, failed)),
                )
            | inr (k, done, sid, lo, hi, c, r, f) ↦
                let passed : login h t banned ip password a ≡ logged_in sid done =
                  rw (e, right) r in
                (
                  ((λ q. absurd (cc (q, passed))), λ q. absurd (free q)),
                  inr (inr ((e, right), (k, done, sid, omega arith, c, passed, rw same at f))),
                )
          ]
  ]
]
