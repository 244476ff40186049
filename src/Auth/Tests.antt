-- ===== src/Auth/Tests.antt =====
-- Accounts, sessions and requests as examples, and runs of the code of aurweb/auth on them.
use mprweb.Prelude.{
  Option, if◌then◌else◌, ℕ, ◌+◌, ◌≡◌, ◌≢◌, ◌≤◌, ◌<◌, ◌⊎◌, ◌↔◌, refl, String, Bool, true, false,
  some, none, List, [], ◌∷◌, find?, arith, ltb, str_eq, ◌==◌,
}
use Prim.Native.String.{◌++◌}
use mprweb.Models.{User, Session, user_id, trusted_user_id, trusted_user_and_dev_id}
use mprweb.Auth.Creds.{Credential, has_credential}
use mprweb.Auth.Creds.Roles.{role_grants, has_credential-role_grants}
use mprweb.Auth.Sessions.{
  Timeouts, SessionCookies, unauthenticated, authenticated, timeout, has_sid, authenticate,
  check_session,
}
use mprweb.Auth.Sessions.Expiry.{HasUniqueSids, authenticated_iff}
use mprweb.Auth.Login.{
  Hashing, Tries, Account, denied, integrity_error, logged_in, valid_password, login, login_tries,
  login_once, max_tries, Cookie,
}
use mprweb.Auth.Login.Outcome.{AllConflict, IsFresh, IsRefused, MayLogIn, login-cases}
use mprweb.Auth.Required.{RouteRequest, next_page}
use mprweb.Auth.Required.Targets.{IsReturnPage, next_page_iff}

abbrev account_of : ℕ → String → ℕ → String → String → User
account_of i name kind passwd salt = record {
  id = i;
  username = name;
  email = "";
  account_type_id = kind;
  suspended = false;
  passwd = passwd;
  salt = salt;
  inactivity_ts = 0;
  last_login = 0;
  last_login_ip = none;
  last_ssh_login = 0;
  last_ssh_login_ip = none;
}

abbrev alice : User
alice = account_of 7 "alice" user_id "H:secret" ""

abbrev bob : User
bob = account_of 8 "bob" trusted_user_id "saltsecret" "salt"

abbrev carol : User
carol = account_of 9 "carol" trusted_user_and_dev_id "H:secret" ""

has_credential-role_grants_example :
    has_credential bob Credential.pkgbase_delete [] ≡ role_grants bob Credential.pkgbase_delete
has_credential-role_grants_example = has_credential-role_grants bob Credential.pkgbase_delete

bob_may_delete : has_credential bob Credential.pkgbase_delete [] ≡ true
unfolding has_credential
bob_may_delete = refl

abbrev limits : Timeouts
limits = record { login_timeout = 7200; persistent_cookie_timeout = 2592000 }

abbrev sessions : List Session
sessions =
    record { users_id = 7; session_id = "abc"; last_update_ts = 1000 }
    ∷ record { users_id = 8; session_id = "def"; last_update_ts = 90000 }
    ∷ []

abbrev cookies_of : String → SessionCookies
cookies_of sid = record { aursid = some sid; aurremember = none }

authenticated_iff_example :
    ((authenticate limits (alice ∷ bob ∷ []) 95000 (cookies_of "def") sessions).0
      ≡ authenticated bob)
    ↔ ((sid : String) × (s : Session) × (some "def" ≡ some sid)
        × (sid ≢ "")
        × (find? (has_sid sid) sessions ≡ some s)
        × (95000 ≤ s.last_update_ts + timeout limits none)
        × (find? (λ (v : User). v.id == s.users_id) (alice ∷ bob ∷ []) ≡ some bob))
authenticated_iff_example =
    authenticated_iff limits (alice ∷ bob ∷ []) 95000 (cookies_of "def") sessions bob

sessions-HasUniqueSids : HasUniqueSids sessions
sessions-HasUniqueSids = (refl, (refl, tt))

def_granted :
    (authenticate limits (alice ∷ bob ∷ []) 95000 (cookies_of "def") sessions).0 ≢ unauthenticated
unfolding authenticate check_session timeout
def_granted h = ground (arith, h)

-- A scheme in which the hash of a password is the password with a mark.
abbrev marking : Hashing
marking = record {
  checkpw = λ p hash. some (str_eq hash ("H:" ++ p));
  hashpw = λ p. "H:" ++ p;
  md5 = λ p. p;
}

abbrev bob_account : Account
bob_account = record {
  user = bob;
  session = some (record { users_id = 8; session_id = "old"; last_update_ts = 100 });
}

-- The first two tries conflict.
abbrev two_conflicts : Tries
two_conflicts = record { now = λ i. 5000 + i; fresh_sid = λ i. "new"; conflict = λ i. ltb i 2 }

login-cases_example :
    ((login marking two_conflicts false "::1" "secret" bob_account ≡ denied)
      ↔ IsRefused marking false "secret" bob)
    × ((IsRefused marking false "secret" bob
          × (login marking two_conflicts false "::1" "secret" bob_account ≡ denied))
        ⊎ (MayLogIn marking false "secret" bob
            × AllConflict two_conflicts max_tries 0
            × (login marking two_conflicts false "::1" "secret" bob_account ≡ integrity_error))
        ⊎ (MayLogIn marking false "secret" bob
            × ((k : ℕ) × (done : Account) × (sid : String) × (k < max_tries)
                × (two_conflicts.conflict k ≡ false)
                × (login marking two_conflicts false "::1" "secret" bob_account
                    ≡ logged_in sid done)
                × IsFresh 8 "::1" (two_conflicts.now k) sid done)))
login-cases_example =
    login-cases marking two_conflicts false "::1" "secret" bob_account (λ s e. ground arith)

login_on_third_try :
    login marking two_conflicts false "::1" "secret" bob_account
    ≡ logged_in "new" (record {
      user = record bob { last_login = 5002; last_login_ip = some "::1" };
      session = some (record { users_id = 8; session_id = "new"; last_update_ts = 5002 });
    })
unfolding login login_tries login_once valid_password
login_on_third_try = refl

abbrev boolean_text : Bool → String
boolean_text true = "True"
boolean_text false = "False"

abbrev keeping : ℕ → Cookie → Option String
keeping t c = if ltb t c.expires then some c.value else none

-- A vote that is posted from the page of a package.
abbrev vote_request : RouteRequest
vote_request = record {
  authenticated = false;
  account_type_id = 0;
  method = "POST";
  path = "/pkgbase/x/vote";
  referer = some "https://aur.archlinux.org/packages/x";
}

next_page_iff_example :
    (next_page "https://aur.archlinux.org" vote_request ≡ some "/packages/x")
    ↔ IsReturnPage "https://aur.archlinux.org" vote_request "/packages/x"
next_page_iff_example = next_page_iff "https://aur.archlinux.org" vote_request "/packages/x"

-- A Referer of the site with two slashes makes a page that a browser takes for another host.
abbrev crafted_request : RouteRequest
crafted_request = record vote_request { referer = some "https://aur.archlinux.org//evil.example/x" }

other_host : next_page "https://aur.archlinux.org" crafted_request ≡ some "//evil.example/x"
unfolding next_page
other_host = refl
