-- ===== src/Auth/Login/Passwords.antt =====
-- `valid_password` keeps what it accepts, and moves legacy hashes to bcrypt.
use mprweb.Prelude.{◌≡◌, String, true, some, arith}
use mprweb.Models.{User}
use mprweb.Auth.Login.{Hashing, valid_password, passes}

-- A password that is accepted is from then on accepted by bcrypt alone, whether the stored hash
-- was bcrypt's or a legacy one, and nothing but the hash of the account has changed; a refused
-- password changes nothing. The hypothesis is that bcrypt accepts a password for its own hash.
pub valid_password_upgrades :
    (h : Hashing) (u : User) (password : String)
    → ((p : String) → h.checkpw p (h.hashpw p) ≡ some true)
    → let (valid, u') = valid_password h u (some password) in
      (u' ≡ record u { passwd = u'.passwd })
      × (passes (h.checkpw password u'.passwd) ≡ valid)
      × (valid_password h u' (some password) ≡ (valid, u'))
unfolding valid_password
valid_password_upgrades h u password law = ground (arith, law password)
