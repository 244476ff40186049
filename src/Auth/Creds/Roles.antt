-- ===== src/Auth/Creds/Roles.antt =====
-- The credential table of aurweb/auth/creds.py read by account type, and what follows for
-- `User.can_edit_user`.
use mprweb.Prelude.{◌≤◌, ◌≡◌, ◌⊎◌, ◌↔◌, Bool, true, false, ◌||◌, [], arith, ◌==◌, if◌then◌else◌}
use mprweb.Models.{User, user_id, is_elevated, is_trusted_user, is_developer}
use mprweb.Auth.Creds.{Credential, has_credential, can_edit_user}

-- What every registered account may do.
abbrev pub is_common : Credential → Bool
is_common Credential.pkgbase_flag = true
is_common Credential.pkgbase_notify = true
is_common Credential.pkgbase_vote = true
is_common Credential.pkgreq_file = true
is_common _ = false

-- What is reserved to trusted users.
abbrev pub is_trusted_only : Credential → Bool
is_trusted_only Credential.tu_add_vote = true
is_trusted_only Credential.tu_vote = true
is_trusted_only Credential.pkgbase_repology_check = true
is_trusted_only _ = false

-- What is reserved to developers.
abbrev pub is_developer_only : Credential → Bool
is_developer_only Credential.account_edit_dev = true
is_developer_only _ = false

-- The rights of each account type, by roles in place of the table.
abbrev pub role_grants : User → Credential → Bool
role_grants u c =
    if is_common c
    then u.account_type_id == user_id || is_elevated u
    else if is_trusted_only c
    then is_trusted_user u
    else if is_developer_only c
    then is_developer u
    else is_elevated u

-- Without an approval, an account has a credential exactly when its role grants it: common
-- credentials to every registered account, three to trusted users only, one to developers only,
-- and all others to every elevated account.
pub has_credential-role_grants :
    (u : User) (c : Credential) → has_credential u c [] ≡ role_grants u c
unfolding has_credential is_elevated is_trusted_user is_developer
has_credential-role_grants u Credential.pkgbase_flag = ground arith
has_credential-role_grants u _ = ground arith

-- An account may edit another exactly when it does not rank below it, and it is the same account
-- or an elevated one.
pub can_edit_user_iff :
    (self target : User)
    → (can_edit_user self target ≡ true) ↔ (
        (target.account_type_id ≤ self.account_type_id)
        × ((self.id ≡ target.id) ⊎ (is_elevated self ≡ true)))
unfolding can_edit_user is_elevated
can_edit_user_iff self target = ground arith
