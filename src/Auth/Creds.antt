-- ===== src/Auth/Creds.antt =====
-- aurweb/auth/creds.py, and the permission methods of aurweb/models/user.py and of
-- `AnonymousUser` in aurweb/auth/__init__.py.
pub mod Roles
use mprweb.Prelude.{
  ℕ, ◌≡◌, ◌⊎◌, ◌↔◌, Bool, true, false, ◌&&◌, ◌||◌, Option, some, none, List, [], ◌∷◌, arith, leb,
  elem, ◌==◌, if◌then◌else◌,
}
use mprweb.Models.{User, user_id, trusted_user_id, developer_id, trusted_user_and_dev_id}

-- The integer constants that name credentials.
pub data Credential : Type 0 where
  account_change_type account_edit account_edit_dev account_last_login account_search
        account_list_comments comment_delete comment_undelete comment_view_deleted comment_edit
        comment_pin pkgbase_adopt pkgbase_set_keywords pkgbase_delete pkgbase_disown
        pkgbase_edit_comaintainers pkgbase_flag pkgbase_list_voters pkgbase_notify pkgbase_unflag
        pkgbase_vote pkgreq_file pkgreq_close pkgreq_list tu_add_vote tu_list_votes tu_vote
        pkgbase_merge pkgbase_repology_check :
      Credential

abbrev pub user_developer_or_trusted_user : List ℕ
user_developer_or_trusted_user =
    user_id ∷ trusted_user_id ∷ developer_id ∷ trusted_user_and_dev_id ∷ []

abbrev pub trusted_user_or_dev : List ℕ
trusted_user_or_dev = trusted_user_id ∷ developer_id ∷ trusted_user_and_dev_id ∷ []

abbrev pub developer : List ℕ
developer = developer_id ∷ trusted_user_and_dev_id ∷ []

abbrev pub trusted_user : List ℕ
trusted_user = trusted_user_id ∷ trusted_user_and_dev_id ∷ []

abbrev pub cred_filters : Credential → List ℕ
cred_filters pkgbase_flag = user_developer_or_trusted_user
cred_filters pkgbase_notify = user_developer_or_trusted_user
cred_filters pkgbase_vote = user_developer_or_trusted_user
cred_filters pkgreq_file = user_developer_or_trusted_user
cred_filters pkgbase_repology_check = trusted_user
cred_filters tu_add_vote = trusted_user
cred_filters tu_vote = trusted_user
cred_filters account_edit_dev = developer
cred_filters _ = trusted_user_or_dev

-- `user in approved_users`: the approved entries are accounts or None.
abbrev pub is_approved : ℕ → List (Option ℕ) → Bool
is_approved uid [] = false
is_approved uid (none ∷ rest) = is_approved uid rest
is_approved uid (some a ∷ rest) = uid == a || is_approved uid rest

unfoldable pub has_credential : User → Credential → List (Option ℕ) → Bool
has_credential user credential approved_users =
    if is_approved user.id approved_users
    then true
    else elem user.account_type_id (cred_filters credential)

-- `request.user`: `AnonymousUser`, whose ID and account type are 0, or an account.
pub data Requester : Type 0 where
  anonymous : Requester
  account : User → Requester

unfoldable pub requester_id : Requester → ℕ
requester_id anonymous = 0
requester_id (account u) = u.id

unfoldable pub requester_type : Requester → ℕ
requester_type anonymous = 0
requester_type (account u) = u.account_type_id

unfoldable pub requester_has_credential : Requester → Credential → List (Option ℕ) → Bool
unfolding has_credential
requester_has_credential anonymous c approved = false
requester_has_credential (account u) c approved = has_credential u c approved

-- `User.can_edit_user`
unfoldable pub can_edit_user : User → User → Bool
unfolding has_credential
can_edit_user self target =
    has_credential self account_edit (some target.id ∷ [])
    && leb target.account_type_id self.account_type_id

-- A credential is granted exactly to the approved accounts and to the account types of its filter.
pub has_credential_iff :
    (u : User) (c : Credential) (approved : List (Option ℕ))
    → (has_credential u c approved ≡ true)
      ↔ ((is_approved u.id approved ≡ true) ⊎ (elem u.account_type_id (cred_filters c) ≡ true))
unfolding has_credential
has_credential_iff u c approved = ground arith
