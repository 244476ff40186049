-- ===== src/Routes/Followers.antt =====
-- aurweb/routers/pkgbase.py: voting for a package base, and being notified about it.
use mprweb.Prelude.{ℕ, String, Bool, not, ◌&&◌, [], ◌∷◌, ◌++◌, any, filter, ◌==◌, if◌then◌else◌}
use mprweb.Models.{User, PackageBase, PackageVote}
use mprweb.Auth.Creds.{Credential, has_credential}
use mprweb.Pkgbase.Actions.{Db, run_single, pkgbase_notify_instance, pkgbase_unnotify_instance}
use mprweb.Routes.{Visit, Reply, base_page, base_section, redirect, with_base}

-- `PackageVote.UsersID == request.user.ID` in `pkgbase.package_votes`
abbrev pub is_vote : ℕ → ℕ → PackageVote → Bool
is_vote uid b v = v.users_id == uid && v.package_base_id == b

abbrev pub may_vote : User → Bool
may_vote u = has_credential u Credential.pkgbase_vote []

unfoldable pub add_vote : User → ℕ → PackageBase → Db → Db
unfolding run_single
add_vote u now b db = run_single b.id (record db {
  votes = db.votes ++ record { users_id = u.id; package_base_id = b.id; vote_ts = now } ∷ [];
})

unfoldable pub remove_vote : User → PackageBase → Db → Db
unfolding run_single
remove_vote u b db =
    run_single b.id (record db { votes = filter (λ v. not (is_vote u.id b.id v)) db.votes })

unfoldable pub pkgbase_vote : Visit → String → Db → Reply
pkgbase_vote v name db = with_base v name db (λ b. redirect (base_page name) (
    if may_vote v.user && not (any (is_vote v.user.id b.id) db.votes)
    then add_vote v.user v.now b db
    else db))

unfoldable pub pkgbase_unvote : Visit → String → Db → Reply
pkgbase_unvote v name db = with_base v name db (λ b. redirect (base_page name) (
    if may_vote v.user && any (is_vote v.user.id b.id) db.votes
    then remove_vote v.user b db
    else db))

unfoldable pub pkgbase_notify : Visit → String → Db → Reply
pkgbase_notify v name db =
    with_base v name db
      (λ b. redirect (base_section name "package-actions") (pkgbase_notify_instance v.user b db))

unfoldable pub pkgbase_unnotify : Visit → String → Db → Reply
pkgbase_unnotify v name db =
    with_base v name db
      (λ b. redirect (base_section name "package-actions") (pkgbase_unnotify_instance v.user b db))
