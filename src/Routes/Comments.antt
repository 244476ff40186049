-- ===== src/Routes/Comments.antt =====
-- aurweb/routers/pkgbase.py: the routes that write comments, edit, pin and delete them. The
-- rendered text of a comment is left out.
pub mod Editing
pub mod Moderation
use mprweb.Prelude.{
  ℕ, String, Bool, true, false, not, ◌&&◌, Option, none, some, List, [], ◌∷◌, ◌++◌, any, find?,
  update_where, ◌==◌, str_eq, if◌then◌else◌,
}
use mprweb.Models.{User, PackageBase, PackageComment, PackageNotification}
use mprweb.Auth.Creds.{Credential, has_credential}
use mprweb.Pkgbase.Actions.{Db, notified}
use mprweb.Routes.{
  Visit, Reply, Location, base_page, comment_anchor, bad_request, not_found, unauthorized, answer,
  redirect, with_base, next_or,
}

-- A row of the table, by its primary key.
abbrev pub is_comment : ℕ → PackageComment → Bool
is_comment i c = c.id == i

abbrev pub update_comment : ℕ → (PackageComment → PackageComment) → Db → Db
update_comment i f db = record db { comments = update_where (is_comment i) f db.comments }

-- `get_pkgbase_comment`
abbrev pub get_pkgbase_comment : PackageBase → ℕ → List PackageComment → Option PackageComment
get_pkgbase_comment b i = find? (λ c. c.package_base_id == b.id && is_comment i c)

abbrev pub with_comment : Visit → String → ℕ → Db → (PackageBase → PackageComment → Reply) → Reply
with_comment v name i db k = with_base v name db (λ b. elim (get_pkgbase_comment b i db.comments) [
  | none ↦ answer not_found db
  | some c ↦ k b c
])

abbrev pub new_comment : Visit → PackageBase → String → PackageComment
new_comment v b text = record {
  id = v.next_id;
  package_base_id = b.id;
  users_id = some v.user.id;
  comments = text;
  comment_ts = v.now;
  edited_ts = none;
  edited_users_id = none;
  del_ts = none;
  del_users_id = none;
  pinned_ts = 0;
}

-- `if enable_notifications and not request.user.notified(pkgbase)`
abbrev pub enable_for : Bool → User → PackageBase → Db → Db
enable_for enable u b db =
    if enable && not (any (notified u.id b.id) db.notifications)
    then record db {
      notifications = db.notifications ++ record { user_id = u.id; package_base_id = b.id } ∷ [];
    }
    else db

unfoldable pub pkgbase_comments_post : Visit → String → String → Bool → Db → Reply
pkgbase_comments_post v name text enable db = with_base v name db (λ b.
    if str_eq text ""
    then answer bad_request db
    else redirect (comment_anchor (base_page b.name) v.next_id) (
        enable_for enable v.user b
          (record db { comments = db.comments ++ new_comment v b text ∷ [] })))

abbrev pub edited_by : Visit → String → PackageComment → PackageComment
edited_by v text c = record c {
  comments = text;
  edited_users_id = some v.user.id;
  edited_ts = some v.now;
}

unfoldable pub pkgbase_comment_post :
    Visit → String → ℕ → String → Bool → Option String → Db → Reply
pkgbase_comment_post v name i text enable next db = with_comment v name i db (λ b c.
    if str_eq text ""
    then answer bad_request db
    else redirect (comment_anchor (next_or (base_page b.name) next) c.id) (
        if str_eq c.comments text
        then db
        else enable_for enable v.user b (update_comment i (edited_by v text) db)))

-- The four routes that change one column of a comment ask for a credential and approve an account.
abbrev pub moderate :
    Credential
    → (PackageBase → PackageComment → Option ℕ)
    → (PackageComment → PackageComment)
    → Visit
    → String
    → ℕ
    → Option String
    → Db
    → Reply
moderate credential approved change v name i next db = with_comment v name i db (λ b c.
    if has_credential v.user credential (approved b c ∷ [])
    then redirect (next_or (base_page name) next) (update_comment i change db)
    else answer unauthorized db)

abbrev pub maintainer_of_base : PackageBase → PackageComment → Option ℕ
maintainer_of_base b c = b.maintainer

abbrev pub author : PackageBase → PackageComment → Option ℕ
author b c = c.users_id

unfoldable pub pkgbase_comment_pin : Visit → String → ℕ → Option String → Db → Reply
pkgbase_comment_pin v =
    moderate Credential.comment_pin maintainer_of_base (λ c. record c { pinned_ts = v.now }) v

unfoldable pub pkgbase_comment_unpin : Visit → String → ℕ → Option String → Db → Reply
pkgbase_comment_unpin =
    moderate Credential.comment_pin maintainer_of_base (λ c. record c { pinned_ts = 0 })

unfoldable pub pkgbase_comment_delete : Visit → String → ℕ → Option String → Db → Reply
pkgbase_comment_delete v =
    moderate Credential.comment_delete author
      (λ c. record c { del_users_id = some v.user.id; del_ts = some v.now }) v

unfoldable pub pkgbase_comment_undelete : Visit → String → ℕ → Option String → Db → Reply
pkgbase_comment_undelete =
    moderate Credential.comment_undelete author
      (λ c. record c { del_users_id = none; del_ts = none })
