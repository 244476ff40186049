-- ===== src/Pkgbase/Actions.antt =====
-- aurweb/pkgbase/actions.py: the actions on a package base, over the tables that they touch. A
-- package base is given as its row and found in the table by its ID. What an action sends is
-- returned. The popularity of aurweb/scripts/popupdate.py, a float, is left out.
pub mod Ownership
pub mod Removal
pub mod Merges
use mprweb.Prelude.{
  ℕ, String, Bool, true, false, not, ◌&&◌, Option, none, some, List, [], ◌∷◌, ◌++◌, map, filter,
  any, find?, update_where, count_where, ◌==◌, if◌then◌else◌,
}
use mprweb.Models.{
  User, PackageBase, PackageComaintainer, PackageNotification, PackageVote, PackageComment,
  PackageKeyword, PackageRequest, deletion_id, orphan_id, merge_id,
}
use mprweb.Auth.Creds.{Credential, has_credential}
use mprweb.Pkgbase.Comaintainers.{comaintainers_of, remove_comaintainer}
use mprweb.Pkgbase.Requests
use mprweb.Pkgbase.Closures.{Result, ok, err, no_recipient, ◌>>=◌}
use mprweb.Pkgbase.Requests.{Call, Notification, handle_request, update_closure_comment}
use mprweb.Pkgbase.Merging.{
  vote_following, notification_following, move_rows, drop_rows, move_comments,
}

-- Packages
pub record Package : Type 0 where
  pub id : ℕ
  pub package_base_id : ℕ
  pub name : String

pub record Db : Type 0 where
  pub bases : List PackageBase
  pub packages : List Package
  pub comaintainers : List PackageComaintainer
  pub notifications : List PackageNotification
  pub votes : List PackageVote
  pub comments : List PackageComment
  pub keywords : List PackageKeyword
  pub requests : List PackageRequest

-- The notifications of aurweb/scripts/notify.py that the actions send.
pub data Sent : Type 0 where
  disown_notification : ℕ → ℕ → Sent
  comaintainer_remove_notification : ℕ → ℕ → Sent
  adopt_notification : ℕ → ℕ → Sent
  delete_notification : ℕ → ℕ → Sent
  request_close_notification : Notification → Sent
  -- the ID of the user, of the request, its type, the ID of the base, and the target of a merge
  request_open_notification : ℕ → ℕ → String → ℕ → Option String → Sent

-- Whether an optional user ID is that of a user: `user == pkgbase.Maintainer`.
abbrev pub is_user : ℕ → Option ℕ → Bool
is_user uid none = false
is_user uid (some m) = m == uid

abbrev pub is_base : ℕ → PackageBase → Bool
is_base i b = b.id == i

abbrev pub update_base : ℕ → (PackageBase → PackageBase) → Db → Db
update_base i f db = record db { bases = update_where (is_base i) f db.bases }

abbrev pub set_maintainer : ℕ → Option ℕ → Db → Db
set_maintainer i m = update_base i (λ b. record b { maintainer = m })

abbrev pub notified : ℕ → ℕ → PackageNotification → Bool
notified uid b n = n.user_id == uid && n.package_base_id == b

unfoldable pub pkgbase_notify_instance : User → PackageBase → Db → Db
unfolding has_credential
pkgbase_notify_instance u b db =
    if has_credential u Credential.pkgbase_notify []
      && not (any (notified u.id b.id) db.notifications)
    then record db {
      notifications = db.notifications ++ record { user_id = u.id; package_base_id = b.id } ∷ [];
    }
    else db

unfoldable pub pkgbase_unnotify_instance : User → PackageBase → Db → Db
unfolding has_credential
pkgbase_unnotify_instance u b db =
    if has_credential u Credential.pkgbase_notify [] && any (notified u.id b.id) db.notifications
    then record db { notifications = filter (λ n. not (notified u.id b.id n)) db.notifications }
    else db

unfoldable pub pkgbase_unflag_instance : User → PackageBase → Db → Db
unfolding has_credential
pkgbase_unflag_instance u b db =
    if has_credential u Credential.pkgbase_unflag (b.flagger ∷ b.maintainer ∷ [])
    then update_base b.id
        (λ c. record c { out_of_date_ts = none; flagger = none; flagger_comment = "" }) db
    else db

-- The maintainer steps down in favour of the first comaintainer, if there is one. The notification to
-- that one is made in the transaction, and fails for a suspended account.
unfoldable pub step_down :
    (ℕ → Bool) → ℕ → PackageBase → List PackageComaintainer → Db → Result (Db × List Sent)
step_down suspended uid b [] db =
    ok (set_maintainer b.id none db, disown_notification uid b.id ∷ [])
step_down suspended uid b (c ∷ cs) db =
    if suspended c.users_id
    then err no_recipient
    else ok (
      set_maintainer b.id (some c.users_id)
          (record db { comaintainers = remove_comaintainer c db.comaintainers }),
      disown_notification uid b.id ∷ comaintainer_remove_notification c.users_id b.id ∷ [],
    )

abbrev pub close_notifications : List Notification → List Sent
close_notifications = map request_close_notification

unfoldable pub pkgbase_disown_instance : Call → User → PackageBase → Db → Result (Db × List Sent)
unfolding step_down has_credential
pkgbase_disown_instance call u b db =
    if is_user u.id b.maintainer
    then step_down call.suspended u.id b (comaintainers_of b.id db.comaintainers) db
    else if has_credential u Credential.pkgbase_disown []
    then (do
      (requests, closed) ← handle_request call orphan_id b none db.requests
      ok (
        set_maintainer b.id none (record db { requests = requests }),
        disown_notification u.id b.id ∷ close_notifications closed,
      ))
    else ok (db, disown_notification u.id b.id ∷ [])

unfoldable pub pkgbase_adopt_instance : User → PackageBase → Db → Db × List Sent
pkgbase_adopt_instance u b db =
    (set_maintainer b.id (some u.id) db, adopt_notification u.id b.id ∷ [])

-- `db.delete(pkgbase)`: the rows that cascade go too, and requests lose their reference.
unfoldable pub delete_base : ℕ → Db → Db
delete_base i db = record {
  bases = filter (λ b. not (is_base i b)) db.bases;
  packages = filter (λ p. not (p.package_base_id == i)) db.packages;
  comaintainers = filter (λ c. not (c.package_base_id == i)) db.comaintainers;
  notifications = drop_rows i db.notifications;
  votes = drop_rows i db.votes;
  comments = filter (λ c. not (c.package_base_id == i)) db.comments;
  keywords = filter (λ k. not (k.package_base_id == i)) db.keywords;
  requests =
      update_where (λ r. elim r.package_base_id [ none ↦ false | some j ↦ j == i ])
        (λ r. record r { package_base_id = none }) db.requests;
}

unfoldable pub pkgbase_delete_instance :
    Call → User → PackageBase → String → Db → Result (Db × List Sent)
pkgbase_delete_instance call u b comments db = do
  (requests, closed) ← handle_request call deletion_id b none db.requests
  commented ← update_closure_comment b deletion_id comments none requests
  ok (
    delete_base b.id (record db { requests = commented }),
    close_notifications closed ++ delete_notification u.id b.id ∷ [],
  )

-- `popupdate.run_single`: the number of votes of one base.
unfoldable pub run_single : ℕ → Db → Db
run_single i db =
    update_base i
      (λ b. record b {
        num_votes = count_where (λ (v : PackageVote). v.package_base_id == i) db.votes;
      })
      db

-- The comments, and the followers that the target does not have, move to the target.
unfoldable pub migrate : ℕ → ℕ → Db → Db
migrate from to db = record db {
  comments = move_comments from to db.comments;
  notifications = move_rows from to db.notifications;
  votes = move_rows from to db.votes;
}

unfoldable pub pkgbase_merge_instance :
    Call → User → PackageBase → PackageBase → Db → Result (Db × List Sent)
unfolding migrate run_single
pkgbase_merge_instance call u b target db = do
  (requests, closed) ← handle_request call merge_id b (some target) db.requests
  ok (
    delete_base b.id
        (run_single target.id (migrate b.id target.id (record db { requests = requests }))),
    close_notifications closed,
  )
