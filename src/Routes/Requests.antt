-- ===== src/Routes/Requests.antt =====
-- aurweb/routers/pkgbase.py and aurweb/pkgbase/validate.py: filing a request about a package base,
-- and aurweb/routers/requests.py: closing one.
pub mod Filing
use mprweb.Prelude.{
  ◌or_else◌, require, ℕ, ◌+◌, suc, String, Bool, true, false, not, ◌&&◌, Option, none, some, List,
  [], ◌∷◌, ◌++◌, find?, update_where, leb, ◌==◌, str_eq, if◌then◌else◌,
}
use mprweb.Models.{
  User, PackageBase, PackageRequest, pending_id, accepted_id, rejected_id, deletion_id, orphan_id,
  merge_id,
}
use mprweb.Auth.Creds.{Credential, has_credential}
use mprweb.Pkgbase.Closures.{Result, ok, err}
use mprweb.Pkgbase.Requests.{Call, Notification}
use mprweb.Pkgbase.Actions.{
  Db, Sent, request_open_notification, request_close_notification, is_user, set_maintainer,
  pkgbase_delete_instance,
}
use mprweb.Routes.{
  Visit, Reply, Response, Location, rejected, see_other, crashed, bad_request, not_found, page,
  base_page, answer, redirect, with_base, call_of,
}

-- `types` of the route
abbrev pub request_type : String → Option ℕ
request_type type =
    if str_eq type "deletion"
    then some deletion_id
    else if str_eq type "merge"
    then some merge_id
    else if str_eq type "orphan"
    then some orphan_id
    else none

-- The errors of aurweb/pkgbase/validate.py
pub data ValidationError : Type 0 where
  empty_comments empty_target unknown_target same_base : ValidationError

abbrev pub check_target : List PackageBase → PackageBase → Option String → Option ValidationError
check_target bases b none = some empty_target
check_target bases b (some into) =
    require (not (str_eq into "")) empty_target
    or_else elim (find? (λ (t : PackageBase). str_eq t.name into) bases) [
      | none ↦ some unknown_target
      | some t ↦ require (not (t.id == b.id)) same_base
    ]

-- `validate.request`
unfoldable pub validate_request :
    List PackageBase → PackageBase → String → String → Option String → Option ValidationError
validate_request bases b type comments merge_into =
    require (not (str_eq comments "")) empty_comments
    or_else (if str_eq type "merge" then check_target bases b merge_into else none)

abbrev pub filed_request : Visit → PackageBase → ℕ → Option String → String → PackageRequest
filed_request v b kind merge_into comments = record {
  id = v.next_id;
  req_type_id = kind;
  package_base_id = some b.id;
  package_base_name = b.name;
  merge_base_name = merge_into;
  users_id = v.user.id;
  comments = comments;
  closure_comment = "";
  request_ts = v.now;
  closed_ts = none;
  closed_uid = none;
  status = pending_id;
}

abbrev pub non_empty : Option String → Option String
non_empty none = none
non_empty (some s) = if str_eq s "" then none else some s

abbrev pub opened : Visit → PackageBase → String → Option String → Sent
opened v b type merge_into =
    request_open_notification v.user.id v.next_id type b.id (non_empty merge_into)

-- `ood_ts and (now - ood_ts) >= auto_orphan_age`
abbrev pub is_flagged_long : Visit → PackageBase → Bool
is_flagged_long v b = elim b.out_of_date_ts [
  | none ↦ false
  | some ts ↦ not (ts == 0) && leb (v.auto_orphan_age + ts) v.now
]

-- `(now - pkgbase.SubmittedTS) <= auto_delete_age`
abbrev pub is_new : Visit → PackageBase → Bool
is_new v b = leb v.now (v.auto_delete_age + b.submitted_ts)

abbrev pub is_request : ℕ → PackageRequest → Bool
is_request i r = r.id == i

abbrev pub accepted_db : Visit → Db → Db
accepted_db v db = record db {
  requests =
      update_where (is_request v.next_id) (λ r. record r { status = accepted_id }) db.requests;
}

-- The request is accepted on the spot, and the base has no maintainer any more.
abbrev pub auto_orphan : Visit → PackageBase → Db → Db
auto_orphan v b db = set_maintainer b.id none (accepted_db v db)

abbrev pub auto_deleted : Response → Db → Sent → Result (Db × List Sent) → Reply
auto_deleted done db first (err e) = record { response = crashed e; db = db; sent = first ∷ [] }
auto_deleted done db first (ok (after, sent)) = record {
  response = done;
  db = after;
  sent = first ∷ sent;
}

-- The request has been stored and announced.
unfoldable pub settle_filed : Visit → PackageBase → String → String → Option String → Db → Reply
settle_filed v b type comments merge_into db =
    let done = see_other (page "/packages") in
    let first = opened v b type merge_into in
    if str_eq type "orphan" && is_flagged_long v b
    then record {
      response = done;
      db = auto_orphan v b db;
      sent =
          first
          ∷ request_close_notification
              (record { recipient = v.user.id; request = v.next_id; status = accepted_id })
          ∷ [];
    }
    else if str_eq type "deletion" && is_user v.user.id b.maintainer && is_new v b
    then auto_deleted done db first (
        pkgbase_delete_instance (record (call_of v) { next_id = suc v.next_id }) v.user b comments
          db)
    else record { response = done; db = db; sent = first ∷ [] }

abbrev pub filed_db : Visit → PackageBase → ℕ → Option String → String → Db → Db
filed_db v b kind merge_into comments db = record db {
  requests = db.requests ++ filed_request v b kind merge_into comments ∷ [];
}

abbrev pub file_found : Visit → String → Option String → String → Db → PackageBase → Reply
file_found v type merge_into comments db b = elim (request_type type) [
  | none ↦ answer (rejected "pkgbase/request.html" "invalid type") db
  | some kind ↦ elim (validate_request db.bases b type comments merge_into) [
    | some e ↦ answer (rejected "pkgbase/request.html" "invalid request") db
    | none ↦ settle_filed v b type comments merge_into (filed_db v b kind merge_into comments db)
  ]
]

unfoldable pub pkgbase_request_post : Visit → String → String → Option String → String → Db → Reply
pkgbase_request_post v name type merge_into comments db =
    with_base v name db (file_found v type merge_into comments db)

-- `request_close_post`: the request is rejected.
unfoldable pub request_close_post : Visit → ℕ → String → Db → Reply
request_close_post v i comments db = elim (find? (is_request i) db.requests) [
  | none ↦ answer not_found db
  | some r ↦
      if has_credential v.user Credential.pkgreq_close (some r.users_id ∷ [])
      then record {
        response = see_other (page "/requests");
        db = record db {
          requests =
              update_where (is_request i)
                (λ q. record q {
                  closed_uid = some v.user.id;
                  closure_comment = comments;
                  closed_ts = some v.now;
                  status = rejected_id;
                })
                db.requests;
        };
        sent =
            request_close_notification
              (record { recipient = v.user.id; request = i; status = rejected_id })
            ∷ [];
      }
      else redirect (page "/") db
]
