-- ===== src/Routes/Removal.antt =====
-- aurweb/routers/pkgbase.py: deleting a package base, and merging it into another.
use mprweb.Prelude.{String, Bool, not, ◌&&◌, Option, none, some, [], ◌==◌, str_eq, if◌then◌else◌}
use mprweb.Models.{PackageBase, PackageRequest, pending_id, deletion_id, merge_id}
use mprweb.Auth.Creds.{Credential, has_credential}
use mprweb.Pkgbase.Closures.{ok, err}
use mprweb.Pkgbase.Requests.{is_about, set_closure_comment, update_closure_comment}
use mprweb.Pkgbase.Actions.{Db, pkgbase_delete_instance, pkgbase_merge_instance}
use mprweb.Routes.{
  Visit, Reply, rejected, see_other, crashed, unauthorized, base_page, page, answer, redirect,
  with_base, get_pkgbase, next_or, call_of, acted,
}

abbrev pub is_pending_deletion : PackageBase → PackageRequest → Bool
is_pending_deletion b r = is_about b r && r.status == pending_id && r.req_type_id == deletion_id

-- The comment of the form becomes that of the pending deletion requests.
abbrev pub comment_deletions : PackageBase → String → Db → Db
comment_deletions b comments db =
    if str_eq comments ""
    then db
    else record db { requests = set_closure_comment comments (is_pending_deletion b) db.requests }

-- The comments are committed before the action, whose failure leaves them.
abbrev pub delete_found : Visit → String → Bool → String → Db → PackageBase → Reply
delete_found v name confirm comments db b =
    if not (has_credential v.user Credential.pkgbase_delete [])
    then redirect (base_page name) db
    else if not confirm
    then answer (rejected "pkgbase/delete.html" "check the confirmation checkbox") db
    else let commented = comment_deletions b comments db in
      acted (see_other (page "/packages")) commented
        (pkgbase_delete_instance (call_of v) v.user b comments commented)

unfoldable pub pkgbase_delete_post : Visit → String → Bool → String → Db → Reply
pkgbase_delete_post v name confirm comments db =
    with_base v name db (delete_found v name confirm comments db)

-- The merge once both bases are known.
abbrev pub merge_bases : Visit → PackageBase → PackageBase → String → Option String → Db → Reply
merge_bases v b target comments next db =
    elim (update_closure_comment b merge_id comments (some target) db.requests) [
      | err e ↦ answer (crashed e) db
      | ok requests ↦
          let commented = record db { requests = requests } in
          acted (see_other (next_or (base_page target.name) next)) commented
            (pkgbase_merge_instance (call_of v) v.user b target commented)
    ]

abbrev pub merge_named : Visit → String → String → Option String → PackageBase → Db → Reply
merge_named v into comments next b db = elim (get_pkgbase v.providers into db.bases) [
  | none ↦ answer (rejected "pkgbase/merge.html" "cannot find the target") db
  | some target ↦
      if b.id == target.id
      then answer (rejected "pkgbase/merge.html" "cannot merge with itself") db
      else merge_bases v b target comments next db
]

abbrev pub merge_found : Visit → String → String → Bool → Option String → Db → PackageBase → Reply
merge_found v into comments confirm next db b =
    if not (has_credential v.user Credential.pkgbase_merge [])
    then answer unauthorized db
    else if not confirm
    then answer (rejected "pkgbase/merge.html" "check the confirmation checkbox") db
    else merge_named v into comments next b db

unfoldable pub pkgbase_merge_post :
    Visit → String → String → String → Bool → Option String → Db → Reply
pkgbase_merge_post v name into comments confirm next db =
    with_base v name db (merge_found v into comments confirm next db)
