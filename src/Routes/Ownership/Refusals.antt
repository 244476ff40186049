-- ===== src/Routes/Ownership/Refusals.antt =====
-- What a disown that is refused leaves in the tables.
use mprweb.Prelude.{
  ℕ, ◌≡◌, refl, ap, ◌∙◌, String, Bool, true, false, ◌&&◌, ◌||◌, Option, some, none, List, [], ◌∷◌,
  ◌==◌, str_eq, Bool-cases, inl, inr, arith,
}
use mprweb.Models.{User, PackageBase, PackageRequest, orphan_id}
use mprweb.Auth.Creds.{Credential, has_credential}
use mprweb.Pkgbase.Closures.{ok, err, no_due_request}
use mprweb.Pkgbase.Requests.{
  Call, is_about, is_due, is_commented, set_closure_comment, update_closure_comment,
  verify_orphan_request, handle_request,
}
use mprweb.Pkgbase.Actions.{Db, is_user, pkgbase_disown_instance}
use mprweb.Routes.{Visit, rejected, answer, get_pkgbase, with_base, call_of}
use mprweb.Routes.Ownership.{disowned, disown_base, disown_found, pkgbase_disown_post}

verify-commented :
    (idle now : ℕ) (b : PackageBase) (comments : String) (p : PackageRequest → Bool)
    (rows : List PackageRequest)
    → verify_orphan_request idle now b (set_closure_comment comments p rows)
      ≡ verify_orphan_request idle now b rows
unfolding verify_orphan_request
verify-commented idle now b comments p [] = refl
verify-commented idle now b comments p (r ∷ rs) = elim (Bool-cases (p r)) [
  | inl e ↦ rw e (
      ap (λ (t : Bool). (is_about b r && r.req_type_id == orphan_id && is_due idle now r) || t)
        (verify-commented idle now b comments p rs))
  | inr e ↦ rw e (
      ap (λ (t : Bool). (is_about b r && r.req_type_id == orphan_id && is_due idle now r) || t)
        (verify-commented idle now b comments p rs))
]

abbrev pub commented_db : PackageBase → String → Db → Db
commented_db b comments db = record db {
  requests = set_closure_comment comments (is_commented b orphan_id none) db.requests;
}

undue-refused :
    (call : Call) (u : User) (b : PackageBase) (db : Db)
    → is_user u.id b.maintainer ≡ false
    → has_credential u Credential.pkgbase_disown [] ≡ true
    → verify_orphan_request call.idle_time call.now b db.requests ≡ false
    → pkgbase_disown_instance call u b db ≡ err no_due_request
unfolding pkgbase_disown_instance handle_request
undue-refused call u b db other trusted undue = rw other (rw trusted (rw undue refl))

approved_too :
    (u : User) (c : Credential) (a : Option ℕ)
    → has_credential u c [] ≡ true
    → has_credential u c (a ∷ []) ≡ true
unfolding has_credential
approved_too u c a h = ground arith

commented :
    (b : PackageBase) (comments : String) (rows : List PackageRequest)
    → str_eq comments "" ≡ false
    → update_closure_comment b orphan_id comments none rows
      ≡ ok (set_closure_comment comments (is_commented b orphan_id none) rows)
unfolding update_closure_comment
commented b comments rows given = rw given refl

-- A Trusted User or Developer who disowns the base of someone else without a due orphan request is
-- refused, but the comment of the form has been stored before: every pending orphan request about
-- the base has it as its closure comment afterwards, and nothing else has changed.
pub refused_disown_comments :
    (v : Visit) (name comments : String) (db : Db) (b : PackageBase)
    → get_pkgbase v.providers name db.bases ≡ some b
    → is_user v.user.id b.maintainer ≡ false
    → has_credential v.user Credential.pkgbase_disown [] ≡ true
    → str_eq comments "" ≡ false
    → verify_orphan_request v.idle_time v.now b db.requests ≡ false
    → pkgbase_disown_post v name comments true db
      ≡ answer
          (rejected "pkgbase/disown.html" "no due existing orphan requests to accept")
          (commented_db b comments db)
unfolding pkgbase_disown_post
refused_disown_comments v name comments db b known other trusted given undue =
    let undue_still =
      verify-commented v.idle_time v.now b comments (is_commented b orphan_id none) db.requests
      ∙ undue in
    let allowed = approved_too v.user Credential.pkgbase_disown b.maintainer trusted in
    rw (with_base, known)
      (rw (disown_found, allowed)
        (rw (disown_base, commented b comments db.requests given)
          (ap (disowned name (commented_db b comments db)) (
            undue-refused (call_of v) v.user b (commented_db b comments db) other trusted
              undue_still))))
