-- ===== src/Routes/Consistency/Endings.antt =====
-- The routes that disown, delete and merge package bases, and those on requests, keep the tables
-- consistent.
use mprweb.Prelude.{
  ℕ, suc, ◌≡◌, refl, String, Bool, false, not, ◌&&◌, Option, some, none, List, [], ◌∷◌, find?, ◌==◌,
  str_eq, Option-cases, inl, inr,
}
use mprweb.Models.{PackageBase, orphan_id, merge_id}
use mprweb.Auth.Creds.{Credential, has_credential}
use mprweb.Pkgbase.Closures.{Result, ok, err, no_due_request}
use mprweb.Pkgbase.Requests.{update_closure_comment}
use mprweb.Pkgbase.Actions.{
  Db, Sent, is_user, pkgbase_disown_instance, pkgbase_delete_instance, pkgbase_merge_instance,
}
use mprweb.Routes.{Visit, Response, acted, see_other, page, get_pkgbase, call_of}
use mprweb.Routes.Ownership.{disowned, disown_base, disown_found, pkgbase_disown_post}
use mprweb.Routes.Removal.{
  comment_deletions, pkgbase_delete_post, pkgbase_merge_post, merge_bases, merge_named,
  delete_found, merge_found,
}
use mprweb.Routes.Requests.{
  request_type, validate_request, is_request, is_flagged_long, is_new, filed_db, accepted_db,
  file_found, settle_filed, auto_deleted, pkgbase_request_post, request_close_post,
}
use mprweb.Routes.Consistency.{IsConsistent, IsConsistent-same}
use mprweb.Routes.Consistency.Actions.{
  Result-cases, Leaves, Leaves-acted, IsConsistent-set_maintainer, disown-Leaves, delete-Leaves,
  merge-Leaves,
}
use mprweb.Routes.Consistency.Keeping.{Keeps, keeps, Keeps-if, IsConsistent-if, Keeps-with_base}

module _ (v : Visit) (name : String) (db : Db) (c : IsConsistent db) where
  pub Keeps-disowned :
      (d : Db) (r : Result (Db × List Sent)) → IsConsistent d → Leaves r → Keeps (disowned name d r)
  Keeps-disowned d (ok (after, sent)) k h = keeps h
  Keeps-disowned d (err no_due_request) k h = keeps k
  Keeps-disowned d (err e) k h = keeps k

  pub Keeps-disown_base :
      (comments : String) (b : PackageBase) → Keeps (disown_base v name comments b db)
  Keeps-disown_base comments b =
      elim (Result-cases (update_closure_comment b orphan_id comments none db.requests)) [
        | inr (x, p) ↦ rw (disown_base, disown_found, p) (keeps c)
        | inl (requests, p) ↦
            let commented = record db { requests = requests } in
            let k = IsConsistent-same db commented refl refl refl c in
            rw (disown_base, disown_found, p)
              (Keeps-disowned commented (pkgbase_disown_instance (call_of v) v.user b commented) k
                (disown-Leaves (call_of v) v.user b commented k))
      ]

  pub Keeps-disown :
      (comments : String) (confirm : Bool) → Keeps (pkgbase_disown_post v name comments confirm db)
  unfolding pkgbase_disown_post
  Keeps-disown comments confirm =
      Keeps-with_base v name db c (disown_found v name comments confirm db) (λ b.
        Keeps-if (not (has_credential v.user Credential.pkgbase_disown (b.maintainer ∷ []))) _ _
          (λ e. keeps c)
          (λ e. Keeps-if (not confirm) _ _ (λ f. keeps c) (λ f. Keeps-disown_base comments b)))

  pub Keeps-commented :
      (comments : String) (b : PackageBase)
      → Keeps (
          acted (see_other (page "/packages")) (comment_deletions b comments db) (
            pkgbase_delete_instance
              (call_of v)
              v.user
              b
              comments
              (comment_deletions b comments db)))
  Keeps-commented comments b =
      let commented = comment_deletions b comments db in
      let k =
        IsConsistent-if (str_eq comments "") _ _ (λ g. c)
          (λ g. IsConsistent-same db _ refl refl refl c) in
      keeps (
        Leaves-acted _ commented (pkgbase_delete_instance (call_of v) v.user b comments commented) k
          (delete-Leaves (call_of v) v.user b comments commented k))

  pub Keeps-delete :
      (confirm : Bool) (comments : String) → Keeps (pkgbase_delete_post v name confirm comments db)
  unfolding pkgbase_delete_post
  Keeps-delete confirm comments =
      Keeps-with_base v name db c (delete_found v name confirm comments db) (λ b.
        Keeps-if (not (has_credential v.user Credential.pkgbase_delete [])) _ _ (λ e. keeps c)
          (λ e. Keeps-if (not confirm) _ _ (λ f. keeps c) (λ f. Keeps-commented comments b)))

  pub Keeps-merge_bases :
      (b target : PackageBase) (comments : String) (url : Option String)
      → (b.id == target.id) ≡ false
      → Keeps (merge_bases v b target comments url db)
  Keeps-merge_bases b target comments url ne =
      elim (Result-cases (update_closure_comment b merge_id comments (some target) db.requests)) [
        | inr (x, p) ↦ rw (merge_bases, p) (keeps c)
        | inl (requests, p) ↦
            let commented = record db { requests = requests } in
            let k = IsConsistent-same db commented refl refl refl c in
            rw (merge_bases, p)
              (keeps (
                Leaves-acted _ commented
                  (pkgbase_merge_instance (call_of v) v.user b target commented) k
                  (merge-Leaves (call_of v) v.user b target commented ne k)))
      ]

  pub Keeps-target :
      (into comments : String) (url : Option String) (b : PackageBase)
      → Keeps (merge_named v into comments url b db)
  Keeps-target into comments url b = elim (Option-cases (get_pkgbase v.providers into db.bases)) [
    | inl e ↦ rw (merge_named, e) (keeps c)
    | inr (target, e) ↦
        rw (merge_named, e)
          (Keeps-if (b.id == target.id) _ _ (λ f. keeps c)
            (λ f. Keeps-merge_bases b target comments url f))
  ]

  pub Keeps-merge :
      (into comments : String) (confirm : Bool) (url : Option String)
      → Keeps (pkgbase_merge_post v name into comments confirm url db)
  unfolding pkgbase_merge_post
  Keeps-merge into comments confirm url =
      Keeps-with_base v name db c (merge_found v into comments confirm url db) (λ b.
        Keeps-if (not (has_credential v.user Credential.pkgbase_merge [])) _ _ (λ e. keeps c)
          (λ e. Keeps-if (not confirm) _ _ (λ f. keeps c) (λ f. Keeps-target into comments url b)))

  pub Keeps-auto_deleted :
      (done : Response) (d : Db) (first : Sent) (r : Result (Db × List Sent))
      → IsConsistent d
      → Leaves r
      → Keeps (auto_deleted done d first r)
  Keeps-auto_deleted done d first (ok (after, sent)) k h = keeps h
  Keeps-auto_deleted done d first (err e) k h = keeps k

  pub Keeps-filed :
      (b : PackageBase) (type comments : String) (target : Option String) (d : Db)
      → IsConsistent d
      → Keeps (settle_filed v b type comments target d)
  unfolding settle_filed
  Keeps-filed b type comments target d k =
      Keeps-if (str_eq type "orphan" && is_flagged_long v b) _ _
        (λ e. keeps (
          IsConsistent-set_maintainer b.id none _
            (IsConsistent-same d (accepted_db v d) refl refl refl k)))
        (λ e.
          Keeps-if (str_eq type "deletion" && is_user v.user.id b.maintainer && is_new v b) _ _
            (λ f. Keeps-auto_deleted _ d _ _ k (
              delete-Leaves (record (call_of v) { next_id = suc v.next_id }) v.user b comments d k))
            (λ f. keeps k))

  pub Keeps-request :
      (type : String) (target : Option String) (comments : String)
      → Keeps (pkgbase_request_post v name type target comments db)
  unfolding pkgbase_request_post
  Keeps-request type target comments =
      Keeps-with_base v name db c (file_found v type target comments db) (λ b.
        elim (Option-cases (request_type type)) [
          | inl e ↦ rw (file_found, e) (keeps c)
          | inr (kind, e) ↦ elim (Option-cases (validate_request db.bases b type comments target)) [
            | inr (x, q) ↦ rw (file_found, e, q) (keeps c)
            | inl q ↦
                rw (file_found, e, q)
                  (Keeps-filed b type comments target (filed_db v b kind target comments db)
                    (IsConsistent-same db (filed_db v b kind target comments db) refl refl refl c))
          ]
        ])

  pub Keeps-close : (i : ℕ) (comments : String) → Keeps (request_close_post v i comments db)
  unfolding request_close_post
  Keeps-close i comments = elim (Option-cases (find? (is_request i) db.requests)) [
    | inl e ↦ rw (request_close_post, e) (keeps c)
    | inr (r, e) ↦
        rw (request_close_post, e)
          (Keeps-if (has_credential v.user Credential.pkgreq_close (some r.users_id ∷ [])) _ _
            (λ f. keeps (IsConsistent-same db _ refl refl refl c)) (λ f. keeps c))
  ]
