-- ===== src/Routes/Comments/Editing.antt =====
-- Whose comments a user changes: anyone edits any comment, the other routes ask for a credential.
use mprweb.Prelude.{
  ℕ, ◌≡◌, refl, ap, ◌∙◌, String, Bool, true, false, not, ◌&&◌, Option, some, List, update_where,
  any, find?-holds, find?-update_where, ◌==◌, str_eq, Bool-cases, inl, inr, arith,
}
use mprweb.Models.{User, PackageBase, PackageComment}
use mprweb.Pkgbase.Actions.{Db, notified}
use mprweb.Routes.{Visit, get_pkgbase, with_base}
use mprweb.Routes.Comments.{
  is_comment, update_comment, get_pkgbase_comment, enable_for, edited_by, pkgbase_comment_post,
}

enable_for-comments :
    (enable : Bool) (u : User) (b : PackageBase) (db : Db)
    → (enable_for enable u b db).comments ≡ db.comments
enable_for-comments enable u b db =
    elim (Bool-cases (enable && not (any (notified u.id b.id) db.notifications))) [
      | inl e ↦ rw e refl
      | inr e ↦ rw e refl
    ]

-- The comment with an ID after it has been changed.
pub changed_comment :
    (b : PackageBase) (i : ℕ) (f : PackageComment → PackageComment) (rows : List PackageComment)
    (c : PackageComment)
    → ((d : PackageComment) → ((f d).id ≡ d.id) × ((f d).package_base_id ≡ d.package_base_id))
    → get_pkgbase_comment b i rows ≡ some c
    → get_pkgbase_comment b i (update_where (is_comment i) f rows) ≡ some (f c)
changed_comment b i f rows c same found =
    let here : (c.package_base_id == b.id && is_comment i c) ≡ true = find?-holds _ rows found in
    find?-update_where (is_comment i) (λ d. d.package_base_id == b.id && is_comment i d) f rows
      (λ d. rw ((same d).0, (same d).1) refl)
    ∙ rw found (let ours : is_comment i c ≡ true = ground arith in rw ours refl)

module _ (v : Visit) (name : String) (i : ℕ) (db : Db) (b : PackageBase) (c : PackageComment)
    (known : get_pkgbase v.providers name db.bases ≡ some b)
    (found : get_pkgbase_comment b i db.comments ≡ some c) where
  edit-db :
      (text : String) (enable : Bool) (next : Option String)
      → str_eq text "" ≡ false
      → str_eq c.comments text ≡ false
      → (pkgbase_comment_post v name i text enable next db).db
        ≡ enable_for enable v.user b (update_comment i (edited_by v text) db)
  unfolding pkgbase_comment_post
  edit-db text enable next given new = rw (with_base, known) (rw found (rw given (rw new refl)))

  -- Every user who is signed in may edit every comment, whoever wrote it and whatever the
  -- account type of the user: the route stores any text that is not empty and is not that of the
  -- comment, with the user as its editor.
  pub edit_unchecked :
      (text : String) (enable : Bool) (next : Option String)
      → str_eq text "" ≡ false
      → str_eq c.comments text ≡ false
      → get_pkgbase_comment b i (pkgbase_comment_post v name i text enable next db).db.comments
        ≡ some (edited_by v text c)
  edit_unchecked text enable next given new =
      ap (λ (d : Db). get_pkgbase_comment b i d.comments) (edit-db text enable next given new)
      ∙ ap (get_pkgbase_comment b i)
          (enable_for-comments enable v.user b (update_comment i (edited_by v text) db))
      ∙ changed_comment b i (edited_by v text) db.comments c (λ d. (refl, refl)) found
