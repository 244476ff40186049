-- ===== src/Routes/Comments/Moderation.antt =====
-- Deleting, restoring and pinning comments.
use mprweb.Prelude.{
  ℕ, ◌≡◌, ◌≢◌, refl, ap, ◌∙◌, String, true, false, Option, none, some, List, [], ◌∷◌, All,
  All-weaken, update_where-update_where, update_where-same, ◌==◌, ==_iff, arith,
}
use mprweb.Models.{User, PackageBase, PackageComment, user_id}
use mprweb.Auth.Creds.{Credential, has_credential}
use mprweb.Pkgbase.Actions.{Db}
use mprweb.Routes.{
  Visit, Reply, unauthorized, base_page, answer, redirect, next_or, get_pkgbase, with_base,
}
use mprweb.Routes.Comments.{
  is_comment, update_comment, get_pkgbase_comment, moderate, author, pkgbase_comment_pin,
  pkgbase_comment_unpin, pkgbase_comment_delete, pkgbase_comment_undelete,
}
use mprweb.Routes.Comments.Editing.{changed_comment}

moderate-denied :
    (credential : Credential) (approved : PackageBase → PackageComment → Option ℕ)
    (change : PackageComment → PackageComment) (v : Visit) (name : String) (i : ℕ)
    (next : Option String) (db : Db) (b : PackageBase) (c : PackageComment)
    → get_pkgbase v.providers name db.bases ≡ some b
    → get_pkgbase_comment b i db.comments ≡ some c
    → has_credential v.user credential (approved b c ∷ []) ≡ false
    → moderate credential approved change v name i next db ≡ answer unauthorized db
moderate-denied credential approved change v name i next db b c known found denied =
    rw (moderate, with_base, known) (rw found (rw denied refl))

moderate-done :
    (credential : Credential) (approved : PackageBase → PackageComment → Option ℕ)
    (change : PackageComment → PackageComment) (v : Visit) (name : String) (i : ℕ)
    (next : Option String) (db : Db) (b : PackageBase) (c : PackageComment)
    → get_pkgbase v.providers name db.bases ≡ some b
    → get_pkgbase_comment b i db.comments ≡ some c
    → has_credential v.user credential (approved b c ∷ []) ≡ true
    → moderate credential approved change v name i next db
      ≡ redirect (next_or (base_page name) next) (update_comment i change db)
moderate-done credential approved change v name i next db b c known found allowed =
    rw (moderate, with_base, known) (rw found (rw allowed refl))

restored :
    (d : PackageComment)
    → d.del_users_id ≡ none
    → d.del_ts ≡ none
    → record d { del_users_id = none; del_ts = none } ≡ d
restored d p q = ground arith

-- An ordinary account has none of the credentials of a moderator by itself.
ordinary :
    (u : User) (a : Option ℕ)
    → u.account_type_id ≡ user_id
    → a ≢ some u.id
    → (has_credential u Credential.comment_delete (a ∷ []) ≡ false)
      × (has_credential u Credential.comment_undelete (a ∷ []) ≡ false)
      × (has_credential u Credential.comment_pin (a ∷ []) ≡ false)
unfolding has_credential
ordinary u none type other = rw type (refl, refl, refl)
ordinary u (some a) type other =
    let differs : (u.id == a) ≡ false = ground (arith, ==_iff u.id a) in
    rw (differs, type) (refl, refl, refl)

module _ (v : Visit) (name : String) (i : ℕ) (next : Option String) (db : Db) (b : PackageBase)
    (c : PackageComment) (known : get_pkgbase v.providers name db.bases ≡ some b)
    (found : get_pkgbase_comment b i db.comments ≡ some c) where
  -- An ordinary user who is not the author of a comment can neither delete nor restore it, and one
  -- who is not the maintainer of the base can neither pin nor unpin it: the answer is the status
  -- 401, and the tables stay as they are.
  pub ordinary_users_moderate_own :
      v.user.account_type_id ≡ user_id
      → (c.users_id ≢ some v.user.id
          → (pkgbase_comment_delete v name i next db ≡ answer unauthorized db)
            × (pkgbase_comment_undelete v name i next db ≡ answer unauthorized db))
        × (b.maintainer ≢ some v.user.id
            → (pkgbase_comment_pin v name i next db ≡ answer unauthorized db)
              × (pkgbase_comment_unpin v name i next db ≡ answer unauthorized db))
  unfolding pkgbase_comment_delete pkgbase_comment_undelete pkgbase_comment_pin
      pkgbase_comment_unpin
  ordinary_users_moderate_own type = (
    λ other. (
      moderate-denied _ _ _ v name i next db b c known found
          (ordinary v.user c.users_id type other).0,
      moderate-denied _ _ _ v name i next db b c known found
          (ordinary v.user c.users_id type other).1,
    ),
    λ other. (
      moderate-denied _ _ _ v name i next db b c known found
          (ordinary v.user b.maintainer type other).2,
      moderate-denied _ _ _ v name i next db b c known found
          (ordinary v.user b.maintainer type other).2,
    ),
  )

  -- Restoring a comment undoes its deletion: if one user may delete a comment that is not deleted,
  -- and another may restore it, then both leave the tables as they were, the text included.
  pub undelete-delete :
      (w : Visit)
      → get_pkgbase w.providers name db.bases ≡ some b
      → has_credential v.user Credential.comment_delete (c.users_id ∷ []) ≡ true
      → has_credential w.user Credential.comment_undelete (c.users_id ∷ []) ≡ true
      → All
          (λ (d : PackageComment).
            is_comment i d ≡ true → (d.del_users_id ≡ none) × (d.del_ts ≡ none))
          db.comments
      → pkgbase_comment_undelete w name i next (pkgbase_comment_delete v name i next db).db
        ≡ redirect (next_or (base_page name) next) db
  unfolding pkgbase_comment_delete pkgbase_comment_undelete
  undelete-delete w known_w deletes restores fresh =
      let drop =
        λ (d : PackageComment). record d { del_users_id = some v.user.id; del_ts = some v.now } in
      let restore = λ (d : PackageComment). record d { del_users_id = none; del_ts = none } in
      let deleted = update_comment i drop db in
      ap (λ (r : Reply). pkgbase_comment_undelete w name i next r.db)
        (moderate-done Credential.comment_delete author drop v name i next db b c known found
          deletes)
      ∙ moderate-done Credential.comment_undelete author restore w name i next deleted b (drop c)
          known_w (changed_comment b i drop db.comments c (λ d. (refl, refl)) found) restores
      ∙ ap
          (λ (rows : List PackageComment).
            redirect (next_or (base_page name) next) (record db { comments = rows }))
          (update_where-update_where (is_comment i) drop restore db.comments (λ d e. e)
            ∙ update_where-same (is_comment i) (λ d. restore (drop d)) db.comments
                (All-weaken
                  (λ (d : PackageComment).
                    is_comment i d ≡ true → (d.del_users_id ≡ none) × (d.del_ts ≡ none))
                  (λ (d : PackageComment). is_comment i d ≡ true → restore (drop d) ≡ d) db.comments
                  (λ d h e. restored d (h e).0 (h e).1) fresh))
