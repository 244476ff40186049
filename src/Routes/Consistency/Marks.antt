-- ===== src/Routes/Consistency/Marks.antt =====
-- The routes that vote, watch, flag and comment keep the tables consistent.
use mprweb.Prelude.{
  ℕ, refl, String, Bool, true, false, not, ◌&&◌, ◌||◌, Option, some, none, [], ◌∷◌, ◌++◌, any,
  str_eq, Bool-cases, Option-cases, inl, inr, arith,
}
use mprweb.Auth.Creds.{Credential, has_credential}
use mprweb.Pkgbase.Actions.{Db, is_user, pkgbase_adopt_instance, pkgbase_unflag_instance}
use mprweb.Routes.{Visit}
use mprweb.Routes.Comments.{
  new_comment, edited_by, update_comment, pkgbase_comments_post, pkgbase_comment_post,
}
use mprweb.Routes.Followers.{
  may_vote, is_vote, pkgbase_vote, pkgbase_unvote, pkgbase_notify, pkgbase_unnotify,
}
use mprweb.Routes.Flags.{
  pkgbase_flag_post, pkgbase_unflag, pkgbase_keywords, base_of_package, repology_check,
}
use mprweb.Routes.Ownership.{may_adopt, pkgbase_adopt_post}
use mprweb.Routes.Consistency.{
  IsConsistent, IsConsistent-update_base, IsConsistent-same, IsConsistent-add_vote,
  IsConsistent-remove_vote,
}
use mprweb.Routes.Consistency.Moves.{
  IsConsistent-enable_for, IsConsistent-notify, IsConsistent-unnotify,
}
use mprweb.Routes.Consistency.Actions.{IsConsistent-set_maintainer}
use mprweb.Routes.Consistency.Keeping.{
  Keeps, keeps, Keeps-if, IsConsistent-if, Keeps-with_base, Keeps-with_comment,
}

module _ (v : Visit) (name : String) (db : Db) (c : IsConsistent db) where
  pub Keeps-vote : Keeps (pkgbase_vote v name db)
  unfolding pkgbase_vote
  Keeps-vote = Keeps-with_base v name db c _ (λ b.
      elim (Bool-cases (any (is_vote v.user.id b.id) db.votes)) [
        | inl old ↦ keeps (
            IsConsistent-if (may_vote v.user && not (any (is_vote v.user.id b.id) db.votes)) _ _
              (λ e. absurd (ground arith)) (λ e. c))
        | inr new ↦ keeps (
            IsConsistent-if (may_vote v.user && not (any (is_vote v.user.id b.id) db.votes)) _ _
              (λ e. IsConsistent-add_vote v.user v.now b db new c) (λ e. c))
      ])

  pub Keeps-unvote : Keeps (pkgbase_unvote v name db)
  unfolding pkgbase_unvote
  Keeps-unvote = Keeps-with_base v name db c _ (λ b. keeps (
      IsConsistent-if (may_vote v.user && any (is_vote v.user.id b.id) db.votes) _ _
        (λ e. IsConsistent-remove_vote v.user b db c) (λ e. c)))

  pub Keeps-notify : Keeps (pkgbase_notify v name db)
  unfolding pkgbase_notify
  Keeps-notify = Keeps-with_base v name db c _ (λ b. keeps (IsConsistent-notify v.user b db c))

  pub Keeps-unnotify : Keeps (pkgbase_unnotify v name db)
  unfolding pkgbase_unnotify
  Keeps-unnotify = Keeps-with_base v name db c _ (λ b. keeps (IsConsistent-unnotify v.user b db c))

  pub Keeps-unflag : Keeps (pkgbase_unflag v name db)
  unfolding pkgbase_unflag pkgbase_unflag_instance
  Keeps-unflag = Keeps-with_base v name db c _ (λ b. keeps (
      IsConsistent-if
        (has_credential v.user Credential.pkgbase_unflag (b.flagger ∷ b.maintainer ∷ [])) _ _
        (λ e.
          IsConsistent-update_base b.id
            (λ d. record d { out_of_date_ts = none; flagger = none; flagger_comment = "" }) db
            (λ d. (refl, refl)) c)
        (λ e. c)))

  pub Keeps-adopt : Keeps (pkgbase_adopt_post v name db)
  unfolding pkgbase_adopt_post pkgbase_adopt_instance
  Keeps-adopt = Keeps-with_base v name db c _ (λ b.
      Keeps-if (may_adopt v.user b) _ _
        (λ e. keeps (IsConsistent-set_maintainer b.id (some v.user.id) db c)) (λ e. keeps c))

  pub Keeps-flag : (comments : String) → Keeps (pkgbase_flag_post v name comments db)
  unfolding pkgbase_flag_post
  Keeps-flag comments = Keeps-with_base v name db c _ (λ b.
      Keeps-if (str_eq comments "") _ _ (λ e. keeps c)
        (λ e. keeps (
          IsConsistent-if
            (has_credential v.user Credential.pkgbase_flag []
              && elim b.flagger [ none ↦ true | some f ↦ false ])
            _ _
            (λ f.
              IsConsistent-update_base b.id
                (λ d. record d {
                  out_of_date_ts = some v.now;
                  flagger = some v.user.id;
                  flagger_comment = comments;
                })
                db (λ d. (refl, refl)) c)
            (λ f. c))))

  pub Keeps-keywords : (words : String) → Keeps (pkgbase_keywords v name words db)
  unfolding pkgbase_keywords
  Keeps-keywords words =
      Keeps-with_base v name db c _ (λ b. keeps (IsConsistent-same db _ refl refl refl c))

  pub Keeps-repology : (value : String) → Keeps (repology_check v name value db)
  unfolding repology_check
  Keeps-repology value = elim (Option-cases (base_of_package v.providers name db)) [
    | inl e ↦ rw (repology_check, e) (keeps c)
    | inr (b, e) ↦
        rw (repology_check, e)
          (keeps (
            IsConsistent-if
              (is_user v.user.id b.maintainer
                || has_credential v.user Credential.pkgbase_repology_check [])
              _ _
              (λ f.
                IsConsistent-update_base b.id
                  (λ d. record d {
                    repology_check = str_eq value "Enable Repology Out of Date Notifications";
                  })
                  db (λ d. (refl, refl)) c)
              (λ f. c)))
  ]

  pub Keeps-comment :
      (text : String) (enable : Bool) → Keeps (pkgbase_comments_post v name text enable db)
  unfolding pkgbase_comments_post
  Keeps-comment text enable = Keeps-with_base v name db c _ (λ b.
      Keeps-if (str_eq text "") _ _ (λ e. keeps c)
        (λ e. keeps (
          IsConsistent-enable_for enable v.user b
            (record db { comments = db.comments ++ new_comment v b text ∷ [] })
            (IsConsistent-same db _ refl refl refl c))))

  pub Keeps-edit :
      (i : ℕ) (text : String) (enable : Bool) (url : Option String)
      → Keeps (pkgbase_comment_post v name i text enable url db)
  unfolding pkgbase_comment_post
  Keeps-edit i text enable url = Keeps-with_comment v name db c i _ (λ b d.
      Keeps-if (str_eq text "") _ _ (λ e. keeps c)
        (λ e. keeps (
          IsConsistent-if (str_eq d.comments text) _ _ (λ f. c)
            (λ f.
              IsConsistent-enable_for enable v.user b (update_comment i (edited_by v text) db)
                (IsConsistent-same db _ refl refl refl c)))))
