-- ===== src/Routes/Bulk/Kept.antt =====
-- The actions on selected packages keep the tables of package bases consistent.
use mprweb.Prelude.{
  ℕ, String, Bool, true, false, not, none, some, List, [], ◌∷◌, length, ◌==◌, Bool-cases, inl, inr,
  str_eq, if◌then◌else◌,
}
use mprweb.Models.{User}
use mprweb.Auth.Creds.{Credential, has_credential}
use mprweb.Pkgbase.Closures.{Result, ok, ◌>>=◌}
use mprweb.Pkgbase.Actions.{
  Db, Sent, pkgbase_unflag_instance, pkgbase_notify_instance, pkgbase_unnotify_instance,
}
use mprweb.Routes.{Visit, call_of}
use mprweb.Routes.Bulk.{
  Outcome, refused, all_bases, distinct_ids, selected, selected_bases, disown_all, disowned_outcome,
  delete_all, packages_unflag, packages_notify, packages_unnotify, packages_adopt, packages_disown,
  packages_delete, BulkReply, reported, package_action, packages_post,
}
use mprweb.Routes.Ownership.{may_adopt}
use mprweb.Routes.Consistency.{IsConsistent}
use mprweb.Routes.Consistency.Moves.{IsConsistent-notify, IsConsistent-unnotify}
use mprweb.Routes.Consistency.Actions.{OnOk}
use mprweb.Routes.Bulk.Loops.{
  IsKept, OnOk-then, each-IsConsistent, IsConsistent-unflag, adopt_all-IsConsistent,
  delete_all-Leaves, disown_all-IsKept, disowned_outcome-IsConsistent,
}

-- What an outcome, and the result of an action, leave.
abbrev Keeps : Outcome → Type 0
Keeps o = IsConsistent o.db

Keeps-if : (t : Bool) (o p : Outcome) → Keeps o → Keeps p → Keeps (if t then o else p)
Keeps-if true o p c d = c
Keeps-if false o p c d = d

OnOk-if :
    (t : Bool) (r s : Result Outcome)
    → OnOk Keeps r
    → OnOk Keeps s
    → OnOk Keeps (if t then r else s)
OnOk-if true r s c d = c
OnOk-if false r s c d = d

-- The tables that the page leaves.
abbrev pub db_of : BulkReply × Db × List Sent → Db
db_of (reply, db, sent) = db

module _ (db : Db) (c : IsConsistent db) where
  Keeps-unflag : (u : User) (ids : List ℕ) → Keeps (packages_unflag u ids db)
  unfolding packages_unflag
  Keeps-unflag u [] = c
  Keeps-unflag u (i ∷ is) =
      Keeps-if _ _ _
        (each-IsConsistent (pkgbase_unflag_instance u) (selected_bases (i ∷ is) db) db
          (λ b d k. IsConsistent-unflag u b d k) c)
        c

  Keeps-notify : (u : User) (ids : List ℕ) → Keeps (packages_notify u ids db)
  unfolding packages_notify
  Keeps-notify u [] = c
  Keeps-notify u (i ∷ is) =
      Keeps-if _ _ _
        (each-IsConsistent (pkgbase_notify_instance u) (selected_bases (i ∷ is) db) db
          (λ b d k. IsConsistent-notify u b d k) c)
        c

  Keeps-unnotify : (u : User) (ids : List ℕ) → Keeps (packages_unnotify u ids db)
  unfolding packages_unnotify
  Keeps-unnotify u [] = c
  Keeps-unnotify u (i ∷ is) =
      Keeps-if _ _ _
        (each-IsConsistent (pkgbase_unnotify_instance u) (selected_bases (i ∷ is) db) db
          (λ b d k. IsConsistent-unnotify u b d k) c)
        c

  Keeps-adopt : (u : User) (ids : List ℕ) (confirm : Bool) → Keeps (packages_adopt u ids confirm db)
  unfolding packages_adopt
  Keeps-adopt u [] confirm = c
  Keeps-adopt u (i ∷ is) confirm = Keeps-if (not confirm) _ _ c (
      Keeps-if (all_bases (may_adopt u) (selected_bases (i ∷ is) db)) _ _
        (adopt_all-IsConsistent u (selected_bases (i ∷ is) db) db c) c)

  OnOk-disown :
      (v : Visit) (ids : List ℕ) (confirm : Bool) → OnOk Keeps (packages_disown v ids confirm db)
  unfolding packages_disown
  OnOk-disown v [] confirm = c
  OnOk-disown v (i ∷ is) confirm = OnOk-if (not confirm) _ _ c (
      OnOk-if
        (all_bases (λ b. has_credential v.user Credential.pkgbase_disown (b.maintainer ∷ []))
          (selected_bases (i ∷ is) db))
        _ (ok (refused "You are not allowed to disown one of the packages you selected." db))
        (OnOk-then IsKept Keeps (disown_all (call_of v) v.user (selected_bases (i ∷ is) db) db)
          (λ r. ok (disowned_outcome r))
          (disown_all-IsKept (call_of v) v.user (selected_bases (i ∷ is) db) db c)
          (λ r k. disowned_outcome-IsConsistent r k))
        c)

  OnOk-delete :
      (v : Visit) (ids : List ℕ) (confirm : Bool) → OnOk Keeps (packages_delete v ids confirm db)
  unfolding packages_delete
  OnOk-delete v [] confirm = c
  OnOk-delete v (i ∷ is) confirm = OnOk-if (not confirm) _ _ c (
      OnOk-if (not (has_credential v.user Credential.pkgbase_delete [])) _ _ c (
        OnOk-if (not (length (selected (i ∷ is) db.packages) == length (distinct_ids (i ∷ is)))) _ _
          c
          (OnOk-then (λ (r : Db × List Sent). IsConsistent r.0) Keeps
            (delete_all (call_of v) v.user (selected_bases (i ∷ is) db) db) _
            (delete_all-Leaves (call_of v) v.user (selected_bases (i ∷ is) db) db c) (λ r k. k))))

  -- The actions of a list of keys.
  OnOk-action :
      (action : String) (v : Visit) (ids : List ℕ) (confirm : Bool)
      → OnOk
          (λ r. IsConsistent (db_of r))
          (elim (package_action action) [
            | none ↦ ok (BulkReply.unknown_action, db, [])
            | some callback ↦ callback v ids confirm db >>= (λ o. ok (reported o))
          ])
  unfolding package_action
  OnOk-action action v ids confirm = elim (Bool-cases (str_eq action "unflag")) [
    | inl e ↦ rw (package_action, e) (Keeps-unflag v.user ids)
    | inr f ↦ elim (Bool-cases (str_eq action "notify")) [
      | inl e ↦ rw (package_action, f, e) (Keeps-notify v.user ids)
      | inr g ↦ elim (Bool-cases (str_eq action "unnotify")) [
        | inl e ↦ rw (package_action, f, g, e) (Keeps-unnotify v.user ids)
        | inr h ↦ elim (Bool-cases (str_eq action "adopt")) [
          | inl e ↦ rw (package_action, f, g, h, e) (Keeps-adopt v.user ids confirm)
          | inr k ↦ elim (Bool-cases (str_eq action "disown")) [
            | inl e ↦
                rw (package_action, f, g, h, k, e)
                  (OnOk-then Keeps _ (packages_disown v ids confirm db) _
                    (OnOk-disown v ids confirm) (λ o d. d))
            | inr l ↦ elim (Bool-cases (str_eq action "delete")) [
              | inl e ↦
                  rw (package_action, f, g, h, k, l, e)
                    (OnOk-then Keeps _ (packages_delete v ids confirm db) _
                      (OnOk-delete v ids confirm) (λ o d. d))
              | inr m ↦ rw (package_action, f, g, h, k, l, m) c
            ]
          ]
        ]
      ]
    ]
  ]

-- The actions on selected packages keep the tables of package bases consistent as well: if the page
-- of packages answers, nobody votes for a base twice or is notified about one twice, and each base
-- shows the number of its votes, if that is so at first.
pub packages_post-IsConsistent :
    (v : Visit) (ids : List ℕ) (action : String) (confirm : Bool) (db : Db)
    → IsConsistent db
    → OnOk
        (λ (r : BulkReply × Db × List Sent). IsConsistent (db_of r))
        (packages_post v ids action confirm db)
unfolding packages_post
packages_post-IsConsistent v ids action confirm db c = OnOk-action db c action v ids confirm
