-- ===== src/Routes/Bulk.antt =====
-- aurweb/routers/packages.py: the actions on the packages that a user selects. The bases of the
-- packages, a set in the source, are taken in the order of the Packages table; an action on one
-- leaves the rows of the others alone, so that a base is given as the row it has at first.
pub mod Adoption
pub mod Loops
pub mod Kept
use Prim.Native.String.{◌++◌ as str_append}
use mprweb.Prelude.{
  ℕ, suc, String, Bool, true, false, not, ◌&&◌, ◌||◌, Option, none, some, List, [], ◌∷◌, ◌++◌, map,
  any, find?, filter, elem, length, ◌==◌, str_eq, if◌then◌else◌,
}
use mprweb.Models.{User, PackageBase}
use mprweb.Auth.Creds.{Credential, has_credential}
use mprweb.Pkgbase.Closures.{Result, ok, err, no_due_request, ◌>>=◌}
use mprweb.Pkgbase.Requests.{Call}
use mprweb.Pkgbase.Actions.{
  Db, Package, Sent, is_base, notified, pkgbase_unflag_instance, pkgbase_notify_instance,
  pkgbase_unnotify_instance, pkgbase_adopt_instance, pkgbase_disown_instance,
  pkgbase_delete_instance,
}
use mprweb.Routes.{Visit, call_of}
use mprweb.Routes.Ownership.{may_adopt}

-- What an action returns, with the tables that it leaves.
pub record Outcome : Type 0 where
  pub success : Bool
  pub messages : List String
  pub db : Db
  pub sent : List Sent

abbrev pub refused : String → Db → Outcome
refused message db = record { success = false; messages = message ∷ []; db = db; sent = [] }

abbrev pub succeeded : String → Db × List Sent → Outcome
succeeded message (db, sent) = record {
  success = true;
  messages = message ∷ [];
  db = db;
  sent = sent;
}

-- The IDs of a form, as a set.
abbrev pub distinct_ids : List ℕ → List ℕ
distinct_ids [] = []
distinct_ids (i ∷ is) = let rest = distinct_ids is in if elem i rest then rest else i ∷ rest

-- `db.query(models.Package).filter(models.Package.ID.in_(package_ids))`
abbrev pub selected : List ℕ → List Package → List Package
selected ids = filter (λ p. elem p.id ids)

abbrev pub has_base : ℕ → List PackageBase → Bool
has_base i = any (is_base i)

-- `{pkg.PackageBase for pkg in packages}`
abbrev pub bases_of : List Package → List PackageBase → List PackageBase
bases_of [] rows = []
bases_of (p ∷ ps) rows =
    let rest = bases_of ps rows in
    elim (find? (is_base p.package_base_id) rows) [
      | none ↦ rest
      | some b ↦ if has_base b.id rest then rest else b ∷ rest
    ]

unfoldable pub selected_bases : List ℕ → Db → List PackageBase
selected_bases ids db = bases_of (selected ids db.packages) db.bases

-- `for pkgbase in bases: action(pkgbase)`
abbrev pub each : (PackageBase → Db → Db) → List PackageBase → Db → Db
each action [] db = db
each action (b ∷ bs) db = each action bs (action b db)

abbrev pub all_bases : (PackageBase → Bool) → List PackageBase → Bool
all_bases p [] = true
all_bases p (b ∷ bs) = p b && all_bases p bs

unfoldable pub packages_unflag : User → List ℕ → Db → Outcome
packages_unflag u [] db = refused "You did not select any packages to unflag." db
packages_unflag u (i ∷ is) db =
    let bases = selected_bases (i ∷ is) db in
    if all_bases (λ b. has_credential u Credential.pkgbase_unflag (b.flagger ∷ [])) bases
    then succeeded "The selected packages have been unflagged."
        (each (pkgbase_unflag_instance u) bases db, [])
    else refused "You did not select any packages to unflag." db

unfoldable pub packages_notify : User → List ℕ → Db → Outcome
packages_notify u [] db = refused "You did not select any packages to be notified about." db
packages_notify u (i ∷ is) db =
    let bases = selected_bases (i ∷ is) db in
    if all_bases
      (λ b.
        has_credential u Credential.pkgbase_notify []
        && not (any (notified u.id b.id) db.notifications))
      bases
    then succeeded "The selected packages' notifications have been enabled."
        (each (pkgbase_notify_instance u) bases db, [])
    else refused "You did not select any packages to be notified about." db

unfoldable pub packages_unnotify : User → List ℕ → Db → Outcome
packages_unnotify u [] db = refused "You did not select any packages for notification removal." db
packages_unnotify u (i ∷ is) db =
    let bases = selected_bases (i ∷ is) db in
    if all_bases (λ b. any (notified u.id b.id) db.notifications) bases
    then succeeded "The selected packages' notifications have been removed."
        (each (pkgbase_unnotify_instance u) bases db, [])
    else refused "A package you selected does not have notifications enabled." db

-- Adopts each base, and collects what is sent.
unfoldable pub adopt_all : User → List PackageBase → Db → Db × List Sent
adopt_all u [] db = (db, [])
adopt_all u (b ∷ bs) db =
    let (adopted, sent) = pkgbase_adopt_instance u b db in
    let (after, more) = adopt_all u bs adopted in (after, sent ++ more)

unfoldable pub packages_adopt : User → List ℕ → Bool → Db → Outcome
unfolding adopt_all
packages_adopt u [] confirm db = refused "You did not select any packages to adopt." db
packages_adopt u (i ∷ is) confirm db =
    let bases = selected_bases (i ∷ is) db in
    if not confirm
    then refused "check the confirmation checkbox." db
    else if all_bases (may_adopt u) bases
    then succeeded "The selected packages have been adopted." (adopt_all u bases db)
    else refused "You are not allowed to adopt one of the packages you selected." db

-- The call for the next base. An ID that was not needed is skipped, which keeps the next one unused.
abbrev pub next_call : Call → Call
next_call call = record call { next_id = suc call.next_id }

abbrev no_due_message : String → String
no_due_message name =
    str_append "No due existing orphan requests to accept for " (str_append name ".")

-- `disown_all`: an InvariantError is collected, and the other bases are still disowned.
unfoldable pub disown_all :
    Call → User → List PackageBase → Db → Result (List String × Db × List Sent)
disown_all call u [] db = ok ([], db, [])
disown_all call u (b ∷ bs) db = elim (pkgbase_disown_instance call u b db) [
  | ok (disowned, sent) ↦ (do
    (errors, after, more) ← disown_all (next_call call) u bs disowned
    ok (errors, after, sent ++ more))
  | err no_due_request ↦ (do
    (errors, after, more) ← disown_all (next_call call) u bs db
    ok (no_due_message b.name ∷ errors, after, more))
  | err e ↦ err e
]

abbrev pub disowned_outcome : List String × Db × List Sent → Outcome
disowned_outcome ([], db, sent) = succeeded "The selected packages have been disowned." (db, sent)
disowned_outcome (e ∷ es, db, sent) = record {
  success = false;
  messages = e ∷ es;
  db = db;
  sent = sent;
}

unfoldable pub packages_disown : Visit → List ℕ → Bool → Db → Result Outcome
packages_disown v [] confirm db = ok (refused "You did not select any packages to disown." db)
packages_disown v (i ∷ is) confirm db =
    let bases = selected_bases (i ∷ is) db in
    if not confirm
    then ok (refused "check the confirmation checkbox." db)
    else if all_bases (λ b. has_credential v.user Credential.pkgbase_disown (b.maintainer ∷ []))
        bases
    then (do r ← disown_all (call_of v) v.user bases db; ok (disowned_outcome r))
    else ok (refused "You are not allowed to disown one of the packages you selected." db)

unfoldable pub delete_all : Call → User → List PackageBase → Db → Result (Db × List Sent)
delete_all call u [] db = ok (db, [])
delete_all call u (b ∷ bs) db = do
  (deleted, sent) ← pkgbase_delete_instance call u b "" db
  (after, more) ← delete_all (next_call call) u bs deleted
  ok (after, sent ++ more)

unfoldable pub packages_delete : Visit → List ℕ → Bool → Db → Result Outcome
packages_delete v [] confirm db = ok (refused "You did not select any packages to delete." db)
packages_delete v (i ∷ is) confirm db =
    if not confirm
    then ok (refused "check the confirmation checkbox." db)
    else if not (has_credential v.user Credential.pkgbase_delete [])
    then ok (refused "You do not have permission to delete packages." db)
    else if not (length (selected (i ∷ is) db.packages) == length (distinct_ids (i ∷ is)))
    then ok (refused "One of the packages you selected does not exist." db)
    else (do
      r ← delete_all (call_of v) v.user (selected_bases (i ∷ is) db) db
      ok (succeeded "The selected packages have been deleted." r))

-- The page of the search that follows: what it reports, and whether with status 400.
pub data BulkReply : Type 0 where
  unknown_action : BulkReply
  failed : List String → BulkReply
  done : List String → BulkReply

abbrev pub reported : Outcome → BulkReply × Db × List Sent
reported o = (if o.success then done o.messages else failed o.messages, o.db, o.sent)

-- PACKAGE_ACTIONS; none for a key that it has not.
unfoldable pub package_action : String → Option (Visit → List ℕ → Bool → Db → Result Outcome)
package_action action =
    if str_eq action "unflag"
    then some (λ v ids confirm db. ok (packages_unflag v.user ids db))
    else if str_eq action "notify"
    then some (λ v ids confirm db. ok (packages_notify v.user ids db))
    else if str_eq action "unnotify"
    then some (λ v ids confirm db. ok (packages_unnotify v.user ids db))
    else if str_eq action "adopt"
    then some (λ v ids confirm db. ok (packages_adopt v.user ids confirm db))
    else if str_eq action "disown"
    then some packages_disown
    else if str_eq action "delete"
    then some packages_delete
    else none

-- `packages_post`
unfoldable pub packages_post :
    Visit → List ℕ → String → Bool → Db → Result (BulkReply × Db × List Sent)
unfolding package_action
packages_post v ids action confirm db = elim (package_action action) [
  | none ↦ ok (unknown_action, db, [])
  | some callback ↦ (do o ← callback v ids confirm db; ok (reported o))
]
