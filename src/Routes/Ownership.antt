-- ===== src/Routes/Ownership.antt =====
-- aurweb/routers/pkgbase.py: disowning and adopting a package base, and editing its comaintainers.
pub mod Refusals
pub mod Comaintainers
use mprweb.Prelude.{
  ℕ, String, Bool, true, false, not, ◌&&◌, ◌||◌, Option, none, some, List, [], ◌∷◌, ◌++◌, map, any,
  filter, ◌==◌, str_eq, holds, distinct, split, strip, if◌then◌else◌,
}
use mprweb.Models.{User, PackageBase, PackageComaintainer, orphan_id}
use mprweb.Auth.Creds.{Credential, has_credential}
use mprweb.Pkgbase.Comaintainers.{
  of_base, username_of, remove_comaintainers, AddResult, AddOutcome, add_comaintainers,
}
use mprweb.Pkgbase.Closures.{Result, ok, err, no_due_request, RequestError}
use mprweb.Pkgbase.Requests.{update_closure_comment}
use mprweb.Pkgbase.Actions.{Db, Sent, pkgbase_disown_instance, pkgbase_adopt_instance}
use mprweb.Routes.{
  Visit, Reply, Response, see_other, rejected, crashed, base_page, answer, redirect, with_base,
  get_pkgbase, call_of,
}

-- An InvariantError is shown on the page; the closure comments, which were committed before, stay.
abbrev pub disowned : String → Db → Result (Db × List Sent) → Reply
disowned name db (ok (after, sent)) = record {
  response = see_other (base_page name);
  db = after;
  sent = sent;
}
disowned name db (err no_due_request) =
    answer (rejected "pkgbase/disown.html" "no due existing orphan requests to accept") db
disowned name db (err e) = answer (crashed e) db

abbrev pub disown_base : Visit → String → String → PackageBase → Db → Reply
disown_base v name comments b db =
    elim (update_closure_comment b orphan_id comments none db.requests) [
      | err e ↦ answer (crashed e) db
      | ok requests ↦
          let commented = record db { requests = requests } in
          disowned name commented (pkgbase_disown_instance (call_of v) v.user b commented)
    ]

abbrev pub disown_found : Visit → String → String → Bool → Db → PackageBase → Reply
disown_found v name comments confirm db b =
    if not (has_credential v.user Credential.pkgbase_disown (b.maintainer ∷ []))
    then redirect (base_page name) db
    else if not confirm
    then answer (rejected "pkgbase/disown.html" "check the confirmation checkbox") db
    else disown_base v name comments b db

unfoldable pub pkgbase_disown_post : Visit → String → String → Bool → Db → Reply
pkgbase_disown_post v name comments confirm db =
    with_base v name db (disown_found v name comments confirm db)

abbrev has_maintainer : PackageBase → Bool
has_maintainer b = elim b.maintainer [ none ↦ false | some m ↦ true ]

abbrev pub may_adopt : User → PackageBase → Bool
may_adopt u b = has_credential u Credential.pkgbase_adopt [] || not (has_maintainer b)

unfoldable pub pkgbase_adopt_post : Visit → String → Db → Reply
pkgbase_adopt_post v name db = with_base v name db (λ b.
    let (after, sent) = pkgbase_adopt_instance v.user b db in
    if may_adopt v.user b
    then record { response = see_other (base_page name); db = after; sent = sent }
    else redirect (base_page name) db)

abbrev non_empty : List String → List String
non_empty = filter (λ s. not (str_eq s ""))

-- `{e.strip() for e in users.split("\n") if bool(e.strip())}`
unfoldable pub entered_names : String → List String
unfolding split strip
entered_names users = distinct (non_empty (map strip (split 10 users)))

abbrev present : List (Option String) → List String
present [] = []
present (none ∷ ns) = present ns
present (some n ∷ ns) = n ∷ present ns

-- `{c.User.Username for c in pkgbase.comaintainers}`
unfoldable pub comaintainer_records : List User → ℕ → List PackageComaintainer → List String
comaintainer_records users b rows =
    present
      (map (λ (c : PackageComaintainer). username_of users c.users_id) (filter (of_base b) rows))

-- `xs.difference(ys)`
abbrev pub difference : List String → List String → List String
difference xs ys = filter (λ x. not (holds x ys)) xs

-- What the route answers: a rejected name leaves the removals in the table.
pub data ComaintainersReply : Type 0 where
  not_found : ComaintainersReply
  not_allowed : ComaintainersReply
  invalid_user_name : String → List PackageComaintainer → ComaintainersReply
  -- the unique index refuses a row: status 500
  integrity_error : ComaintainersReply
  -- the table, and the users who are notified that they were added
  saved : List PackageComaintainer → List ℕ → ComaintainersReply

abbrev pub saved_as : List PackageComaintainer → AddOutcome → ComaintainersReply
saved_as rows (AddOutcome.invalid_user_name n) = invalid_user_name n rows
saved_as rows (AddOutcome.done AddResult.integrity_error) = integrity_error
saved_as rows (AddOutcome.done (AddResult.added rows' ns)) = saved rows' ns

-- First the comaintainers that are not named go, then the new names are added.
unfoldable pub replace_comaintainers :
    List User → PackageBase → List String → List PackageComaintainer → ComaintainersReply
unfolding comaintainer_records
replace_comaintainers users b names rows =
    let records = comaintainer_records users b.id rows in
    let kept = remove_comaintainers users b.id (difference records names) rows in
    saved_as kept (add_comaintainers users b.maintainer b.id (difference names records) kept)

unfoldable pub pkgbase_comaintainers_post :
    Visit
    → List User
    → String
    → String
    → List PackageBase
    → List PackageComaintainer
    → ComaintainersReply
unfolding entered_names replace_comaintainers
pkgbase_comaintainers_post v users name text bases rows =
    elim (get_pkgbase v.providers name bases) [
      | none ↦ not_found
      | some b ↦
          if not (has_credential v.user Credential.pkgbase_edit_comaintainers (b.maintainer ∷ []))
          then not_allowed
          else replace_comaintainers users b (entered_names text) rows
    ]
