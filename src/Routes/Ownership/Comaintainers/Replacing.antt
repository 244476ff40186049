-- ===== src/Routes/Ownership/Comaintainers/Replacing.antt =====
-- The whole form of the comaintainers: who is named stays or is added, and everybody else goes.
use mprweb.Prelude.{
  ℕ, ◌≡◌, refl, ◌∙◌, String, Bool, true, false, not, ◌&&◌, ◌||◌, Option, some, none, List, any,
  holds, ◌==◌, arith,
}
use mprweb.Models.{User, PackageBase, PackageComaintainer}
use mprweb.Pkgbase.Comaintainers.{
  is_row, remove_comaintainers, AddResult, AddOutcome, added, Resolved, all_users, resolve_users,
  add_each, add_comaintainers,
}
use mprweb.Routes.Flags.Keywords.{holds-filter}
use mprweb.Routes.Ownership.{
  saved, saved_as, difference, comaintainer_records, replace_comaintainers,
}
use mprweb.Routes.Ownership.Comaintainers.{
  IsAccount, any-remove_comaintainers, holds-records, elem-resolved, any-add_each,
}

-- A form that is saved has resolved all names, and has added the users.
saved-added :
    (kept after : List PackageComaintainer) (ns : List ℕ) (r : AddResult)
    → saved_as kept (AddOutcome.done r) ≡ saved after ns
    → r ≡ added after ns
saved-added kept after ns AddResult.integrity_error h = absurd (cc (h))
saved-added kept after ns (added rows ms) h = cc (h)

saved-resolved :
    (users : List User) (maintainer : Option ℕ) (b : ℕ) (names : List String)
    (kept after : List PackageComaintainer) (ns : List ℕ)
    → saved_as kept (add_comaintainers users maintainer b names kept) ≡ saved after ns
    → (us : List ℕ) × (resolve_users users names ≡ all_users us)
      × (add_each maintainer b us kept ≡ added after ns)
unfolding add_comaintainers
saved-resolved users maintainer b names kept after ns h =
    by_result (resolve_users users names) refl h
  where
    by_result :
        (r : Resolved)
        → resolve_users users names ≡ r
        → saved_as kept (elim r [
          | Resolved.unknown_user n ↦ AddOutcome.invalid_user_name n
          | all_users us ↦ AddOutcome.done (add_each maintainer b us kept)
        ])
          ≡ saved after ns
        → (us : List ℕ) × (resolve_users users names ≡ all_users us)
          × (add_each maintainer b us kept ≡ added after ns)
    by_result (Resolved.unknown_user n) e k = absurd (cc (k))
    by_result (all_users us) e k =
        (us, e, saved-added kept after ns (add_each maintainer b us kept) k)

kept_or_added : (a n : Bool) → ((a && not (a && not n)) || (n && not a)) ≡ n
kept_or_added true n = ground arith
kept_or_added false n = ground arith

-- When the form of the comaintainers is saved, a user of the site other than the maintainer is a
-- comaintainer of the base afterwards exactly if the form names them. The IDs and the names of the
-- users are unique.
pub replace_comaintainers_iff :
    (users : List User) (b : PackageBase) (names : List String)
    (rows after : List PackageComaintainer) (ns : List ℕ) (u : User)
    → replace_comaintainers users b names rows ≡ saved after ns
    → IsAccount users u
    → elim b.maintainer [ none ↦ false | some m ↦ m == u.id ] ≡ false
    → any (is_row u.id b.id) after ≡ holds u.username names
unfolding replace_comaintainers
replace_comaintainers_iff users b names rows after ns u h known other =
    let records = comaintainer_records users b.id rows in
    let kept = remove_comaintainers users b.id (difference records names) rows in
    let (us, resolved, result) =
      saved-resolved users b.maintainer b.id (difference names records) kept after ns h in
    any-add_each users b.id u known b.maintainer us kept after ns result other
    ∙ rw
        (
          any-remove_comaintainers users b.id u known (difference records names) rows,
          elem-resolved users b.id u known (difference names records) us resolved,
          holds-filter u.username (λ x. not (holds x names)) records,
          holds-filter u.username (λ x. not (holds x records)) names,
          holds-records users b.id u known rows,
        )
        (kept_or_added (any (is_row u.id b.id) rows) (holds u.username names))
