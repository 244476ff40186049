-- ===== src/Pkgbase/Actions/Removal.antt =====
-- What the deletion of a package base comes to.
use mprweb.Prelude.{
  ◌≡◌, refl, ap, String, Bool, true, false, none, List, [], ◌∷◌, ◌++◌, map, any, All, All-weaken,
  All-map, All-append, str_eq, arith, Bool-cases, inl, inr,
}
use text.Mathlib.TextPositions.{eq_refl}
use mprweb.Models.{User, PackageBase, PackageRequest, deletion_id}
use mprweb.Pkgbase.Closures.{ok}
use mprweb.Pkgbase.Requests.{
  Call, update_closure_comment, is_about, is_commented, is_candidate, set_closure_comment,
}
use mprweb.Pkgbase.Requests.Closing.{Action, deletion, HasUniqueIds}
use mprweb.Pkgbase.Requests.Settling.{settled, tracked, sent, accepts, rejects, fresh_request}
use mprweb.Pkgbase.Requests.Handling.{HasNextId, handle_request-settles}
use mprweb.Pkgbase.Requests.Outcome.{settled-not_candidate}
use mprweb.Pkgbase.Merging.{vote_following, notification_following}
use mprweb.Pkgbase.Actions.{
  Db, Sent, request_close_notification, delete_notification, delete_base, pkgbase_delete_instance,
}

-- The requests about the base carry the name that it has now.
abbrev pub IsNamed : PackageBase → PackageRequest → Type 0
IsNamed b r = is_about b r ≡ true → str_eq r.package_base_name b.name ≡ true

settled-IsNamed :
    (call : Call) (a : Action) (b : PackageBase) (r : PackageRequest)
    → IsNamed b r
    → IsNamed b (settled call a b r)
settled-IsNamed call a b r h = elim (Bool-cases (accepts call a b r)) [
  | inl taken ↦ rw taken h
  | inr left ↦ elim (Bool-cases (rejects call a b r)) [
    | inl refused ↦ rw (left, refused) h
    | inr kept ↦ rw (left, kept) h
  ]
]

unnamed-not_commented :
    (b : PackageBase) (r : PackageRequest)
    → IsNamed b r
    → is_candidate deletion_id b r ≡ false
    → is_commented b deletion_id none r ≡ false
unnamed-not_commented b r h c = ground arith

set_none :
    (comments : String) (p : PackageRequest → Bool) (rows : List PackageRequest)
    → All (λ (r : PackageRequest). p r ≡ false) rows
    → set_closure_comment comments p rows ≡ rows
set_none comments p [] h = refl
set_none comments p (r ∷ rs) h = rw (h.0) (ap (λ l. r ∷ l) (set_none comments p rs h.1))

tracked-IsNamed :
    (call : Call) (a : Action) (b : PackageBase) (rows : List PackageRequest)
    → All (IsNamed b) rows
    → All (IsNamed b) (tracked call a b rows)
tracked-IsNamed call a b rows h = elim (Bool-cases (any (accepts call a b) rows)) [
  | inl found ↦ rw found h
  | inr missing ↦
      rw missing
        (All-append (IsNamed b) rows (fresh_request call a b ∷ []) h ((λ e. eq_refl b.name), tt))
]

settled_uncommented :
    (call : Call) (b : PackageBase) (rows : List PackageRequest)
    → All (IsNamed b) rows
    → All
        (λ (r : PackageRequest). is_commented b deletion_id none r ≡ false)
        (map (settled call deletion b) (tracked call deletion b rows))
settled_uncommented call b rows h =
    All-map (λ r. is_commented b deletion_id none r ≡ false) (settled call deletion b)
      (tracked call deletion b rows)
      (All-weaken (IsNamed b)
        (λ r. is_commented b deletion_id none (settled call deletion b r) ≡ false)
        (tracked call deletion b rows)
        (λ r n.
          unnamed-not_commented b (settled call deletion b r) (settled-IsNamed call deletion b r n)
            (settled-not_candidate call deletion b r))
        (tracked-IsNamed call deletion b rows h))

update_nothing :
    (b : PackageBase) (comments : String) (rows : List PackageRequest)
    → All (λ (r : PackageRequest). is_commented b deletion_id none r ≡ false) rows
    → update_closure_comment b deletion_id comments none rows ≡ ok rows
unfolding update_closure_comment
update_nothing b comments rows h =
    rw (set_none comments (is_commented b deletion_id none) rows h) (ground arith)

-- The requests, and the tables without the base: what a deletion comes to.
abbrev pub deleted : Call → User → PackageBase → Db → Db × List Sent
deleted call u b db =
    let table = tracked call deletion b db.requests in
    (
      delete_base b.id (record db { requests = map (settled call deletion b) table }),
      map request_close_notification (sent call deletion b table)
          ++ delete_notification u.id b.id ∷ [],
    )

-- A deletion always succeeds: it settles the requests and deletes the base with what hangs on it.
-- The comment that is passed on is never stored: it is written to pending requests only, and all
-- of those have been closed before. The requests about the base carry its name, and the IDs of the
-- requests are unique and below the next ID.
pub delete_ignores_comments :
    (call : Call) (u : User) (b : PackageBase) (comments : String) (db : Db)
    → HasUniqueIds db.requests
    → HasNextId call deletion b db.requests
    → All (IsNamed b) db.requests
    → pkgbase_delete_instance call u b comments db ≡ ok (deleted call u b db)
unfolding pkgbase_delete_instance
delete_ignores_comments call u b comments db unique next named =
    let settles = handle_request-settles call deletion b db.requests unique next in
    let plain = settled_uncommented call b db.requests named in
    let rows = map (settled call deletion b) (tracked call deletion b db.requests) in
    rw settles (rw (update_nothing b comments rows plain) refl)
