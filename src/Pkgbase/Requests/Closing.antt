-- ===== src/Pkgbase/Requests/Closing.antt =====
-- Closing the chosen requests of a table, row by row.
use mprweb.Prelude.{
  ℕ, ◌<◌, ◌≡◌, refl, String, Bool, true, false, ◌||◌, Option, none, some, List, [], ◌∷◌, ◌++◌, map,
  filter, elem, All, All-weaken, All-zip, str_eq, ◌==◌, arith, Bool-cases, inl, inr, if◌then◌else◌,
}
use mprweb.Models.{
  PackageBase, PackageRequest, accepted_id, rejected_id, deletion_id, orphan_id, merge_id,
}
use mprweb.Pkgbase.Closures.{Result, ok, err, get_closure}
use mprweb.Pkgbase.Requests.{close_pkgreq, closed_as, close_each, ids}

-- The actions that settle requests, with the type and the target that their callers pass on.
pub data Action : Type 0 where
  deletion : Action
  orphan : Action
  merge : PackageBase → Action

abbrev pub action_type : Action → ℕ
action_type deletion = deletion_id
action_type orphan = orphan_id
action_type (merge t) = merge_id

abbrev pub action_target : Action → Option PackageBase
action_target deletion = none
action_target orphan = none
action_target (merge t) = some t

-- The comment that a request is closed with: its own, or else an automatic one.
abbrev pub automatic : Result String → String
automatic (ok s) = s
automatic (err e) = ""

abbrev pub final_comment : Action → PackageBase → ℕ → PackageRequest → String
final_comment a b status r =
    if str_eq r.closure_comment ""
    then automatic (get_closure (action_type a) b (action_target a) status)
    else r.closure_comment

abbrev pub closes : ℕ → ℕ → Action → PackageBase → ℕ → PackageRequest → PackageRequest
closes now closer a b status r = closed_as now closer status (final_comment a b status r) r

-- Accepting never fails for a request of the action's own type.
pub close-accepts :
    (now closer : ℕ) (a : Action) (b : PackageBase) (r : PackageRequest)
    → r.req_type_id ≡ action_type a
    → close_pkgreq now closer b (action_target a) accepted_id r
      ≡ ok (closes now closer a b accepted_id r)
unfolding close_pkgreq get_closure
close-accepts now closer deletion b r h = ground arith
close-accepts now closer orphan b r h = ground arith
close-accepts now closer (merge t) b r h = ground arith

-- Rejecting never fails for a merge request.
pub close-rejects :
    (now closer : ℕ) (t b : PackageBase) (r : PackageRequest)
    → r.req_type_id ≡ merge_id
    → close_pkgreq now closer b (some t) rejected_id r
      ≡ ok (closes now closer (merge t) b rejected_id r)
unfolding close_pkgreq get_closure
close-rejects now closer t b r h = ground arith

pub close_each-map :
    (close : PackageRequest → Result PackageRequest) (g : PackageRequest → PackageRequest)
    (chosen : List ℕ) (rows : List PackageRequest)
    → All (λ (r : PackageRequest). elem r.id chosen ≡ true → close r ≡ ok (g r)) rows
    → close_each close chosen rows ≡ ok (map (λ r. if elem r.id chosen then g r else r) rows)
unfolding close_each
close_each-map close g chosen [] h = refl
close_each-map close g chosen (r ∷ rs) h = elim (Bool-cases (elem r.id chosen)) [
  | inl e ↦ rw (e, h.0 e, close_each-map close g chosen rs h.1) refl
  | inr e ↦ rw (e, close_each-map close g chosen rs h.1) refl
]

-- The IDs of a table are a key.
abbrev pub HasUniqueIds : List PackageRequest → Type 0
HasUniqueIds [] = Unit {0}
HasUniqueIds (r ∷ rs) = (elem r.id (ids rs) ≡ false) × HasUniqueIds rs

elem-ids-filter :
    (i : ℕ) (p : PackageRequest → Bool) (rows : List PackageRequest)
    → elem i (ids rows) ≡ false
    → elem i (ids (filter p rows)) ≡ false
elem-ids-filter i p [] h = refl
elem-ids-filter i p (r ∷ rs) h = ground (arith, elem-ids-filter i p rs)

differ_from :
    (i : ℕ) (rows : List PackageRequest)
    → elem i (ids rows) ≡ false
    → All (λ (r : PackageRequest). (r.id == i) ≡ false) rows
differ_from i [] h = tt
differ_from i (r ∷ rs) h = (ground arith, differ_from i rs (ground arith))

skip_head :
    (p : PackageRequest → Bool) (r x : PackageRequest) (rs : List PackageRequest)
    → (elem x.id (ids (filter p rs)) ≡ p x) × ((x.id == r.id) ≡ false)
    → elem x.id (ids (filter p (r ∷ rs))) ≡ p x
skip_head p r x rs h = elim (Bool-cases (p r)) [ inl e ↦ rw (e, h.1) h.0 | inr e ↦ rw e h.0 ]

-- Choosing rows by the IDs of those that pass a test is choosing by the test.
pub chosen_by_ids :
    (p : PackageRequest → Bool) (rows : List PackageRequest)
    → HasUniqueIds rows
    → All (λ (r : PackageRequest). elem r.id (ids (filter p rows)) ≡ p r) rows
chosen_by_ids p [] u = tt
chosen_by_ids p (r ∷ rs) u = (
  ground (arith, elem-ids-filter r.id p rs u.0),
  All-weaken (λ x. (elem x.id (ids (filter p rs)) ≡ p x) × ((x.id == r.id) ≡ false))
      (λ x. elem x.id (ids (filter p (r ∷ rs))) ≡ p x) rs (λ x. skip_head p r x rs)
      (All-zip (λ x. elem x.id (ids (filter p rs)) ≡ p x) (λ x. (x.id == r.id) ≡ false) rs
        (chosen_by_ids p rs u.1) (differ_from r.id rs u.0)),
)

elem-ids-append :
    (i : ℕ) (rows : List PackageRequest) (r : PackageRequest)
    → elem i (ids (rows ++ r ∷ [])) ≡ (elem i (ids rows) || i == r.id)
elem-ids-append i [] r = ground arith
elem-ids-append i (q ∷ qs) r = ground (arith, elem-ids-append i qs r)

pub append-HasUniqueIds :
    (rows : List PackageRequest) (r : PackageRequest)
    → HasUniqueIds rows
    → All (λ (q : PackageRequest). q.id < r.id) rows
    → HasUniqueIds (rows ++ r ∷ [])
append-HasUniqueIds [] r u h = (refl, tt)
append-HasUniqueIds (q ∷ qs) r u h =
    (ground (arith, h.0, elem-ids-append q.id qs r), append-HasUniqueIds qs r u.1 h.1)
