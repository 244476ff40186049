-- ===== src/Pkgbase/Requests.antt =====
-- aurweb/packages/requests.py: package requests, and how an action on a package base settles them.
-- The requests are the rows of the PackageRequests table. One call reads the clock once.
pub mod Closing
pub mod Settling
pub mod Handling
pub mod Outcome
use Prim.Native.String.{◌++◌ as str_append}
use mprweb.Prelude.{
  ℕ, ◌-◌, ◌+◌, String, Bool, true, false, not, ◌&&◌, Option, none, some, List, [], ◌∷◌, ◌++◌, map,
  filter, any, elem, ltb, ◌==◌, str_eq, if◌then◌else◌,
}
use mprweb.Pkgbase.Closures.{Result, ok, err, no_due_request, ◌>>=◌, target_name, get_closure}
use mprweb.Models.{
  PackageBase, PackageRequest, pending_id, closed_id, accepted_id, rejected_id, deletion_id,
  orphan_id, merge_id,
}

-- `pkgbase.requests`
abbrev pub is_about : PackageBase → PackageRequest → Bool
is_about b r = elim r.package_base_id [ none ↦ false | some i ↦ i == b.id ]

-- The requests that `update_closure_comment` is about.
abbrev pub is_commented : PackageBase → ℕ → Option PackageBase → PackageRequest → Bool
is_commented b reqtype_id target r =
    is_about b r
    && r.req_type_id == reqtype_id
    && r.status == pending_id
    && (if reqtype_id == merge_id
        then elim target [
          | none ↦ false
          | some t ↦ elim r.merge_base_name [ none ↦ false | some n ↦ str_eq n t.name ]
        ]
        else true)

abbrev pub set_closure_comment :
    String → (PackageRequest → Bool) → List PackageRequest → List PackageRequest
set_closure_comment comments p =
    map (λ r. if p r then record r { closure_comment = comments } else r)

unfoldable pub update_closure_comment :
    PackageBase
    → ℕ
    → String
    → Option PackageBase
    → List PackageRequest
    → Result (List PackageRequest)
update_closure_comment b reqtype_id comments target rows =
    if str_eq comments ""
    then ok rows
    else if reqtype_id == merge_id
    then (do
      name ← target_name target
      ok (set_closure_comment comments (is_commented b reqtype_id target) rows))
    else ok (set_closure_comment comments (is_commented b reqtype_id target) rows)

-- A pending orphan request that has waited for longer than request_idle_time.
abbrev pub is_due : ℕ → ℕ → PackageRequest → Bool
is_due idle_time now r = r.status == pending_id && ltb idle_time (now - r.request_ts)

unfoldable pub verify_orphan_request : ℕ → ℕ → PackageBase → List PackageRequest → Bool
verify_orphan_request idle_time now b =
    any (λ r. is_about b r && r.req_type_id == orphan_id && is_due idle_time now r)

abbrev closed_as : ℕ → ℕ → ℕ → String → PackageRequest → PackageRequest
closed_as now closer status comment r = record r {
  status = status;
  closed_uid = some closer;
  closure_comment = comment;
  closed_ts = some now;
}

unfoldable pub close_pkgreq :
    ℕ → ℕ → PackageBase → Option PackageBase → ℕ → PackageRequest → Result PackageRequest
close_pkgreq now closer b target status r =
    if str_eq r.closure_comment ""
    then (do
      comment ← get_closure r.req_type_id b target status
      ok (closed_as now closer status comment r))
    else ok (closed_as now closer status r.closure_comment r)

-- The base query of `handle_request`.
abbrev pub is_candidate : ℕ → PackageBase → PackageRequest → Bool
is_candidate reqtype_id b r =
    is_about b r
    && r.req_type_id == reqtype_id
    && r.status == pending_id
    && str_eq r.package_base_name b.name

abbrev pub fits_target : Option PackageBase → PackageRequest → Bool
fits_target none r = true
fits_target (some t) r = elim r.merge_base_name [ none ↦ false | some n ↦ str_eq n t.name ]

abbrev pub is_accepted : ℕ → PackageBase → Option PackageBase → PackageRequest → Bool
is_accepted reqtype_id b target r = is_candidate reqtype_id b r && fits_target target r

abbrev pub ids : List PackageRequest → List ℕ
ids = map (λ (r : PackageRequest). r.id)

-- `util.apply_all(chosen, close)`, by the IDs of the chosen rows.
unfoldable pub close_each :
    (PackageRequest → Result PackageRequest)
    → List ℕ
    → List PackageRequest
    → Result (List PackageRequest)
close_each close chosen [] = ok []
close_each close chosen (r ∷ rs) = do
  r' ← (if elem r.id chosen then close r else ok r)
  rs' ← close_each close chosen rs
  ok (r' ∷ rs')

-- A merge request records its target.
abbrev pub merge_name : ℕ → Option PackageBase → Result (Option String)
merge_name reqtype_id target =
    if reqtype_id == merge_id then (do name ← target_name target; ok (some name)) else ok none

abbrev pub new_request : ℕ → ℕ → ℕ → PackageBase → Option String → PackageRequest
new_request id reqtype_id requester b merge_base_name = record {
  id = id;
  req_type_id = reqtype_id;
  package_base_id = some b.id;
  package_base_name = b.name;
  merge_base_name = merge_base_name;
  users_id = requester;
  comments = "Autogenerated by aurweb.";
  closure_comment = "";
  request_ts = 0;
  closed_ts = none;
  closed_uid = none;
  status = pending_id;
}

pub record Notification : Type 0 where
  pub recipient : ℕ
  pub request : ℕ
  pub status : ℕ

abbrev pub notifications : ℕ → ℕ → List ℕ → List Notification
notifications requester status =
    map (λ i. record { recipient = requester; request = i; status = status })

-- The clock and the configured request_idle_time, the ID of the user who acts, the next ID of the
-- table, and which users are suspended.
pub record Call : Type 0 where
  pub now : ℕ
  pub idle_time : ℕ
  pub requester : ℕ
  pub next_id : ℕ
  pub suspended : ℕ → Bool

-- `handle_request` once it is known which rows to accept and to reject.
unfoldable pub settle :
    Call
    → PackageBase
    → Option PackageBase
    → List ℕ
    → List ℕ
    → List PackageRequest
    → Result (List PackageRequest × List Notification)
settle call b target to_accept to_reject rows = do
  accepted ← close_each (close_pkgreq call.now call.requester b target accepted_id) to_accept rows
  settled ←
      close_each (close_pkgreq call.now call.requester b target rejected_id) to_reject accepted
  ok (
    settled,
    notifications call.requester accepted_id to_accept
        ++ notifications call.requester rejected_id to_reject,
  )

-- `if not to_accept`: a request is created, so that there is one to accept.
unfoldable pub settle_or_create :
    Call
    → ℕ
    → PackageBase
    → Option PackageBase
    → List ℕ
    → List ℕ
    → List PackageRequest
    → Result (List PackageRequest × List Notification)
settle_or_create call reqtype_id b target [] to_reject rows = do
  name ← merge_name reqtype_id target
  settle call b target (call.next_id ∷ []) to_reject
      (rows ++ new_request call.next_id reqtype_id call.requester b name ∷ [])
settle_or_create call reqtype_id b target (i ∷ is) to_reject rows =
    settle call b target (i ∷ is) to_reject rows

unfoldable pub handle_candidates :
    Call
    → ℕ
    → PackageBase
    → Option PackageBase
    → List PackageRequest
    → Result (List PackageRequest × List Notification)
handle_candidates call reqtype_id b target rows =
    let accepted_ids = ids (filter (is_accepted reqtype_id b target) rows) in
    settle_or_create call reqtype_id b target accepted_ids
      (ids (filter (λ r. is_candidate reqtype_id b r && not (elem r.id accepted_ids)) rows)) rows

unfoldable pub handle_request :
    Call
    → ℕ
    → PackageBase
    → Option PackageBase
    → List PackageRequest
    → Result (List PackageRequest × List Notification)
handle_request call reqtype_id b target rows =
    if reqtype_id == orphan_id && not (verify_orphan_request call.idle_time call.now b rows)
    then err no_due_request
    else handle_candidates call reqtype_id b target rows
