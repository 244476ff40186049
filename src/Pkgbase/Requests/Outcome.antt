-- ===== src/Pkgbase/Requests/Outcome.antt =====
-- What holds of the requests after a successful `handle_request`.
use mprweb.Prelude.{
  ℕ, ◌≡◌, refl, ◌∙◌, Bool, true, false, ◌&&◌, none, some, List, [], ◌∷◌, map, any-append,
  any-map-false, any-map-true, any, ◌==◌, arith, Bool-cases, inl, inr,
}
use mprweb.Models.{PackageBase, PackageRequest, accepted_id}
use mprweb.Pkgbase.Closures.{ok}
use mprweb.Pkgbase.Requests.{is_about, is_candidate, Notification, Call, handle_request}
use mprweb.Pkgbase.Requests.Closing.{Action, action_type, action_target, HasUniqueIds}
use mprweb.Pkgbase.Requests.Settling.{
  accepts, rejects, settled, tracked, fresh_request, fresh-accepts,
}
use mprweb.Pkgbase.Requests.Handling.{HasNextId, handle_request-settles}

pub settled-not_candidate :
    (call : Call) (a : Action) (b : PackageBase) (r : PackageRequest)
    → is_candidate (action_type a) b (settled call a b r) ≡ false
settled-not_candidate call a b r = elim (Bool-cases (accepts call a b r)) [
  | inl taken ↦ rw taken (ground arith)
  | inr left ↦ elim (Bool-cases (rejects call a b r)) [
    | inl refused ↦ rw (left, refused) (ground arith)
    | inr kept ↦ rw (left, kept) (ground arith)
  ]
]

tracked-accepts :
    (call : Call) (a : Action) (b : PackageBase) (rows : List PackageRequest)
    → any (accepts call a b) (tracked call a b rows) ≡ true
tracked-accepts call a b rows = elim (Bool-cases (any (accepts call a b) rows)) [
  | inl found ↦ rw found found
  | inr missing ↦ rw missing (
      any-append (accepts call a b) rows (fresh_request call a b ∷ [])
      ∙ rw (missing, fresh-accepts call a b) refl)
]

-- A request of the type about the base that user `by` accepted at time `at`.
abbrev pub was_accepted : ℕ → ℕ → ℕ → PackageBase → PackageRequest → Bool
was_accepted by at reqtype_id b r =
    is_about b r
    && r.req_type_id == reqtype_id
    && r.status == accepted_id
    && elim r.closed_uid [ none ↦ false | some u ↦ u == by ]
    && elim r.closed_ts [ none ↦ false | some t ↦ t == at ]

settled-was_accepted :
    (call : Call) (a : Action) (b : PackageBase) (r : PackageRequest)
    → accepts call a b r ≡ true
    → was_accepted call.requester call.now (action_type a) b (settled call a b r) ≡ true
settled-was_accepted call a b r h = rw h (ground arith)

module _ (call : Call) (a : Action) (b : PackageBase) (rows : List PackageRequest) where
  handle_request-output :
      (out : List PackageRequest × List Notification)
      → HasUniqueIds rows
      → HasNextId call a b rows
      → handle_request call (action_type a) b (action_target a) rows ≡ ok out
      → map (settled call a b) (tracked call a b rows) ≡ out.0
  handle_request-output out unique next h =
      ground (arith, handle_request-settles call a b rows unique next)

  -- After a successful call no pending request of the action's type is left about the base, under
  -- its name: none can be accepted twice. The IDs of the table are unique and below the next ID.
  pub handle_request-none_pending :
      (out : List PackageRequest × List Notification)
      → HasUniqueIds rows
      → HasNextId call a b rows
      → handle_request call (action_type a) b (action_target a) rows ≡ ok out
      → any (is_candidate (action_type a) b) out.0 ≡ false
  handle_request-none_pending out unique next h = rw (← handle_request-output out unique next h) (
      any-map-false (is_candidate (action_type a) b) (settled call a b) (tracked call a b rows)
        (settled-not_candidate call a b))

  -- After a successful call the table holds a request of the action's type about the base that the
  -- acting user has accepted at that time: every action leaves a record. The IDs of the table are unique
  -- and below the next ID.
  pub handle_request-leaves_record :
      (out : List PackageRequest × List Notification)
      → HasUniqueIds rows
      → HasNextId call a b rows
      → handle_request call (action_type a) b (action_target a) rows ≡ ok out
      → any (was_accepted call.requester call.now (action_type a) b) out.0 ≡ true
  handle_request-leaves_record out unique next h = rw (← handle_request-output out unique next h) (
      any-map-true (accepts call a b) (was_accepted call.requester call.now (action_type a) b)
        (settled call a b) (tracked call a b rows) (settled-was_accepted call a b)
        (tracked-accepts call a b rows))
