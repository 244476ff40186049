-- ===== src/Pkgbase/Requests/Handling.antt =====
-- `handle_request` against the row-by-row description of what an action settles.
use mathlib.Core.List.{append-nil}
use mprweb.Prelude.{
  ℕ, ◌<◌, ◌≡◌, refl, sym, ◌∙◌, false, not, ◌&&◌, List, [], ◌∷◌, ◌++◌, map, filter, filter-append,
  filter-nil_of_any, filter-cons_of_any, any, All, ◌==◌, arith, Bool-cases, inl, inr, if◌then◌else◌,
}
use mprweb.Models.{PackageBase, PackageRequest, orphan_id}
use mprweb.Pkgbase.Closures.{ok, err, no_due_request}
use mprweb.Pkgbase.Requests.{
  ids, Call, settle, settle_or_create, handle_candidates, handle_request, verify_orphan_request,
  merge_name,
}
use mprweb.Pkgbase.Requests.Closing.{
  Action, action_type, action_target, HasUniqueIds, append-HasUniqueIds,
}
use mprweb.Pkgbase.Requests.Settling.{
  merge_base_of, accepts, rejects, settled, tracked, sent, settle-table, rejected_rows,
  fresh_request, fresh-accepts, fresh-not-rejects,
}

module _ (call : Call) (a : Action) (b : PackageBase) (rows : List PackageRequest) where
  -- The next ID of the table is above all that are in use.
  abbrev pub HasNextId : Type 0
  HasNextId = All (λ (r : PackageRequest). r.id < call.next_id) rows

  accepted-tracked :
      any (accepts call a b) rows ≡ false
      → filter (accepts call a b) (rows ++ fresh_request call a b ∷ [])
        ≡ fresh_request call a b ∷ []
  accepted-tracked h =
      filter-append (accepts call a b) rows (fresh_request call a b ∷ [])
      ∙ rw (filter-nil_of_any (accepts call a b) rows h) (rw (fresh-accepts call a b) refl)

  rejected-tracked :
      filter (rejects call a b) (rows ++ fresh_request call a b ∷ [])
      ≡ filter (rejects call a b) rows
  rejected-tracked =
      filter-append (rejects call a b) rows (fresh_request call a b ∷ [])
      ∙ rw (fresh-not-rejects call a b) (append-nil (filter (rejects call a b) rows))

  merge_name-action : merge_name (action_type a) (action_target a) ≡ ok (merge_base_of a)
  merge_name-action = ground arith

  settle_or_create-found :
      (accepted : List PackageRequest) (to_reject : List ℕ) {q : PackageRequest}
      {qs : List PackageRequest}
      → accepted ≡ q ∷ qs
      → settle_or_create call (action_type a) b (action_target a) (ids accepted) to_reject rows
        ≡ settle call b (action_target a) (ids accepted) to_reject rows
  unfolding settle_or_create
  settle_or_create-found accepted to_reject e = rw e refl

  settle_or_create-missing :
      (accepted : List PackageRequest) (to_reject : List ℕ)
      → accepted ≡ []
      → settle_or_create call (action_type a) b (action_target a) (ids accepted) to_reject rows
        ≡ settle call b
            (action_target a)
            (call.next_id ∷ [])
            to_reject
            (rows ++ fresh_request call a b ∷ [])
  unfolding settle_or_create
  settle_or_create-missing accepted to_reject e = rw e (rw merge_name-action refl)

  handle_candidates-settles :
      HasUniqueIds rows
      → HasNextId
      → handle_candidates call (action_type a) b (action_target a) rows
        ≡ ok (map (settled call a b) (tracked call a b rows), sent call a b (tracked call a b rows))
  unfolding handle_candidates
  handle_candidates-settles unique next = elim (Bool-cases (any (accepts call a b) rows)) [
    | inl found ↦
        let (q, qs, e) = filter-cons_of_any (accepts call a b) rows found in
        rw (rejected_rows call a b rows unique) (
          rw found (
            settle_or_create-found (filter (accepts call a b) rows)
              (ids (filter (rejects call a b) rows)) e
            ∙ settle-table call a b rows unique))
    | inr missing ↦
        let table = rows ++ fresh_request call a b ∷ [] in
        let unique_table = append-HasUniqueIds rows (fresh_request call a b) unique next in
        let settled_table : settle call b (action_target a) (call.next_id ∷ [])
              (ids (filter (rejects call a b) rows)) table
            ≡ ok (map (settled call a b) table, sent call a b table) =
          (λ i.
            settle call b (action_target a) (ids (sym (accepted-tracked missing) i))
              (ids (sym rejected-tracked i)) table)
          ∙ settle-table call a b table unique_table in
        rw (rejected_rows call a b rows unique) (
          rw missing (
            settle_or_create-missing (filter (accepts call a b) rows)
              (ids (filter (rejects call a b) rows))
              (filter-nil_of_any (accepts call a b) rows missing)
            ∙ settled_table))
  ]

  -- An orphan action is refused when no pending orphan request has waited for longer than the idle
  -- time, and then nothing is settled. Every other call succeeds: each pending request of the type
  -- about the base, under the base's name, is accepted if it fits the target and rejected if not,
  -- with its own closure comment or an automatic one; a request is added first when there is none
  -- to accept; no other row of the table changes; and the requests that are closed are notified,
  -- the accepted ones first. The IDs of the table are unique and below the next ID.
  pub handle_request-settles :
      HasUniqueIds rows
      → HasNextId
      → handle_request call (action_type a) b (action_target a) rows ≡ (
          if action_type a == orphan_id
            && not (verify_orphan_request call.idle_time call.now b rows)
          then err no_due_request
          else ok (
            map (settled call a b) (tracked call a b rows),
            sent call a b (tracked call a b rows),
          ))
  unfolding handle_request
  handle_request-settles unique next = rw (handle_candidates-settles unique next) refl
