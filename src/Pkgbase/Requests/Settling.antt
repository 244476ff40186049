-- ===== src/Pkgbase/Requests/Settling.antt =====
-- What an action does to each request, and that closing by the chosen IDs does just that.
use mathlib.Core.List.{map-map}
use text.Mathlib.TextPositions.{eq_refl}
use mprweb.Prelude.{
  ℕ, ◌≡◌, refl, sym, ◌∙◌, String, Bool, true, false, not, ◌&&◌, Option, none, some, List, [], ◌∷◌,
  ◌++◌, map, filter, filter_congr_All, any, elem, All, All-weaken, All-zip, All-map, map_congr_All,
  arith, Bool-cases, inl, inr, if◌then◌else◌,
}
use mprweb.Models.{PackageBase, PackageRequest, accepted_id, rejected_id}
use mprweb.Pkgbase.Closures.{ok}
use mprweb.Pkgbase.Requests.{
  close_pkgreq, close_each, ids, is_candidate, is_accepted, fits_target, new_request, notifications,
  Notification, Call, settle,
}
use mprweb.Pkgbase.Requests.Closing.{
  Action, deletion, orphan, merge, action_type, action_target, closes, close-accepts, close-rejects,
  close_each-map, HasUniqueIds, chosen_by_ids,
}

abbrev pub merge_base_of : Action → Option String
merge_base_of deletion = none
merge_base_of orphan = none
merge_base_of (merge t) = some t.name

module _ (call : Call) (a : Action) (b : PackageBase) where
  -- The candidates that the action accepts and those that it rejects.
  abbrev pub accepts : PackageRequest → Bool
  accepts = is_accepted (action_type a) b (action_target a)

  abbrev pub rejects : PackageRequest → Bool
  rejects r = is_candidate (action_type a) b r && not (fits_target (action_target a) r)

  -- A pending request of the action's type about the base is accepted if it has the action's
  -- target, and rejected otherwise; all other requests stay.
  abbrev pub settled : PackageRequest → PackageRequest
  settled r =
      if accepts r
      then closes call.now call.requester a b accepted_id r
      else if rejects r
      then closes call.now call.requester a b rejected_id r
      else r

  -- The table with a request for the action in it: one is added when there is none.
  abbrev pub tracked : List PackageRequest → List PackageRequest
  tracked rows =
      if any accepts rows
      then rows
      else rows ++ new_request call.next_id (action_type a) call.requester b (merge_base_of a) ∷ []

  abbrev pub sent : List PackageRequest → List Notification
  sent rows =
      notifications call.requester accepted_id (ids (filter accepts rows))
      ++ notifications call.requester rejected_id (ids (filter rejects rows))

accepts-type :
    (call : Call) (a : Action) (b : PackageBase) (r : PackageRequest)
    → accepts call a b r ≡ true
    → r.req_type_id ≡ action_type a
accepts-type call a b r h = ground arith

rejects-closes :
    (call : Call) (a : Action) (b : PackageBase) (r : PackageRequest)
    → rejects call a b r ≡ true
    → close_pkgreq call.now call.requester b (action_target a) rejected_id r
      ≡ ok (closes call.now call.requester a b rejected_id r)
rejects-closes call deletion b r h = absurd (ground arith)
rejects-closes call orphan b r h = absurd (ground arith)
rejects-closes call (merge t) b r h = close-rejects call.now call.requester t b r (ground arith)

pub accepts-excludes :
    (call : Call) (a : Action) (b : PackageBase) (r : PackageRequest)
    → accepts call a b r ≡ true
    → rejects call a b r ≡ false
accepts-excludes call a b r h = ground arith

-- What two passes over the chosen IDs make of one row.
module _ (call : Call) (a : Action) (b : PackageBase) (to_accept to_reject : List ℕ) where
  first_pass : PackageRequest → PackageRequest
  first_pass r = if elem r.id to_accept then closes call.now call.requester a b accepted_id r else r

  second_pass : PackageRequest → PackageRequest
  second_pass r =
      if elem r.id to_reject then closes call.now call.requester a b rejected_id r else r

  abbrev AreChosen : PackageRequest → Type 0
  AreChosen r =
      (elem r.id to_accept ≡ accepts call a b r) × (elem r.id to_reject ≡ rejects call a b r)

  passes-eq-settled :
      (r : PackageRequest) → AreChosen r → second_pass (first_pass r) ≡ settled call a b r
  unfolding first_pass second_pass
  passes-eq-settled r h = elim (Bool-cases (accepts call a b r)) [
    | inl taken ↦ rw (h.0 ∙ taken) (rw (h.1 ∙ accepts-excludes call a b r taken) (rw taken refl))
    | inr left ↦ rw (h.0 ∙ left) (elim (Bool-cases (rejects call a b r)) [
      | inl refused ↦ rw (h.1 ∙ refused) (rw (left, refused) refl)
      | inr kept ↦ rw (h.1 ∙ kept) (rw (left, kept) refl)
    ])
  ]

  second_pass-closes :
      (r : PackageRequest)
      → AreChosen r
      → elem (first_pass r).id to_reject ≡ true
      → close_pkgreq call.now call.requester b (action_target a) rejected_id (first_pass r)
        ≡ ok (closes call.now call.requester a b rejected_id (first_pass r))
  unfolding first_pass
  second_pass-closes r h e = elim (Bool-cases (elem r.id to_accept)) [
    | inl chosen ↦
        let taken = sym h.0 ∙ chosen in
        let again : elem r.id to_reject ≡ true = rw chosen at e in
        absurd (cc (h.1, again, accepts-excludes call a b r taken))
    | inr other ↦ rw other (rejects-closes call a b r (sym h.1 ∙ rw other at e))
  ]

  module _ (table : List PackageRequest) (chosen : All AreChosen table) where
    first_pass-accepts :
        close_each
          (close_pkgreq call.now call.requester b (action_target a) accepted_id)
          to_accept
          table
        ≡ ok (map first_pass table)
    unfolding first_pass
    first_pass-accepts =
        close_each-map (close_pkgreq call.now call.requester b (action_target a) accepted_id)
          (closes call.now call.requester a b accepted_id) to_accept table
          (All-weaken AreChosen
            (λ r.
              elem r.id to_accept ≡ true
              → close_pkgreq call.now call.requester b (action_target a) accepted_id r
                ≡ ok (closes call.now call.requester a b accepted_id r))
            table
            (λ r h e.
              close-accepts call.now call.requester a b r (accepts-type call a b r (sym h.0 ∙ e)))
            chosen)

    second_pass-rejects :
        close_each
          (close_pkgreq call.now call.requester b (action_target a) rejected_id)
          to_reject
          (map first_pass table)
        ≡ ok (map second_pass (map first_pass table))
    unfolding second_pass
    second_pass-rejects =
        close_each-map (close_pkgreq call.now call.requester b (action_target a) rejected_id)
          (closes call.now call.requester a b rejected_id) to_reject (map first_pass table)
          (All-map
            (λ r.
              elem r.id to_reject ≡ true
              → close_pkgreq call.now call.requester b (action_target a) rejected_id r
                ≡ ok (closes call.now call.requester a b rejected_id r))
            first_pass table
            (All-weaken AreChosen
              (λ r.
                elem (first_pass r).id to_reject ≡ true
                → close_pkgreq call.now call.requester b (action_target a) rejected_id
                    (first_pass r)
                  ≡ ok (closes call.now call.requester a b rejected_id (first_pass r)))
              table second_pass-closes chosen))

    map-passes : map second_pass (map first_pass table) ≡ map (settled call a b) table
    map-passes =
        map-map second_pass first_pass table
        ∙ map_congr_All (λ r. second_pass (first_pass r)) (settled call a b) table
            (All-weaken AreChosen (λ r. second_pass (first_pass r) ≡ settled call a b r) table
              passes-eq-settled chosen)

refuse : (c f : Bool) → (c && not (c && f)) ≡ (c && not f)
refuse true f = refl
refuse false f = refl

module _ (call : Call) (a : Action) (b : PackageBase) where
  -- Settling a table by the IDs of its accepted and its rejected rows settles each row.
  pub settle-table :
      (table : List PackageRequest)
      → HasUniqueIds table
      → settle call b
          (action_target a)
          (ids (filter (accepts call a b) table))
          (ids (filter (rejects call a b) table))
          table
        ≡ ok (map (settled call a b) table, sent call a b table)
  unfolding settle
  settle-table table unique =
      let to_accept = ids (filter (accepts call a b) table) in
      let to_reject = ids (filter (rejects call a b) table) in
      let chosen : All (AreChosen call a b to_accept to_reject) table =
        All-zip (λ r. elem r.id to_accept ≡ accepts call a b r)
          (λ r. elem r.id to_reject ≡ rejects call a b r) table
          (chosen_by_ids (accepts call a b) table unique)
          (chosen_by_ids (rejects call a b) table unique) in
      rw (first_pass-accepts call a b to_accept to_reject table chosen) (
        rw (second_pass-rejects call a b to_accept to_reject table chosen)
          (rw (map-passes call a b to_accept to_reject table chosen) refl))

  -- The rows that the code rejects, by the IDs of the accepted ones, are those of `rejects`.
  pub rejected_rows :
      (rows : List PackageRequest)
      → HasUniqueIds rows
      → filter
          (λ r.
            is_candidate (action_type a) b r
            && not (elem r.id (ids (filter (accepts call a b) rows))))
          rows
        ≡ filter (rejects call a b) rows
  rejected_rows rows unique =
      let accepted = ids (filter (accepts call a b) rows) in
      filter_congr_All (λ r. is_candidate (action_type a) b r && not (elem r.id accepted))
        (rejects call a b) rows
        (All-weaken (λ r. elem r.id accepted ≡ accepts call a b r)
          (λ r. (is_candidate (action_type a) b r && not (elem r.id accepted)) ≡ rejects call a b r)
          rows
          (λ r h.
            rw h (refuse (is_candidate (action_type a) b r) (fits_target (action_target a) r)))
          (chosen_by_ids (accepts call a b) rows unique))

  abbrev pub fresh_request : PackageRequest
  fresh_request = new_request call.next_id (action_type a) call.requester b (merge_base_of a)

pub fresh-accepts :
    (call : Call) (a : Action) (b : PackageBase) → accepts call a b (fresh_request call a b) ≡ true
fresh-accepts call deletion b = ground (arith, eq_refl b.name)
fresh-accepts call orphan b = ground (arith, eq_refl b.name)
fresh-accepts call (merge t) b = ground (arith, eq_refl b.name, eq_refl t.name)

pub fresh-not-rejects :
    (call : Call) (a : Action) (b : PackageBase) → rejects call a b (fresh_request call a b) ≡ false
fresh-not-rejects call a b =
    accepts-excludes call a b (fresh_request call a b) (fresh-accepts call a b)
