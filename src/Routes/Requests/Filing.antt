-- ===== src/Routes/Requests/Filing.antt =====
-- Which requests are filed, and which of them are accepted on the spot.
use mprweb.Prelude.{
  ◌≡◌, ◌≢◌, ◌↔◌, refl, sym, ◌∙◌, subst, String, true, false, Option, some, none, List, [], ◌∷◌,
  ◌++◌, find?, any, find?-any, find?-snoc, find?-update_where, ◌==◌, ==_iff, ==_self, str_eq,
  eq_iff, Bool-cases, Option-cases, inl, inr, arith,
}
use mprweb.Models.{PackageBase, accepted_id, orphan_id}
use mprweb.Pkgbase.Actions.{Db, is_base}
use mprweb.Pkgbase.Actions.Ownership.{maintainer_of, find?-set_maintainer}
use mprweb.Routes.{Visit, get_pkgbase, with_base}
use mprweb.Routes.Requests.{
  request_type, check_target, validate_request, filed_request, is_flagged_long, is_request,
  file_found, settle_filed, pkgbase_request_post,
}

-- The base that a merge request names is another one that exists.
abbrev pub NamesTarget : List PackageBase → PackageBase → Option String → Type 0
NamesTarget bases b into =
    (name : String) × (t : PackageBase) × (into ≡ some name)
    × (name ≢ "")
    × (find? (λ (t : PackageBase). str_eq t.name name) bases ≡ some t)
    × (t.id ≢ b.id)

check_target-passes :
    (bases : List PackageBase) (b : PackageBase) (into : Option String)
    → check_target bases b into ≡ none
    → NamesTarget bases b into
check_target-passes bases b none h = absurd (cc)
check_target-passes bases b (some name) h =
    elim (Option-cases (find? (λ (t : PackageBase). str_eq t.name name) bases)) [
      | inl e ↦ absurd (ground arith)
      | inr (t, e) ↦ (
        name,
        t,
        refl,
        (λ q. absurd (ground (arith, eq_iff name ""))),
        e,
        (λ q. absurd (ground (arith, ==_iff t.id b.id))),
      )
    ]

check_target-accepts :
    (bases : List PackageBase) (b : PackageBase) (into : Option String)
    → NamesTarget bases b into
    → check_target bases b into ≡ none
check_target-accepts bases b none (name, t, e, _, _, _) = absurd (cc (e))
check_target-accepts bases b (some n) (name, t, e, given, found, other) =
    let same : n ≡ name = cc (e) in
    let full : str_eq n "" ≡ false = ground (arith, eq_iff n "", given) in
    let apart : (t.id == b.id) ≡ false = ground (arith, ==_iff t.id b.id, other) in
    let here =
      subst (λ (s : String). find? (λ (u : PackageBase). str_eq u.name s) bases ≡ some t) (sym same)
        found in
    rw full (rw here (rw apart refl))

-- A request passes the validation exactly if it has a comment and, if it is a merge request, names
-- another base that exists.
pub validate_request_iff :
    (bases : List PackageBase) (b : PackageBase) (type comments : String) (into : Option String)
    → (validate_request bases b type comments into ≡ none)
      ↔ ((comments ≢ "") × (type ≡ "merge" → NamesTarget bases b into))
unfolding validate_request
validate_request_iff bases b type comments into = elim (Bool-cases (str_eq type "merge")) [
  | inl merging ↦ (
    (λ h. (
      (λ q. absurd (ground (arith, eq_iff comments ""))),
      (λ q. check_target-passes bases b into (ground arith)),
    )),
    (λ p.
        let passes = check_target-accepts bases b into (p.1 ((eq_iff type "merge").0 merging)) in
        ground (arith, eq_iff comments "", p.0)),
  )
  | inr other ↦ (
    (λ h. (
      (λ q. absurd (ground (arith, eq_iff comments ""))),
      (λ q. absurd (ground (arith, eq_iff type "merge"))),
    )),
    (λ p. ground (arith, eq_iff comments "", p.0)),
  )
]

orphan_type : request_type "orphan" ≡ some orphan_id
orphan_type = refl

orphan_valid :
    (bases : List PackageBase) (b : PackageBase) (comments : String) (into : Option String)
    → str_eq comments "" ≡ false
    → validate_request bases b "orphan" comments into ≡ none
unfolding validate_request
orphan_valid bases b comments into given = rw given refl

get_pkgbase-any :
    (providers : List String) (name : String) (bases : List PackageBase) {b : PackageBase}
    → get_pkgbase providers name bases ≡ some b
    → any (is_base b.id) bases ≡ true
get_pkgbase-any providers name bases {b} h = elim (Bool-cases (any (str_eq name) providers)) [
  | inl official ↦ absurd (cc (rw official at h))
  | inr ours ↦
      find?-any (λ (c : PackageBase). str_eq c.name name) (is_base b.id) bases (rw ours at h)
        (==_self b.id)
]

-- A request to orphan a base that has been flagged for long enough is accepted on the spot: nobody
-- maintains the base any more, though its comaintainers stay, and the new request is stored as
-- accepted without anyone who closed it, a time at which it was closed, or a closure comment. The
-- ID of the new request is not in the table before.
pub auto_orphan_accepts :
    (v : Visit) (name comments : String) (into : Option String) (db : Db) (b : PackageBase)
    → get_pkgbase v.providers name db.bases ≡ some b
    → str_eq comments "" ≡ false
    → is_flagged_long v b ≡ true
    → any (is_request v.next_id) db.requests ≡ false
    → (maintainer_of b.id (pkgbase_request_post v name "orphan" into comments db).db.bases ≡ none)
      × (find?
            (is_request v.next_id)
            (pkgbase_request_post v name "orphan" into comments db).db.requests
          ≡ some (record (filed_request v b orphan_id into comments) { status = accepted_id }))
      × ((pkgbase_request_post v name "orphan" into comments db).db.comaintainers
          ≡ db.comaintainers)
unfolding pkgbase_request_post settle_filed
auto_orphan_accepts v name comments into db b known given flagged fresh =
    let valid = orphan_valid db.bases b comments into given in
    let stored =
      find?-snoc (is_request v.next_id) db.requests (filed_request v b orphan_id into comments)
        fresh (==_self v.next_id) in
    rw (with_base, known)
      (rw (file_found, valid)
        (rw flagged (
          find?-set_maintainer b.id none db.bases (get_pkgbase-any v.providers name db.bases known),
          find?-update_where (is_request v.next_id) (is_request v.next_id)
                (λ r. record r { status = accepted_id })
                (db.requests ++ filed_request v b orphan_id into comments ∷ []) (λ r. refl)
              ∙ rw stored (rw (==_self v.next_id) refl),
          refl,
        )))
