-- ===== src/Pkgbase/Actions/Ownership.antt =====
-- How a package base changes hands: disowning it, adopting it, and who may.
use mprweb.Prelude.{
  ℕ, ◌≤◌, ◌≡◌, ◌⊎◌, refl, ap, ◌∙◌, true, false, not, ◌&&◌, Option, some, none, List, [], ◌∷◌,
  filter, any, find?, update_where, All, ◌==◌, ==_self, arith, Bool-cases, inl, inr,
}
use mprweb.Models.{User, PackageBase, PackageComaintainer}
use mprweb.Auth.Creds.{Credential, has_credential}
use mprweb.Pkgbase.Comaintainers.{of_base, is_row, comaintainers_of, remove_comaintainer}
use mprweb.Pkgbase.Comaintainers.Membership.{order-HasLeastHead, any-remove_comaintainer}
use mprweb.Pkgbase.Closures.{ok, err, no_recipient}
use mprweb.Pkgbase.Requests.{Call, handle_request, verify_orphan_request}
use mprweb.Pkgbase.Actions.{
  set_maintainer, disown_notification, comaintainer_remove_notification, Db, Sent, is_user, is_base,
  step_down, pkgbase_disown_instance, pkgbase_adopt_instance,
}

abbrev pub maintainer_of : ℕ → List PackageBase → Option ℕ
maintainer_of i bases = elim (find? (is_base i) bases) [ none ↦ none | some b ↦ b.maintainer ]

pub find?-set_maintainer :
    (i : ℕ) (m : Option ℕ) (bases : List PackageBase)
    → any (is_base i) bases ≡ true
    → maintainer_of i
        (update_where (is_base i) (λ (b : PackageBase). record b { maintainer = m }) bases)
      ≡ m
find?-set_maintainer i m [] h = absurd (cc)
find?-set_maintainer i m (b ∷ bs) h = elim (Bool-cases (is_base i b)) [
  | inl e ↦ rw e (rw (e, maintainer_of) refl)
  | inr e ↦ rw e (rw (e, maintainer_of) (find?-set_maintainer i m bs (rw e at h)))
]

any-set_maintainer :
    (i : ℕ) (m : Option ℕ) (bases : List PackageBase)
    → any
        (is_base i)
        (update_where (is_base i) (λ (b : PackageBase). record b { maintainer = m }) bases)
      ≡ any (is_base i) bases
any-set_maintainer i m [] = refl
any-set_maintainer i m (b ∷ bs) = ground (arith, any-set_maintainer i m bs)

-- The maintainer disowns a base of the table that has comaintainers, of whom one has the lowest priority
-- number. If that one's account is suspended, the call fails. Otherwise they become the maintainer and
-- stop being a comaintainer; all other comaintainers, of every base, remain.
pub disown_succession :
    (call : Call) (u : User) (b : PackageBase) (db : Db) (c : PackageComaintainer)
    (cs : List PackageComaintainer)
    → is_user u.id b.maintainer ≡ true
    → any (is_base b.id) db.bases ≡ true
    → comaintainers_of b.id db.comaintainers ≡ c ∷ cs
    → All
        (λ (d : PackageComaintainer). c.priority ≤ d.priority)
        (filter (of_base b.id) db.comaintainers)
      × (call.suspended c.users_id ≡ true → pkgbase_disown_instance call u b db ≡ err no_recipient)
      × (call.suspended c.users_id ≡ false
          → (after : Db) × (sent : List Sent) × (pkgbase_disown_instance call u b db
              ≡ ok (after, sent))
            × (maintainer_of b.id after.bases ≡ some c.users_id)
            × ((uid i : ℕ)
                → any (is_row uid i) after.comaintainers ≡ (
                    any (is_row uid i) db.comaintainers
                    && not (uid == c.users_id && i == c.package_base_id))))
unfolding pkgbase_disown_instance step_down
disown_succession call u b db c cs m known first = (
  (unfold comaintainers_of in
      rw first at (order-HasLeastHead (filter (of_base b.id) db.comaintainers))),
  (λ gone. rw m (rw first (rw gone refl))),
  λ active. (
    set_maintainer b.id (some c.users_id)
        (record db { comaintainers = remove_comaintainer c db.comaintainers }),
    disown_notification u.id b.id ∷ comaintainer_remove_notification c.users_id b.id ∷ [],
    rw m (rw first (rw active refl)),
    find?-set_maintainer b.id (some c.users_id) db.bases known,
    λ uid i. any-remove_comaintainer uid i c db.comaintainers,
  ),
)

-- Someone other than the maintainer takes a base from its maintainer only with the credential and
-- with a due orphan request: otherwise the tables stay as they are, or the call is refused.
pub disown_needs_due :
    (call : Call) (u : User) (b : PackageBase) (db after : Db) (sent : List Sent)
    → is_user u.id b.maintainer ≡ false
    → pkgbase_disown_instance call u b db ≡ ok (after, sent)
    → (after ≡ db)
      ⊎ ((has_credential u Credential.pkgbase_disown [] ≡ true)
          × (verify_orphan_request call.idle_time call.now b db.requests ≡ true))
unfolding pkgbase_disown_instance handle_request
disown_needs_due call u b db after sent other h =
    elim (Bool-cases (has_credential u Credential.pkgbase_disown [])) [
      | inl trusted ↦
          elim (Bool-cases (verify_orphan_request call.idle_time call.now b db.requests)) [
            | inl due ↦ inr (trusted, due)
            | inr undue ↦ absurd (ground arith)
          ]
      | inr untrusted ↦ inl (ground arith)
    ]

-- A comaintainer who adopts a base of the table stays in its list of comaintainers: when they stand first
-- there, disowning the base promotes them again, and they remain its maintainer. Their account is not
-- suspended.
pub adopted_comaintainer_stays :
    (call : Call) (u : User) (b : PackageBase) (db : Db) (c : PackageComaintainer)
    (cs : List PackageComaintainer)
    → any (is_base b.id) db.bases ≡ true
    → comaintainers_of b.id db.comaintainers ≡ c ∷ cs
    → c.users_id ≡ u.id
    → call.suspended c.users_id ≡ false
    → (after : Db) × (sent : List Sent) × (pkgbase_disown_instance call u
          (record b { maintainer = some u.id })
          (pkgbase_adopt_instance u b db).0
        ≡ ok (after, sent))
      × (maintainer_of b.id after.bases ≡ some u.id)
unfolding pkgbase_adopt_instance
adopted_comaintainer_stays call u b db c cs known first same active =
    let (_, _, succeeds) =
      disown_succession call u (record b { maintainer = some u.id })
        (pkgbase_adopt_instance u b db).0 c cs (==_self u.id)
        (any-set_maintainer b.id (some u.id) db.bases ∙ known) first in
    let (after, sent, call_ok, next, _) = succeeds active in
    (after, sent, call_ok, next ∙ ap some same)
