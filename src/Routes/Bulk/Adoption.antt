-- ===== src/Routes/Bulk/Adoption.antt =====
-- Adopting the packages that a user selects is done for all of their bases, or for none.
use mprweb.Prelude.{
  ℕ, ◌≡◌, refl, ◌∙◌, Bool, true, false, ◌&&◌, Option, some, List, [], ◌∷◌, any, update_where, ◌==◌,
  ==_iff, ==_self, Bool-cases, inl, inr, arith, if◌then◌else◌,
}
use mprweb.Models.{User, PackageBase}
use mprweb.Pkgbase.Actions.{Db, is_base, set_maintainer, pkgbase_adopt_instance}
use mprweb.Pkgbase.Actions.Ownership.{maintainer_of, find?-set_maintainer}
use mprweb.Routes.Ownership.{may_adopt}
use mprweb.Routes.Bulk.{selected_bases, all_bases, adopt_all, packages_adopt}

maintainer_of-other :
    (i j : ℕ) (m : Option ℕ) (bases : List PackageBase)
    → (i == j) ≡ false
    → maintainer_of j
        (update_where (is_base i) (λ (b : PackageBase). record b { maintainer = m }) bases)
      ≡ maintainer_of j bases
maintainer_of-other i j m [] e = refl
maintainer_of-other i j m (b ∷ bs) e = ground (arith, maintainer_of-other i j m bs e)

any-set_maintainer :
    (i j : ℕ) (m : Option ℕ) (bases : List PackageBase)
    → any
        (is_base j)
        (update_where (is_base i) (λ (b : PackageBase). record b { maintainer = m }) bases)
      ≡ any (is_base j) bases
any-set_maintainer i j m [] = refl
any-set_maintainer i j m (b ∷ bs) = ground (arith, any-set_maintainer i j m bs)

abbrev pub has_selection : List ℕ → Bool
has_selection [] = false
has_selection (i ∷ is) = true

abbrev IsKnown : Db → PackageBase → Type 0
IsKnown db b = any (is_base b.id) db.bases ≡ true

-- The maintainer of a base after all of a list have been adopted.
adopt_all-maintainer :
    (u : User) (bs : List PackageBase) (db : Db) (j : ℕ)
    → any (is_base j) db.bases ≡ true
    → maintainer_of j (adopt_all u bs db).0.bases
      ≡ (if any (is_base j) bs then some u.id else maintainer_of j db.bases)
unfolding adopt_all pkgbase_adopt_instance
adopt_all-maintainer u [] db j known = refl
adopt_all-maintainer u (b ∷ bs) db j known =
    adopt_all-maintainer u bs (set_maintainer b.id (some u.id) db) j
      (any-set_maintainer b.id j (some u.id) db.bases ∙ known)
    ∙ elim (Bool-cases (b.id == j)) [
      | inl e ↦
          let same : b.id ≡ j = (==_iff b.id j).0 e in
          let set = find?-set_maintainer j (some u.id) db.bases known in
          rw same (rw set (ground (arith, ==_self j)))
      | inr e ↦ rw (maintainer_of-other b.id j (some u.id) db.bases e) (rw e refl)
    ]

-- Adopting a selection either fails and leaves the tables as they are, or every base of a selected
-- package is maintained by the user afterwards, and every other base has the maintainer it had.
-- It succeeds exactly if something is selected, the box is checked, and the user may adopt each base.
pub packages_adopt-all_or_none :
    (u : User) (ids : List ℕ) (confirm : Bool) (db : Db)
    → ((packages_adopt u ids confirm db).success
        ≡ (has_selection ids && confirm && all_bases (may_adopt u) (selected_bases ids db)))
      × ((packages_adopt u ids confirm db).success ≡ false
          → (packages_adopt u ids confirm db).db ≡ db)
      × ((packages_adopt u ids confirm db).success ≡ true
          → (j : ℕ) → any (is_base j) db.bases ≡ true
          → maintainer_of j (packages_adopt u ids confirm db).db.bases ≡ (
              if any (is_base j) (selected_bases ids db)
              then some u.id
              else maintainer_of j db.bases))
unfolding packages_adopt
packages_adopt-all_or_none u [] confirm db = (refl, (λ e. refl), (λ e j known. absurd (cc (e))))
packages_adopt-all_or_none u (i ∷ is) false db = (refl, (λ e. refl), (λ e j known. absurd (cc (e))))
packages_adopt-all_or_none u (i ∷ is) true db =
    elim (Bool-cases (all_bases (may_adopt u) (selected_bases (i ∷ is) db))) [
      | inl all ↦ rw all (
        refl,
        (λ e. absurd (cc (e))),
        (λ e j known. adopt_all-maintainer u (selected_bases (i ∷ is) db) db j known),
      )
      | inr some_not ↦ rw some_not (refl, (λ e. refl), (λ e j known. absurd (cc (e))))
    ]
