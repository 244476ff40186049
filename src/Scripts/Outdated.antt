-- ===== src/Scripts/Outdated.antt =====
-- Where the check against Repology ends.
use mprweb.Prelude.{
  ℕ, ◌≡◌, refl, true, false, Option, none, List, [], ◌∷◌, any, Bool-cases, inl, inr, arith,
}
use mprweb.Models.{PackageBase}
use mprweb.Pkgbase.Actions.{Db, update_base}
use mprweb.Scripts.{RepologyEntry, is_outdated, flagged, check_entries, check_bases}

stops :
    (now : ℕ) (bot : Option ℕ) (b : PackageBase) (entries : List RepologyEntry) (db : Db)
    → b.maintainer ≡ none
    → b.flagger ≡ none
    → any (is_outdated b) entries ≡ true
    → check_entries now bot b entries db ≡ (update_base b.id (flagged now bot) db, false)
unfolding check_entries
stops now bot b [] db orphan fresh old = absurd (cc (old))
stops now bot b (e ∷ es) db orphan fresh old = elim (Bool-cases (is_outdated b e)) [
  | inl hit ↦ rw (check_entries, hit, fresh, orphan) refl
  | inr miss ↦ rw (check_entries, miss) (stops now bot b es db orphan fresh (ground (arith, old)))
]

-- A base without a maintainer that Repology calls outdated and that is not flagged ends the check: it
-- is flagged, and no later base is looked at.
pub orphan_stops_check :
    (now : ℕ) (bot : Option ℕ) (b : PackageBase) (bs : List PackageBase)
    (entries : List RepologyEntry) (db : Db)
    → b.maintainer ≡ none
    → b.flagger ≡ none
    → any (is_outdated b) entries ≡ true
    → check_bases now bot (b ∷ bs) entries db ≡ (update_base b.id (flagged now bot) db, false)
unfolding check_bases
orphan_stops_check now bot b bs entries db orphan fresh old =
    rw (check_bases, stops now bot b entries db orphan fresh old) refl
