-- ===== src/Git/Update/Stored.antt =====
-- What the steps of an accepted push store.
use mprweb.Prelude.{
  Option, filter, map, ◌≡◌, ◌≢◌, ◌⊎◌, ◌↔◌, inl, inr, refl, ap, ◌∙◌, String, Bool, true, false, not,
  none, some, List, [], ◌∷◌, ◌++◌, any, find?, All, str_eq, eq_iff, ◌==◌, arith, Bool-cases,
  Option-cases,
}
use mprweb.Models.{User, PackageBase}
use mprweb.Git.Lint.{Srcinfo}
use mprweb.Git.Update.{
  srcinfo_version, PushedPackage, HookDb, Pusher, HookError, base_named, is_foreign, check_names,
  create_pkgbase, ensure_base, save_tables, save_metadata, version_updated, store_push,
}

-- The names that the push may publish: none belongs to a package of another base, and only a
-- privileged user publishes one that is blacklisted.
abbrev pub MayPublish : Pusher → HookDb → String → Type 0
MayPublish who db p =
    (any (is_foreign db who.env_pkgbase p) db.packages ≡ false)
    × ((any (str_eq p) db.blacklist ≡ false) ⊎ (who.privileged ≡ true))

check_names_iff :
    (who : Pusher) (db : HookDb) (names : List String)
    → (check_names who db names ≡ none) ↔ All (MayPublish who db) names
unfolding check_names
check_names_iff who db [] = ((λ h. tt), λ h. refl)
check_names_iff who db (p ∷ ps) =
    let rest = check_names_iff who db ps in
    (
      (λ h. ((ground arith, ground arith), rest.0 (ground arith))),
      λ ((own, listed), all). let done = rest.1 all in ground arith,
    )

-- The base of the push as it stands before the metadata is stored.
abbrev pub readied : Pusher → Srcinfo → HookDb → HookDb
readied who s db = ensure_base (find? (base_named who.env_pkgbase) db.bases) s.pkgbase who.user db

save_metadata-accepts :
    (s : Srcinfo) (user : User) (db : HookDb)
    → (save_metadata s user db).0 ≡ none
    → (b : PackageBase) × (find? (base_named s.pkgbase) db.bases ≡ some b)
      × (b.maintainer ≢ none)
      × ((save_metadata s user db).1 ≡ save_tables s user b db)
unfolding save_metadata
save_metadata-accepts s user db h = elim (Option-cases (find? (base_named s.pkgbase) db.bases)) [
  | inl e ↦ absurd (ground arith)
  | inr (b, e) ↦ (b, e, (λ q. ground arith), ground arith)
]

-- What an accepted push has stored: nothing of the packages, when the version was not updated; or else
-- the packages of the newest commit, at its version, in place of those that the base had.
abbrev pub IsStoredIf : Pusher → Srcinfo → Bool → HookDb → HookDb → Type 0
IsStoredIf who s updated db after =
    ((updated ≡ false) × (after ≡ readied who s db))
    ⊎ ((updated ≡ true)
        × ((b : PackageBase) × (find? (base_named s.pkgbase) (readied who s db).bases ≡ some b)
            × (b.maintainer ≢ none)
            × (after ≡ save_tables s who.user b (readied who s db))))

pub store_push-accepts :
    (who : Pusher) (s : Srcinfo) (updated : Bool) (db : HookDb)
    → (store_push who s updated db).0 ≡ none
    → (s.pkgbase ≡ who.env_pkgbase)
      × All (MayPublish who db) s.pkgname
      × IsStoredIf who s updated db (store_push who s updated db).1
unfolding store_push
store_push-accepts who s updated db h = elim (Bool-cases updated) [
  | inl e ↦ (
    ground (arith, eq_iff s.pkgbase who.env_pkgbase),
    (check_names_iff who db s.pkgname).0 (ground arith),
    (let (b, f, m, g) = save_metadata-accepts s who.user (readied who s db) (ground arith) in
        inr (e, (b, f, m, ground arith))),
  )
  | inr e ↦ (
    ground (arith, eq_iff s.pkgbase who.env_pkgbase),
    (check_names_iff who db s.pkgname).0 (ground arith),
    inl (e, ground arith),
  )
]

pub outcome-cases :
    (x : HookError ⊎ Bool) → ((e : HookError) × (x ≡ inl e)) ⊎ ((u : Bool) × (x ≡ inr u))
outcome-cases (inl e) = inl (e, refl)
outcome-cases (inr u) = inr (u, refl)

-- The oldest of the new commits has another version than the first package of the base, or the base
-- does not exist yet.
abbrev pub HasNewVersion : Pusher → String → HookDb → Type 0
HasNewVersion who version db =
    (find? (base_named who.env_pkgbase) db.bases ≡ none)
    ⊎ ((b : PackageBase) × (p : PushedPackage) × (find? (base_named who.env_pkgbase) db.bases
          ≡ some b)
        × (find? (λ (q : PushedPackage). q.package_base_id == b.id) db.packages ≡ some p)
        × (p.version ≢ version))

abbrev pub HasStoredVersion : Pusher → String → HookDb → Type 0
HasStoredVersion who version db =
    (b : PackageBase) × (p : PushedPackage) × (find? (base_named who.env_pkgbase) db.bases ≡ some b)
    × (find? (λ (q : PushedPackage). q.package_base_id == b.id) db.packages ≡ some p)
    × (p.version ≡ version)

version_updated-cases :
    (who : Pusher) (version : String) (db : HookDb) (updated : Bool)
    → version_updated who version (find? (base_named who.env_pkgbase) db.bases) db ≡ inr updated
    → ((updated ≡ true) × HasNewVersion who version db)
      ⊎ ((updated ≡ false) × (who.privileged ≡ true) × HasStoredVersion who version db)
unfolding version_updated
version_updated-cases who version db updated h =
    elim (Option-cases (find? (base_named who.env_pkgbase) db.bases)) [
      | inl e ↦ inl (ground arith, inl e)
      | inr (b, e) ↦
          elim (Option-cases
            (find? (λ (q : PushedPackage). q.package_base_id == b.id) db.packages)) [
              | inl f ↦ absurd (ground arith)
              | inr (p, f) ↦ elim (Bool-cases (str_eq p.version version)) [
                | inr new ↦
                    inl (ground arith, inr (b, p, e, f, ground (arith, eq_iff p.version version)))
                | inl old ↦
                    inr (ground arith, ground arith, (b, p, e, f, (eq_iff p.version version).0 old))
              ]
            ]
    ]

-- What an accepted push has stored. If the version is new, it is the packages of the newest commit, at
-- its version, in place of those that the base had. If not, the user is privileged, and nothing changes.
abbrev pub IsStored : Pusher → String → Srcinfo → HookDb → HookDb → Type 0
IsStored who version s db after =
    (HasNewVersion who version db
      × ((b : PackageBase) × (find? (base_named s.pkgbase) (readied who s db).bases ≡ some b)
          × (b.maintainer ≢ none)
          × (after ≡ save_tables s who.user b (readied who s db))
          × (after.packages
              ≡ filter (λ (p : PushedPackage). not (p.package_base_id == b.id)) db.packages
                ++ map
                    (λ n. record { package_base_id = b.id; name = n; version = srcinfo_version s })
                    s.pkgname)))
    ⊎ ((who.privileged ≡ true) × HasStoredVersion who version db × (after ≡ db))

ensure_base-packages :
    (o : Option PackageBase) (name : String) (user : User) (db : HookDb)
    → (ensure_base o name user db).packages ≡ db.packages
unfolding create_pkgbase
ensure_base-packages none name user db = refl
ensure_base-packages (some b) name user db = refl

stored_tables :
    (who : Pusher) (s : Srcinfo) (db after : HookDb) (b : PackageBase)
    → after ≡ save_tables s who.user b (readied who s db)
    → after.packages
      ≡ filter (λ (p : PushedPackage). not (p.package_base_id == b.id)) db.packages
        ++ map
            (λ n. record { package_base_id = b.id; name = n; version = srcinfo_version s })
            s.pkgname
unfolding save_tables
stored_tables who s db after b e =
    ap (λ (d : HookDb). d.packages) e
    ∙ rw (ensure_base-packages (find? (base_named who.env_pkgbase) db.bases) s.pkgbase who.user db)
        refl

pub IsStoredIf-IsStored :
    (who : Pusher) (version : String) (s : Srcinfo) (updated : Bool) (db after : HookDb)
    → version_updated who version (find? (base_named who.env_pkgbase) db.bases) db ≡ inr updated
    → IsStoredIf who s updated db after
    → IsStored who version s db after
IsStoredIf-IsStored who version s updated db after f stored =
    elim (version_updated-cases who version db updated f) [
      | inl (t, new) ↦ elim stored [
        | inl (n, e) ↦ absurd (cc (t, n))
        | inr (_, (b, g, m, e)) ↦ inl (new, (b, g, m, e, stored_tables who s db after b e))
      ]
      | inr (n, able, (b, p, e, g, same)) ↦ elim stored [
        | inl (_, q) ↦ inr (able, (b, p, e, g, same), q ∙ rw e refl)
        | inr (t, _) ↦ absurd (cc (t, n))
      ]
    ]
