-- ===== src/Git/Update/Pushes.antt =====
-- What a push that the hook accepts comes to.
use mathlib.Core.Path.{subst}
use mprweb.Prelude.{
  first_error, ◌≡◌, ◌≢◌, inl, inr, refl, sym, ap, ◌∙◌, String, Bool, true, false, not, ◌&&◌, ◌||◌,
  none, some, List, [], ◌∷◌, ◌++◌, find?, All, eq_iff, ◌==◌, arith, Option-cases,
}
use mprweb.Models.{PackageBase}
use mprweb.Git.Lint.{Srcinfo, Commit, Rules, check_commit}
use mprweb.Git.Update.{
  srcinfo_version, loop_version, head_srcinfo, PushedPackage, HookDb, Push, Pusher, HookError,
  version_not_updated, base_named, version_updated, store_push, update_tables, update_hook,
}
use mprweb.Git.Update.Stored.{
  MayPublish, IsStored, store_push-accepts, outcome-cases, IsStoredIf-IsStored,
}

loop_version-last :
    (older : List Commit) (oldest : Commit) {s : Srcinfo}
    → oldest.srcinfo ≡ some s
    → loop_version (older ++ oldest ∷ []) ≡ some (srcinfo_version s)
unfolding loop_version
loop_version-last [] oldest e = rw e refl
loop_version-last (c ∷ []) oldest e = rw e refl
loop_version-last (c ∷ d ∷ rest) oldest e = loop_version-last (d ∷ rest) oldest e

version_updated-same :
    (who : Pusher) (version : String) (db : HookDb) (b : PackageBase) (p : PushedPackage)
    → find? (λ (q : PushedPackage). q.package_base_id == b.id) db.packages ≡ some p
    → p.version ≡ version
    → who.privileged ≡ false
    → version_updated who version (some b) db ≡ inl version_not_updated
unfolding version_updated
version_updated-same who version db b p first same plain = ground (arith, eq_iff p.version version)

update_tables-refuses :
    (who : Pusher) (commits : List Commit) (db : HookDb) {version : String} {b : PackageBase}
    {e : HookError}
    → loop_version commits ≡ some version
    → find? (base_named who.env_pkgbase) db.bases ≡ some b
    → version_updated who version (some b) db ≡ inl e
    → update_tables who commits db ≡ (some e, db)
unfolding update_tables
update_tables-refuses who commits db loop known refused = ground (arith, loop, known, refused)

-- A push to an existing base is judged by the version of the oldest of the new commits: without
-- privileges it is refused, and nothing is stored, if that version is the stored one, whatever version
-- the newer commits have.
pub oldest_commit_decides :
    (rules : Rules) (who : Pusher) (push : Push) (newer : List Commit) (oldest : Commit)
    (old : Srcinfo) (db : HookDb) (b : PackageBase) (p : PushedPackage)
    → push.commits ≡ newer ++ oldest ∷ []
    → find? (base_named who.env_pkgbase) db.bases ≡ some b
    → find? (λ (q : PushedPackage). q.package_base_id == b.id) db.packages ≡ some p
    → oldest.srcinfo ≡ some old
    → p.version ≡ srcinfo_version old
    → who.privileged ≡ false
    → ((update_hook rules who push db).0 ≢ none) × ((update_hook rules who push db).1 ≡ db)
unfolding update_hook
oldest_commit_decides rules who push newer oldest old db b p commits known first parsed same plain =
    let loop : loop_version push.commits ≡ some (srcinfo_version old) =
      rw commits (loop_version-last newer oldest parsed) in
    let refused =
      update_tables-refuses who push.commits db loop known
        (version_updated-same who (srcinfo_version old) db b p first same plain) in
    ((λ h. ground arith), ground arith)

update_tables-stores :
    (who : Pusher) (commits : List Commit) (db : HookDb) {version : String} {updated : Bool}
    {s : Srcinfo}
    → loop_version commits ≡ some version
    → version_updated who version (find? (base_named who.env_pkgbase) db.bases) db ≡ inr updated
    → head_srcinfo commits ≡ some s
    → update_tables who commits db ≡ store_push who s updated db
unfolding update_tables
update_tables-stores who commits db loop fresh head = ground (arith, loop, fresh, head)

update_tables-accepts :
    (who : Pusher) (commits : List Commit) (db : HookDb)
    → (update_tables who commits db).0 ≡ none
    → (s : Srcinfo) × (version : String) × (head_srcinfo commits ≡ some s)
      × (loop_version commits ≡ some version)
      × (s.pkgbase ≡ who.env_pkgbase)
      × All (MayPublish who db) s.pkgname
      × IsStored who version s db (update_tables who commits db).1
unfolding update_tables
update_tables-accepts who commits db h = elim (Option-cases (loop_version commits)) [
  | inl e ↦ absurd (ground arith)
  | inr (version, e) ↦
      elim (outcome-cases
        (version_updated who version (find? (base_named who.env_pkgbase) db.bases) db)) [
          | inl (err, f) ↦ absurd (ground (arith, e, f, h))
          | inr (updated, f) ↦ elim (Option-cases (head_srcinfo commits)) [
            | inl g ↦ absurd (ground (arith, e, f, g, h))
            | inr (s, g) ↦
                let same = update_tables-stores who commits db e f g in
                let (named, names, stored) =
                  store_push-accepts who s updated db (ap (λ r. r.0) (sym same) ∙ h) in
                (
                  s,
                  version,
                  g,
                  e,
                  named,
                  names,
                  subst (λ r. IsStored who version s db r.1) (sym same)
                      (IsStoredIf-IsStored who version s updated db (store_push who s updated db).1
                        f stored),
                )
          ]
        ]
]

first_error-All :
    (rules : Rules) (commits : List Commit)
    → first_error (check_commit rules) commits ≡ none
    → All (λ (c : Commit). check_commit rules c ≡ none) commits
first_error-All rules [] h = tt
first_error-All rules (c ∷ cs) h = elim (Option-cases (check_commit rules c)) [
  | inl e ↦ (e, first_error-All rules cs (rw e at h))
  | inr (err, e) ↦ absurd (let bad = rw e at h in cc)
]

-- When the hook accepts a push, it is to the master branch and loses no commit, unless a privileged
-- user overwrites; every new commit passes the checks; and the newest one names the package base that the
-- repository is for, and publishes no package of another base and, without privileges, none that is
-- blacklisted. If the base is new, or its first package has another version than the oldest new commit,
-- the base then has exactly the packages of the newest commit, at its version. Otherwise the user is
-- privileged, and the tables stay as they are.
pub accepted_push :
    (rules : Rules) (who : Pusher) (push : Push) (db : HookDb)
    → (update_hook rules who push db).0 ≡ none
    → (s : Srcinfo) × (version : String) × (push.refname ≡ "refs/heads/master")
      × ((push.is_new || (who.overwrite && who.privileged) || not push.loses_commits) ≡ true)
      × All (λ (c : Commit). check_commit rules c ≡ none) push.commits
      × (head_srcinfo push.commits ≡ some s)
      × (loop_version push.commits ≡ some version)
      × (s.pkgbase ≡ who.env_pkgbase)
      × All (MayPublish who db) s.pkgname
      × IsStored who version s db (update_hook rules who push db).1
unfolding update_hook
accepted_push rules who push db h =
    elim (Option-cases (first_error (check_commit rules) push.commits)) [
      | inr (e, f) ↦ absurd (ground arith)
      | inl f ↦
          let through : update_hook rules who push db ≡ update_tables who push.commits db =
            ground arith in
          let (s, version, head, loop, named, names, stored) =
            update_tables-accepts who push.commits db (ap (λ r. r.0) (sym through) ∙ h) in
          (
            s,
            version,
            ground (arith, eq_iff push.refname "refs/heads/master"),
            ground arith,
            first_error-All rules push.commits f,
            head,
            loop,
            named,
            names,
            subst (λ r. IsStored who version s db r.1) (sym through) stored,
          )
    ]
