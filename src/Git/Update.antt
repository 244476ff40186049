-- ===== src/Git/Update.antt =====
-- aurweb/git/update.py: the hook that checks the commits of a push and stores the metadata of the
-- package base. The commits are those that the walker yields, newest first. Sources, dependencies, relations and
-- licenses of packages are left out of the tables.
pub mod Stored
pub mod Pushes
mod Tests
use Prim.Native.String.{◌++◌ as str_append}
use mprweb.Prelude.{
  first_error, ℕ, suc, ◌+◌, String, Bool, true, false, not, ◌&&◌, ◌||◌, Option, none, some, List,
  [], ◌∷◌, ◌++◌, map, filter, any, find?, update_where, leb, ◌==◌, ◌⊎◌, inl, inr, str_eq, str_len,
  if◌then◌else◌,
}
use mprweb.Git.Lint.{Srcinfo, Commit, Rules, CommitError, epoch_of, check_commit}
use mprweb.Models.{User, PackageBase, PackageNotification}

unfoldable pub get_version : String → String → Option String → String
get_version pkgver pkgrel none = str_append pkgver (str_append "-" pkgrel)
get_version pkgver pkgrel (some epoch) =
    str_append epoch (str_append ":" (str_append pkgver (str_append "-" pkgrel)))

unfoldable pub srcinfo_version : Srcinfo → String
srcinfo_version s = get_version s.pkgver s.pkgrel (epoch_of s.epoch)

-- The version that the loop over the commits leaves in its variables: that of the last commit that
-- the walker yields. None where there is no commit, and the variables are unbound.
unfoldable pub loop_version : List Commit → Option String
loop_version [] = none
loop_version (c ∷ []) = elim c.srcinfo [ none ↦ none | some s ↦ some (srcinfo_version s) ]
loop_version (c ∷ d ∷ rest) = loop_version (d ∷ rest)

abbrev pub head_srcinfo : List Commit → Option Srcinfo
head_srcinfo [] = none
head_srcinfo (c ∷ rest) = c.srcinfo

pub record PushedPackage : Type 0 where
  pub package_base_id : ℕ
  pub name : String
  pub version : String

-- The tables, the clock at the time of the push, and the next ID.
pub record HookDb : Type 0 where
  pub bases : List PackageBase
  pub packages : List PushedPackage
  pub notifications : List PackageNotification
  pub blacklist : List String
  pub now : ℕ
  pub next_id : ℕ

-- The push: `refname`, whether `sha1_old` is the zero hash, whether the walker from the old commit
-- finds one that the new one does not have, and the new commits.
pub record Push : Type 0 where
  pub refname : String
  pub is_new : Bool
  pub loses_commits : Bool
  pub commits : List Commit

-- The environment of the hook, and the user.
pub record Pusher : Type 0 where
  pub user : User
  pub env_pkgbase : String
  pub privileged : Bool
  pub overwrite : Bool

pub data HookError : Type 0 where
  other_branch non_fast_forward version_not_updated other_pkgbase : HookError
  bad_commit : CommitError → HookError
  blacklisted overwrites : String → HookError
  -- NameError without a new commit; IndexError of a package base without packages
  name_error index_error : HookError
  -- AttributeError: `user.id`
  attribute_error : HookError

abbrev pub base_named : String → PackageBase → Bool
base_named name b = str_eq b.name name

-- The name of the package base that a package belongs to.
abbrev pub owner_of : HookDb → PushedPackage → Option String
owner_of db p = elim (find? (λ (b : PackageBase). b.id == p.package_base_id) db.bases) [
  | none ↦ none
  | some b ↦ some b.name
]

abbrev pub is_foreign : HookDb → String → String → PushedPackage → Bool
is_foreign db env pkg p =
    str_eq p.name pkg && elim (owner_of db p) [ none ↦ false | some n ↦ not (str_eq n env) ]

-- The checks of the package names of the HEAD commit.
unfoldable pub check_names : Pusher → HookDb → List String → Option HookError
check_names who db [] = none
check_names who db (p ∷ ps) =
    let rest = check_names who db ps in
    if any (str_eq p) db.blacklist && not who.privileged
    then some (blacklisted p)
    else if any (is_foreign db who.env_pkgbase p) db.packages
    then some (overwrites p)
    else rest

unfoldable pub create_pkgbase : String → User → HookDb → HookDb
create_pkgbase name user db = record db {
  bases =
      db.bases
      ++ record {
        id = db.next_id;
        name = name;
        maintainer = some user.id;
        packager = none;
        flagger = none;
        out_of_date_ts = none;
        flagger_comment = "";
        num_votes = 0;
        num_git_pulls = 0;
        submitted_ts = db.now;
        repology_check = false;
      }
        ∷ [];
  notifications =
      db.notifications ++ record { user_id = user.id; package_base_id = db.next_id } ∷ [];
  next_id = suc db.next_id;
}

abbrev pub claim : User → PackageBase → PackageBase
claim user b = record b {
  packager = some user.id;
  out_of_date_ts = none;
  flagger_comment = "";
  flagger = none;
  maintainer = elim b.maintainer [ none ↦ some user.id | some m ↦ some m ];
}

-- Everything up to the notification list, which only concerns a base that was an orphan.
unfoldable pub save_tables : Srcinfo → User → PackageBase → HookDb → HookDb
save_tables s user b db = record db {
  bases = update_where (λ c. c.id == b.id) (claim user) db.bases;
  packages =
      filter (λ p. not (p.package_base_id == b.id)) db.packages
      ++ map (λ n. record { package_base_id = b.id; name = n; version = srcinfo_version s })
          s.pkgname;
}

unfoldable pub save_metadata : Srcinfo → User → HookDb → Option HookError × HookDb
save_metadata s user db = elim (find? (base_named s.pkgbase) db.bases) [
  | none ↦ (some attribute_error, db)
  | some b ↦
      (elim b.maintainer [ none ↦ some attribute_error | some m ↦ none ], save_tables s user b db)
]

-- Whether the version of the first package of an existing base differs from the given one.
unfoldable pub version_updated : Pusher → String → Option PackageBase → HookDb → HookError ⊎ Bool
version_updated who version none db = inr true
version_updated who version (some b) db =
    elim (find? (λ (p : PushedPackage). p.package_base_id == b.id) db.packages) [
      | none ↦ inl index_error
      | some p ↦
          if not (str_eq p.version version)
          then inr true
          else if who.privileged
          then inr false
          else inl version_not_updated
    ]

-- A package base that does not exist yet is created.
abbrev pub ensure_base : Option PackageBase → String → User → HookDb → HookDb
ensure_base none name user db = create_pkgbase name user db
ensure_base (some b) name user db = db

-- The hook from the check of the pkgbase on; the tables after an error are those of the steps before.
unfoldable pub store_push : Pusher → Srcinfo → Bool → HookDb → Option HookError × HookDb
store_push who s updated db =
    if not (str_eq s.pkgbase who.env_pkgbase)
    then (some other_pkgbase, db)
    else elim (check_names who db s.pkgname) [
      | some e ↦ (some e, db)
      | none ↦
          let ready =
            ensure_base (find? (base_named who.env_pkgbase) db.bases) s.pkgbase who.user db in
          if updated then save_metadata s who.user ready else (none, ready)
    ]

unfoldable pub update_tables : Pusher → List Commit → HookDb → Option HookError × HookDb
update_tables who commits db = elim (loop_version commits) [
  | none ↦ (some name_error, db)
  | some version ↦
      elim (version_updated who version (find? (base_named who.env_pkgbase) db.bases) db) [
        | inl e ↦ (some e, db)
        | inr updated ↦ elim (head_srcinfo commits) [
          | none ↦ (some name_error, db)
          | some s ↦ store_push who s updated db
        ]
      ]
]

unfoldable pub update_hook : Rules → Pusher → Push → HookDb → Option HookError × HookDb
update_hook rules who push db =
    if not (str_eq push.refname "refs/heads/master")
    then (some other_branch, db)
    else if not push.is_new && not (who.overwrite && who.privileged) && push.loses_commits
    then (some non_fast_forward, db)
    else elim (first_error (check_commit rules) push.commits) [
      | some e ↦ (some (bad_commit e), db)
      | none ↦ update_tables who push.commits db
    ]
