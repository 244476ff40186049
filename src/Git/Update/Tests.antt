-- ===== src/Git/Update/Tests.antt =====
-- A push of two commits to a package base.
use mprweb.Prelude.{
  ◌≡◌, ◌≢◌, ◌↔◌, refl, String, true, false, not, ◌&&◌, ◌||◌, none, some, List, [], ◌∷◌, All, str_eq,
  if◌then◌else◌,
}
use mprweb.Models.{User, PackageBase, user_id}
use mprweb.Git.Lint.{Srcinfo, blob, Commit, Rules, in_tree, check_commit, lint_srcinfo}
use mprweb.Git.Update.{
  HookDb, Push, Pusher, PushedPackage, srcinfo_version, get_version, loop_version, version_updated,
  store_push, check_names, save_metadata, update_tables, update_hook,
}
use mprweb.Git.Lint.Commits.{IsSmallFile, IsLinted, check_commit_iff}
use mprweb.Git.Update.Stored.{MayPublish, IsStored}
use mprweb.Git.Update.Pushes.{accepted_push, oldest_commit_decides}

abbrev info : String → Srcinfo
info version = record {
  pkgbase = "foo";
  pkgname = "foo" ∷ "foo-doc" ∷ [];
  pkgver = version;
  pkgrel = "1";
  epoch = [];
  scripts = ("postinst", "./foo.postinst") ∷ [];
  sources = ("source", "https://example.org/foo.tar") ∷ ("source", "fix.patch") ∷ [];
}

abbrev commit : String → Commit
commit version = record {
  tree =
      (".SRCINFO", blob 300)
      ∷ ("PKGBUILD", blob 500)
      ∷ ("foo.postinst", blob 20)
      ∷ ("fix.patch", blob 80)
      ∷ [];
  srcinfo = some (info version);
}

abbrev normal : String → String
normal p = if str_eq p "./foo.postinst" then "foo.postinst" else p

abbrev rules : Rules
rules = record {
  max_blob_size = 1000;
  repo_regex = λ s. true;
  pkgname_regex = λ s. true;
  is_digit = λ s. true;
  normpath = normal;
}

abbrev alice : User
alice = record {
  id = 7;
  username = "alice";
  email = "";
  account_type_id = user_id;
  suspended = false;
  passwd = "";
  salt = "";
  inactivity_ts = 0;
  last_login = 0;
  last_login_ip = none;
  last_ssh_login = 0;
  last_ssh_login_ip = none;
}

abbrev pusher : Pusher
pusher = record { user = alice; env_pkgbase = "foo"; privileged = false; overwrite = false }

abbrev foo : PackageBase
foo = record {
  id = 1;
  name = "foo";
  maintainer = some 7;
  packager = none;
  flagger = none;
  out_of_date_ts = none;
  flagger_comment = "";
  num_votes = 0;
  num_git_pulls = 0;
  submitted_ts = 0;
  repology_check = false;
}

abbrev stored : PushedPackage
stored = record { package_base_id = 1; name = "foo"; version = "1.0-1" }

abbrev hook_db : HookDb
hook_db = record {
  bases = foo ∷ [];
  packages = stored ∷ [];
  notifications = [];
  blacklist = [];
  now = 100;
  next_id = 2;
}

abbrev push_of : List Commit → Push
push_of commits = record {
  refname = "refs/heads/master";
  is_new = false;
  loses_commits = false;
  commits = commits;
}

check_commit_iff_example : (check_commit rules (commit "1.1") ≡ none) ↔ (
    (s : Srcinfo) × (in_tree (commit "1.1") ".SRCINFO" ≡ true)
    × (in_tree (commit "1.1") "PKGBUILD" ≡ true)
    × All (IsSmallFile 1000) (commit "1.1").tree
    × (some (info "1.1") ≡ some s)
    × IsLinted rules (commit "1.1") s)
check_commit_iff_example = check_commit_iff rules (commit "1.1")

update_accepted : (update_hook rules pusher (push_of (commit "1.1" ∷ [])) hook_db).0 ≡ none
unfolding update_hook check_commit lint_srcinfo update_tables version_updated loop_version
    srcinfo_version get_version store_push check_names save_metadata
update_accepted = refl

accepted_push_example :
    (s : Srcinfo) × (version : String) × ((push_of []).refname ≡ "refs/heads/master")
    × ((false || (false && false) || not false) ≡ true)
    × All (λ (c : Commit). check_commit rules c ≡ none) (commit "1.1" ∷ [])
    × (some (info "1.1") ≡ some s)
    × (loop_version (commit "1.1" ∷ []) ≡ some version)
    × (s.pkgbase ≡ "foo")
    × All (MayPublish pusher hook_db) s.pkgname
    × IsStored pusher version s hook_db
        (update_hook rules pusher (push_of (commit "1.1" ∷ [])) hook_db).1
accepted_push_example =
    accepted_push rules pusher (push_of (commit "1.1" ∷ [])) hook_db update_accepted

oldest_commit_decides_example :
    ((update_hook rules pusher (push_of (commit "1.1" ∷ commit "1.0" ∷ [])) hook_db).0 ≢ none)
    × ((update_hook rules pusher (push_of (commit "1.1" ∷ commit "1.0" ∷ [])) hook_db).1 ≡ hook_db)
unfolding srcinfo_version get_version
oldest_commit_decides_example =
    oldest_commit_decides rules pusher (push_of (commit "1.1" ∷ commit "1.0" ∷ []))
      (commit "1.1" ∷ []) (commit "1.0") (info "1.0") hook_db foo stored refl refl refl refl refl
      refl
