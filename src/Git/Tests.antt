-- ===== src/Git/Tests.antt =====
-- A package base with its writers, and pushes to it.
use text.Mathlib.Text.{starts_with}
use mprweb.Prelude.{
  ℕ, ◌≡◌, ◌↔◌, refl, String, true, false, not, ◌&&◌, Option, none, some, [], ◌∷◌, any, str_eq,
}
use mprweb.Models.{User, PackageBase, user_id}
use mprweb.Git.Serve.{
  Config, Store, refused, ran, permission_denied, attribute_error, rstrip_slash, bans_match,
  pkgbase_name, log_ssh_login, access_repository, write_users, comaintainer_names, check_write,
  serve, serve_command, serve_pack, checkarg_path,
}
use mprweb.Git.Serve.Access.{MayPush, push_iff, push_orphan_fails}

abbrev account_of : ℕ → String → User
account_of i name = record {
  id = i;
  username = name;
  email = "";
  account_type_id = user_id;
  suspended = false;
  passwd = "";
  salt = "";
  inactivity_ts = 0;
  last_login = 0;
  last_login_ip = none;
  last_ssh_login = 0;
  last_ssh_login_ip = none;
}

abbrev base_of : ℕ → String → Option ℕ → PackageBase
base_of i name m = record {
  id = i;
  name = name;
  maintainer = m;
  packager = none;
  flagger = none;
  out_of_date_ts = none;
  flagger_comment = "";
  num_votes = 0;
  num_git_pulls = 0;
  submitted_ts = 0;
  repology_check = false;
}

abbrev open_config : Config
open_config = record {
  enable_maintenance = false;
  maintenance_exc = [];
  repo_regex = λ s. starts_with s "f";
  hook_usable = true;
}

abbrev store : Store
store = record {
  users = account_of 7 "alice" ∷ account_of 8 "bob" ∷ account_of 9 "eve" ∷ [];
  bases = base_of 1 "foo" (some 7) ∷ base_of 2 "fig" none ∷ [];
  comaintainers = record { users_id = 8; package_base_id = 1; priority = 1 } ∷ [];
  bans = "192.0.2.1" ∷ [];
  repositories = "foo" ∷ [];
}

push_iff_example :
    ((serve open_config 5 "git-receive-pack"
        ("git-receive-pack" ∷ "/foo.git" ∷ [])
        "bob"
        false
        "::1"
        store).0
      ≡ ran "git-receive-pack" (pkgbase_name "/foo.git"))
    ↔ (((false && not (any (str_eq "::1") [])) ≡ false)
        × (bans_match "::1" store.bans ≡ false)
        × (starts_with (pkgbase_name "/foo.git") "f" ≡ true)
        × (true ≡ true)
        × MayPush false "bob" store (pkgbase_name "/foo.git"))
push_iff_example = push_iff open_config 5 "/foo.git" "bob" false "::1" store

push_orphan_fails_example :
    access_repository open_config false "git-receive-pack" "fig" true "alice" store
    ≡ (refused attribute_error, store)
push_orphan_fails_example =
    push_orphan_fails open_config "fig" "alice" true store (base_of 2 "fig" none) refl refl refl

eve_is_denied :
    (serve open_config 5 "git" ("git" ∷ "receive-pack" ∷ "foo/" ∷ []) "eve" false "::1" store).0
    ≡ refused (permission_denied "eve")
unfolding serve serve_command serve_pack checkarg_path pkgbase_name rstrip_slash access_repository
    write_users comaintainer_names check_write log_ssh_login
eve_is_denied = refl
