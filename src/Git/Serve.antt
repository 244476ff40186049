-- ===== src/Git/Serve.antt =====
-- aurweb/git/serve.py: what an SSH command of the git interface may do. The repositories are the
-- names of the directories below repo-path.
pub mod Paths
pub mod Writers
pub mod Access
pub mod Effects
use Prim.Native.String.{◌++◌ as str_append}
use text.Mathlib.Text.{starts_with}
use mprweb.Prelude.{
  ℕ, suc, ◌-◌, ◌+◌, String, Bool, true, false, not, ◌&&◌, ◌||◌, Option, none, some, List, [], ◌∷◌,
  ◌++◌, map, filter, any, find?, update_where, length, ltb, ◌==◌, str_eq, str_len, str_drop,
  str_take, ends_with, if◌then◌else◌,
}
use mprweb.Models.{User, PackageBase, PackageComaintainer}

-- The configuration; `repo_regex` answers `re.match(repo_regex, name)`, and `hook_usable` is
-- os.access on the update hook.
pub record Config : Type 0 where
  pub enable_maintenance : Bool
  pub maintenance_exc : List String
  pub repo_regex : String → Bool
  pub hook_usable : Bool

pub record Store : Type 0 where
  pub users : List User
  pub bases : List PackageBase
  pub comaintainers : List PackageComaintainer
  pub bans : List String
  pub repositories : List String

pub data ServeError : Type 0 where
  maintenance : ServeError
  banned : ServeError
  -- InvalidArgumentsException: an argument is missing, there are too many, or no such command
  missing_argument too_many_arguments invalid_command : ServeError
  invalid_repository_name : String → ServeError
  permission_denied : String → ServeError
  broken_update_hook : ServeError
  -- IndexError: `git` without an argument
  index_error : ServeError
  -- AttributeError: the name of a maintainer, or of a comaintainer, that is None
  attribute_error : ServeError

-- The last thing that a command does is to run git-shell on a repository.
pub data Outcome : Type 0 where
  refused : ServeError → Outcome
  ran : String → String → Outcome

unfoldable pub log_ssh_login : ℕ → String → String → List User → List User
log_ssh_login now user remote_addr =
    update_where (λ u. str_eq u.username user)
      (λ u. record u { last_ssh_login = now; last_ssh_login_ip = some remote_addr })

abbrev pub bans_match : String → List String → Bool
bans_match remote_addr = any (λ b. str_eq b remote_addr)

-- `checkarg(cmdargv, "path")`, with the path that it leaves.
unfoldable pub checkarg_path :
    List String → (String → Outcome × Store) → (ServeError → Outcome × Store) → Outcome × Store
checkarg_path [] found failed = failed missing_argument
checkarg_path (a ∷ []) found failed = failed missing_argument
checkarg_path (a ∷ p ∷ []) found failed = found p
checkarg_path (a ∷ p ∷ q ∷ rest) found failed = failed too_many_arguments

-- `path.rstrip("/")`
unfoldable pub rstrip_slash : String → String
rstrip_slash String.[] = ""
rstrip_slash (String.◌∷◌ c s) =
    let rest = rstrip_slash s in
    if str_eq rest "" && str_eq (String.◌∷◌ c "") "/" then "" else String.◌∷◌ c rest

abbrev pub with_slash : String → String
with_slash path = if starts_with path "/" then path else str_append "/" path

abbrev pub with_git : String → String
with_git path = if ends_with path ".git" then path else str_append path ".git"

-- `path[1:-4]`
abbrev pub repository_of : String → String
repository_of path = str_drop 1 (str_take (str_len path - 4) path)

unfoldable pub pkgbase_name : String → String
pkgbase_name arg = repository_of (with_git (with_slash (rstrip_slash arg)))

abbrev pub username_of : List User → ℕ → Option String
username_of users uid = elim (find? (λ (u : User). u.id == uid) users) [
  | none ↦ none
  | some u ↦ some u.username
]

abbrev pub find_base : String → List PackageBase → Option PackageBase
find_base name = find? (λ (b : PackageBase). str_eq b.name name)

abbrev cons_name : Option String → Option (List String) → Option (List String)
cons_name (some n) (some ns) = some (n ∷ ns)
cons_name _ _ = none

-- `comaintainer.User.Username` for each comaintainer of the base.
unfoldable pub comaintainer_names : List User → ℕ → List PackageComaintainer → Option (List String)
comaintainer_names users b [] = some []
comaintainer_names users b (c ∷ cs) =
    let rest = comaintainer_names users b cs in
    if c.package_base_id == b then cons_name (username_of users c.users_id) rest else rest

-- None where a name is missing: an AttributeError.
unfoldable pub write_users :
    List User → List PackageComaintainer → PackageBase → Option (List String)
write_users users comaintainers b = elim b.maintainer [
  | none ↦ none
  | some m ↦ elim (comaintainer_names users b.id comaintainers) [
    | none ↦ none
    | some names ↦ elim (username_of users m) [ none ↦ none | some n ↦ some (names ++ n ∷ []) ]
  ]
]

-- The check of `git-receive-pack` on a package base that exists.
unfoldable pub check_write : Bool → String → Option (List String) → Option ServeError
check_write privileged username none = some attribute_error
check_write privileged username (some names) =
    if not privileged && not (any (str_eq username) names)
    then some (permission_denied username)
    else none

abbrev pub check_push : Bool → String → Store → Option PackageBase → Option ServeError
check_push privileged username store none = none
check_push privileged username store (some b) =
    check_write privileged username (write_users store.users store.comaintainers b)

-- The repository is created if it is not there.
abbrev pub add_repository : String → List String → List String
add_repository name repos = if any (str_eq name) repos then repos else repos ++ name ∷ []

abbrev pub count_pull : Option PackageBase → List PackageBase → List PackageBase
count_pull none bases = bases
count_pull (some b) bases =
    update_where (λ c. c.id == b.id)
      (λ (c : PackageBase). record c { num_git_pulls = c.num_git_pulls + 1 }) bases

-- The repository is made ready, a clone is counted, and git-shell runs.
unfoldable pub run_command : Bool → String → String → Option PackageBase → Store → Outcome × Store
run_command upload action name found store = (
  ran action name,
  record store {
    repositories = add_repository name store.repositories;
    bases = if upload then count_pull found store.bases else store.bases;
  },
)

unfoldable pub access_repository :
    Config → Bool → String → String → Bool → String → Store → Outcome × Store
access_repository cfg upload action name privileged username store =
    let found = find_base name store.bases in
    if not (cfg.repo_regex name)
    then (refused (invalid_repository_name name), store)
    else elim (if upload then none else check_push privileged username store found) [
      | some e ↦ (refused e, store)
      | none ↦
          if not cfg.hook_usable
          then (refused broken_update_hook, store)
          else run_command upload action name found store
    ]

-- Git pack commands, once the command is in one word.
unfoldable pub serve_pack : Config → String → List String → String → Bool → Store → Outcome × Store
serve_pack cfg action cmdargv username privileged store =
    if str_eq action "git-upload-pack" || str_eq action "git-receive-pack"
    then checkarg_path cmdargv
        (λ path.
          access_repository cfg (str_eq action "git-upload-pack") action (pkgbase_name path)
            privileged username store)
        (λ e. (refused e, store))
    else (refused invalid_command, store)

-- `git upload-pack` and `git receive-pack` become one word.
unfoldable pub serve_command :
    Config → String → List String → String → Bool → Store → Outcome × Store
serve_command cfg action cmdargv username privileged store =
    if str_eq action "git"
    then elim cmdargv [
      | [] ↦ (refused index_error, store)
      | a ∷ rest ↦ elim rest [
        | [] ↦ (refused index_error, store)
        | sub ∷ args ↦
            if str_eq sub "upload-pack" || str_eq sub "receive-pack"
            then serve_pack cfg (str_append (str_append action "-") sub) (a ∷ args) username
                privileged store
            else serve_pack cfg action (a ∷ sub ∷ args) username privileged store
      ]
    ]
    else serve_pack cfg action cmdargv username privileged store

unfoldable pub serve :
    Config → ℕ → String → List String → String → Bool → String → Store → Outcome × Store
serve cfg now action cmdargv username privileged remote_addr store =
    if cfg.enable_maintenance && not (any (str_eq remote_addr) cfg.maintenance_exc)
    then (refused maintenance, store)
    else if bans_match remote_addr store.bans
    then (refused banned, store)
    else serve_command cfg action cmdargv username privileged
        (record store { users = log_ssh_login now username remote_addr store.users })
