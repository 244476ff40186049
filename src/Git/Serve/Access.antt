-- ===== src/Git/Serve/Access.antt =====
-- Who may push to a package base.
use mprweb.Prelude.{
  ℕ, ◌≡◌, ◌≢◌, ◌↔◌, ◌⊎◌, refl, ap, sym, ◌∙◌, String, Bool, true, false, not, ◌&&◌, ◌||◌, none, some,
  List, [], ◌∷◌, any, arith, Option-cases, inl, inr, str_eq, ◌==◌,
}
use mprweb.Models.{User, PackageBase, PackageComaintainer}
use mprweb.Git.Serve.{
  Config, Store, refused, ran, attribute_error, log_ssh_login, bans_match, pkgbase_name,
  username_of, find_base, comaintainer_names, write_users, check_write, check_push, run_command,
  access_repository, serve_pack, serve_command, serve, checkarg_path,
}
use mprweb.Git.Serve.Writers.{is_called, is_writer, any-write_users}

username_of-logged :
    (now : ℕ) (user ip : String) (users : List User) (uid : ℕ)
    → username_of (log_ssh_login now user ip users) uid ≡ username_of users uid
unfolding log_ssh_login
username_of-logged now user ip [] uid = refl
username_of-logged now user ip (u ∷ us) uid = ground (arith, username_of-logged now user ip us uid)

comaintainer_names-logged :
    (now : ℕ) (user ip : String) (users : List User) (b : ℕ) (rows : List PackageComaintainer)
    → comaintainer_names (log_ssh_login now user ip users) b rows ≡ comaintainer_names users b rows
unfolding comaintainer_names
comaintainer_names-logged now user ip users b [] = refl
comaintainer_names-logged now user ip users b (c ∷ cs) =
    rw (username_of-logged now user ip users c.users_id)
      (rw (comaintainer_names-logged now user ip users b cs) refl)

write_users-logged :
    (now : ℕ) (user ip : String) (users : List User) (rows : List PackageComaintainer)
    (b : PackageBase)
    → write_users (log_ssh_login now user ip users) rows b ≡ write_users users rows b
unfolding write_users
write_users-logged now user ip users rows b = elim (Option-cases b.maintainer) [
  | inl absent ↦ rw absent refl
  | inr (m, e) ↦ ground (
    arith,
    comaintainer_names-logged now user ip users b.id rows,
    username_of-logged now user ip users m,
  )
]

-- Pushing to the base of that name is open to the user: there is none yet, or the names of all its
-- writers are known, and the user is privileged or one of them.
abbrev pub MayPush : Bool → String → Store → String → Type 0
MayPush privileged username store name =
    (find_base name store.bases ≡ none)
    ⊎ ((b : PackageBase) × (find_base name store.bases ≡ some b)
        × (write_users store.users store.comaintainers b ≢ none)
        × ((privileged || is_writer store.users store.comaintainers b username) ≡ true))

check_write_iff :
    (privileged : Bool) (username : String) (store : Store) (b : PackageBase)
    → (check_push privileged username store (some b) ≡ none) ↔ (
        (write_users store.users store.comaintainers b ≢ none)
        × ((privileged || is_writer store.users store.comaintainers b username) ≡ true))
unfolding check_write
check_write_iff privileged username store b =
    elim (Option-cases (write_users store.users store.comaintainers b)) [
      | inl e ↦ (λ h. absurd (ground arith), λ (h, _). absurd (h e))
      | inr (names, e) ↦
          let q = any-write_users store.users store.comaintainers b username e in
          (λ h. (ground arith, ground arith), λ (_, h). ground arith)
    ]

access_push_iff :
    (cfg : Config) (name : String) (privileged : Bool) (username : String) (store : Store)
    → ((access_repository cfg false "git-receive-pack" name privileged username store).0
        ≡ ran "git-receive-pack" name)
      ↔ ((cfg.repo_regex name ≡ true)
          × (cfg.hook_usable ≡ true)
          × MayPush privileged username store name)
unfolding access_repository run_command
access_push_iff cfg name privileged username store =
    elim (Option-cases (find_base name store.bases)) [
      | inl new ↦ (λ h. (ground arith, ground arith, inl new), λ (r, k, _). ground arith)
      | inr (b, e) ↦
          let allowed = check_write_iff privileged username store b in
          (
            (λ h.
                let (w, p) = allowed.0 (ground arith) in
                (ground arith, ground arith, inr (b, e, w, p))),
            λ (r, k, may). elim may [
              | inl new ↦ absurd (ground arith)
              | inr (c, f, w, p) ↦
                  let granted = (check_write_iff privileged username store c).1 (w, p) in
                  ground arith
            ],
          )
    ]

is_called-logged :
    (now : ℕ) (user ip : String) (users : List User) (name : String) (uid : ℕ)
    → is_called (log_ssh_login now user ip users) name uid ≡ is_called users name uid
is_called-logged now user ip users name uid =
    ap (λ o. elim o [ none ↦ false | some n ↦ str_eq name n ])
      (username_of-logged now user ip users uid)

any_writer-logged :
    (now : ℕ) (user ip : String) (users : List User) (rows : List PackageComaintainer) (b : ℕ)
    (name : String)
    → any
        (λ (c : PackageComaintainer).
          c.package_base_id == b && is_called (log_ssh_login now user ip users) name c.users_id)
        rows
      ≡ any
          (λ (c : PackageComaintainer). c.package_base_id == b && is_called users name c.users_id)
          rows
any_writer-logged now user ip users [] b name = refl
any_writer-logged now user ip users (c ∷ cs) b name = ground (
  arith,
  is_called-logged now user ip users name c.users_id,
  any_writer-logged now user ip users cs b name,
)

is_writer-logged :
    (now : ℕ) (user ip : String) (users : List User) (rows : List PackageComaintainer)
    (b : PackageBase) (name : String)
    → is_writer (log_ssh_login now user ip users) rows b name ≡ is_writer users rows b name
is_writer-logged now user ip users rows b name = elim (Option-cases b.maintainer) [
  | inl absent ↦ rw absent (any_writer-logged now user ip users rows b.id name)
  | inr (m, e) ↦ ground (
    arith,
    is_called-logged now user ip users name m,
    any_writer-logged now user ip users rows b.id name,
  )
]

MayPush-logged :
    (now : ℕ) (ip : String) (privileged : Bool) (username : String) (store : Store) (name : String)
    → MayPush privileged username
        (record store { users = log_ssh_login now username ip store.users })
        name
      ↔ MayPush privileged username store name
MayPush-logged now ip privileged username store name =
    let users = store.users in
    let rows = store.comaintainers in
    (
      (λ may. elim may [
        | inl new ↦ inl new
        | inr (b, e, w, p) ↦ inr (
          b,
          e,
          (λ q. w (write_users-logged now username ip users rows b ∙ q)),
          rw (is_writer-logged now username ip users rows b username) at p,
        )
      ]),
      λ may. elim may [
        | inl new ↦ inl new
        | inr (b, e, w, p) ↦ inr (
          b,
          e,
          (λ q. w (sym (write_users-logged now username ip users rows b) ∙ q)),
          rw (is_writer-logged now username ip users rows b username) p,
        )
      ],
    )

-- `git-receive-pack` runs on a repository exactly when the address is let through maintenance and
-- not banned, the name fits the pattern, the update hook can be run, and the package base does not
-- exist yet or the names of its writers are known and the user is privileged, its maintainer, or a
-- comaintainer.
pub push_iff :
    (cfg : Config) (now : ℕ) (path username : String) (privileged : Bool) (ip : String)
    (store : Store)
    → ((serve cfg now "git-receive-pack"
          ("git-receive-pack" ∷ path ∷ [])
          username
          privileged
          ip
          store).0
        ≡ ran "git-receive-pack" (pkgbase_name path))
      ↔ (((cfg.enable_maintenance && not (any (str_eq ip) cfg.maintenance_exc)) ≡ false)
          × (bans_match ip store.bans ≡ false)
          × (cfg.repo_regex (pkgbase_name path) ≡ true)
          × (cfg.hook_usable ≡ true)
          × MayPush privileged username store (pkgbase_name path))
unfolding serve serve_command serve_pack checkarg_path
push_iff cfg now path username privileged ip store =
    let logged = record store { users = log_ssh_login now username ip store.users } in
    let access = access_push_iff cfg (pkgbase_name path) privileged username logged in
    let same = MayPush-logged now ip privileged username store (pkgbase_name path) in
    (
      (λ h.
          let (r, k, may) = access.0 (ground arith) in
          (ground arith, ground arith, r, k, same.0 may)),
      λ (m, b, r, k, may). let run = access.1 (r, k, same.1 may) in ground arith,
    )

-- A push to a package base without a maintainer, whose name fits the pattern, never runs: the check asks for the name of the
-- maintainer, and fails for every user, also for a privileged one.
pub push_orphan_fails :
    (cfg : Config) (name username : String) (privileged : Bool) (store : Store) (b : PackageBase)
    → cfg.repo_regex name ≡ true
    → find_base name store.bases ≡ some b
    → b.maintainer ≡ none
    → access_repository cfg false "git-receive-pack" name privileged username store
      ≡ (refused attribute_error, store)
unfolding access_repository write_users check_write
push_orphan_fails cfg name username privileged store b r e orphan = ground arith
