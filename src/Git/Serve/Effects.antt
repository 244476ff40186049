-- ===== src/Git/Serve/Effects.antt =====
-- What a command leaves behind, for every command line.
use Prim.Native.String.{◌++◌ as str_append}
use mprweb.Prelude.{
  ℕ, ◌≡◌, refl, String, Bool, not, ◌&&◌, ◌||◌, List, [], ◌∷◌, any, arith, Bool-cases, inl, inr,
  str_eq, if◌then◌else◌,
}
use mprweb.Git.Serve.{
  Config, Store, ServeError, Outcome, refused, log_ssh_login, bans_match, pkgbase_name, run_command,
  access_repository, serve_pack, serve_command, serve, checkarg_path,
}

-- A refusal leaves the store as it is.
abbrev KeepsOnRefusal : Store → Outcome × Store → Type 0
KeepsOnRefusal store result = (e : ServeError) → result.0 ≡ refused e → result.1 ≡ store

refused-KeepsOnRefusal : (e : ServeError) (store : Store) → KeepsOnRefusal store (refused e, store)
refused-KeepsOnRefusal e store f h = refl

access_repository-KeepsOnRefusal :
    (cfg : Config) (upload : Bool) (action name : String) (privileged : Bool) (username : String)
    (store : Store)
    → KeepsOnRefusal store (access_repository cfg upload action name privileged username store)
unfolding access_repository run_command
access_repository-KeepsOnRefusal cfg upload action name privileged username store e h = ground arith

checkarg_path-KeepsOnRefusal :
    (store : Store) (argv : List String) (found : String → Outcome × Store)
    → ((path : String) → KeepsOnRefusal store (found path))
    → KeepsOnRefusal store (checkarg_path argv found (λ e. (refused e, store)))
unfolding checkarg_path
checkarg_path-KeepsOnRefusal store [] found h e r = refl
checkarg_path-KeepsOnRefusal store (a ∷ []) found h e r = refl
checkarg_path-KeepsOnRefusal store (a ∷ p ∷ []) found h e r = h p e r
checkarg_path-KeepsOnRefusal store (a ∷ p ∷ q ∷ rest) found h e r = refl

serve_pack-KeepsOnRefusal :
    (cfg : Config) (action : String) (argv : List String) (username : String) (privileged : Bool)
    (store : Store)
    → KeepsOnRefusal store (serve_pack cfg action argv username privileged store)
unfolding serve_pack
serve_pack-KeepsOnRefusal cfg action argv username privileged store =
    elim (Bool-cases (str_eq action "git-upload-pack" || str_eq action "git-receive-pack")) [
      | inl e ↦ rw e (
          checkarg_path-KeepsOnRefusal store argv
            (λ path.
              access_repository cfg (str_eq action "git-upload-pack") action (pkgbase_name path)
                privileged username store)
            (λ path.
              access_repository-KeepsOnRefusal cfg (str_eq action "git-upload-pack") action
                (pkgbase_name path) privileged username store))
      | inr e ↦ rw e (λ f h. refl)
    ]

serve_command-KeepsOnRefusal :
    (cfg : Config) (action : String) (argv : List String) (username : String) (privileged : Bool)
    (store : Store)
    → KeepsOnRefusal store (serve_command cfg action argv username privileged store)
unfolding serve_command
serve_command-KeepsOnRefusal cfg action [] username privileged store e h =
    ground (arith, serve_pack-KeepsOnRefusal cfg action [] username privileged store e)
serve_command-KeepsOnRefusal cfg action (a ∷ []) username privileged store e h =
    ground (arith, serve_pack-KeepsOnRefusal cfg action (a ∷ []) username privileged store e)
serve_command-KeepsOnRefusal cfg action (a ∷ sub ∷ args) username privileged store e h = ground (
  arith,
  serve_pack-KeepsOnRefusal cfg action (a ∷ sub ∷ args) username privileged store e,
  serve_pack-KeepsOnRefusal cfg (str_append (str_append action "-") sub) (a ∷ args) username
      privileged store e,
)

-- A command that is refused leaves the repositories, the package bases, the comaintainers and the
-- bans as they are. It leaves the users as they are if the address is banned or kept out by
-- maintenance, and otherwise records the login, whatever the command was.
pub refused_records_login :
    (cfg : Config) (now : ℕ) (action : String) (argv : List String) (username : String)
    (privileged : Bool) (ip : String) (store : Store) (e : ServeError)
    → (serve cfg now action argv username privileged ip store).0 ≡ refused e
    → (serve cfg now action argv username privileged ip store).1 ≡ (
        if (cfg.enable_maintenance && not (any (str_eq ip) cfg.maintenance_exc))
          || bans_match ip store.bans
        then store
        else record store { users = log_ssh_login now username ip store.users })
unfolding serve
refused_records_login cfg now action argv username privileged ip store e h =
    let logged = record store { users = log_ssh_login now username ip store.users } in
    ground (arith, serve_command-KeepsOnRefusal cfg action argv username privileged logged e)
