-- ===== src/Rpc.antt =====
-- aurweb/rpc.py: the class RPC, and the class RPCSearch of aurweb/packages/search.py. A query is a
-- filter over the packages, joined with their bases and maintainers.
pub mod Handlers
pub mod Args
pub mod Verdicts
pub mod Grouping
mod Tests
use mprweb.Prelude.{
  ◌or_else◌, require, ℕ, ◌≡◌, String, Bool, true, false, not, ◌&&◌, ◌||◌, Option, none, some, List,
  [], ◌∷◌, map, filter, any, find?, take, length, ltb, ◌==◌, str_eq, str_len, holds, if◌then◌else◌,
}

-- A package with the columns of its base, and the name of the maintainer.
pub record RpcPackage : Type 0 where
  pub id : ℕ
  pub name : String
  pub description : String
  pub base_name : String
  pub packager : Option ℕ
  pub maintainer : Option String

pub record Dependency : Type 0 where
  pub package_id : ℕ
  pub dep_type_id : ℕ
  pub dep_name : String

-- A row of the union of the queries on dependencies, relations, licenses and keywords.
pub record ExtraRow : Type 0 where
  pub package_id : ℕ
  pub type : String
  pub name : String
  pub cond : String

-- The tables; `like` is the operator LIKE of the database with %s around the text, and `by_name` is its
-- order of names. `base_packagers` are the bases with their packagers.
pub record RpcDb : Type 0 where
  pub packages : List RpcPackage
  pub dependencies : List Dependency
  pub extra : List ExtraRow
  pub base_packagers : List (String × Option ℕ)
  pub like : String → String → Bool
  pub by_name : List String → List String
  pub max_results : ℕ

pub data RpcError : Type 0 where
  no_version invalid_version incorrect_by no_type incorrect_type arg_too_small : RpcError

-- A type, and a list of values for each of its keys.
pub record Info : Type 0 where
  pub pkg : RpcPackage
  pub extra : List (String × List String)

pub data Results : Type 0 where
  infos : List Info → Results
  found : List RpcPackage → Results
  names : List String → Results

-- What the handlers do: RPCError, or the AttributeError or TypeError for a handler that there is not.
pub data Handled : Type 0 where
  results : Results → Handled
  rpc_error : RpcError → Handled
  no_handler : Handled

pub data RpcAnswer : Type 0 where
  error : RpcError → RpcAnswer
  suggestions : Results → RpcAnswer
  data_of : Option String → Results → RpcAnswer
  server_error : RpcAnswer

abbrev pub exposed_types : List String
exposed_types = "info" ∷ "multiinfo" ∷ "search" ∷ "msearch" ∷ "suggest" ∷ "suggest-pkgbase" ∷ []

abbrev pub exposed_bys : List String
exposed_bys =
    "name-desc" ∷ "name" ∷ "maintainer" ∷ "depends" ∷ "makedepends" ∷ "optdepends" ∷ "checkdepends"
    ∷ []

-- TYPE_ALIASES and BY_ALIASES
abbrev pub aliased_type : Option String → Option String
aliased_type none = none
aliased_type (some t) = if str_eq t "info" then some "multiinfo" else some t

abbrev pub aliased_by : String → String
aliased_by by =
    if str_eq by "name-desc"
    then "nd"
    else if str_eq by "name"
    then "n"
    else if str_eq by "maintainer"
    then "m"
    else by

abbrev pub is_version_5 : Option ℕ → Option RpcError
is_version_5 none = some no_version
is_version_5 (some v) = require (v == 5) invalid_version

abbrev pub is_exposed_by : Option String → Bool
is_exposed_by none = false
is_exposed_by (some by) = any (str_eq by) exposed_bys

abbrev pub is_exposed_type : Option String → Option RpcError
is_exposed_type none = some no_type
is_exposed_type (some t) = require (any (str_eq t) exposed_types) incorrect_type

-- `_verify_inputs`
unfoldable pub verify_inputs : Option ℕ → Option String → Option String → Option RpcError
verify_inputs version type by =
    is_version_5 version
    or_else require (is_exposed_by by) incorrect_by
    or_else is_exposed_type type

abbrev pub depends_on : RpcDb → ℕ → String → RpcPackage → Bool
depends_on db kind arg p =
    any (λ d. d.package_id == p.id && d.dep_type_id == kind && str_eq d.dep_name arg)
      db.dependencies

abbrev pub maintained_by : String → RpcPackage → Bool
maintained_by arg p =
    if str_eq arg ""
    then elim p.maintainer [ none ↦ true | some m ↦ false ]
    else elim p.maintainer [ none ↦ false | some m ↦ str_eq m arg ]

-- The callbacks of `RPCSearch.search_by`; none for a key that has none.
unfoldable pub search_by : RpcDb → String → String → Option (RpcPackage → Bool)
search_by db by arg =
    if str_eq by "nd"
    then some (λ p. db.like p.name arg || db.like p.description arg)
    else if str_eq by "n"
    then some (λ p. db.like p.name arg)
    else if str_eq by "m"
    then some (maintained_by arg)
    else if str_eq by "depends"
    then some (depends_on db 1 arg)
    else if str_eq by "makedepends"
    then some (depends_on db 2 arg)
    else if str_eq by "optdepends"
    then some (depends_on db 4 arg)
    else if str_eq by "checkdepends"
    then some (depends_on db 3 arg)
    else none

abbrev pub is_packaged : Option ℕ → Bool
is_packaged none = false
is_packaged (some u) = true

abbrev pub searched : RpcDb → Option (RpcPackage → Bool) → Handled
searched db none = no_handler
searched db (some test) =
    results
      (found (take db.max_results (filter (λ p. is_packaged p.packager && test p) db.packages)))

abbrev pub first_arg : List String → String
first_arg [] = ""
first_arg (a ∷ rest) = a

-- `_handle_search_type`
unfoldable pub handle_search : RpcDb → String → List String → Handled
unfolding search_by
handle_search db by args =
    if not (str_eq by "m") && length args == 0
    then rpc_error no_type
    else if not (str_eq by "m") && ltb (str_len (first_arg args)) 2
    then rpc_error arg_too_small
    else searched db (search_by db by (first_arg args))
