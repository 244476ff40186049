-- ===== src/Rpc/Handlers.antt =====
-- aurweb/rpc.py: the handlers of the class RPC, the choice between them, and the route of
-- aurweb/routers/rpc.py that asks it.
use Prim.Native.String.{◌++◌ as str_append}
use text.Mathlib.Text.{starts_with}
use mprweb.Prelude.{
  ℕ, String, Bool, false, not, ◌&&◌, Option, none, some, List, [], ◌∷◌, ◌++◌, map, filter, take,
  ◌==◌, str_eq, holds, if◌then◌else◌,
}
use mprweb.Rpc.{
  RpcPackage, ExtraRow, RpcDb, no_type, Info, infos, names, Handled, results, rpc_error, no_handler,
  RpcAnswer, error, suggestions, data_of, server_error, aliased_type, aliased_by, verify_inputs,
  is_packaged, handle_search,
}

-- TYPE_MAPPING
abbrev pub type_mapping : String → String
type_mapping t =
    if str_eq t "depends"
    then "Depends"
    else if str_eq t "makedepends"
    then "MakeDepends"
    else if str_eq t "checkdepends"
    then "CheckDepends"
    else if str_eq t "optdepends"
    then "OptDepends"
    else if str_eq t "conflicts"
    then "Conflicts"
    else if str_eq t "provides"
    then "Provides"
    else if str_eq t "replaces"
    then "Replaces"
    else t

-- `self.extra_info[record.ID][type_].append(name)`: a missing list is made.
unfoldable pub append_to :
    String → String → List (String × List String) → List (String × List String)
append_to key value [] = (key, value ∷ []) ∷ []
append_to key value ((k, vs) ∷ rest) =
    if str_eq k key then (k, vs ++ value ∷ []) ∷ rest else (k, vs) ∷ append_to key value rest

abbrev pub shown : ExtraRow → String
shown r = str_append r.name r.cond

-- The loop over the rows of one package.
unfoldable pub group_extra :
    List ExtraRow → List (String × List String) → List (String × List String)
unfolding append_to
group_extra [] acc = acc
group_extra (r ∷ rs) acc = group_extra rs (append_to (type_mapping r.type) (shown r) acc)

-- `_get_info_json_data`, with the keys that every result has.
unfoldable pub info_of : RpcDb → RpcPackage → Info
unfolding group_extra
info_of db p = record {
  pkg = p;
  extra =
      group_extra (filter (λ (r : ExtraRow). r.package_id == p.id) db.extra)
        (("License", []) ∷ ("Keywords", []) ∷ []);
}

-- `_handle_multiinfo_type`
unfoldable pub handle_multiinfo : RpcDb → List String → Handled
unfolding info_of
handle_multiinfo db [] = rpc_error no_type
handle_multiinfo db (a ∷ rest) =
    results (infos (map (info_of db) (filter (λ p. holds p.name (a ∷ rest)) db.packages)))

-- `_handle_suggest_type` and `_handle_suggest_pkgbase_type`
unfoldable pub handle_suggest : RpcDb → List String → Handled
handle_suggest db [] = results (names [])
handle_suggest db (a ∷ rest) = results (
    names (
      take 20 (
        db.by_name (
          map (λ (p : RpcPackage). p.name)
            (filter (λ p. is_packaged p.packager && db.like p.name a) db.packages)))))

unfoldable pub handle_suggest_pkgbase : RpcDb → List String → Handled
handle_suggest_pkgbase db [] = results (names [])
handle_suggest_pkgbase db (a ∷ rest) = results (
    names (
      take 20 (
        db.by_name (
          map (λ (b : String × Option ℕ). b.0)
            (filter (λ (b : String × Option ℕ). is_packaged b.1 && db.like b.0 a)
              db.base_packagers)))))

-- `_handle_callback`: the method named after the type.
unfoldable pub handle_callback : RpcDb → String → String → List String → Handled
unfolding handle_search handle_multiinfo handle_suggest handle_suggest_pkgbase
handle_callback db type by args =
    if str_eq type "multiinfo"
    then handle_multiinfo db args
    else if str_eq type "search"
    then handle_search db by args
    else if str_eq type "msearch"
    then handle_search db "m" args
    else if str_eq type "suggest"
    then handle_suggest db args
    else if str_eq type "suggest-pkgbase"
    then handle_suggest_pkgbase db args
    else no_handler

abbrev pub answered : String → Handled → RpcAnswer
answered type (rpc_error e) = error e
answered type no_handler = server_error
answered type (results r) =
    if starts_with type "suggest" then suggestions r else data_of (some type) r

-- What follows the verification, for a type and a field that are there.
abbrev pub handle_verified : RpcDb → Option String → Option String → List String → RpcAnswer
handle_verified db (some type) (some by) args =
    answered type (handle_callback db type (aliased_by by) args)
handle_verified db type by args = server_error

-- `RPC(version, type).handle(by, args)`
unfoldable pub handle : RpcDb → Option ℕ → Option String → Option String → List String → RpcAnswer
unfolding verify_inputs handle_callback
handle db version type by args =
    let aliased = aliased_type type in
    elim (verify_inputs version aliased by) [
      | some e ↦ error e
      | none ↦ handle_verified db aliased by args
    ]

-- The route: `limited` is check_ratelimit, and `callback_ok` the match of the name of a callback.
pub data RpcResponse : Type 0 where
  rate_limited : RpcResponse
  invalid_callback : RpcResponse
  not_modified : RpcResponse
  body : RpcAnswer → RpcResponse
  javascript : String → RpcAnswer → RpcResponse

abbrev pub given : Option String → Bool
given none = false
given (some s) = not (str_eq s "")

abbrev pub wrapped : Option String → RpcAnswer → RpcResponse
wrapped none a = body a
wrapped (some c) a = if str_eq c "" then body a else javascript c a

-- `stripped` is the If-None-Match header without white space and quotes, if it is there and not
-- empty, and `etag` is the MD5 sum of the serialised answer.
unfoldable pub rpc :
    RpcDb
    → Bool
    → (String → Bool)
    → (RpcAnswer → String)
    → Option ℕ
    → Option String
    → Option String
    → List String
    → Option String
    → Option String
    → RpcResponse
unfolding handle
rpc db limited callback_ok etag version type by args callback stripped =
    let answer = handle db version type by args in
    if limited
    then rate_limited
    else if elim callback [ none ↦ false | some c ↦ not (str_eq c "") && not (callback_ok c) ]
    then invalid_callback
    else if elim stripped [ none ↦ false | some h ↦ str_eq h (etag answer) ]
    then not_modified
    else wrapped callback answer
