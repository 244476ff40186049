-- ===== src/Rpc/Tests.antt =====
-- A small repository, and what the RPC answers about it.
use mprweb.Prelude.{ℕ, ◌≡◌, refl, String, Option, none, some, [], ◌∷◌, str_eq}
use mprweb.Rpc.{
  RpcPackage, RpcDb, RpcError, error, data_of, found, verify_inputs, search_by, handle_search,
}
use mprweb.Rpc.Handlers.{info_of, handle_callback, handle}
use mprweb.Rpc.Args.{parse_args}
use mprweb.Rpc.Verdicts.{IsAnswer, handle-IsAnswer}
use mprweb.Rpc.Grouping.{values_of}

abbrev package_of : ℕ → String → Option ℕ → RpcPackage
package_of i name packager = record {
  id = i;
  name = name;
  description = "a tool";
  base_name = name;
  packager = packager;
  maintainer = some "alice";
}

abbrev foo : RpcPackage
foo = package_of 1 "foo" (some 7)

-- LIKE without the wildcards, and an order that the rows have already.
abbrev repository : RpcDb
repository = record {
  packages = foo ∷ package_of 2 "foo-git" none ∷ package_of 3 "bar" (some 7) ∷ [];
  dependencies = [];
  extra =
      record { package_id = 1; type = "depends"; name = "bash"; cond = ">=5" }
      ∷ record { package_id = 3; type = "depends"; name = "zsh"; cond = "" }
      ∷ record { package_id = 1; type = "License"; name = "MIT"; cond = "" }
      ∷ record { package_id = 1; type = "depends"; name = "sed"; cond = "" }
      ∷ [];
  base_packagers = [];
  like = str_eq;
  by_name = λ names. names;
  max_results = 1;
}

no_such_type :
    handle repository (some 5) (some "provides") (some "name") [] ≡ error RpcError.incorrect_type
unfolding handle verify_inputs
no_such_type = refl

short_search :
    handle repository (some 5) (some "search") (some "name") ("f" ∷ [])
    ≡ error RpcError.arg_too_small
unfolding handle verify_inputs handle_callback handle_search
short_search = refl

-- No more than one package of the two that match.
one_tool :
    handle repository (some 5) (some "search") (some "name-desc") ("a tool" ∷ [])
    ≡ data_of (some "search") (found (foo ∷ []))
unfolding handle verify_inputs handle_callback handle_search search_by
one_tool = refl

query : parse_args "v=5&arg[]=foo&type=info&arg[]=bar" ≡ "bar" ∷ "foo" ∷ []
unfolding parse_args
query = refl

handle-IsAnswer_example :
    IsAnswer repository
      (handle repository (some 5) (some "search") (some "name-desc") ("a tool" ∷ []))
handle-IsAnswer_example =
    handle-IsAnswer repository (some 5) (some "search") (some "name-desc") ("a tool" ∷ [])

foo_depends : values_of "Depends" (info_of repository foo).extra ≡ "bash>=5" ∷ "sed" ∷ []
unfolding info_of
foo_depends = refl
