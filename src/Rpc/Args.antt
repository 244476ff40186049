-- ===== src/Rpc/Args.antt =====
-- `parse_args` of aurweb/routers/rpc.py: the arguments of a query string that has been unquoted.
pub mod Queries
use Prim.Native.Char.{code}
use Prim.Native.String.{◌++◌ as str_append}
use text.Mathlib.Text.{starts_with}
use mprweb.Prelude.{
  ℕ, String, Bool, true, false, ◌||◌, List, [], ◌∷◌, ◌++◌, map, filter, split, str_eq, str_drop,
  ◌==◌, if◌then◌else◌,
}

-- `list(reversed(xs))`
abbrev pub reversed {ℓ} : {A : Type ℓ} → List A → List A
reversed [] = []
reversed (x ∷ xs) = reversed xs ++ x ∷ []

abbrev pub is_arg : String → Bool
is_arg e = starts_with e "arg=" || starts_with e "arg[]="

-- `e.split("=", 1)` of such a part.
abbrev pub key_value : String → String × String
key_value e = if starts_with e "arg=" then ("arg", str_drop 4 e) else ("arg[]", str_drop 6 e)

-- Backward until another key.
abbrev pub values_until : String → List (String × String) → List String
values_until last [] = []
values_until last ((key, value) ∷ rest) =
    let more = values_until last rest in if str_eq key last then value ∷ more else []

abbrev pub args_of : List (String × String) → List String
args_of [] = []
args_of ((key, value) ∷ rest) =
    if str_eq key "arg" then value ∷ [] else values_until key ((key, value) ∷ rest)

-- The number of the character & is 38.
unfoldable pub parse_args : String → List String
unfolding split
parse_args query = args_of (map key_value (filter is_arg (reversed (split 38 query))))
