-- ===== src/Util.antt =====
-- aurweb/util.py: the validators of user names, passwords and SSH keys, and the search for the
-- shortest prefix of a commit.
pub mod Names
pub mod Prefixes
mod Tests
use Prim.Native.Char.{Char, code}
use Prim.Native.String.{◌++◌ as str_append}
use text.Mathlib.Text.{starts_with}
use mprweb.Prelude.{
  ℕ, zero, suc, ◌-◌, String, Bool, true, false, not, ◌&&◌, ◌||◌, Option, none, some, List, [], ◌∷◌,
  any, leb, ◌==◌, str_eq, str_len, str_take, contains, split, strip, rstrip, if◌then◌else◌,
}

abbrev pub is_alnum : ℕ → Bool
is_alnum n = (leb 97 n && leb n 122) || (leb 65 n && leb n 90) || (leb 48 n && leb n 57)

-- The characters . - and _
abbrev pub is_separator : ℕ → Bool
is_separator n = n == 46 || n == 45 || n == 95

-- How far ^[a-zA-Z0-9]+[.\-_]?[a-zA-Z0-9]+$ has been matched: one character, more, the separator, and
-- what follows it.
pub data NameState : Type 0 where
  start one many separated tail : NameState

abbrev pub is_final : NameState → Bool
is_final many = true
is_final tail = true
is_final s = false

abbrev pub next_state : NameState → ℕ → Option NameState
next_state start n = if is_alnum n then some one else none
next_state one n = if is_alnum n then some many else if is_separator n then some separated else none
next_state many n =
    if is_alnum n then some many else if is_separator n then some separated else none
next_state separated n = if is_alnum n then some tail else none
next_state tail n = if is_alnum n then some tail else none

-- The $ of the expression matches at the end, and before a newline at the end.
unfoldable pub matches_name : NameState → String → Bool
matches_name st String.[] = is_final st
matches_name st (String.◌∷◌ c s) =
    if code c == 10 && str_eq s ""
    then is_final st
    else elim (next_state st (code c)) [ none ↦ false | some st' ↦ matches_name st' s ]

-- The lengths are options of the configuration.
unfoldable pub valid_username : ℕ → ℕ → String → Bool
unfolding matches_name
valid_username min_len max_len username =
    leb min_len (str_len username) && leb (str_len username) max_len && matches_name start username

abbrev pub valid_password : ℕ → String → Bool
valid_password min_len password = leb min_len (str_len password)

-- `recoded` decodes and encodes base64 again; none for an error of the decoder, which is raised.
abbrev pub is_canonical : (String → Option String) → List String → Option Bool
is_canonical recoded (kind ∷ key ∷ rest) = elim (recoded key) [
  | none ↦ none
  | some k ↦ some (str_eq k key)
]
is_canonical recoded tokens = some false

unfoldable pub valid_ssh_pubkey : (String → Option String) → String → String → Option Bool
unfolding split strip rstrip
valid_ssh_pubkey recoded keytypes pk =
    if not (any (λ prefix. contains pk (str_append prefix " ")) (split 32 keytypes))
    then some false
    else is_canonical recoded (split 32 (rstrip (strip pk)))

-- The loop of git_search; the fuel is the number of prefixes that are left.
unfoldable pub search_prefix : (String → Bool) → String → ℕ → ℕ → ℕ
search_prefix in_repo hash zero prefixlen = prefixlen
search_prefix in_repo hash (suc left) prefixlen =
    let rest = search_prefix in_repo hash left (suc prefixlen) in
    if in_repo (str_take prefixlen hash) then prefixlen else rest

unfoldable pub git_search : (String → Bool) → String → ℕ
unfolding search_prefix
git_search in_repo hash = search_prefix in_repo hash (str_len hash - 12) 12
