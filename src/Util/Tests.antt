-- ===== src/Util/Tests.antt =====
-- User names and commits.
use text.Mathlib.Text.{starts_with}
use mprweb.Prelude.{
  ℕ, ◌≤◌, ◌<◌, ◌+◌, ◌-◌, ◌≡◌, refl, String, Bool, true, false, str_len, str_take, arith,
}
use mprweb.Util.{matches_name, valid_username, search_prefix, git_search}
use mprweb.Util.Names.{valid_username-newline}
use mprweb.Util.Prefixes.{git_search-IsShortest}

some_names :
    (valid_username 3 16 "a.b" ≡ true)
    × (valid_username 3 16 "a..b" ≡ false)
    × (valid_username 3 16 ".ab" ≡ false)
    × (valid_username 3 16 "abc-" ≡ false)
unfolding valid_username matches_name
some_names = (refl, refl, refl, refl)

abc_is_valid : valid_username 3 16 "abc" ≡ true
unfolding valid_username matches_name
abc_is_valid = refl

valid_username-newline_example : valid_username 3 16 "abc\n" ≡ true
valid_username-newline_example = valid_username-newline 3 16 "abc" refl abc_is_valid (omega arith)

abbrev commit : String
commit = "0123456789abcdef"

-- The repository knows the prefixes of fourteen characters and more.
abbrev known : String → Bool
known s = starts_with s "0123456789abcd"

fourteen : git_search known commit ≡ 14
unfolding git_search search_prefix
fourteen = refl

git_search-IsShortest_example :
    (12 ≤ git_search known commit)
    × (git_search known commit ≤ 12 + (str_len commit - 12))
    × ((n : ℕ) → 12 ≤ n → n < git_search known commit → known (str_take n commit) ≡ false)
    × (git_search known commit < str_len commit
        → known (str_take (git_search known commit) commit) ≡ true)
git_search-IsShortest_example = git_search-IsShortest known commit
