-- ===== src/Git/Lint.antt =====
-- aurweb/git/update.py: the checks of one commit. A commit is what pygit2 and the parser of .SRCINFO
-- files read from it.
pub mod Commits
use text.Mathlib.Text.{starts_with}
use mprweb.Prelude.{
  contains, ◌or_else◌, first_error, require, ℕ, String, Bool, true, false, ◌||◌, Option, none, some,
  List, [], ◌∷◌, any, leb, str_eq, str_len, if◌then◌else◌,
}

-- What the hook reads of a .SRCINFO file: scripts and sources with the name of their variable.
pub record Srcinfo : Type 0 where
  pub pkgbase : String
  pub pkgname : List String
  pub pkgver : String
  pub pkgrel : String
  pub epoch : List String
  pub scripts : List (String × String)
  pub sources : List (String × String)

pub data TreeObject : Type 0 where
  subtree : TreeObject
  blob : ℕ → TreeObject
  other_object : TreeObject

-- A commit: its tree, and its .SRCINFO file, or None where the parser raises ParsingError.
pub record Commit : Type 0 where
  pub tree : List (String × TreeObject)
  pub srcinfo : Option Srcinfo

-- The configuration, the regular expressions, `str.isdigit` and `os.path.normpath`.
pub record Rules : Type 0 where
  pub max_blob_size : ℕ
  pub repo_regex : String → Bool
  pub pkgname_regex : String → Bool
  pub is_digit : String → Bool
  pub normpath : String → String

pub data CommitError : Type 0 where
  missing_file : String → CommitError
  subdirectory not_a_blob blob_too_large parsing_error invalid_epoch source_too_long : CommitError
  invalid_pkgbase invalid_pkgname missing_script missing_source : String → CommitError

abbrev pub in_tree : Commit → String → Bool
in_tree c name = any (λ (e : String × TreeObject). str_eq e.0 name) c.tree

abbrev pub check_object : ℕ → String × TreeObject → Option CommitError
check_object limit (name, subtree) = some subdirectory
check_object limit (name, other_object) = some not_a_blob
check_object limit (name, blob size) = require (leb size limit) blob_too_large

-- `epoch[0]` of a variable with one value, or None.
abbrev pub epoch_of : List String → Option String
epoch_of (e ∷ []) = some e
epoch_of _ = none

abbrev pub check_epoch : Rules → Option String → Option CommitError
check_epoch rules none = none
check_epoch rules (some e) = require (rules.is_digit e) invalid_epoch

-- A source with neither mark is a file of the repository.
abbrev pub is_remote : String → Bool
is_remote source = contains source "://" || contains source "lp:"

abbrev pub check_source : Commit → String × String → Option CommitError
check_source c (name, source) =
    require (leb (str_len source) 8000) source_too_long
    or_else require (is_remote source || in_tree c source) (missing_source source)

unfoldable pub lint_srcinfo : Rules → Commit → Srcinfo → Option CommitError
lint_srcinfo rules c s =
    require (rules.repo_regex s.pkgbase) (invalid_pkgbase s.pkgbase)
    or_else first_error (λ p. require (rules.pkgname_regex p) (invalid_pkgname p)) s.pkgname
    or_else check_epoch rules (epoch_of s.epoch)
    or_else first_error
        (λ (script : String × String).
          require (in_tree c (rules.normpath script.1)) (missing_script script.1))
        s.scripts
    or_else first_error (check_source c) s.sources

unfoldable pub check_commit : Rules → Commit → Option CommitError
check_commit rules c =
    require (in_tree c ".SRCINFO") (missing_file ".SRCINFO")
    or_else require (in_tree c "PKGBUILD") (missing_file "PKGBUILD")
    or_else first_error (check_object rules.max_blob_size) c.tree
    or_else elim c.srcinfo [ none ↦ some parsing_error | some s ↦ lint_srcinfo rules c s ]
