-- ===== src/Git/Lint/Commits.antt =====
-- Which commits the hook lets through.
use mprweb.Prelude.{
  ◌or_else◌, require, or_else_iff, require_iff, first_error_iff, ℕ, ◌≤◌, ◌≡◌, ◌⊎◌, ◌↔◌, refl, ap,
  String, Bool, true, ◌||◌, Option, none, some, All, leb, str_len, arith,
}
use mprweb.Git.Lint.{
  Srcinfo, TreeObject, subtree, blob, other_object, Commit, Rules, CommitError, in_tree,
  check_object, epoch_of, check_epoch, is_remote, check_source, lint_srcinfo, check_commit,
  source_too_long, missing_source, missing_file, parsing_error, invalid_pkgbase, invalid_pkgname,
  missing_script, invalid_epoch,
}

-- A file no larger than the limit.
abbrev pub IsSmallFile : ℕ → String × TreeObject → Type 0
IsSmallFile limit (name, object) = (size : ℕ) × (object ≡ blob size) × (size ≤ limit)

check_object_iff :
    (limit : ℕ) (e : String × TreeObject) → (check_object limit e ≡ none) ↔ IsSmallFile limit e
check_object_iff limit (name, subtree) = ((λ h. absurd (cc)), λ (size, e, le). absurd (cc))
check_object_iff limit (name, other_object) = ((λ h. absurd (cc)), λ (size, e, le). absurd (cc))
check_object_iff limit (name, blob size) =
    ((λ h. (size, refl, ground arith)), λ (n, e, le). ground arith)

abbrev pub IsSourceOf : Commit → String × String → Type 0
IsSourceOf c (name, source) =
    (str_len source ≤ 8000) × ((is_remote source ≡ true) ⊎ (in_tree c source ≡ true))

source_iff :
    (n : ℕ) (a b : Bool) (e f : CommitError)
    → (require (leb n 8000) e or_else require (a || b) f ≡ none)
      ↔ ((n ≤ 8000) × ((a ≡ true) ⊎ (b ≡ true)))
source_iff n a b e f =
    let both = or_else_iff (require (leb n 8000) e) (require (a || b) f) in
    let short = require_iff (leb n 8000) e in
    let found = require_iff (a || b) f in
    (
      (λ h.
          let (p, q) = both.0 h in
          (let le = short.0 p in ground arith, let or = found.0 q in ground arith)),
      λ (le, or). both.1 (short.1 (ground arith), found.1 (ground arith)),
    )

check_source_iff : (c : Commit) (s : String × String) → (check_source c s ≡ none) ↔ IsSourceOf c s
check_source_iff c (name, source) =
    source_iff (str_len source) (is_remote source) (in_tree c source) source_too_long
      (missing_source source)

-- What the .SRCINFO file of a commit has to say.
pub record IsLinted (rules : Rules) (c : Commit) (s : Srcinfo) : Type 0 where
  pub named : rules.repo_regex s.pkgbase ≡ true
  pub packages_named : All (λ (p : String). rules.pkgname_regex p ≡ true) s.pkgname
  pub epoch_number : (e : String) → epoch_of s.epoch ≡ some e → rules.is_digit e ≡ true
  pub scripts_there : All (λ (x : String × String). in_tree c (rules.normpath x.1) ≡ true) s.scripts
  pub sources_there : All (IsSourceOf c) s.sources

some-injective : {a b : String} → Path (Option String) (some a) (some b) → a ≡ b
some-injective q = cc

check_epoch_iff :
    (rules : Rules) (o : Option String)
    → (check_epoch rules o ≡ none) ↔ ((e : String) → o ≡ some e → rules.is_digit e ≡ true)
check_epoch_iff rules none = ((λ h e q. absurd (cc)), λ h. refl)
check_epoch_iff rules (some x) = (
  (λ h e q.
      let digit = (require_iff (rules.is_digit x) invalid_epoch).0 h in
      ground (arith, ap rules.is_digit (some-injective q))),
  λ h. (require_iff (rules.is_digit x) invalid_epoch).1 (h x refl),
)

lint_srcinfo_iff :
    (rules : Rules) (c : Commit) (s : Srcinfo)
    → (lint_srcinfo rules c s ≡ none) ↔ IsLinted rules c s
unfolding lint_srcinfo
lint_srcinfo_iff rules c s =
    let names =
      first_error_iff (λ p. require (rules.pkgname_regex p) (invalid_pkgname p))
        (λ p. rules.pkgname_regex p ≡ true) s.pkgname
        (λ p. require_iff (rules.pkgname_regex p) (invalid_pkgname p)) in
    let scripts =
      first_error_iff
        (λ (x : String × String). require (in_tree c (rules.normpath x.1)) (missing_script x.1))
        (λ x. in_tree c (rules.normpath x.1) ≡ true) s.scripts
        (λ x. require_iff (in_tree c (rules.normpath x.1)) (missing_script x.1)) in
    let sources = first_error_iff (check_source c) (IsSourceOf c) s.sources (check_source_iff c) in
    let epoch = check_epoch_iff rules (epoch_of s.epoch) in
    let base = require_iff (rules.repo_regex s.pkgbase) (invalid_pkgbase s.pkgbase) in
    (
      (λ h.
          let (p, h1) = (or_else_iff _ _).0 h in
          let (q, h2) = (or_else_iff _ _).0 h1 in
          let (r, h3) = (or_else_iff _ _).0 h2 in
          let (t, u) = (or_else_iff _ _).0 h3 in
          record {
            named = base.0 p;
            packages_named = names.0 q;
            epoch_number = epoch.0 r;
            scripts_there = scripts.0 t;
            sources_there = sources.0 u;
          }),
      λ l. (or_else_iff _ _).1 (
        base.1 l.named,
        (or_else_iff _ _).1 (
          names.1 l.packages_named,
          (or_else_iff _ _).1 (
            epoch.1 l.epoch_number,
            (or_else_iff _ _).1 (scripts.1 l.scripts_there, sources.1 l.sources_there),
          ),
        ),
      ),
    )

parsed_iff :
    (rules : Rules) (c : Commit) (o : Option Srcinfo)
    → (Path
        (Option CommitError)
        (elim o [ none ↦ some parsing_error | some s ↦ lint_srcinfo rules c s ])
        none)
      ↔ ((s : Srcinfo) × (o ≡ some s) × IsLinted rules c s)
parsed_iff rules c none = ((λ h. absurd (cc)), λ (s, e, l). absurd (cc))
parsed_iff rules c (some s) = (
  (λ h. (s, refl, (lint_srcinfo_iff rules c s).0 h)),
  λ (t, e, l). let same : t ≡ s = cc in (lint_srcinfo_iff rules c s).1 (rw same at l),
)

-- A commit passes exactly when it holds the two files; every entry of its tree is a file no larger than
-- the limit; and its .SRCINFO file can be parsed, the names of its base and of its packages and its epoch,
-- if there is just one, are well formed, the scripts that it names are in the commit, and each of its
-- sources has at most 8000 characters and is remote or in the commit.
pub check_commit_iff :
    (rules : Rules) (c : Commit)
    → (check_commit rules c ≡ none) ↔ (
        (s : Srcinfo) × (in_tree c ".SRCINFO" ≡ true)
        × (in_tree c "PKGBUILD" ≡ true)
        × All (IsSmallFile rules.max_blob_size) c.tree
        × (c.srcinfo ≡ some s)
        × IsLinted rules c s)
unfolding check_commit
check_commit_iff rules c =
    let objects =
      first_error_iff (check_object rules.max_blob_size) (IsSmallFile rules.max_blob_size) c.tree
        (check_object_iff rules.max_blob_size) in
    let info = require_iff (in_tree c ".SRCINFO") (missing_file ".SRCINFO") in
    let build = require_iff (in_tree c "PKGBUILD") (missing_file "PKGBUILD") in
    let parsed = parsed_iff rules c c.srcinfo in
    (
      (λ h.
          let (p, h1) = (or_else_iff _ _).0 h in
          let (q, h2) = (or_else_iff _ _).0 h1 in
          let (r, t) = (or_else_iff _ _).0 h2 in
          let (s, e, l) = parsed.0 t in (s, info.0 p, build.0 q, objects.0 r, e, l)),
      λ (s, p, q, r, e, l). (or_else_iff _ _).1 (
        info.1 p,
        (or_else_iff _ _).1 (build.1 q, (or_else_iff _ _).1 (objects.1 r, parsed.1 (s, e, l))),
      ),
    )
