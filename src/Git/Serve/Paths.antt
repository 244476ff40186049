-- ===== src/Git/Serve/Paths.antt =====
-- Which repository a path of the command line names.
use Prim.Native.Char.{Char}
use Prim.Native.String.append
use Prim.Native.String.{◌++◌}
use text.Mathlib.Text.{starts_with}
use text.Mathlib.TextPositions.{starts_with_of_prefix}
use text.Mathlib.TextLemmas.{append_assoc}
use mprweb.Prelude.{
  ◌-◌, ◌≡◌, ◌≢◌, refl, ap, ◌∙◌, String, false, arith, Bool-cases, inl, inr, str_eq, eq_iff, str_len,
  ends_with, str_len-append, str_take-append, ends_with-append, str_drop-append,
}
use mprweb.Git.Serve.{rstrip_slash, with_slash, with_git, repository_of, pkgbase_name}

cons-nonempty : (c : Char) (s : String) → str_eq (String.◌∷◌ c s) "" ≡ false
cons-nonempty c s = elim (Bool-cases (str_eq (String.◌∷◌ c s) "")) [
  | inl e ↦ absurd (let same = (eq_iff (String.◌∷◌ c s) "").0 e in cc)
  | inr e ↦ e
]

git-nonempty : (s : String) → str_eq (s ++ ".git") "" ≡ false
git-nonempty String.[] = refl
git-nonempty (String.◌∷◌ c s) = rw (append.cons c s ".git") (cons-nonempty c (s ++ ".git"))

rstrip_slash-git : (s : String) → rstrip_slash (s ++ ".git") ≡ s ++ ".git"
unfolding rstrip_slash
rstrip_slash-git String.[] = refl
rstrip_slash-git (String.◌∷◌ c s) =
    rw (append.cons c s ".git") (rw (rstrip_slash-git s, rstrip_slash) (rw (git-nonempty s) refl))

repository_of-full : (name : String) → repository_of (("/" ++ name) ++ ".git") ≡ name
repository_of-full name =
    let path = ("/" ++ name) ++ ".git" in
    let n : str_len path - 4 ≡ str_len ("/" ++ name) =
      omega (arith, str_len-append ("/" ++ name) ".git") in
    rw n (rw (str_take-append ("/" ++ name) ".git") (str_drop-append "/" name))

with_slash-absolute : (s : String) → with_slash ("/" ++ s) ≡ "/" ++ s
with_slash-absolute s = rw (starts_with_of_prefix "/" ("/" ++ s) (s, refl)) refl

with_slash-full : (name : String) → with_slash (("/" ++ name) ++ ".git") ≡ ("/" ++ name) ++ ".git"
with_slash-full name = rw (append_assoc "/" name ".git") (with_slash-absolute (name ++ ".git"))

-- A path that has its slash, with or without the suffix, names its repository.
full_path : (name : String) → repository_of (with_git (("/" ++ name) ++ ".git")) ≡ name
full_path name = rw (ends_with-append ("/" ++ name) ".git") (repository_of-full name)

short_path :
    (name : String)
    → ends_with ("/" ++ name) ".git" ≡ false
    → repository_of (with_git ("/" ++ name)) ≡ name
short_path name h = rw h (repository_of-full name)

rstrip_slash-append_slash : (s : String) → rstrip_slash (s ++ "/") ≡ rstrip_slash s
unfolding rstrip_slash
rstrip_slash-append_slash String.[] = refl
rstrip_slash-append_slash (String.◌∷◌ c s) =
    rw (append.cons c s "/") (rw (rstrip_slash-append_slash s, rstrip_slash) refl)

slash-cons : (name : String) → "/" ++ name ≡ String.◌∷◌ "/" name
slash-cons name = append.cons "/" "" name ∙ ap (λ r. String.◌∷◌ "/" r) (append.nil name)

str_eq-nonempty : (s : String) → s ≢ "" → str_eq s "" ≡ false
str_eq-nonempty s ne = ground (arith, eq_iff s "")

rstrip_slash-absolute :
    (name : String)
    → name ≢ ""
    → rstrip_slash name ≡ name
    → rstrip_slash ("/" ++ name) ≡ "/" ++ name
unfolding rstrip_slash
rstrip_slash-absolute name ne h =
    rw (slash-cons name) (rw (h, rstrip_slash) (rw (str_eq-nonempty name ne) refl))

-- A name, with or without a slash before it and the suffix behind it, names its repository, and so
-- does each of these paths with one more slash at its end. The name is not empty, ends in neither a
-- slash nor the suffix, and does not begin with a slash.
pub pkgbase_name-forms :
    (name : String)
    → name ≢ ""
    → rstrip_slash name ≡ name
    → starts_with name "/" ≡ false
    → ends_with ("/" ++ name) ".git" ≡ false
    → (pkgbase_name name ≡ name)
      × (pkgbase_name ("/" ++ name) ≡ name)
      × (pkgbase_name (("/" ++ name) ++ ".git") ≡ name)
      × ((path : String) → pkgbase_name (path ++ "/") ≡ pkgbase_name path)
unfolding pkgbase_name
pkgbase_name-forms name ne stripped relative plain = (
  rw (stripped, pkgbase_name) (rw relative (short_path name plain)),
  rw (rstrip_slash-absolute name ne stripped, pkgbase_name)
      (rw (with_slash-absolute name) (short_path name plain)),
  ap (λ p. repository_of (with_git (with_slash p))) (rstrip_slash-git ("/" ++ name))
      ∙ ap (λ p. repository_of (with_git p)) (with_slash-full name)
      ∙ full_path name,
  (λ path. ap (λ p. repository_of (with_git (with_slash p))) (rstrip_slash-append_slash path)),
)
