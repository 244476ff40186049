-- ===== src/Routes/Flags.antt =====
-- aurweb/routers/pkgbase.py: flagging a package base, its keywords, the check by Repology, and the
-- count of its clones.
pub mod Keywords
use Prim.Native.String.{◌++◌ as str_append}
use text.Mathlib.Text.{starts_with}
use mprweb.Prelude.{
  ℕ, ◌+◌, String, Bool, true, false, not, ◌&&◌, ◌||◌, Option, none, some, List, [], ◌∷◌, ◌++◌, map,
  any, find?, filter, ◌==◌, str_eq, holds, distinct, split, if◌then◌else◌,
}
use mprweb.Models.{User, PackageBase, PackageKeyword}
use mprweb.Auth.Creds.{Credential, has_credential}
use mprweb.Pkgbase.Actions.{Db, Package, is_base, is_user, update_base, pkgbase_unflag_instance}
use mprweb.Routes.{
  Visit, Reply, Response, not_found, rejected, see_other, base_page, base_section, answer, redirect,
  get_pkgbase, with_base,
}

unfoldable pub pkgbase_flag_post : Visit → String → String → Db → Reply
pkgbase_flag_post v name comments db = with_base v name db (λ b.
    if str_eq comments ""
    then answer (rejected "pkgbase/flag.html" "please enter a comment") db
    else redirect (base_page name) (
        if has_credential v.user Credential.pkgbase_flag []
          && elim b.flagger [ none ↦ true | some f ↦ false ]
        then update_base b.id
            (λ c. record c {
              out_of_date_ts = some v.now;
              flagger = some v.user.id;
              flagger_comment = comments;
            })
            db
        else db))

unfoldable pub pkgbase_unflag : Visit → String → Db → Reply
pkgbase_unflag v name db =
    with_base v name db (λ b. redirect (base_page name) (pkgbase_unflag_instance v.user b db))

-- A keyword of a base.
abbrev pub is_keyword : ℕ → String → PackageKeyword → Bool
is_keyword b word k = k.package_base_id == b && str_eq k.keyword word

abbrev pub keep_keywords : ℕ → List String → List PackageKeyword → List PackageKeyword
keep_keywords b words = filter (λ k. not (k.package_base_id == b) || holds k.keyword words)

abbrev pub new_keywords : ℕ → List String → List PackageKeyword → List PackageKeyword
new_keywords b words rows =
    map (λ w. record { package_base_id = b; keyword = w })
      (filter (λ w. not (any (is_keyword b w) rows)) (distinct words))

-- The keywords of a base become the given words.
unfoldable pub set_keywords : ℕ → List String → List PackageKeyword → List PackageKeyword
set_keywords b words rows = keep_keywords b words rows ++ new_keywords b words rows

-- The route asks for no user: the visit gives the table of official providers only.
unfoldable pub pkgbase_keywords : Visit → String → String → Db → Reply
unfolding split set_keywords
pkgbase_keywords v name keywords db = with_base v name db (λ b.
    redirect (base_page name)
      (record db { keywords = set_keywords b.id (split 32 keywords) db.keywords }))

-- `get_pkg_or_base(name, Package).PackageBase`
abbrev pub base_of_package : List String → String → Db → Option PackageBase
base_of_package providers name db =
    if any (str_eq name) providers
    then none
    else elim (find? (λ (p : Package). str_eq p.name name) db.packages) [
      | none ↦ none
      | some p ↦ find? (is_base p.package_base_id) db.bases
    ]

unfoldable pub repology_check : Visit → String → String → Db → Reply
repology_check v name value db = elim (base_of_package v.providers name db) [
  | none ↦ answer not_found db
  | some b ↦ redirect (base_section b.name "integrations") (
      if is_user v.user.id b.maintainer
        || has_credential v.user Credential.pkgbase_repology_check []
      then update_base b.id
          (λ c. record c {
            repology_check = str_eq value "Enable Repology Out of Date Notifications";
          })
          db
      else db)
]

-- What `clone` does before it forwards the request: the one that starts a clone is counted. None
-- stands for the status 404.
unfoldable pub clone : Visit → String → String → Db → Option Db
clone v path name db =
    if starts_with path (str_append "/" (str_append name "/info/refs"))
    then elim (get_pkgbase v.providers name db.bases) [
      | none ↦ none
      | some b ↦ some (update_base b.id (λ c. record c { num_git_pulls = c.num_git_pulls + 1 }) db)
    ]
    else some db
