-- ===== src/Scripts/Tests.antt =====
-- The scripts on a small site.
use mprweb.Prelude.{
  ℕ, ◌≡◌, refl, String, true, not, Option, none, some, List, [], ◌∷◌, any, filter, ◌==◌,
}
use mprweb.Models.{PackageBase}
use mprweb.Pkgbase.Actions.{Db, delete_base}
use mprweb.Routes.Consistency.{IsConsistent}
use mprweb.Scripts.{is_stale, pkgmaint, RepologyEntry, check_entries, check_bases}
use mprweb.Scripts.Upkeep.{pkgmaint-IsConsistent}

abbrev base_of : ℕ → String → Option ℕ → Option ℕ → ℕ → PackageBase
base_of i name m packager votes = record {
  id = i;
  name = name;
  maintainer = m;
  packager = packager;
  flagger = none;
  out_of_date_ts = none;
  flagger_comment = "";
  num_votes = votes;
  num_git_pulls = 0;
  submitted_ts = 50;
  repology_check = true;
}

abbrev foo : PackageBase
foo = base_of 1 "foo" none (some 7) 1

abbrev bar : PackageBase
bar = base_of 2 "bar" (some 7) (some 7) 0

-- The third base was never pushed.
abbrev site : Db
site = record {
  bases = foo ∷ bar ∷ base_of 3 "new" (some 7) none 0 ∷ [];
  packages = [];
  comaintainers = [];
  notifications = [];
  votes = record { users_id = 7; package_base_id = 1; vote_ts = 60 } ∷ [];
  comments = [];
  keywords = [];
  requests = [];
}

site-IsConsistent : IsConsistent site
site-IsConsistent = record {
  voters = (refl, tt);
  watchers = tt;
  counted = (refl, (refl, (refl, tt)));
}

new_goes : (pkgmaint 100000 site).bases ≡ foo ∷ bar ∷ []
unfolding pkgmaint delete_base
new_goes = refl

pkgmaint-IsConsistent_example :
    IsConsistent (pkgmaint 100000 site)
    × ((pkgmaint 100000 site).bases
        ≡ filter
            (λ b.
              not (any (λ (c : PackageBase). c.id == b.id) (filter (is_stale 100000) site.bases)))
            site.bases)
pkgmaint-IsConsistent_example = pkgmaint-IsConsistent 100000 site site-IsConsistent

abbrev entries : List RepologyEntry
entries =
    record { repo = "mpr"; srcname = "foo"; status = "outdated" }
    ∷ record { repo = "mpr"; srcname = "bar"; status = "outdated" }
    ∷ []

bar_alone : (check_bases 1000 (some 5) (bar ∷ []) entries site).1 ≡ true
unfolding check_bases check_entries
bar_alone = refl
