-- ===== src/Scripts.antt =====
-- aurweb/scripts: usermaint.py, pkgmaint.py, popupdate.py, tuvotereminder.py and oodcheck.py, which
-- are run at regular times.
pub mod Upkeep
pub mod Outdated
mod Tests
use Prim.Native.String.{◌++◌ as str_append}
use mprweb.Prelude.{
  ℕ, ◌+◌, ◌-◌, ◌*◌, String, Bool, true, false, not, ◌&&◌, ◌||◌, Option, none, some, List, [], ◌∷◌,
  map, any, filter, update_where, elem, ltb, leb, ◌==◌, str_eq, if◌then◌else◌,
}
use mprweb.Models.{User, PackageBase}
use mprweb.Pkgbase.Actions.{Db, is_base, update_base, delete_base}
use mprweb.Pkgbase.Actions.Merges.{count_votes}
use mprweb.TrustedUser.{VoteInfo}
use mprweb.Notify.{MailDb}
use mprweb.Notify.Notices.{Mail, vote_reminder_notification}

abbrev pub days : ℕ → ℕ
days n = 86400 * n

-- usermaint.py: two updates of the Users table.
unfoldable pub usermaint : ℕ → List User → List User
usermaint now users =
    update_where (λ u. ltb u.last_ssh_login (now - days 7))
      (λ u. record u { last_ssh_login_ip = none })
      (update_where (λ u. ltb u.last_login (now - days 7)) (λ u. record u { last_login_ip = none })
        users)

-- A base that was registered a day ago and never pushed.
abbrev pub is_stale : ℕ → PackageBase → Bool
is_stale now b =
    ltb b.submitted_ts (now - days 1) && elim b.packager [ none ↦ true | some u ↦ false ]

-- `db.delete_all`
abbrev pub delete_bases : List PackageBase → Db → Db
delete_bases [] db = db
delete_bases (b ∷ bs) db = delete_bases bs (delete_base b.id db)

-- pkgmaint.py
unfoldable pub pkgmaint : ℕ → Db → Db
pkgmaint now db = delete_bases (filter (is_stale now) db.bases) db

-- popupdate.py, `run_variable`: no IDs stand for all bases.
unfoldable pub run_variable : List ℕ → Db → Db
run_variable ids db = record db {
  bases =
      update_where (is_counted_again ids) (λ b. record b { num_votes = count_votes b.id db.votes })
        db.bases;
}
  where
    is_counted_again : List ℕ → PackageBase → Bool
    is_counted_again [] b = true
    is_counted_again (i ∷ is) b = elem b.id (i ∷ is)

-- tuvotereminder.py: a mail for each proposal that ends in the range.
abbrev pub ends_between : ℕ → ℕ → VoteInfo → Bool
ends_between from to v = leb from v.end_ts && leb v.end_ts to

unfoldable pub tuvotereminder : ℕ → ℕ → ℕ → List VoteInfo → MailDb → List Mail
tuvotereminder now start end infos db =
    map (λ (v : VoteInfo). vote_reminder_notification v.id db)
      (filter (ends_between (now + start) (now + end)) infos)

-- What Repology says of a package in a repository.
pub record RepologyEntry : Type 0 where
  pub repo : String
  pub srcname : String
  pub status : String

abbrev pub is_outdated : PackageBase → RepologyEntry → Bool
is_outdated b e = str_eq e.repo "mpr" && str_eq e.srcname b.name && str_eq e.status "outdated"

abbrev pub repology_comment : PackageBase → String
repology_comment b =
    str_append "Package marked out of date on Repology - https://repology.org/project/"
      (str_append b.name "/versions")

abbrev pub flagged : ℕ → Option ℕ → PackageBase → PackageBase
flagged now bot b = record b {
  out_of_date_ts = some now;
  flagger = bot;
  flagger_comment = repology_comment b;
}

-- The entries for one base. The ID of the maintainer is asked for after the update: without one, the
-- script ends with an AttributeError, false.
unfoldable pub check_entries : ℕ → Option ℕ → PackageBase → List RepologyEntry → Db → Db × Bool
check_entries now bot b [] db = (db, true)
check_entries now bot b (e ∷ es) db =
    if is_outdated b e && elim b.flagger [ none ↦ true | some f ↦ false ]
    then elim b.maintainer [
      | none ↦ (update_base b.id (flagged now bot) db, false)
      | some m ↦
          check_entries now bot (flagged now bot b) es (update_base b.id (flagged now bot) db)
    ]
    else check_entries now bot b es db

unfoldable pub check_bases : ℕ → Option ℕ → List PackageBase → List RepologyEntry → Db → Db × Bool
unfolding check_entries
check_bases now bot [] entries db = (db, true)
check_bases now bot (b ∷ bs) entries db =
    let (after, goes_on) = check_entries now bot b entries db in
    let rest = check_bases now bot bs entries after in if goes_on then rest else (after, false)

-- oodcheck.py: the entries of all projects, in the order of the answer.
unfoldable pub oodcheck : ℕ → Option ℕ → List RepologyEntry → Db → Db × Bool
unfolding check_bases
oodcheck now bot entries db =
    check_bases now bot (filter (λ b. b.repology_check) db.bases) entries db
