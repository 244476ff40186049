-- ===== src/Notify.antt =====
-- aurweb/scripts/notify.py: who gets a mail, and which mails belong to one thread. The texts of the
-- mails and their delivery are left out.
pub mod Notices
pub mod Suspended
pub mod Comaintainers
mod Tests
use mprweb.Prelude.{
  ℕ, ◌+◌, ◌*◌, ◌≡◌, String, Bool, true, false, not, ◌&&◌, ◌||◌, Option, none, some, List, [], ◌∷◌,
  map, any, filter, find?, elem, distinct, ◌==◌, str_eq, if◌then◌else◌,
}
use mprweb.Models.{
  User, PackageBase, PackageComaintainer, PackageRequest, trusted_user_id, trusted_user_and_dev_id,
}
use mprweb.Pkgbase.Actions.{Db, is_user, is_base, notified}
use mprweb.TrustedUser.{TuVote}

-- A row of Users, with the columns that only notifications need.
pub record Reader : Type 0 where
  pub user : User
  pub backup_email : Option String
  pub lang : String
  pub reset_key : String
  pub comment_notify : Bool
  pub update_notify : Bool
  pub ownership_notify : Bool

-- The tables, and the address of the mailing list for requests.
pub record MailDb : Type 0 where
  pub readers : List Reader
  pub site : Db
  pub tu_votes : List TuVote
  pub request_ml : String

-- An address and the language of the mail.
abbrev pub Address : Type 0
Address = String × String

abbrev pub address : Reader → Address
address r = (r.user.email, r.lang)

abbrev pub same_address : Address → Address → Bool
same_address a b = str_eq a.0 b.0 && str_eq a.1 b.1

-- `.distinct()`
abbrev pub distinct_addresses : List Address → List Address
distinct_addresses [] = []
distinct_addresses (a ∷ more) =
    let rest = distinct_addresses more in if any (same_address a) rest then rest else a ∷ rest

-- The users of a query who are not suspended, as recipients.
abbrev pub active : (Reader → Bool) → MailDb → List Reader
active p db = filter (λ r. p r && not r.user.suspended) db.readers

abbrev pub recipients : (Reader → Bool) → MailDb → List Address
recipients p db = distinct_addresses (map address (active p db))

-- Who is notified of a base, other than the user who acts.
abbrev pub follows : (Reader → Bool) → ℕ → ℕ → MailDb → Reader → Bool
follows wants uid b db r =
    wants r && not (r.user.id == uid) && any (notified r.user.id b) db.site.notifications

abbrev pub is_maintainer : ℕ → MailDb → Reader → Bool
is_maintainer b db r = any (λ c. is_base b c && is_user r.user.id c.maintainer) db.site.bases

abbrev pub is_comaintainer : ℕ → MailDb → Reader → Bool
is_comaintainer b db r =
    any (λ (c : PackageComaintainer). c.users_id == r.user.id && c.package_base_id == b)
      db.site.comaintainers

-- Who maintains the base that is flagged.
abbrev pub maintains : ℕ → MailDb → Reader → Bool
maintains b db r = is_maintainer b db r || is_comaintainer b db r

-- Who hears of a request: its author, and who maintains the base, if there is one.
abbrev pub concerns : PackageRequest → MailDb → Reader → Bool
concerns q db r = elim q.package_base_id [
  | none ↦ false
  | some b ↦
      any (is_base b) db.site.bases
      && (r.user.id == q.users_id || is_maintainer b db r || is_comaintainer b db r)
]

abbrev pub is_request : ℕ → PackageRequest → Bool
is_request i q = q.id == i

-- `get_cc` of the notifications about requests
abbrev pub request_cc : ℕ → MailDb → List String
request_cc i db = distinct (
    map (λ (r : Reader). r.user.email)
      (active (λ r. any (λ q. is_request i q && concerns q db r) db.site.requests) db))

-- Trusted users who have not voted.
abbrev pub has_to_vote : ℕ → MailDb → Reader → Bool
has_to_vote vote db r =
    elem r.user.account_type_id (trusted_user_id ∷ trusted_user_and_dev_id ∷ [])
    && not (any (λ (v : TuVote). v.vote_id == vote && v.user_id == r.user.id) db.tu_votes)
