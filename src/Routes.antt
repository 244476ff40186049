-- ===== src/Routes.antt =====
-- aurweb/routers/pkgbase.py: what the routes of package bases do for a user who is signed in, from
-- the guards to the redirect. The rendering of a page is the name of its template.
pub mod Comments
pub mod Followers
pub mod Flags
pub mod Ownership
pub mod Removal
pub mod Requests
pub mod Bulk
pub mod Consistency
pub mod Steps
mod Tests
use mprweb.Prelude.{
  ℕ, String, Bool, Option, none, some, List, any, [], find?, str_eq, if◌then◌else◌,
}
use mprweb.Models.{User, PackageBase}
use mprweb.Pkgbase.Requests.{Call}
use mprweb.Pkgbase.Closures.{Result, ok, err, RequestError}
use mprweb.Pkgbase.Actions.{Db, Sent}

-- A page, or a page with the anchor of a comment.
pub data Location : Type 0 where
  page : String → Location
  comment_anchor : Location → ℕ → Location
  -- /pkgbase/{name}, and a section of that page
  base_page : String → Location
  base_section : String → String → Location

pub data Response : Type 0 where
  -- HTTPException with status 404, 400 or 401
  not_found bad_request unauthorized : Response
  -- RedirectResponse with status 303
  see_other : Location → Response
  -- a template that is rendered with an error
  rejected : String → String → Response
  -- an exception that no handler catches: status 500
  crashed : RequestError → Response

-- A request of a user who is signed in: the clock, the next ID of the table that the route inserts
-- into, what the configuration and the OfficialProviders table say, and which users are suspended.
pub record Visit : Type 0 where
  pub user : User
  pub now : ℕ
  pub next_id : ℕ
  pub idle_time : ℕ
  pub auto_orphan_age : ℕ
  pub auto_delete_age : ℕ
  pub providers : List String
  pub suspended : ℕ → Bool

pub record Reply : Type 0 where
  pub response : Response
  pub db : Db
  pub sent : List Sent

abbrev pub call_of : Visit → Call
call_of v = record {
  now = v.now;
  idle_time = v.idle_time;
  requester = v.user.id;
  next_id = v.next_id;
  suspended = v.suspended;
}

-- An answer that leaves the tables alone.
abbrev pub answer : Response → Db → Reply
answer r db = record { response = r; db = db; sent = [] }

abbrev pub redirect : Location → Db → Reply
redirect l db = answer (see_other l) db

-- `get_pkg_or_base(name, PackageBase)`; none for the status 404.
abbrev pub get_pkgbase : List String → String → List PackageBase → Option PackageBase
get_pkgbase providers name bases =
    if any (str_eq name) providers
    then none
    else find? (λ (b : PackageBase). str_eq b.name name) bases

abbrev pub with_base : Visit → String → Db → (PackageBase → Reply) → Reply
with_base v name db k = elim (get_pkgbase v.providers name db.bases) [
  | none ↦ answer not_found db
  | some b ↦ k b
]

-- `next` of a form, or else a page.
abbrev pub next_or : Location → Option String → Location
next_or l none = l
next_or l (some url) = if str_eq url "" then l else page url

-- The outcome of an action, whose exceptions nothing catches.
abbrev pub acted : Response → Db → Result (Db × List Sent) → Reply
acted r db (ok (after, sent)) = record { response = r; db = after; sent = sent }
acted r db (err e) = answer (crashed e) db
