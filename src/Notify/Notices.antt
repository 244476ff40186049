-- ===== src/Notify/Notices.antt =====
-- aurweb/scripts/notify.py: the notifications, by the class and the arguments that make them. A query
-- that finds no row, whose columns are then asked for, is an AttributeError: none.
use mprweb.Prelude.{
  ◌>>=◌, ℕ, String, true, not, ◌&&◌, Option, none, some, List, [], ◌∷◌, ◌++◌, find?, map, ◌==◌,
  str_eq, if◌then◌else◌,
}
use mprweb.Models.{PackageComment}
use mprweb.Pkgbase.Actions.{is_base}
use mprweb.Notify.{
  Reader, MailDb, Address, address, active, recipients, follows, maintains, is_request, request_cc,
  has_to_vote,
}

-- The links of a mail, below aur_location.
pub data Ref : Type 0 where
  account_page base_page : String → Ref
  reset_page : String → Ref
  proposal_page : ℕ → Ref

pub data Thread : Type 0 where
  package_thread : String → Thread
  request_thread : ℕ → Thread

-- headers_msgid and headers_reply
pub data Headers : Type 0 where
  no_headers : Headers
  message_id : Thread → Headers
  in_reply_to : Thread → Headers

pub record Mail : Type 0 where
  pub to : List Address
  pub cc : List String
  pub refs : List Ref
  pub headers : Headers

abbrev pub mail : List Address → List Ref → Headers → Mail
mail to refs headers = record { to = to; cc = []; refs = refs; headers = headers }

-- `db.query(User.Username).filter(User.ID == uid).first()`
abbrev pub username : ℕ → MailDb → Option String
username uid db = do r ← find? (λ (r : Reader). r.user.id == uid) db.readers; some r.user.username

abbrev pub base_name : ℕ → MailDb → Option String
base_name b db = do c ← find? (is_base b) db.site.bases; some c.name

-- An account that is not suspended.
abbrev pub active_reader : ℕ → MailDb → Option Reader
active_reader uid db = find? (λ r. r.user.id == uid && not r.user.suspended) db.readers

abbrev pub given : Option String → Option String
given none = none
given (some s) = if str_eq s "" then none else some s

abbrev pub addresses_of : Reader → Option String → List Address
addresses_of r none = address r ∷ []
addresses_of r (some backup) = address r ∷ (backup, r.lang) ∷ []

abbrev pub own_addresses : Reader → List Address
own_addresses r = addresses_of r (given r.backup_email)

-- `get_refs`, of a mail that names the user first and of one that names the base first
abbrev pub user_refs : String → String → List Ref
user_refs user name = account_page user ∷ base_page name ∷ []

abbrev pub base_refs : String → String → List Ref
base_refs user name = base_page name ∷ account_page user ∷ []

abbrev pub closer_refs : Option String → List Ref
closer_refs none = []
closer_refs (some user) = account_page user ∷ []

-- `get_headers`
abbrev pub package_headers : String → Headers
package_headers name = in_reply_to (package_thread name)

-- ResetKeyNotification and WelcomeNotification
unfoldable pub reset_key_notification : ℕ → MailDb → Option Mail
reset_key_notification uid db = do
  r ← active_reader uid db
  some (mail (own_addresses r) (reset_page r.reset_key ∷ []) no_headers)

-- CommentNotification: the comment must be there.
unfoldable pub comment_notification : ℕ → ℕ → ℕ → MailDb → Option Mail
comment_notification uid b i db = do
  user ← username uid db
  name ← base_name b db
  c ← find? (λ (c : PackageComment). c.id == i) db.site.comments
  some (
      mail (recipients (follows (λ r. r.comment_notify) uid b db) db) (user_refs user name)
        (package_headers name))

unfoldable pub update_notification : ℕ → ℕ → MailDb → Option Mail
update_notification uid b db = do
  user ← username uid db
  name ← base_name b db
  some (
      mail (recipients (follows (λ r. r.update_notify) uid b db) db) (user_refs user name)
        (package_headers name))

unfoldable pub flag_notification : ℕ → ℕ → MailDb → Option Mail
flag_notification uid b db = do
  user ← username uid db
  name ← base_name b db
  some (mail (recipients (maintains b db) db) (base_refs user name) no_headers)

-- AdoptNotification and DisownNotification
unfoldable pub ownership_notification : ℕ → ℕ → MailDb → Option Mail
ownership_notification uid b db = do
  user ← username uid db
  name ← base_name b db
  some (
      mail (recipients (follows (λ r. r.ownership_notify) uid b db) db) (base_refs user name)
        no_headers)

-- ComaintainerAddNotification and ComaintainerRemoveNotification
unfoldable pub comaintainer_notification : ℕ → ℕ → MailDb → Option Mail
comaintainer_notification uid b db = do
  name ← base_name b db
  r ← active_reader uid db
  some (mail (address r ∷ []) (base_page name ∷ []) no_headers)

-- The base that another was merged into, if its ID is given and not zero.
abbrev pub merged_into : Option ℕ → MailDb → Option (List Ref)
merged_into none db = some []
merged_into (some b) db =
    if b == 0 then some [] else (do name ← base_name b db; some (base_page name ∷ []))

unfoldable pub delete_notification : ℕ → ℕ → Option ℕ → MailDb → Option Mail
delete_notification uid old new db = do
  user ← username uid db
  name ← base_name old db
  target ← merged_into new db
  some (
      mail (recipients (follows (λ r. true) uid old db) db) (user_refs user name ++ target)
        no_headers)

abbrev pub to_list : MailDb → List String → List Ref → Headers → Mail
to_list db cc refs headers = record {
  to = (db.request_ml, "en") ∷ [];
  cc = cc;
  refs = refs;
  headers = headers;
}

abbrev pub target_ref : Option String → List Ref
target_ref into = elim (given into) [ none ↦ [] | some t ↦ base_page t ∷ [] ]

-- RequestOpenNotification: the first mail of its thread.
unfoldable pub request_open_notification : ℕ → ℕ → ℕ → Option String → MailDb → Option Mail
request_open_notification uid i b into db = do
  user ← username uid db
  name ← base_name b db
  q ← find? (is_request i) db.site.requests
  some (
      to_list db (request_cc i db) (user_refs user name ++ target_ref into)
        (message_id (request_thread i)))

-- RequestCloseNotification: without a user, the request was closed by the site.
unfoldable pub request_close_notification : ℕ → ℕ → MailDb → Option Mail
request_close_notification uid i db = do
  q ← find? (is_request i) db.site.requests
  some (
      to_list db (request_cc i db) (closer_refs (username uid db)) (in_reply_to (request_thread i)))

-- TUVoteReminderNotification, whose query is not made distinct.
unfoldable pub vote_reminder_notification : ℕ → MailDb → Mail
vote_reminder_notification vote db =
    mail (map address (active (has_to_vote vote db) db)) (proposal_page vote ∷ []) no_headers

-- What `main` makes a notification of: the action, with its arguments.
pub data Notice : Type 0 where
  send_resetkey welcome : ℕ → Notice
  comment : ℕ → ℕ → ℕ → Notice
  update flag adopt disown comaintainer_add comaintainer_remove : ℕ → ℕ → Notice
  delete : ℕ → ℕ → Option ℕ → Notice
  request_open : ℕ → ℕ → ℕ → Option String → Notice
  request_close : ℕ → ℕ → Notice
  tu_vote_reminder : ℕ → Notice

-- action_map
unfoldable pub prepare : Notice → MailDb → Option Mail
prepare (send_resetkey uid) db = reset_key_notification uid db
prepare (welcome uid) db = reset_key_notification uid db
prepare (comment uid b i) db = comment_notification uid b i db
prepare (update uid b) db = update_notification uid b db
prepare (flag uid b) db = flag_notification uid b db
prepare (adopt uid b) db = ownership_notification uid b db
prepare (disown uid b) db = ownership_notification uid b db
prepare (comaintainer_add uid b) db = comaintainer_notification uid b db
prepare (comaintainer_remove uid b) db = comaintainer_notification uid b db
prepare (delete uid old new) db = delete_notification uid old new db
prepare (request_open uid i b into) db = request_open_notification uid i b into db
prepare (request_close uid i) db = request_close_notification uid i db
prepare (tu_vote_reminder vote) db = some (vote_reminder_notification vote db)
