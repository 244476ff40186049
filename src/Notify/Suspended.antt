-- ===== src/Notify/Suspended.antt =====
-- Which addresses get a mail.
use text.Mathlib.TextPositions.{eq_refl}
use mprweb.Prelude.{
  ◌>>=◌, ℕ, ◌≡◌, refl, String, Bool, true, false, not, ◌&&◌, ◌||◌, Option, none, some, List, [],
  ◌∷◌, map, any, find?, All, All-map, All-find?, find?-holds, All-filter_where, All-weaken,
  distinct, holds, ◌==◌, str_eq, Bool-cases, inl, inr, arith,
}
use mprweb.Models.{PackageComment}
use mprweb.Notify.{
  Reader, MailDb, Address, address, active, recipients, distinct_addresses, same_address,
  request_cc, is_request, concerns, has_to_vote,
}
use mprweb.Notify.Notices.{
  Mail, Notice, prepare, given, active_reader, addresses_of, username, base_name,
  reset_key_notification, comment_notification, update_notification, flag_notification,
  ownership_notification, comaintainer_notification, delete_notification, merged_into,
  request_open_notification, request_close_notification, vote_reminder_notification,
}

abbrev is_address : String → Reader → Bool
is_address a r =
    str_eq r.user.email a || elim (given r.backup_email) [ none ↦ false | some b ↦ str_eq b a ]

-- An address of an account that is not suspended.
abbrev pub IsActive : MailDb → String → Type 0
IsActive db a = any (λ r. not r.user.suspended && is_address a r) db.readers ≡ true

-- Such an address, or the mailing list for requests.
abbrev pub IsAllowed : MailDb → String → Type 0
IsAllowed db a =
    (str_eq a db.request_ml || any (λ r. not r.user.suspended && is_address a r) db.readers) ≡ true

abbrev pub IsPermitted : MailDb → Mail → Type 0
IsPermitted db m = All (λ (a : Address). IsAllowed db a.0) m.to × All (IsActive db) m.cc

-- What holds of the value of an Option, if there is one.
abbrev pub OnSome {ℓ κ} : {A : Type ℓ} → (A → Type κ) → Option A → Type κ
OnSome P none = Unit
OnSome P (some a) = P a

OnSome-bind {ℓ κ μ} :
    {A : Type ℓ} {B : Type κ} (P : B → Type μ) (m : Option A) (f : A → Option B)
    → ((a : A) → m ≡ some a → OnSome P (f a))
    → OnSome P (m >>= f)
OnSome-bind P none f h = tt
OnSome-bind P (some a) f h = h a refl

-- A row that satisfies a test shows that some row does.
any-members {ℓ} :
    {A : Type ℓ} (xs : List A) → All (λ (x : A). (p : A → Bool) → p x ≡ true → any p xs ≡ true) xs
any-members [] = tt
any-members (x ∷ xs) =
    (λ p e. rw e refl, All-weaken _ _ xs (λ y h p e. ground (arith, h p e)) (any-members xs))

distinct-All {κ} : (P : String → Type κ) (xs : List String) → All P xs → All P (distinct xs)
distinct-All P [] h = tt
distinct-All P (x ∷ xs) h = elim (Bool-cases (holds x (distinct xs))) [
  | inl e ↦ rw e (distinct-All P xs h.1)
  | inr e ↦ rw e (h.0, distinct-All P xs h.1)
]

distinct_addresses-All {κ} :
    (P : Address → Type κ) (xs : List Address) → All P xs → All P (distinct_addresses xs)
distinct_addresses-All P [] h = tt
distinct_addresses-All P (x ∷ xs) h =
    elim (Bool-cases (any (same_address x) (distinct_addresses xs))) [
      | inl e ↦ rw e (distinct_addresses-All P xs h.1)
      | inr e ↦ rw e (h.0, distinct_addresses-All P xs h.1)
    ]

is_address-own : (r : Reader) → is_address r.user.email r ≡ true
is_address-own r = rw (eq_refl r.user.email) refl

reader-IsActive :
    (db : MailDb) (r : Reader) (a : String)
    → ((p : Reader → Bool) → p r ≡ true → any p db.readers ≡ true)
    → r.user.suspended ≡ false
    → is_address a r ≡ true
    → IsActive db a
reader-IsActive db r a shows live own =
    shows (λ r. not r.user.suspended && is_address a r) (ground (arith, live, own))

active-IsActive :
    (p : Reader → Bool) (db : MailDb) → All (λ (r : Reader). IsActive db r.user.email) (active p db)
active-IsActive p db =
    All-filter_where _ _ (λ r. p r && not r.user.suspended) db.readers
      (λ r e shows. reader-IsActive db r r.user.email shows (ground arith) (is_address-own r))
      (any-members db.readers)

allowed : (db : MailDb) (a : String) → IsActive db a → IsAllowed db a
allowed db a h = ground (arith, h)

recipients-IsAllowed :
    (p : Reader → Bool) (db : MailDb) → All (λ (a : Address). IsAllowed db a.0) (recipients p db)
recipients-IsAllowed p db = distinct_addresses-All _ (map address (active p db)) (
    All-map _ address (active p db)
      (All-weaken _ _ (active p db) (λ r h. allowed db r.user.email h) (active-IsActive p db)))

request_cc-IsActive : (i : ℕ) (db : MailDb) → All (IsActive db) (request_cc i db)
request_cc-IsActive i db = distinct-All _ _ (
    All-map _ (λ (r : Reader). r.user.email) _
      (active-IsActive (λ r. any (λ q. is_request i q && concerns q db r) db.site.requests) db))

module _ (uid : ℕ) (db : MailDb) (r : Reader) (found : active_reader uid db ≡ some r) where
  found-IsAllowed : (a : String) → is_address a r ≡ true → IsAllowed db a
  found-IsAllowed a own =
      let shows = All-find? _ _ db.readers (any-members db.readers) found in
      let live =
        find?-holds (λ (r : Reader). r.user.id == uid && not r.user.suspended) db.readers found in
      allowed db a (reader-IsActive db r a shows (ground arith) own)

  own-IsAllowed :
      (backup : Option String)
      → given r.backup_email ≡ backup
      → All (λ (a : Address). IsAllowed db a.0) (addresses_of r backup)
  own-IsAllowed none e = (found-IsAllowed r.user.email (is_address-own r), tt)
  own-IsAllowed (some b) e =
      (found-IsAllowed r.user.email (is_address-own r), (found-IsAllowed b (is_backup b e), tt))
    where
      is_backup : (b : String) → given r.backup_email ≡ some b → is_address b r ≡ true
      is_backup b e = rw e (ground (arith, eq_refl b))

list-IsAllowed : (db : MailDb) → IsAllowed db db.request_ml
list-IsAllowed db = rw (eq_refl db.request_ml) refl

-- A mail that names a user and a base.
named :
    (db : MailDb) (uid b : ℕ) (f : String → String → Option Mail)
    → ((user name : String) → OnSome (IsPermitted db) (f user name))
    → OnSome (IsPermitted db) (username uid db >>= (λ user. base_name b db >>= f user))
named db uid b f h =
    OnSome-bind (IsPermitted db) (username uid db) _
      (λ user e. OnSome-bind (IsPermitted db) (base_name b db) _ (λ name g. h user name))

reset_key-IsPermitted :
    (db : MailDb) (uid : ℕ) → OnSome (IsPermitted db) (reset_key_notification uid db)
unfolding reset_key_notification
reset_key-IsPermitted db uid =
    OnSome-bind (IsPermitted db) (active_reader uid db) _
      (λ r e. (own-IsAllowed uid db r e (given r.backup_email) refl, tt))

comaintainer-IsPermitted :
    (db : MailDb) (uid b : ℕ) → OnSome (IsPermitted db) (comaintainer_notification uid b db)
unfolding comaintainer_notification
comaintainer-IsPermitted db uid b = OnSome-bind (IsPermitted db) (base_name b db) _ (λ name g.
    OnSome-bind (IsPermitted db) (active_reader uid db) _
      (λ r e. ((found-IsAllowed uid db r e r.user.email (is_address-own r), tt), tt)))

-- Whatever the notification, no mail is sent to a suspended account: each address that gets a mail
-- is the mailing list for requests, or the address or the backup address of an account that is not
-- suspended.
pub prepare-IsPermitted : (db : MailDb) (n : Notice) → OnSome (IsPermitted db) (prepare n db)
unfolding prepare reset_key_notification comment_notification update_notification flag_notification
    ownership_notification comaintainer_notification delete_notification request_open_notification
    request_close_notification vote_reminder_notification
prepare-IsPermitted db (Notice.send_resetkey uid) = reset_key-IsPermitted db uid
prepare-IsPermitted db (Notice.welcome uid) = reset_key-IsPermitted db uid
prepare-IsPermitted db (Notice.comment uid b i) = named db uid b _ (λ u c.
    OnSome-bind (IsPermitted db) (find? (λ (t : PackageComment). t.id == i) db.site.comments) _
      (λ t g. (recipients-IsAllowed _ db, tt)))
prepare-IsPermitted db (Notice.update uid b) =
    named db uid b _ (λ u c. (recipients-IsAllowed _ db, tt))
prepare-IsPermitted db (Notice.flag uid b) =
    named db uid b _ (λ u c. (recipients-IsAllowed _ db, tt))
prepare-IsPermitted db (Notice.adopt uid b) =
    named db uid b _ (λ u c. (recipients-IsAllowed _ db, tt))
prepare-IsPermitted db (Notice.disown uid b) =
    named db uid b _ (λ u c. (recipients-IsAllowed _ db, tt))
prepare-IsPermitted db (Notice.comaintainer_add uid b) = comaintainer-IsPermitted db uid b
prepare-IsPermitted db (Notice.comaintainer_remove uid b) = comaintainer-IsPermitted db uid b
prepare-IsPermitted db (Notice.delete uid old new) = named db uid old _ (λ u c.
    OnSome-bind (IsPermitted db) (merged_into new db) _ (λ t g. (recipients-IsAllowed _ db, tt)))
prepare-IsPermitted db (Notice.request_open uid i b into) = named db uid b _ (λ u c.
    OnSome-bind (IsPermitted db) (find? (is_request i) db.site.requests) _
      (λ q g. ((list-IsAllowed db, tt), request_cc-IsActive i db)))
prepare-IsPermitted db (Notice.request_close uid i) =
    OnSome-bind (IsPermitted db) (find? (is_request i) db.site.requests) _
      (λ q g. ((list-IsAllowed db, tt), request_cc-IsActive i db))
prepare-IsPermitted db (Notice.tu_vote_reminder vote) = (
  All-map (λ (a : Address). IsAllowed db a.0) address (active (has_to_vote vote db) db)
      (All-weaken _ _ (active (has_to_vote vote db) db) (λ r h. allowed db r.user.email h)
        (active-IsActive (has_to_vote vote db) db)),
  tt,
)
