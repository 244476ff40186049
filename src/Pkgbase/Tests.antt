-- ===== src/Pkgbase/Tests.antt =====
-- Package bases, comaintainers and requests as examples, and runs of the code of aurweb/pkgbase and
-- aurweb/packages/requests.py on them.
use mprweb.Prelude.{
  ℕ, ◌≡◌, ◌≤◌, refl, String, true, false, not, ◌&&◌, Option, some, none, List, [], ◌∷◌, map, filter,
  any, All, arith, ◌==◌, if◌then◌else◌,
}
use mprweb.Models.{
  User, PackageBase, PackageComaintainer, PackageVote, PackageRequest, user_id, trusted_user_id,
  pending_id, accepted_id, rejected_id, orphan_id, merge_id,
}
use mprweb.Auth.Creds.{has_credential}
use mprweb.Pkgbase.Comaintainers.{
  of_base, is_row, comaintainers_of, order_by_priority, insert_by_priority,
}
use mprweb.Pkgbase.Closures.{ok, err, no_recipient, err, no_due_request}
use mprweb.Pkgbase.Requests.{Call, Notification, handle_request, verify_orphan_request}
use mprweb.Pkgbase.Requests.Closing.{orphan, merge, HasUniqueIds}
use mprweb.Pkgbase.Requests.Settling.{settled, tracked, sent}
use mprweb.Pkgbase.Requests.Handling.{HasNextId, handle_request-settles}
use mprweb.Pkgbase.Requests.Outcome.{was_accepted, handle_request-leaves_record}
use mprweb.Pkgbase.Merging.{vote_following, notification_following}
use mprweb.Pkgbase.Merging.Uniqueness.{HasUniqueFollowers}
use mprweb.Pkgbase.Actions.{
  Db, Sent, disown_notification, request_close_notification, is_base, pkgbase_disown_instance,
  pkgbase_delete_instance, pkgbase_merge_instance,
}
use mprweb.Pkgbase.Actions.Ownership.{maintainer_of, disown_succession}
use mprweb.Pkgbase.Actions.Removal.{deleted, delete_ignores_comments}
use mprweb.Pkgbase.Actions.Merges.{Absorbs, count_votes, votes_counted, merge_takes_over}

abbrev account_of : ℕ → String → ℕ → User
account_of i name kind = record {
  id = i;
  username = name;
  email = "";
  account_type_id = kind;
  suspended = false;
  passwd = "";
  salt = "";
  inactivity_ts = 0;
  last_login = 0;
  last_login_ip = none;
  last_ssh_login = 0;
  last_ssh_login_ip = none;
}

abbrev alice : User
alice = account_of 7 "alice" user_id

abbrev bob : User
bob = account_of 8 "bob" trusted_user_id

abbrev comaintainer : ℕ → ℕ → ℕ → PackageComaintainer
comaintainer u b p = record { users_id = u; package_base_id = b; priority = p }

-- Base 1 has two comaintainers, base 2 has one.
abbrev table : List PackageComaintainer
table = comaintainer 8 1 5 ∷ comaintainer 9 2 1 ∷ comaintainer 9 1 3 ∷ []

abbrev base_of : ℕ → String → Option ℕ → PackageBase
base_of i name m = record {
  id = i;
  name = name;
  maintainer = m;
  packager = none;
  flagger = none;
  out_of_date_ts = none;
  flagger_comment = "";
  num_votes = 0;
  num_git_pulls = 0;
  submitted_ts = 0;
  repology_check = false;
}

abbrev foo : PackageBase
foo = base_of 1 "foo" (some 7)

abbrev bar : PackageBase
bar = base_of 2 "bar" none

abbrev request_of : ℕ → ℕ → Option String → PackageRequest
request_of i kind target = record {
  id = i;
  req_type_id = kind;
  package_base_id = some 1;
  package_base_name = "foo";
  merge_base_name = target;
  users_id = 9;
  comments = "";
  closure_comment = "";
  request_ts = 100;
  closed_ts = none;
  closed_uid = none;
  status = pending_id;
}

-- One request to merge foo into bar, one into another base, and one to orphan it.
abbrev requests : List PackageRequest
requests =
    request_of 10 merge_id (some "bar")
    ∷ request_of 11 merge_id (some "baz")
    ∷ request_of 12 orphan_id none
    ∷ []

abbrev call : Call
call = record { now = 1000; idle_time = 600; requester = 8; next_id = 13; suspended = λ i. false }

requests-HasUniqueIds : HasUniqueIds requests
requests-HasUniqueIds = (refl, (refl, (refl, tt)))

requests-HasNextId : HasNextId call (merge bar) foo requests
requests-HasNextId = (omega arith, (omega arith, (omega arith, tt)))

handle_request-settles_example : handle_request call merge_id foo (some bar) requests ≡ (
    if merge_id == orphan_id && not (verify_orphan_request 600 1000 foo requests)
    then err no_due_request
    else ok (
      map (settled call (merge bar) foo) (tracked call (merge bar) foo requests),
      sent call (merge bar) foo (tracked call (merge bar) foo requests),
    ))
handle_request-settles_example =
    handle_request-settles call (merge bar) foo requests requests-HasUniqueIds requests-HasNextId

-- What the merge of foo into bar leaves of the requests.
abbrev merge_outcome : List PackageRequest × List Notification
merge_outcome = (map (settled call (merge bar) foo) requests, sent call (merge bar) foo requests)

handle_request-leaves_record_example : any (was_accepted 8 1000 merge_id foo) merge_outcome.0 ≡ true
handle_request-leaves_record_example =
    handle_request-leaves_record call (merge bar) foo requests merge_outcome requests-HasUniqueIds
      requests-HasNextId handle_request-settles_example

other_merge_rejected :
    map (λ (r : PackageRequest). r.status) merge_outcome.0
    ≡ accepted_id ∷ rejected_id ∷ pending_id ∷ []
other_merge_rejected = refl

abbrev vote : ℕ → ℕ → PackageVote
vote u b = record { users_id = u; package_base_id = b; vote_ts = 0 }

-- User 5 votes for both bases, user 6 for foo, and user 4 for bar.
abbrev votes : List PackageVote
votes = vote 5 1 ∷ vote 5 2 ∷ vote 6 1 ∷ vote 4 2 ∷ []

votes-HasUniqueFollowers : HasUniqueFollowers votes
votes-HasUniqueFollowers = (refl, (refl, (refl, (refl, tt))))

abbrev db : Db
db = record {
  bases = foo ∷ bar ∷ [];
  packages = [];
  comaintainers = table;
  notifications = [];
  votes = votes;
  comments = [];
  keywords = [];
  requests = requests;
}

merge_takes_over_example :
    (after : Db × List Sent) × (pkgbase_merge_instance call bob foo bar db ≡ ok after)
    × (any (is_base 1) after.0.bases ≡ false)
    × Absorbs foo bar votes after.0.votes
    × Absorbs foo bar db.notifications after.0.notifications
    × HasUniqueFollowers after.0.votes
    × (votes_counted 2 after.0.bases ≡ some (count_votes 2 after.0.votes))
merge_takes_over_example =
    merge_takes_over call bob foo bar db (ground arith) refl requests-HasUniqueIds
      requests-HasNextId votes-HasUniqueFollowers

delete_ignores_comments_example :
    pkgbase_delete_instance call bob foo "out of date" db ≡ ok (deleted call bob foo db)
delete_ignores_comments_example =
    delete_ignores_comments call bob foo "out of date" db requests-HasUniqueIds requests-HasNextId
      ((λ e. refl), ((λ e. refl), ((λ e. refl), tt)))

disown_succession_example :
    All (λ (d : PackageComaintainer). 3 ≤ d.priority) (filter (of_base 1) table)
    × (call.suspended 9 ≡ true → pkgbase_disown_instance call alice foo db ≡ err no_recipient)
    × (call.suspended 9 ≡ false
        → (after : Db) × (sent : List Sent) × (pkgbase_disown_instance call alice foo db
            ≡ ok (after, sent))
          × (maintainer_of 1 after.bases ≡ some 9)
          × ((uid i : ℕ)
              → any (is_row uid i) after.comaintainers
                ≡ (any (is_row uid i) table && not (uid == 9 && i == 1))))
unfolding comaintainers_of order_by_priority insert_by_priority
disown_succession_example =
    disown_succession call alice foo db (comaintainer 9 1 3) (comaintainer 8 1 5 ∷ []) refl refl
      refl

-- The tables after bob has disowned foo, by the orphan request that is due.
abbrev orphaned : Db
orphaned = record db {
  bases = record foo { maintainer = none } ∷ bar ∷ [];
  requests = map (settled call orphan foo) requests;
}

bob_disowns :
    pkgbase_disown_instance call bob foo db
    ≡ ok (
      orphaned,
      disown_notification 8 1 ∷ map request_close_notification (sent call orphan foo requests),
    )
unfolding pkgbase_disown_instance has_credential verify_orphan_request
bob_disowns =
    rw (handle_request-settles call orphan foo requests requests-HasUniqueIds requests-HasNextId)
      refl
