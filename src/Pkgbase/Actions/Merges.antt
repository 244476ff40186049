-- ===== src/Pkgbase/Actions/Merges.antt =====
-- What is left of a package base that is merged away, and what its target gains.
use mprweb.Prelude.{
  ℕ, ◌≡◌, ◌≢◌, refl, sym, ap, ◌∙◌, true, false, not, ◌||◌, Option, some, none, List, [], ◌∷◌, map,
  filter, any, find?, update_where, count_where, ◌==◌, arith, Bool-cases, inl, inr, if◌then◌else◌,
}
use mprweb.Models.{User, PackageBase, PackageVote, PackageRequest}
use mprweb.Pkgbase.Closures.{ok}
use mprweb.Pkgbase.Requests.{Call}
use mprweb.Pkgbase.Requests.Closing.{merge, HasUniqueIds}
use mprweb.Pkgbase.Requests.Settling.{settled, tracked, sent}
use mprweb.Pkgbase.Requests.Handling.{HasNextId, handle_request-settles}
use mprweb.Pkgbase.Merging.{Following, vote_following, notification_following, drop_rows, move_rows}
use mprweb.Pkgbase.Merging.Followers.{follows, follows-move}
use mprweb.Pkgbase.Merging.Uniqueness.{HasUniqueFollowers, HasUniqueFollowers-move}
use mprweb.Pkgbase.Actions.{
  Db, Sent, request_close_notification, is_base, delete_base, run_single, migrate,
  pkgbase_merge_instance,
}

abbrev pub count_votes : ℕ → List PackageVote → ℕ
count_votes t = count_where (λ (v : PackageVote). v.package_base_id == t)

pub count-drop :
    (b t : ℕ) (votes : List PackageVote)
    → b ≢ t
    → count_votes t (drop_rows b votes) ≡ count_votes t votes
unfolding drop_rows
count-drop b t [] h = refl
count-drop b t (v ∷ vs) h = ground (arith, count-drop b t vs h)

abbrev pub votes_counted : ℕ → List PackageBase → Option ℕ
votes_counted i bases = elim (find? (is_base i) bases) [ none ↦ none | some b ↦ some b.num_votes ]

find-counted :
    (b t n : ℕ) (bases : List PackageBase)
    → b ≢ t
    → any (is_base t) bases ≡ true
    → votes_counted t (
        filter
          (λ c. not (is_base b c))
          (update_where (is_base t) (λ (c : PackageBase). record c { num_votes = n }) bases))
      ≡ some n
find-counted b t n [] ne h = absurd (cc)
find-counted b t n (c ∷ cs) ne h = elim (Bool-cases (is_base t c)) [
  | inl e ↦ ground arith
  | inr e ↦ ground (arith, find-counted b t n cs ne)
]

none-base :
    (b : ℕ) (bases : List PackageBase)
    → any (is_base b) (filter (λ c. not (is_base b c)) bases) ≡ false
none-base b [] = refl
none-base b (c ∷ cs) = ground (arith, none-base b cs)

-- The tables after a merge of `b` into `target`, with the requests given.
abbrev merged_db : PackageBase → PackageBase → List PackageRequest → Db → Db
merged_db b target requests db =
    delete_base b.id
      (run_single target.id (migrate b.id target.id (record db { requests = requests })))

-- Whether a user follows base `c` after the merge of `b` into `target`.
abbrev pub Absorbs :
    {R : Type 0} → ⦃f : Following R⦄ → PackageBase → PackageBase → List R → List R → Type 0
Absorbs b target before after =
    (uid c : ℕ)
    → follows uid c after ≡ (
        if c == b.id
        then false
        else if c == target.id
        then follows uid target.id before || follows uid b.id before
        else follows uid c before)

-- A merge of a base into another one that is in the table succeeds. After it the base is gone, its
-- voters and the users it notified are added to those of the target and of no other base, nobody
-- votes for a base twice, and the vote count of the target is the number of its votes. Before it
-- nobody votes for a base twice, and the IDs of the requests are unique and below the next ID.
pub merge_takes_over :
    (call : Call) (u : User) (b target : PackageBase) (db : Db)
    → b.id ≢ target.id
    → any (is_base target.id) db.bases ≡ true
    → HasUniqueIds db.requests
    → HasNextId call (merge target) b db.requests
    → HasUniqueFollowers db.votes
    → (after : Db × List Sent) × (pkgbase_merge_instance call u b target db ≡ ok after)
      × (any (is_base b.id) after.0.bases ≡ false)
      × Absorbs b target db.votes after.0.votes
      × Absorbs b target db.notifications after.0.notifications
      × HasUniqueFollowers after.0.votes
      × (votes_counted target.id after.0.bases ≡ some (count_votes target.id after.0.votes))
unfolding pkgbase_merge_instance migrate run_single delete_base
merge_takes_over call u b target db ne known unique next voters =
    let table = tracked call (merge target) b db.requests in
    let settles = handle_request-settles call (merge target) b db.requests unique next in
    let moved = move_rows b.id target.id db.votes in
    (
      (
        merged_db b target (map (settled call (merge target) b) table) db,
        map request_close_notification (sent call (merge target) b table),
      ),
      rw settles refl,
      none-base b.id _,
      (λ uid c. follows-move uid c b.id target.id db.votes ne),
      (λ uid c. follows-move uid c b.id target.id db.notifications ne),
      HasUniqueFollowers-move b.id target.id db.votes ne voters,
      find-counted b.id target.id (count_votes target.id moved) db.bases ne known
          ∙ ap some (sym (count-drop b.id target.id moved ne)),
    )
