-- ===== src/Routes/Consistency.antt =====
-- What the tables of package bases keep: nobody votes for a base twice or is notified twice, and a
-- base counts its votes. Each change of the tables that a route makes is taken by itself.
pub mod Moves
pub mod Actions
pub mod Keeping
pub mod Marks
pub mod Endings
pub mod Reached
use mprweb.Prelude.{
  ℕ, ◌+◌, ◌≡◌, ◌≢◌, refl, sym, ap, ◌∙◌, true, false, not, ◌&&◌, Option, some, none, List, [], ◌∷◌,
  ◌++◌, filter, any, update_where, count_where, All, All-update_where, All-filter_where, All-weaken,
  ◌==◌, ==_iff, arith, Bool-cases, inl, inr, elem, if◌then◌else◌,
}
use mprweb.Models.{User, PackageBase, PackageVote, PackageNotification}
use mprweb.Pkgbase.Merging.{
  Following, vote_following, notification_following, drop_rows, move_rows, followers,
}
use mprweb.Pkgbase.Merging.Followers.{follows}
use mprweb.Pkgbase.Merging.Uniqueness.{
  HasUniqueFollowers, HasUniqueFollowers-move, HasUniqueFollowers-filter, HasUniqueFollowers-snoc,
}
use mprweb.Pkgbase.Actions.{
  Db, is_base, notified, update_base, run_single, delete_base, migrate, pkgbase_notify_instance,
  pkgbase_unnotify_instance,
}
use mprweb.Pkgbase.Actions.Merges.{count_votes, count-drop}
use mprweb.Routes.Comments.{enable_for}
use mprweb.Routes.Followers.{add_vote, remove_vote, is_vote}

abbrev pub IsCounted : List PackageVote → PackageBase → Type 0
IsCounted votes b = b.num_votes ≡ count_votes b.id votes

pub record IsConsistent (db : Db) : Type 0 where
  pub voters : HasUniqueFollowers db.votes
  pub watchers : HasUniqueFollowers db.notifications
  pub counted : All (IsCounted db.votes) db.bases

-- A change of other columns of one base.
pub IsConsistent-update_base :
    (i : ℕ) (f : PackageBase → PackageBase) (db : Db)
    → ((b : PackageBase) → ((f b).id ≡ b.id) × ((f b).num_votes ≡ b.num_votes))
    → IsConsistent db
    → IsConsistent (update_base i f db)
IsConsistent-update_base i f db same c = record {
  voters = c.voters;
  watchers = c.watchers;
  counted =
      All-update_where (IsCounted db.votes) (IsCounted db.votes) (is_base i) f db.bases
        (λ b e h. (same b).1 ∙ h ∙ ap (λ j. count_votes j db.votes) (sym (same b).0)) (λ b e h. h)
        c.counted;
}

-- Other tables do not matter.
pub IsConsistent-same :
    (db after : Db)
    → after.bases ≡ db.bases
    → after.votes ≡ db.votes
    → after.notifications ≡ db.notifications
    → IsConsistent db
    → IsConsistent after
IsConsistent-same db after b v n c = record {
  voters = rw v c.voters;
  watchers = rw n c.watchers;
  counted = rw (b, v) c.counted;
}

-- The votes of one base change, and it is counted again.
recounted :
    (i : ℕ) (before after : List PackageVote) (bases : List PackageBase)
    → ((j : ℕ) → (j == i) ≡ false → count_votes j after ≡ count_votes j before)
    → All (IsCounted before) bases
    → All (IsCounted after) (
        update_where
          (is_base i)
          (λ (b : PackageBase). record b { num_votes = count_votes i after })
          bases)
recounted i before after bases others h =
    All-update_where (IsCounted before) (IsCounted after) (is_base i)
      (λ (b : PackageBase). record b { num_votes = count_votes i after }) bases
      (λ b e k. ap (λ j. count_votes j after) (sym ((==_iff b.id i).0 e)))
      (λ b e k. k ∙ sym (others b.id e)) h

count-snoc :
    (j : ℕ) (v : PackageVote) (votes : List PackageVote)
    → (j == v.package_base_id) ≡ false
    → count_votes j (votes ++ v ∷ []) ≡ count_votes j votes
count-snoc j v [] e = ground arith
count-snoc j v (w ∷ ws) e = ground (arith, count-snoc j v ws e)

count-remove :
    (uid i j : ℕ) (votes : List PackageVote)
    → (j == i) ≡ false
    → count_votes j (filter (λ v. not (is_vote uid i v)) votes) ≡ count_votes j votes
count-remove uid i j [] e = refl
count-remove uid i j (w ∷ ws) e = ground (arith, count-remove uid i j ws e)

pub IsConsistent-add_vote :
    (u : User) (now : ℕ) (b : PackageBase) (db : Db)
    → any (is_vote u.id b.id) db.votes ≡ false
    → IsConsistent db
    → IsConsistent (add_vote u now b db)
unfolding add_vote run_single
IsConsistent-add_vote u now b db new c =
    let v : PackageVote = record { users_id = u.id; package_base_id = b.id; vote_ts = now } in
    record {
      voters = HasUniqueFollowers-snoc v db.votes new c.voters;
      watchers = c.watchers;
      counted =
          recounted b.id db.votes (db.votes ++ v ∷ []) db.bases (λ j e. count-snoc j v db.votes e)
            c.counted;
    }

pub IsConsistent-remove_vote :
    (u : User) (b : PackageBase) (db : Db) → IsConsistent db → IsConsistent (remove_vote u b db)
unfolding remove_vote run_single
IsConsistent-remove_vote u b db c = record {
  voters = HasUniqueFollowers-filter (λ v. not (is_vote u.id b.id v)) db.votes c.voters;
  watchers = c.watchers;
  counted =
      recounted b.id db.votes (filter (λ v. not (is_vote u.id b.id v)) db.votes) db.bases
        (λ j e. count-remove u.id b.id j db.votes e) c.counted;
}
