-- ===== src/Routes/Consistency/Moves.antt =====
-- Notifications, deletions and merges keep the tables of package bases consistent.
use mprweb.Prelude.{
  ℕ, ◌≡◌, ◌≢◌, refl, sym, ap, ◌∙◌, Bool, true, false, not, ◌&&◌, List, [], ◌∷◌, ◌++◌, any,
  update_where, All-update_where, All-filter_where, ◌==◌, ==_iff, arith, Bool-cases, inl, inr, elem,
}
use mprweb.Models.{User, PackageBase, PackageVote, PackageNotification}
use mprweb.Auth.Creds.{Credential, has_credential}
use mprweb.Pkgbase.Merging.{vote_following, notification_following, drop_rows, move_rows, followers}
use mprweb.Pkgbase.Merging.Uniqueness.{
  HasUniqueFollowers-move, HasUniqueFollowers-filter, HasUniqueFollowers-snoc,
}
use mprweb.Pkgbase.Actions.{
  Db, is_base, notified, run_single, delete_base, migrate, pkgbase_notify_instance,
  pkgbase_unnotify_instance,
}
use mprweb.Pkgbase.Actions.Merges.{count_votes, count-drop}
use mprweb.Routes.Comments.{enable_for}
use mprweb.Routes.Consistency.{IsConsistent, IsCounted}

abbrev watching : User → PackageBase → Db → Db
watching u b db = record db {
  notifications = db.notifications ++ record { user_id = u.id; package_base_id = b.id } ∷ [];
}

IsConsistent-watching :
    (u : User) (b : PackageBase) (db : Db)
    → any (notified u.id b.id) db.notifications ≡ false
    → IsConsistent db
    → IsConsistent (watching u b db)
IsConsistent-watching u b db new c =
    let n : PackageNotification = record { user_id = u.id; package_base_id = b.id } in
    record {
      voters = c.voters;
      watchers = HasUniqueFollowers-snoc n db.notifications new c.watchers;
      counted = c.counted;
    }

pub IsConsistent-enable_for :
    (enable : Bool) (u : User) (b : PackageBase) (db : Db)
    → IsConsistent db
    → IsConsistent (enable_for enable u b db)
IsConsistent-enable_for false u b db c = c
IsConsistent-enable_for true u b db c =
    elim (Bool-cases (any (notified u.id b.id) db.notifications)) [
      | inl old ↦ rw old c
      | inr new ↦ rw new (IsConsistent-watching u b db new c)
    ]

pub IsConsistent-notify :
    (u : User) (b : PackageBase) (db : Db)
    → IsConsistent db
    → IsConsistent (pkgbase_notify_instance u b db)
unfolding pkgbase_notify_instance
IsConsistent-notify u b db c =
    IsConsistent-enable_for (has_credential u Credential.pkgbase_notify []) u b db c

pub IsConsistent-unnotify :
    (u : User) (b : PackageBase) (db : Db)
    → IsConsistent db
    → IsConsistent (pkgbase_unnotify_instance u b db)
unfolding pkgbase_unnotify_instance
IsConsistent-unnotify u b db c =
    elim (Bool-cases (
      has_credential u Credential.pkgbase_notify [] && any (notified u.id b.id) db.notifications)) [
        | inr off ↦ rw off c
        | inl on ↦ rw on record {
          voters = c.voters;
          watchers =
              HasUniqueFollowers-filter (λ (n : PackageNotification). not (notified u.id b.id n))
                db.notifications c.watchers;
          counted = c.counted;
        }
      ]

not_base : (i j : ℕ) → not (j == i) ≡ true → i ≢ j
not_base i j h e = ground arith

pub IsConsistent-delete_base : (i : ℕ) (db : Db) → IsConsistent db → IsConsistent (delete_base i db)
unfolding delete_base drop_rows
IsConsistent-delete_base i db c = record {
  voters = HasUniqueFollowers-filter _ db.votes c.voters;
  watchers = HasUniqueFollowers-filter _ db.notifications c.watchers;
  counted =
      All-filter_where (IsCounted db.votes) (IsCounted (drop_rows i db.votes))
        (λ b. not (is_base i b)) db.bases
        (λ b e h. h ∙ sym (count-drop i b.id db.votes (not_base i b.id e))) c.counted;
}

count-move_other :
    (from to j : ℕ) (users : List ℕ) (votes : List PackageVote)
    → (j == from) ≡ false
    → (j == to) ≡ false
    → count_votes j (
        update_where
          (λ (v : PackageVote). v.package_base_id == from && not (elem v.users_id users))
          (λ v. record v { package_base_id = to })
          votes)
      ≡ count_votes j votes
count-move_other from to j users [] p q = refl
count-move_other from to j users (v ∷ vs) p q =
    ground (arith, count-move_other from to j users vs p q)

pub IsConsistent-merge :
    (from to : ℕ) (db : Db)
    → (from == to) ≡ false
    → IsConsistent db
    → IsConsistent (delete_base from (run_single to (migrate from to db)))
unfolding delete_base run_single migrate
IsConsistent-merge from to db ne c =
    let moved = move_rows from to db.votes in
    let differ : from ≢ to = λ e. absurd (ground arith) in
    record {
      voters = HasUniqueFollowers-move from to db.votes differ c.voters;
      watchers = HasUniqueFollowers-move from to db.notifications differ c.watchers;
      counted =
          All-filter_where
            (λ (b : PackageBase). (b.id == from) ≡ false → b.num_votes ≡ count_votes b.id moved)
            (IsCounted (drop_rows from moved)) (λ b. not (is_base from b)) _
            (λ b e h. h (ground arith) ∙ sym (count-drop from b.id moved (not_base from b.id e)))
            (All-update_where (IsCounted db.votes)
              (λ (b : PackageBase). (b.id == from) ≡ false → b.num_votes ≡ count_votes b.id moved)
              (is_base to) (λ (b : PackageBase). record b { num_votes = count_votes to moved })
              db.bases (λ b e k other. ap (λ j. count_votes j moved) (sym ((==_iff b.id to).0 e)))
              (λ b e k other.
                k
                ∙ sym (
                    unfold move_rows in
                    count-move_other from to b.id (followers to db.votes) db.votes other e))
              c.counted);
    }
