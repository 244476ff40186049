-- ===== src/Pkgbase/Merging.antt =====
-- What a merge does to the rows by which users follow a package base, its votes and its
-- notifications: `pkgbase_merge_instance` of aurweb/pkgbase/actions.py treats both alike.
pub mod Followers
pub mod Uniqueness
use mprweb.Prelude.{
  ℕ, ◌≡◌, refl, Bool, not, ◌&&◌, List, map, filter, update_where, elem, ◌==◌, if◌then◌else◌,
}
use mprweb.Models.{PackageVote, PackageNotification, PackageComment}

-- A row that ties a user to a package base.
pub record Following (R : Type 0) : Type 0 where
  pub user : R → ℕ
  pub base : R → ℕ
  pub rebase : ℕ → R → R
  pub user-rebase : (b : ℕ) (r : R) → user (rebase b r) ≡ user r
  pub base-rebase : (b : ℕ) (r : R) → base (rebase b r) ≡ b

instance abbrev pub vote_following : Following PackageVote
vote_following = record {
  user = λ v. v.users_id;
  base = λ v. v.package_base_id;
  rebase = λ b v. record v { package_base_id = b };
  user-rebase = λ b v. refl;
  base-rebase = λ b v. refl;
}

instance abbrev pub notification_following : Following PackageNotification
notification_following = record {
  user = λ n. n.user_id;
  base = λ n. n.package_base_id;
  rebase = λ b n. record n { package_base_id = b };
  user-rebase = λ b n. refl;
  base-rebase = λ b n. refl;
}

module _ {R : Type 0} ⦃f : Following R⦄ where
  -- `set(v.UsersID for v in target.package_votes)`
  unfoldable pub followers : ℕ → List R → List ℕ
  followers b rows = map f.user (filter (λ r. f.base r == b) rows)

  -- The rows of a base whose user does not follow the target yet move to the target.
  unfoldable pub move_rows : ℕ → ℕ → List R → List R
  move_rows from to rows =
      let target_users = followers to rows in
      update_where (λ r. f.base r == from && not (elem (f.user r) target_users)) (f.rebase to) rows

  -- The rows that go with a base that is deleted.
  unfoldable pub drop_rows : ℕ → List R → List R
  drop_rows b = filter (λ r. not (f.base r == b))

-- `comment.PackageBase = target`
unfoldable pub move_comments : ℕ → ℕ → List PackageComment → List PackageComment
move_comments from to =
    update_where (λ c. c.package_base_id == from) (λ c. record c { package_base_id = to })
