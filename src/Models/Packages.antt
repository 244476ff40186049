-- ===== src/Models/Packages.antt =====
-- aurweb/models/package_base.py, package_comaintainer.py, package_notification.py,
-- package_vote.py, package_request.py, request_type.py: package bases and what hangs on them.
use mprweb.Prelude.{ℕ, String, Bool, Option}

-- PackageBases. Users are referred to by their ID; a missing one is NULL.
pub record PackageBase : Type 0 where
  pub id : ℕ
  pub name : String
  pub maintainer : Option ℕ
  pub packager : Option ℕ
  pub flagger : Option ℕ
  pub out_of_date_ts : Option ℕ
  pub flagger_comment : String
  pub num_votes : ℕ
  pub num_git_pulls : ℕ
  pub submitted_ts : ℕ
  pub repology_check : Bool

pub record PackageComaintainer : Type 0 where
  pub users_id : ℕ
  pub package_base_id : ℕ
  pub priority : ℕ

pub record PackageNotification : Type 0 where
  pub user_id : ℕ
  pub package_base_id : ℕ

pub record PackageVote : Type 0 where
  pub users_id : ℕ
  pub package_base_id : ℕ
  pub vote_ts : ℕ

pub record PackageComment : Type 0 where
  pub id : ℕ
  pub package_base_id : ℕ
  pub users_id : Option ℕ
  pub comments : String
  pub comment_ts : ℕ
  pub edited_ts : Option ℕ
  pub edited_users_id : Option ℕ
  pub del_ts : Option ℕ
  pub del_users_id : Option ℕ
  pub pinned_ts : ℕ

pub record PackageKeyword : Type 0 where
  pub package_base_id : ℕ
  pub keyword : String

-- aurweb/models/package_request.py
pub record PackageRequest : Type 0 where
  pub id : ℕ
  pub req_type_id : ℕ
  pub package_base_id : Option ℕ
  pub package_base_name : String
  pub merge_base_name : Option String
  pub users_id : ℕ
  pub comments : String
  pub closure_comment : String
  pub request_ts : ℕ
  pub closed_ts : Option ℕ
  pub closed_uid : Option ℕ
  pub status : ℕ

abbrev pub pending_id : ℕ
pending_id = 0

abbrev pub closed_id : ℕ
closed_id = 1

abbrev pub accepted_id : ℕ
accepted_id = 2

abbrev pub rejected_id : ℕ
rejected_id = 3

-- aurweb/models/request_type.py
abbrev pub deletion_id : ℕ
deletion_id = 1

abbrev pub orphan_id : ℕ
orphan_id = 2

abbrev pub merge_id : ℕ
merge_id = 3
