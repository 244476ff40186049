-- ===== src/Routes/Steps.antt =====
-- The routes as steps of the tables: a site is reached by requests of any users in any order.
use mprweb.Prelude.{ℕ, String, Bool, Option}
use mprweb.Pkgbase.Actions.{Db}
use mprweb.Routes.{Visit, Reply}
use mprweb.Routes.Comments.{
  pkgbase_comments_post, pkgbase_comment_post, pkgbase_comment_pin, pkgbase_comment_unpin,
  pkgbase_comment_delete, pkgbase_comment_undelete,
}
use mprweb.Routes.Followers.{pkgbase_vote, pkgbase_unvote, pkgbase_notify, pkgbase_unnotify}
use mprweb.Routes.Flags.{pkgbase_flag_post, pkgbase_unflag, pkgbase_keywords, repology_check}
use mprweb.Routes.Ownership.{pkgbase_disown_post, pkgbase_adopt_post}
use mprweb.Routes.Removal.{pkgbase_delete_post, pkgbase_merge_post}
use mprweb.Routes.Requests.{pkgbase_request_post, request_close_post}

-- One request: the route that it is for, with what the form says.
pub data Action : Type 0 where
  vote unvote notify unnotify unflag adopt : Action
  flag : String → Action
  set_keywords : String → Action
  check_repology : String → Action
  comment : String → Bool → Action
  edit_comment : ℕ → String → Bool → Option String → Action
  pin unpin delete_comment undelete_comment : ℕ → Option String → Action
  disown : String → Bool → Action
  delete : Bool → String → Action
  merge_into : String → String → Bool → Option String → Action
  file_request : String → Option String → String → Action
  close_request : ℕ → String → Action

-- The route that answers.
unfoldable pub perform : Action → Visit → String → Db → Reply
perform vote v name db = pkgbase_vote v name db
perform unvote v name db = pkgbase_unvote v name db
perform notify v name db = pkgbase_notify v name db
perform unnotify v name db = pkgbase_unnotify v name db
perform unflag v name db = pkgbase_unflag v name db
perform adopt v name db = pkgbase_adopt_post v name db
perform (flag comments) v name db = pkgbase_flag_post v name comments db
perform (set_keywords words) v name db = pkgbase_keywords v name words db
perform (check_repology value) v name db = repology_check v name value db
perform (comment text enable) v name db = pkgbase_comments_post v name text enable db
perform (edit_comment i text enable next) v name db =
    pkgbase_comment_post v name i text enable next db
perform (pin i next) v name db = pkgbase_comment_pin v name i next db
perform (unpin i next) v name db = pkgbase_comment_unpin v name i next db
perform (delete_comment i next) v name db = pkgbase_comment_delete v name i next db
perform (undelete_comment i next) v name db = pkgbase_comment_undelete v name i next db
perform (disown comments confirm) v name db = pkgbase_disown_post v name comments confirm db
perform (delete confirm comments) v name db = pkgbase_delete_post v name confirm comments db
perform (merge_into into comments confirm next) v name db =
    pkgbase_merge_post v name into comments confirm next db
perform (file_request type target comments) v name db =
    pkgbase_request_post v name type target comments db
perform (close_request i comments) v name db = request_close_post v i comments db

pub data Reach (db : Db) : Db → Type 0 where
  here : Reach db db
  more :
      {between : Db}
      → Reach db between
      → (a : Action) (v : Visit) (name : String) → Reach db (perform a v name between).db
