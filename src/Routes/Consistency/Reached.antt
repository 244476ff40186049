-- ===== src/Routes/Consistency/Reached.antt =====
-- Every route keeps the tables of package bases consistent, and so does every sequence of requests.
use mprweb.Prelude.{String}
use mprweb.Pkgbase.Actions.{Db}
use mprweb.Routes.{Visit}
use mprweb.Routes.Comments.{
  pkgbase_comment_pin, pkgbase_comment_unpin, pkgbase_comment_delete, pkgbase_comment_undelete,
}
use mprweb.Routes.Steps.{Action, perform, Reach, here, more}
use mprweb.Routes.Consistency.{IsConsistent}
use mprweb.Routes.Consistency.Keeping.{Keeps, Keeps-moderate}
use mprweb.Routes.Consistency.Marks.{
  Keeps-vote, Keeps-unvote, Keeps-notify, Keeps-unnotify, Keeps-unflag, Keeps-adopt, Keeps-flag,
  Keeps-keywords, Keeps-repology, Keeps-comment, Keeps-edit,
}
use mprweb.Routes.Consistency.Endings.{
  Keeps-disown, Keeps-delete, Keeps-merge, Keeps-request, Keeps-close,
}

module _ (v : Visit) (name : String) (db : Db) (c : IsConsistent db) where
  Keeps-perform : (a : Action) → Keeps (perform a v name db)
  unfolding perform pkgbase_comment_pin pkgbase_comment_unpin pkgbase_comment_delete
      pkgbase_comment_undelete
  Keeps-perform Action.vote = Keeps-vote v name db c
  Keeps-perform Action.unvote = Keeps-unvote v name db c
  Keeps-perform Action.notify = Keeps-notify v name db c
  Keeps-perform Action.unnotify = Keeps-unnotify v name db c
  Keeps-perform Action.unflag = Keeps-unflag v name db c
  Keeps-perform Action.adopt = Keeps-adopt v name db c
  Keeps-perform (Action.flag comments) = Keeps-flag v name db c comments
  Keeps-perform (Action.set_keywords words) = Keeps-keywords v name db c words
  Keeps-perform (Action.check_repology value) = Keeps-repology v name db c value
  Keeps-perform (Action.comment text enable) = Keeps-comment v name db c text enable
  Keeps-perform (Action.edit_comment i text enable url) = Keeps-edit v name db c i text enable url
  Keeps-perform (Action.pin i url) = Keeps-moderate v name db c _ _ _ i url
  Keeps-perform (Action.unpin i url) = Keeps-moderate v name db c _ _ _ i url
  Keeps-perform (Action.delete_comment i url) = Keeps-moderate v name db c _ _ _ i url
  Keeps-perform (Action.undelete_comment i url) = Keeps-moderate v name db c _ _ _ i url
  Keeps-perform (Action.disown comments confirm) = Keeps-disown v name db c comments confirm
  Keeps-perform (Action.delete confirm comments) = Keeps-delete v name db c confirm comments
  Keeps-perform (Action.merge_into into comments confirm url) =
      Keeps-merge v name db c into comments confirm url
  Keeps-perform (Action.file_request type target comments) =
      Keeps-request v name db c type target comments
  Keeps-perform (Action.close_request i comments) = Keeps-close v name db c i comments

-- Whatever requests the users of the site make in whatever order, nobody ever votes for a package
-- base twice or is notified about one twice, and each base shows the number of its votes, if that is
-- so at first.
pub Reach-IsConsistent :
    {before after : Db} → IsConsistent before → Reach before after → IsConsistent after
Reach-IsConsistent c here = c
Reach-IsConsistent c (more {between} r a v name) =
    (Keeps-perform v name between (Reach-IsConsistent c r) a).kept
