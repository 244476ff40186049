-- ===== src/Notify/Tests.antt =====
-- Mails of a small site, one of whose comaintainers is suspended.
use mprweb.Prelude.{ℕ, ◌≡◌, refl, String, Bool, true, false, not, ◌&&◌, none, some, [], ◌∷◌, any}
use mprweb.Models.{user_id}
use mprweb.Pkgbase.Actions.{Db}
use mprweb.Notify.{Reader, MailDb}
use mprweb.Notify.Notices.{
  Notice, prepare, account_page, base_page, in_reply_to, package_thread, comment_notification,
}
use mprweb.Notify.Suspended.{OnSome, IsPermitted, prepare-IsPermitted}
use mprweb.Notify.Comaintainers.{
  is_removed, is_none, has_active_account, remove_and_notify, removal_fails_iff,
}

abbrev reader_of : ℕ → String → Bool → Reader
reader_of i name suspended = record {
  user = record {
    id = i;
    username = name;
    email = name;
    account_type_id = user_id;
    suspended = suspended;
    passwd = "";
    salt = "";
    inactivity_ts = 0;
    last_login = 0;
    last_login_ip = none;
    last_ssh_login = 0;
    last_ssh_login_ip = none;
  };
  backup_email = none;
  lang = "en";
  reset_key = "";
  comment_notify = true;
  update_notify = false;
  ownership_notify = true;
}

abbrev site : Db
site = record {
  bases =
      record {
        id = 1;
        name = "foo";
        maintainer = some 7;
        packager = some 7;
        flagger = none;
        out_of_date_ts = none;
        flagger_comment = "";
        num_votes = 0;
        num_git_pulls = 0;
        submitted_ts = 50;
        repology_check = false;
      }
      ∷ [];
  packages = [];
  comaintainers =
      record { users_id = 8; package_base_id = 1; priority = 1 }
      ∷ record { users_id = 9; package_base_id = 1; priority = 2 }
      ∷ [];
  notifications =
      record { user_id = 7; package_base_id = 1 }
      ∷ record { user_id = 8; package_base_id = 1 }
      ∷ record { user_id = 9; package_base_id = 1 }
      ∷ [];
  votes = [];
  comments =
      record {
        id = 40;
        package_base_id = 1;
        users_id = some 7;
        comments = "works";
        comment_ts = 60;
        edited_ts = none;
        edited_users_id = none;
        del_ts = none;
        del_users_id = none;
        pinned_ts = 0;
      }
      ∷ [];
  keywords = [];
  requests = [];
}

-- Alice, bob, and eve, who is suspended.
abbrev mails : MailDb
mails = record {
  readers = reader_of 7 "alice" false ∷ reader_of 8 "bob" false ∷ reader_of 9 "eve" true ∷ [];
  site = site;
  tu_votes = [];
  request_ml = "list";
}

-- The comment of alice is sent to bob alone.
comment_of_alice :
    prepare (Notice.comment 7 1 40) mails
    ≡ some (record {
      to = ("bob", "en") ∷ [];
      cc = [];
      refs = account_page "alice" ∷ base_page "foo" ∷ [];
      headers = in_reply_to (package_thread "foo");
    })
unfolding prepare comment_notification
comment_of_alice = refl

prepare-IsPermitted_example : OnSome (IsPermitted mails) (prepare (Notice.comment 7 1 40) mails)
prepare-IsPermitted_example = prepare-IsPermitted mails (Notice.comment 7 1 40)

removal_fails_iff_example :
    is_none (remove_and_notify mails 1 ("bob" ∷ "eve" ∷ []))
    ≡ any
        (λ c.
          is_removed mails 1 ("bob" ∷ "eve" ∷ []) c && not (has_active_account mails c.users_id))
        mails.site.comaintainers
removal_fails_iff_example = removal_fails_iff mails 1 "foo" refl ("bob" ∷ "eve" ∷ [])

-- Eve cannot be removed.
eve_stays :
    any
      (λ c. is_removed mails 1 ("eve" ∷ []) c && not (has_active_account mails c.users_id))
      mails.site.comaintainers
    ≡ true
eve_stays = refl
