-- ===== src/Routes/Tests.antt =====
-- A small site, and what the routes do on it.
use mprweb.Prelude.{
  ◌&&◌, ℕ, ◌≡◌, ◌≢◌, refl, String, true, false, Option, some, none, List, [], ◌∷◌, any, find?,
  holds, split, arith, ◌==◌, ==_iff, eq_iff, Bool-cases, inl, inr, ap, sym, ◌∙◌, str_eq,
  if◌then◌else◌,
}
use mprweb.Models.{
  User, PackageBase, PackageComaintainer, PackageComment, user_id, trusted_user_id, accepted_id,
  orphan_id,
}
use mprweb.Auth.Creds.{Credential, has_credential}
use mprweb.Pkgbase.Comaintainers.{
  is_row, username_of, rotate_comaintainers, comaintainers_of, order_by_priority,
  insert_by_priority, renumber, set_priority, remove_comaintainers, add_comaintainers,
  resolve_users, add_each, add_comaintainer, latest_priority,
}
use mprweb.Pkgbase.Requests.{verify_orphan_request}
use mprweb.Pkgbase.Actions.{Db, is_base}
use mprweb.Pkgbase.Actions.Ownership.{maintainer_of}
use mprweb.Routes.{Visit, answer, unauthorized, rejected}
use mprweb.Routes.Comments.{
  get_pkgbase_comment, edited_by, pkgbase_comment_post, pkgbase_comment_pin, pkgbase_comment_unpin,
  pkgbase_comment_delete, pkgbase_comment_undelete,
}
use mprweb.Routes.Comments.Editing.{edit_unchecked}
use mprweb.Routes.Comments.Moderation.{ordinary_users_moderate_own}
use mprweb.Routes.Flags.{is_keyword, pkgbase_keywords}
use mprweb.Routes.Flags.Keywords.{keywords_replaced}
use mprweb.Routes.Ownership.{
  may_adopt, comaintainer_records, replace_comaintainers, saved, pkgbase_disown_post,
}
use mprweb.Routes.Ownership.Refusals.{commented_db, refused_disown_comments}
use mprweb.Routes.Ownership.Comaintainers.{IsAccount}
use mprweb.Routes.Ownership.Comaintainers.Replacing.{replace_comaintainers_iff}
use mprweb.Routes.Requests.{filed_request, is_request, pkgbase_request_post}
use mprweb.Routes.Requests.Filing.{auto_orphan_accepts}
use mprweb.Routes.Bulk.{all_bases, selected_bases, packages_adopt, packages_post}
use mprweb.Routes.Bulk.Adoption.{has_selection, packages_adopt-all_or_none}
use mprweb.Routes.Consistency.{IsConsistent}
use mprweb.Routes.Consistency.Actions.{OnOk}
use mprweb.Routes.Bulk.Kept.{db_of, packages_post-IsConsistent}
use mprweb.Routes.Consistency.Reached.{Reach-IsConsistent}
use mprweb.Routes.Steps.{Action, perform, here, more}

abbrev account_of : ℕ → String → ℕ → User
account_of i name kind = record {
  id = i;
  username = name;
  email = "";
  account_type_id = kind;
  suspended = false;
  passwd = "";
  salt = "";
  inactivity_ts = 0;
  last_login = 0;
  last_login_ip = none;
  last_ssh_login = 0;
  last_ssh_login_ip = none;
}

abbrev alice : User
alice = account_of 7 "alice" user_id

abbrev bob : User
bob = account_of 8 "bob" trusted_user_id

abbrev eve : User
eve = account_of 9 "eve" user_id

abbrev base_of : ℕ → String → Option ℕ → PackageBase
base_of i name m = record {
  id = i;
  name = name;
  maintainer = m;
  packager = none;
  flagger = none;
  out_of_date_ts = some 100;
  flagger_comment = "";
  num_votes = 0;
  num_git_pulls = 0;
  submitted_ts = 50;
  repology_check = false;
}

abbrev foo : PackageBase
foo = base_of 1 "foo" (some 7)

abbrev bar : PackageBase
bar = base_of 2 "bar" none

-- A comment of alice on foo.
abbrev comment : PackageComment
comment = record {
  id = 40;
  package_base_id = 1;
  users_id = some 7;
  comments = "works";
  comment_ts = 60;
  edited_ts = none;
  edited_users_id = none;
  del_ts = none;
  del_users_id = none;
  pinned_ts = 0;
}

abbrev site : Db
site = record {
  bases = foo ∷ bar ∷ [];
  packages =
      record { id = 21; package_base_id = 1; name = "foo" }
      ∷ record { id = 22; package_base_id = 2; name = "bar" }
      ∷ [];
  comaintainers = record { users_id = 8; package_base_id = 1; priority = 1 } ∷ [];
  notifications = [];
  votes = [];
  comments = comment ∷ [];
  keywords =
      record { package_base_id = 1; keyword = "old" }
      ∷ record { package_base_id = 2; keyword = "old" }
      ∷ [];
  requests = [];
}

abbrev visit_of : User → Visit
visit_of u = record {
  user = u;
  now = 1000;
  next_id = 41;
  idle_time = 600;
  auto_orphan_age = 500;
  auto_delete_age = 500;
  providers = "linux" ∷ [];
  suspended = λ i. false;
}

site-IsConsistent : IsConsistent site
site-IsConsistent = record { voters = tt; watchers = tt; counted = (refl, (refl, tt)) }

-- Eve votes for foo, and bob merges it into bar.
abbrev voted : Db
voted = (perform Action.vote (visit_of eve) "foo" site).db

abbrev merged : Db
merged = (perform (Action.merge_into "bar" "" true none) (visit_of bob) "foo" voted).db

Reach-IsConsistent_example : IsConsistent merged
Reach-IsConsistent_example = Reach-IsConsistent site-IsConsistent (
    more (more here Action.vote (visit_of eve) "foo") (Action.merge_into "bar" "" true none)
      (visit_of bob) "foo")

-- Eve has no credential to edit, and rewrites the comment of alice.
eve_may_not_edit : has_credential eve Credential.comment_edit (some 7 ∷ []) ≡ false
unfolding has_credential
eve_may_not_edit = refl

edit_unchecked_example :
    get_pkgbase_comment foo 40
      (pkgbase_comment_post (visit_of eve) "foo" 40 "broken" false none site).db.comments
    ≡ some (edited_by (visit_of eve) "broken" comment)
edit_unchecked_example =
    edit_unchecked (visit_of eve) "foo" 40 site foo comment refl refl "broken" false none refl refl

ordinary_users_moderate_own_example :
    (◌≢◌ {A = Option ℕ} (some 7) (some 9)
      → (pkgbase_comment_delete (visit_of eve) "foo" 40 none site ≡ answer unauthorized site)
        × (pkgbase_comment_undelete (visit_of eve) "foo" 40 none site ≡ answer unauthorized site))
    × (◌≢◌ {A = Option ℕ} (some 7) (some 9)
        → (pkgbase_comment_pin (visit_of eve) "foo" 40 none site ≡ answer unauthorized site)
          × (pkgbase_comment_unpin (visit_of eve) "foo" 40 none site ≡ answer unauthorized site))
ordinary_users_moderate_own_example =
    ordinary_users_moderate_own (visit_of eve) "foo" 40 none site foo comment refl refl refl

alice_may_delete : has_credential alice Credential.comment_delete (some 7 ∷ []) ≡ true
unfolding has_credential
alice_may_delete = refl

bob_may_restore : has_credential bob Credential.comment_undelete (some 7 ∷ []) ≡ true
unfolding has_credential
bob_may_restore = refl

keywords_replaced_example :
    any (is_keyword 1 "old") (pkgbase_keywords (visit_of eve) "foo" "new cli" site).db.keywords
    ≡ (if 1 == 1 then holds "old" (split 32 "new cli") else any (is_keyword 1 "old") site.keywords)
keywords_replaced_example = keywords_replaced (visit_of eve) "foo" "new cli" site foo 1 "old" refl

old_keyword_is_gone : holds "old" (split 32 "new cli") ≡ false
unfolding split
old_keyword_is_gone = refl

auto_orphan_accepts_example :
    (maintainer_of 1 (pkgbase_request_post (visit_of eve) "foo" "orphan" none "dead" site).db.bases
      ≡ none)
    × (find?
          (is_request 41)
          (pkgbase_request_post (visit_of eve) "foo" "orphan" none "dead" site).db.requests
        ≡ some (record (filed_request (visit_of eve) foo orphan_id none "dead") {
          status = accepted_id;
        }))
    × ((pkgbase_request_post (visit_of eve) "foo" "orphan" none "dead" site).db.comaintainers
        ≡ site.comaintainers)
auto_orphan_accepts_example =
    auto_orphan_accepts (visit_of eve) "foo" "dead" none site foo refl refl refl refl

packages_adopt-all_or_none_example :
    ((packages_adopt bob (21 ∷ 22 ∷ []) true site).success ≡ (
      has_selection (21 ∷ 22 ∷ [])
      && true
      && all_bases (may_adopt bob) (selected_bases (21 ∷ 22 ∷ []) site)))
    × ((packages_adopt bob (21 ∷ 22 ∷ []) true site).success ≡ false
        → (packages_adopt bob (21 ∷ 22 ∷ []) true site).db ≡ site)
    × ((packages_adopt bob (21 ∷ 22 ∷ []) true site).success ≡ true
        → (j : ℕ) → any (is_base j) site.bases ≡ true
        → maintainer_of j (packages_adopt bob (21 ∷ 22 ∷ []) true site).db.bases ≡ (
            if any (is_base j) (selected_bases (21 ∷ 22 ∷ []) site)
            then some 8
            else maintainer_of j site.bases))
packages_adopt-all_or_none_example = packages_adopt-all_or_none bob (21 ∷ 22 ∷ []) true site

bob_may_disown : has_credential bob Credential.pkgbase_disown [] ≡ true
unfolding has_credential
bob_may_disown = refl

nothing_due : verify_orphan_request 600 1000 foo [] ≡ false
unfolding verify_orphan_request
nothing_due = refl

refused_disown_comments_example :
    pkgbase_disown_post (visit_of bob) "foo" "inactive" true site
    ≡ answer
        (rejected "pkgbase/disown.html" "no due existing orphan requests to accept")
        (commented_db foo "inactive" site)
refused_disown_comments_example =
    refused_disown_comments (visit_of bob) "foo" "inactive" site foo refl refl bob_may_disown refl
      nothing_due

abbrev users : List User
users = bob ∷ eve ∷ []

eve_by_id : (i : ℕ) → username_of users i ≡ some "eve" → i ≡ 9
eve_by_id i e = elim (Bool-cases (8 == i)) [
  | inl bobs ↦
      let named : ◌≡◌ {A = Option String} (some "bob") (some "eve") =
        rw (username_of, find?, bobs) at e in
      let wrong : ◌≡◌ {A = String} "bob" "eve" =
        ap (λ o. elim o [ none ↦ "bob" | some n ↦ n ]) named in
      absurd (cc ((eq_iff "bob" "eve").1 wrong))
  | inr other ↦ elim (Bool-cases (9 == i)) [
    | inl eves ↦ ground (arith, ==_iff 9 i)
    | inr nobody ↦ absurd (cc (rw (username_of, find?, other, nobody) at e))
  ]
]

eve_by_name :
    (n : String) (w : User)
    → find? (λ (v : User). str_eq v.username n) users ≡ some w
    → w.id ≡ 9
    → n ≡ "eve"
eve_by_name n w found own = elim (Bool-cases (str_eq "bob" n)) [
  | inl bobs ↦
      let e : bob ≡ w = cc (rw bobs at found) in
      let wrong : ◌≡◌ {A = ℕ} 8 9 = ap (λ (v : User). v.id) e ∙ own in absurd (omega arith)
  | inr other ↦ elim (Bool-cases (str_eq "eve" n)) [
    | inl eves ↦ sym ((eq_iff "eve" n).0 eves)
    | inr nobody ↦ absurd (cc (rw (other, nobody) at found))
  ]
]

eve-IsAccount : IsAccount users eve
eve-IsAccount = record { by_id = refl; by_name = refl; own_name = eve_by_id; own_id = eve_by_name }

-- The form of foo names eve in place of bob.
abbrev replaced : List PackageComaintainer
replaced = record { users_id = 9; package_base_id = 1; priority = 1 } ∷ []

eve_replaces_bob :
    replace_comaintainers users foo ("eve" ∷ []) site.comaintainers ≡ saved replaced (9 ∷ [])
unfolding replace_comaintainers comaintainer_records rotate_comaintainers comaintainers_of
    order_by_priority insert_by_priority renumber set_priority remove_comaintainers
    add_comaintainers resolve_users add_each add_comaintainer latest_priority
eve_replaces_bob = refl

replace_comaintainers_iff_example : any (is_row 9 1) replaced ≡ holds "eve" ("eve" ∷ [])
replace_comaintainers_iff_example =
    replace_comaintainers_iff users foo ("eve" ∷ []) site.comaintainers replaced (9 ∷ []) eve
      eve_replaces_bob eve-IsAccount refl

packages_post-IsConsistent_example :
    OnOk
      (λ r. IsConsistent (db_of r))
      (packages_post (visit_of bob) (21 ∷ 22 ∷ []) "adopt" true site)
packages_post-IsConsistent_example =
    packages_post-IsConsistent (visit_of bob) (21 ∷ 22 ∷ []) "adopt" true site site-IsConsistent
