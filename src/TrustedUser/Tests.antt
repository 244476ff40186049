-- ===== src/TrustedUser/Tests.antt =====
-- Two proposals and the votes on them.
use mprweb.Prelude.{ℕ, ◌≡◌, ◌≢◌, ◌↔◌, refl, String, false, none, some, List, [], ◌∷◌, find?, arith}
use mprweb.Models.{User, trusted_user_id}
use mprweb.TrustedUser.{
  VoteInfo, VoteDb, AddCall, is_info, accepted, voted, created, trusted_user_proposal_post,
  trusted_user_addvote_post, post_vote, cast_vote, store_vote, increment,
}
use mprweb.TrustedUser.Posting.{MayVote, after_vote, post_counts_iff}
use mprweb.TrustedUser.Tally.{AllTallied, never_accepted}
use mprweb.TrustedUser.Proposing.{MayPropose, LeavesProposal, addvote_iff}

abbrev trusted : ℕ → String → User
trusted i name = record {
  id = i;
  username = name;
  email = "";
  account_type_id = trusted_user_id;
  suspended = false;
  passwd = "";
  salt = "";
  inactivity_ts = 0;
  last_login = 0;
  last_login_ip = none;
  last_ssh_login = 0;
  last_ssh_login_ip = none;
}

abbrev everybody : List User
everybody = trusted 1 "tara" ∷ trusted 2 "tom" ∷ trusted 3 "tim" ∷ []

abbrev proposal : VoteInfo
proposal = record {
  id = 4;
  agenda = "add sam";
  user = "sam";
  submitted = 100;
  end_ts = 604900;
  quorum = 66;
  submitter_id = 1;
  yes = 0;
  no = 0;
  abstain = 0;
  active_tus = 3;
}

abbrev votes_db : VoteDb
votes_db = record { infos = proposal ∷ []; votes = [] }

abbrev three_active : ℕ → ℕ
three_active i = 3

votes_db-AllTallied : AllTallied three_active votes_db
votes_db-AllTallied = ((refl, refl), tt)

post_counts_iff_example :
    (((trusted_user_proposal_post (trusted 1 "tara") 4 "Yes" votes_db).0 ≡ voted) ↔ (
      (v : VoteInfo) × (find? (is_info 4) (proposal ∷ []) ≡ some v)
      × MayVote (trusted 1 "tara") "Yes" v votes_db))
    × ((v : VoteInfo)
        → find? (is_info 4) (proposal ∷ []) ≡ some v
        → (trusted_user_proposal_post (trusted 1 "tara") 4 "Yes" votes_db).0 ≡ voted
        → (trusted_user_proposal_post (trusted 1 "tara") 4 "Yes" votes_db).1
          ≡ after_vote (trusted 1 "tara") "Yes" v votes_db)
    × ((trusted_user_proposal_post (trusted 1 "tara") 4 "Yes" votes_db).0 ≢ voted
        → (trusted_user_proposal_post (trusted 1 "tara") 4 "Yes" votes_db).1 ≡ votes_db)
post_counts_iff_example = post_counts_iff (trusted 1 "tara") 4 "Yes" votes_db

-- All three vote for the proposal.
abbrev unanimous : List (User × ℕ × String)
unanimous =
    (trusted 1 "tara", 4, "Yes") ∷ (trusted 2 "tom", 4, "Yes") ∷ (trusted 3 "tim", 4, "Yes") ∷ []

never_accepted_example : accepted (record proposal { yes = 3; active_tus = 6 }) ≡ false
unfolding trusted_user_proposal_post post_vote cast_vote store_vote increment
never_accepted_example =
    never_accepted three_active unanimous votes_db 4 votes_db-AllTallied refl (omega arith)
      (omega arith)

abbrev call : AddCall
call = record { now = 200; next_id = 5; escape = λ s. s }

addvote_iff_example :
    (((trusted_user_addvote_post call everybody
          (trusted 2 "tom")
          "tim"
          "remove_tu"
          "away"
          votes_db).0
        ≡ created 5)
      ↔ MayPropose everybody (trusted 2 "tom") "tim" "remove_tu" "away" votes_db)
    × LeavesProposal call everybody (trusted 2 "tom") "tim" "remove_tu" "away" votes_db (
        trusted_user_addvote_post call everybody
          (trusted 2 "tom")
          "tim"
          "remove_tu"
          "away"
          votes_db)
addvote_iff_example = addvote_iff call everybody (trusted 2 "tom") "tim" "remove_tu" "away" votes_db
