-- ===== src/TrustedUser.antt =====
-- aurweb/routers/trusted_user.py and aurweb/models/tu_voteinfo.py: the proposals that trusted users
-- vote on. The quorum is in hundredths; the floating-point comparison of the source agrees with the
-- one on numbers for any count of voters below a billion.
pub mod Posting
pub mod Tally
pub mod Proposing
mod Tests
use mprweb.Prelude.{
  ℕ, zero, suc, ◌+◌, ◌*◌, String, Bool, true, false, not, ◌&&◌, ◌||◌, Option, none, some, List, [],
  ◌∷◌, ◌++◌, any, find?, update_where, count_where, elem, ltb, ◌==◌, str_eq, if◌then◌else◌,
}
use mprweb.Models.{User, trusted_user_id, trusted_user_and_dev_id}
use mprweb.Auth.Creds.{Credential, has_credential}

-- TU_VoteInfo
pub record VoteInfo : Type 0 where
  pub id : ℕ
  pub agenda : String
  pub user : String
  pub submitted : ℕ
  pub end_ts : ℕ
  pub quorum : ℕ
  pub submitter_id : ℕ
  pub yes : ℕ
  pub no : ℕ
  pub abstain : ℕ
  pub active_tus : ℕ

-- TU_Votes
pub record TuVote : Type 0 where
  pub vote_id : ℕ
  pub user_id : ℕ

pub record VoteDb : Type 0 where
  pub infos : List VoteInfo
  pub votes : List TuVote

abbrev pub is_running : ℕ → VoteInfo → Bool
is_running now v = ltb now v.end_ts

abbrev pub total_votes : VoteInfo → ℕ
total_votes v = v.yes + v.no + v.abstain

-- `accepted` of render_proposal. Without votes the participation is 0.
unfoldable pub accepted : VoteInfo → Bool
accepted v =
    ltb v.active_tus (2 * v.yes)
    || (ltb (v.quorum * v.active_tus) (100 * total_votes v)
        && not (total_votes v == 0)
        && ltb v.no v.yes)

abbrev pub is_info : ℕ → VoteInfo → Bool
is_info i v = v.id == i

abbrev pub has_vote : ℕ → ℕ → TuVote → Bool
has_vote uid i v = v.user_id == uid && v.vote_id == i

-- `setattr(voteinfo, decision, getattr(voteinfo, decision) + 1)`, or None for another decision.
unfoldable pub increment : String → VoteInfo → Option VoteInfo
increment decision v =
    if str_eq decision "Yes"
    then some (record v { yes = v.yes + 1 })
    else if str_eq decision "No"
    then some (record v { no = v.no + 1 })
    else if str_eq decision "Abstain"
    then some (record v { abstain = v.abstain + 1 })
    else none

pub data PostOutcome : Type 0 where
  redirect_tu : PostOutcome
  not_found : PostOutcome
  -- the errors of the page, with status 401 or 400
  only_trusted_users : PostOutcome
  about_you : PostOutcome
  already_voted : PostOutcome
  invalid_decision : PostOutcome
  voted : PostOutcome

-- The vote is stored, and ActiveTUs is incremented.
unfoldable pub store_vote : User → VoteInfo → VoteInfo → VoteDb → VoteDb
store_vote u found counted db = record {
  infos =
      update_where (is_info found.id) (λ v. record counted { active_tus = counted.active_tus + 1 })
        db.infos;
  votes = db.votes ++ record { vote_id = found.id; user_id = u.id } ∷ [];
}

unfoldable pub cast_vote : User → String → VoteInfo → VoteDb → PostOutcome × VoteDb
cast_vote u decision v db = elim (increment decision v) [
  | none ↦ (invalid_decision, db)
  | some counted ↦ (voted, store_vote u v counted db)
]

unfoldable pub post_vote : User → String → VoteInfo → VoteDb → PostOutcome × VoteDb
unfolding has_credential
post_vote u decision v db =
    if not (has_credential u Credential.tu_vote [])
    then (only_trusted_users, db)
    else if str_eq v.user u.username
    then (about_you, db)
    else if any (has_vote u.id v.id) db.votes
    then (already_voted, db)
    else cast_vote u decision v db

unfoldable pub trusted_user_proposal_post : User → ℕ → String → VoteDb → PostOutcome × VoteDb
unfolding has_credential
trusted_user_proposal_post u proposal decision db =
    if not (has_credential u Credential.tu_list_votes [])
    then (redirect_tu, db)
    else elim (find? (is_info proposal) db.infos) [
      | none ↦ (not_found, db)
      | some v ↦ post_vote u decision v db
    ]

-- ADDVOTE_SPECIFICS: the duration and the quorum.
unfoldable pub addvote_specifics : String → Option (ℕ × ℕ)
addvote_specifics type =
    if str_eq type "add_tu"
    then some (7 * 24 * 60 * 60, 66)
    else if str_eq type "remove_tu"
    then some (7 * 24 * 60 * 60, 75)
    else if str_eq type "remove_inactive_tu"
    then some (5 * 24 * 60 * 60, 66)
    else if str_eq type "bylaws"
    then some (7 * 24 * 60 * 60, 75)
    else none

-- A trusted user by type who is not suspended; InactivityTS is never NULL.
abbrev pub is_active_tu : User → Bool
is_active_tu u =
    not u.suspended && elem u.account_type_id (trusted_user_id ∷ trusted_user_and_dev_id ∷ [])

pub data ProposalOutcome : Type 0 where
  redirect_to_tu no_such_user has_proposal invalid_type empty_agenda : ProposalOutcome
  created : ℕ → ProposalOutcome

-- The call: the clock, the next ID of the table, and html.escape.
pub record AddCall : Type 0 where
  pub now : ℕ
  pub next_id : ℕ
  pub escape : String → String

unfoldable pub new_proposal : AddCall → List User → User → String → String → ℕ × ℕ → VoteInfo
new_proposal call users submitter user agenda (duration, quorum) = record {
  id = call.next_id;
  agenda = call.escape agenda;
  user = user;
  submitted = call.now;
  end_ts = call.now + duration;
  quorum = quorum;
  submitter_id = submitter.id;
  yes = 0;
  no = 0;
  abstain = 0;
  active_tus = count_where is_active_tu users;
}

-- The guards on the user that a proposal is about.
unfoldable pub check_subject : List User → String → String → VoteDb → Option ProposalOutcome
check_subject users user type db =
    if str_eq type "bylaws"
    then none
    else if not (any (λ (u : User). str_eq u.username user) users)
    then some no_such_user
    else if any (λ (v : VoteInfo). str_eq v.user user) db.infos
    then some has_proposal
    else none

unfoldable pub create_proposal :
    AddCall → List User → User → String → String → String → VoteDb → ProposalOutcome × VoteDb
create_proposal call users submitter user type agenda db = elim (addvote_specifics type) [
  | none ↦ (invalid_type, db)
  | some specifics ↦ if str_eq agenda "" then (empty_agenda, db) else (
    created call.next_id,
    record db { infos = db.infos ++ new_proposal call users submitter user agenda specifics ∷ [] },
  )
]

unfoldable pub trusted_user_addvote_post :
    AddCall → List User → User → String → String → String → VoteDb → ProposalOutcome × VoteDb
unfolding has_credential
trusted_user_addvote_post call users submitter user type agenda db =
    if not (has_credential submitter Credential.tu_add_vote [])
    then (redirect_to_tu, db)
    else elim (check_subject users user type db) [
      | some e ↦ (e, db)
      | none ↦ create_proposal call users submitter user type agenda db
    ]
