-- ===== src/TrustedUser/Proposing.antt =====
-- Which proposals are created, and how they begin.
use mprweb.Prelude.{
  ◌+◌, ◌++◌, ℕ, ◌≡◌, ◌≢◌, ◌⊎◌, ◌↔◌, inl, inr, sym, String, true, false, none, some, List, [], ◌∷◌,
  any, count_where, All-append, str_eq, eq_iff, arith, Bool-cases, Option-cases,
}
use mprweb.Models.{User, is_trusted_user}
use mprweb.Auth.Creds.{Credential, has_credential}
use mprweb.Auth.Creds.Roles.{has_credential-role_grants}
use mprweb.TrustedUser.{
  VoteInfo, VoteDb, AddCall, ProposalOutcome, created, addvote_specifics, is_active_tu,
  new_proposal, check_subject, create_proposal, trusted_user_addvote_post,
}
use mprweb.TrustedUser.Tally.{votes_on, IsTallied, AllTallied}

proposers : (u : User) → has_credential u Credential.tu_add_vote [] ≡ is_trusted_user u
proposers u = has_credential-role_grants u Credential.tu_add_vote

-- The proposal may be about that user: it changes the bylaws, or the user exists and no proposal was
-- ever made about them.
abbrev pub IsFreshSubject : List User → String → String → VoteDb → Type 0
IsFreshSubject users user type db =
    (type ≡ "bylaws")
    ⊎ ((any (λ (u : User). str_eq u.username user) users ≡ true)
        × (any (λ (v : VoteInfo). str_eq v.user user) db.infos ≡ false))

check_subject_iff :
    (users : List User) (user type : String) (db : VoteDb)
    → (check_subject users user type db ≡ none) ↔ IsFreshSubject users user type db
unfolding check_subject
check_subject_iff users user type db = elim (Bool-cases (str_eq type "bylaws")) [
  | inl e ↦ (λ h. inl ((eq_iff type "bylaws").0 e), λ h. ground arith)
  | inr e ↦ (
    (λ h. inr (ground arith, ground arith)),
    λ h. elim h [
      | inl same ↦ absurd (ground (arith, eq_iff type "bylaws"))
      | inr (known, fresh) ↦ ground arith
    ],
  )
]

check_subject-error :
    (users : List User) (user type : String) (db : VoteDb) (n : ℕ) {e : ProposalOutcome}
    → check_subject users user type db ≡ some e
    → e ≢ created n
unfolding check_subject
check_subject-error users user type db n {e} h q = ground arith

create_proposal_iff :
    (call : AddCall) (users : List User) (submitter : User) (user type agenda : String)
    (db : VoteDb)
    → ((create_proposal call users submitter user type agenda db).0 ≡ created call.next_id)
      ↔ ((addvote_specifics type ≢ none) × (agenda ≢ ""))
unfolding create_proposal
create_proposal_iff call users submitter user type agenda db =
    elim (Option-cases (addvote_specifics type)) [
      | inl e ↦ (λ h. absurd (ground arith), λ (s, a). absurd (s e))
      | inr (specifics, e) ↦ (
        (λ h. ((λ q. absurd (ground arith)), ground (arith, eq_iff agenda ""))),
        λ (s, a). ground (arith, eq_iff agenda ""),
      )
    ]

-- The tables with the proposal at their end: it has no votes yet, ends when its duration is over, and
-- counts the trusted users who are active.
abbrev pub with_proposal : AddCall → List User → User → String → String → ℕ → ℕ → VoteDb → VoteDb
with_proposal call users submitter user agenda duration quorum db = record db {
  infos =
      db.infos
      ++ record {
        id = call.next_id;
        agenda = call.escape agenda;
        user = user;
        submitted = call.now;
        end_ts = call.now + duration;
        quorum = quorum;
        submitter_id = submitter.id;
        yes = 0;
        no = 0;
        abstain = 0;
        active_tus = count_where is_active_tu users;
      }
        ∷ [];
}

-- What an outcome leaves: the proposal is in the tables, or they are as before.
abbrev pub LeavesProposal :
    AddCall
    → List User
    → User
    → String
    → String
    → String
    → VoteDb
    → ProposalOutcome × VoteDb
    → Type 0
LeavesProposal call users submitter user type agenda db (outcome, after) =
    (outcome ≡ created call.next_id
      → (duration : ℕ) × (quorum : ℕ) × (addvote_specifics type ≡ some (duration, quorum))
        × (after ≡ with_proposal call users submitter user agenda duration quorum db))
    × (outcome ≢ created call.next_id → after ≡ db)

create_proposal-LeavesProposal :
    (call : AddCall) (users : List User) (submitter : User) (user type agenda : String)
    (db : VoteDb)
    → LeavesProposal call users submitter user type agenda db
        (create_proposal call users submitter user type agenda db)
unfolding create_proposal new_proposal
create_proposal-LeavesProposal call users submitter user type agenda db =
    elim (Option-cases (addvote_specifics type)) [
      | inl e ↦ ((λ h. absurd (ground arith)), λ h. ground arith)
      | inr ((duration, quorum), e) ↦ elim (Bool-cases (str_eq agenda "")) [
        | inl empty ↦ ((λ h. absurd (ground arith)), λ h. ground arith)
        | inr filled ↦ ((λ h. (duration, quorum, e, ground arith)), λ h. absurd (ground arith))
      ]
    ]

-- Which proposals may be made.
abbrev pub MayPropose : List User → User → String → String → String → VoteDb → Type 0
MayPropose users submitter user type agenda db =
    (is_trusted_user submitter ≡ true)
    × IsFreshSubject users user type db
    × (addvote_specifics type ≢ none)
    × (agenda ≢ "")

created_iff :
    (call : AddCall) (users : List User) (submitter : User) (user type agenda : String)
    (db : VoteDb)
    → ((trusted_user_addvote_post call users submitter user type agenda db).0
        ≡ created call.next_id)
      ↔ MayPropose users submitter user type agenda db
unfolding trusted_user_addvote_post
created_iff call users submitter user type agenda db =
    let subject = check_subject_iff users user type db in
    let creation = create_proposal_iff call users submitter user type agenda db in
    elim (Option-cases (check_subject users user type db)) [
      | inl e ↦ (
        (λ h.
            let (s, a) = creation.0 (ground arith) in
            (ground (arith, proposers submitter), subject.0 e, s, a)),
        λ (t, f, s, a). let made = creation.1 (s, a) in ground (arith, proposers submitter),
      )
      | inr (err, e) ↦ (
        (λ h. absurd (check_subject-error users user type db call.next_id e (ground arith))),
        λ (t, f, s, a). absurd (let clear = subject.1 f in cc),
      )
    ]

-- A proposal is created exactly when a trusted user makes it, its type is one of the four, its agenda is
-- not empty, and it changes the bylaws or is about a user who exists and whom no proposal was ever about.
-- Then it is added to the table, with empty tallies and with the duration and the quorum of its type, and
-- nothing else changes; otherwise the tables stay as they are.
pub addvote_iff :
    (call : AddCall) (users : List User) (submitter : User) (user type agenda : String)
    (db : VoteDb)
    → (((trusted_user_addvote_post call users submitter user type agenda db).0
          ≡ created call.next_id)
        ↔ MayPropose users submitter user type agenda db)
      × LeavesProposal call users submitter user type agenda db
          (trusted_user_addvote_post call users submitter user type agenda db)
unfolding trusted_user_addvote_post
addvote_iff call users submitter user type agenda db =
    let made = create_proposal-LeavesProposal call users submitter user type agenda db in
    (
      created_iff call users submitter user type agenda db,
      elim (Bool-cases (has_credential submitter Credential.tu_add_vote [])) [
        | inr plain ↦ ((λ h. absurd (ground arith)), λ h. ground arith)
        | inl trusted ↦ elim (Option-cases (check_subject users user type db)) [
          | inl e ↦ rw (trusted, e) made
          | inr (err, e) ↦ (
            (λ h. absurd (check_subject-error users user type db call.next_id e (ground arith))),
            λ h. ground arith,
          )
        ]
      ],
    )

create_proposal-AllTallied :
    (active : ℕ → ℕ) (call : AddCall) (users : List User) (submitter : User)
    (user type agenda : String) (db : VoteDb)
    → AllTallied active db
    → votes_on call.next_id db.votes ≡ 0
    → active call.next_id ≡ count_where is_active_tu users
    → AllTallied active (create_proposal call users submitter user type agenda db).1
unfolding create_proposal new_proposal
create_proposal-AllTallied active call users submitter user type agenda db h fresh start =
    elim (Option-cases (addvote_specifics type)) [
      | inl e ↦ rw (e, create_proposal) h
      | inr (specifics, e) ↦ elim (Bool-cases (str_eq agenda "")) [
        | inl empty ↦ rw (e, create_proposal) (rw empty h)
        | inr agreed ↦
            rw (e, create_proposal)
              (rw agreed (
                All-append (λ (v : VoteInfo). IsTallied (active v.id) db.votes v) db.infos
                  (new_proposal call users submitter user agenda specifics ∷ []) h
                  ((sym fresh, omega (arith, start)), tt)))
      ]
    ]

-- A new proposal starts with empty tallies and with the number of trusted users who are active, so
-- that the tables are tallied again, whether or not one is created. No vote carries the next ID yet.
pub addvote-AllTallied :
    (active : ℕ → ℕ) (call : AddCall) (users : List User) (submitter : User)
    (user type agenda : String) (db : VoteDb)
    → AllTallied active db
    → votes_on call.next_id db.votes ≡ 0
    → active call.next_id ≡ count_where is_active_tu users
    → AllTallied active (trusted_user_addvote_post call users submitter user type agenda db).1
unfolding trusted_user_addvote_post
addvote-AllTallied active call users submitter user type agenda db h fresh start =
    let made =
      create_proposal-AllTallied active call users submitter user type agenda db h fresh start in
    elim (Bool-cases (has_credential submitter Credential.tu_add_vote [])) [
      | inr denied ↦ rw denied h
      | inl granted ↦ elim (Option-cases (check_subject users user type db)) [
        | inl e ↦ rw granted (rw e made)
        | inr (err, e) ↦ rw granted (rw e h)
      ]
    ]
