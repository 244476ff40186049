-- ===== src/TrustedUser/Posting.antt =====
-- Which votes are counted.
use mprweb.Prelude.{
  ◌+◌, ◌∷◌, ◌++◌, update_where, Bool-cases, ◌⊎◌, refl, ap, ℕ, ◌≡◌, ◌≢◌, ◌↔◌, inl, inr, String, Bool,
  true, false, ◌||◌, some, [], any, find?, str_eq, eq_iff, arith, Option-cases,
}
use mprweb.Models.{User, is_trusted_user, is_elevated}
use mprweb.Auth.Creds.{Credential, has_credential}
use mprweb.Auth.Creds.Roles.{has_credential-role_grants}
use mprweb.TrustedUser.{
  VoteInfo, VoteDb, is_info, has_vote, increment, voted, store_vote, cast_vote, post_vote,
  trusted_user_proposal_post,
}

abbrev pub is_decision : String → Bool
is_decision d = str_eq d "Yes" || str_eq d "No" || str_eq d "Abstain"

increment_iff :
    (d : String) (v : VoteInfo)
    → (is_decision d ≡ true) ↔ ((w : VoteInfo) × (increment d v ≡ some w))
unfolding increment
increment_iff d v = (
  (λ h. elim (Option-cases (increment d v)) [
    | inl e ↦ absurd (ground arith)
    | inr (w, e) ↦ (w, e)
  ]),
  λ (w, e). ground arith,
)

trusted_votes : (u : User) → has_credential u Credential.tu_vote [] ≡ is_trusted_user u
trusted_votes u = has_credential-role_grants u Credential.tu_vote

elevated_lists : (u : User) → has_credential u Credential.tu_list_votes [] ≡ is_elevated u
elevated_lists u = has_credential-role_grants u Credential.tu_list_votes

trusted_is_elevated : (u : User) → is_trusted_user u ≡ true → is_elevated u ≡ true
unfolding is_trusted_user is_elevated
trusted_is_elevated u h = ground arith

abbrev pub one_more_if : Bool → ℕ → ℕ
one_more_if true n = n + 1
one_more_if false n = n

-- A proposal after one more vote: the tally of the decision is one higher, and so is the number of
-- active trusted users; the other columns are as they were.
abbrev pub with_vote : String → VoteInfo → VoteInfo
with_vote decision v = record v {
  yes = one_more_if (str_eq decision "Yes") v.yes;
  no = one_more_if (str_eq decision "No") v.no;
  abstain = one_more_if (str_eq decision "Abstain") v.abstain;
  active_tus = v.active_tus + 1;
}

-- The tables after a vote of the user on the proposal.
abbrev pub after_vote : User → String → VoteInfo → VoteDb → VoteDb
after_vote u decision v db = record {
  infos = update_where (is_info v.id) (λ w. with_vote decision v) db.infos;
  votes = db.votes ++ record { vote_id = v.id; user_id = u.id } ∷ [];
}

counted_yes :
    (v w : VoteInfo)
    → increment "Yes" v ≡ some w
    → record w { active_tus = w.active_tus + 1 } ≡ with_vote "Yes" v
unfolding increment
counted_yes v w h = let e : record v { yes = v.yes + 1 } ≡ w = cc in rw (← e) refl

counted_no :
    (v w : VoteInfo)
    → increment "No" v ≡ some w
    → record w { active_tus = w.active_tus + 1 } ≡ with_vote "No" v
unfolding increment
counted_no v w h = let e : record v { no = v.no + 1 } ≡ w = cc in rw (← e) refl

counted_abstain :
    (v w : VoteInfo)
    → increment "Abstain" v ≡ some w
    → record w { active_tus = w.active_tus + 1 } ≡ with_vote "Abstain" v
unfolding increment
counted_abstain v w h = let e : record v { abstain = v.abstain + 1 } ≡ w = cc in rw (← e) refl

is_decision-cases : (d : String) → is_decision d ≡ true → (d ≡ "Yes") ⊎ (d ≡ "No") ⊎ (d ≡ "Abstain")
is_decision-cases d h = elim (Bool-cases (str_eq d "Yes")) [
  | inl e ↦ inl ((eq_iff d "Yes").0 e)
  | inr f ↦ elim (Bool-cases (str_eq d "No")) [
    | inl e ↦ inr (inl ((eq_iff d "No").0 e))
    | inr g ↦ inr (inr ((eq_iff d "Abstain").0 (ground arith)))
  ]
]

increment-with_vote :
    (d : String) (v w : VoteInfo)
    → increment d v ≡ some w
    → record w { active_tus = w.active_tus + 1 } ≡ with_vote d v
increment-with_vote d v w h = elim (is_decision-cases d ((increment_iff d v).1 (w, h))) [
  | inl e ↦ rw e (counted_yes v w (rw e at h))
  | inr (inl e) ↦ rw e (counted_no v w (rw e at h))
  | inr (inr e) ↦ rw e (counted_abstain v w (rw e at h))
]

-- What lets a vote count, apart from the proposal being there.
abbrev pub MayVote : User → String → VoteInfo → VoteDb → Type 0
MayVote u decision v db =
    (is_trusted_user u ≡ true)
    × (v.user ≢ u.username)
    × (any (has_vote u.id v.id) db.votes ≡ false)
    × (is_decision decision ≡ true)

post_vote-counts :
    (u : User) (d : String) (v : VoteInfo) (db : VoteDb)
    → MayVote u d v db
    → post_vote u d v db ≡ (voted, after_vote u d v db)
unfolding post_vote cast_vote store_vote
post_vote-counts u d v db (t, ne, new, dec) =
    let (w, e) = (increment_iff d v).0 dec in
    let same = increment-with_vote d v w e in
    ground (arith, trusted_votes u, eq_iff v.user u.username)

-- A vote that does not count leaves the tables.
post_vote-refuses :
    (u : User) (d : String) (v : VoteInfo) (db : VoteDb)
    → (post_vote u d v db).0 ≢ voted
    → (post_vote u d v db).1 ≡ db
unfolding post_vote cast_vote
post_vote-refuses u d v db h = elim (Option-cases (increment d v)) [
  | inl e ↦ ground arith
  | inr (w, e) ↦ ground arith
]

post_vote_iff :
    (u : User) (d : String) (v : VoteInfo) (db : VoteDb)
    → ((post_vote u d v db).0 ≡ voted) ↔ MayVote u d v db
unfolding post_vote cast_vote
post_vote_iff u d v db = (
  (λ h. (
    ground (arith, trusted_votes u),
    ground (arith, eq_iff v.user u.username),
    ground arith,
    elim (Option-cases (increment d v)) [
      | inl e ↦ absurd (ground arith)
      | inr (w, e) ↦ (increment_iff d v).1 (w, e)
    ],
  )),
  λ (t, ne, new, dec).
      let (w, e) = (increment_iff d v).0 dec in
      ground (arith, trusted_votes u, eq_iff v.user u.username),
)

-- A vote is counted exactly when a trusted user casts it, on a proposal that exists and is not about
-- them, on which they have not voted, with one of the three decisions. Then it is stored among the
-- votes, and in the proposal the tally of the decision and the number of active trusted users are one
-- higher. Any other post leaves the tables. Whether the proposal has ended plays no part.
pub post_counts_iff :
    (u : User) (proposal : ℕ) (decision : String) (db : VoteDb)
    → (((trusted_user_proposal_post u proposal decision db).0 ≡ voted)
        ↔ ((v : VoteInfo) × (find? (is_info proposal) db.infos ≡ some v) × MayVote u decision v db))
      × ((v : VoteInfo)
          → find? (is_info proposal) db.infos ≡ some v
          → (trusted_user_proposal_post u proposal decision db).0 ≡ voted
          → (trusted_user_proposal_post u proposal decision db).1 ≡ after_vote u decision v db)
      × ((trusted_user_proposal_post u proposal decision db).0 ≢ voted
          → (trusted_user_proposal_post u proposal decision db).1 ≡ db)
unfolding trusted_user_proposal_post
post_counts_iff u proposal decision db = elim (Option-cases (find? (is_info proposal) db.infos)) [
  | inl e ↦ (
    ((λ h. absurd (ground arith)), λ (v, f, _). absurd (cc (e, f))),
    (λ v f h. absurd (cc (e, f))),
    λ h. ground arith,
  )
  | inr (v, e) ↦
      let cast = post_vote_iff u decision v db in
      (
        (
          (λ h. (v, e, cast.0 (ground arith))),
          λ (w, f, may).
              let counted = post_vote-counts u decision w db may in
              ground (arith, elevated_lists u, trusted_is_elevated u may.0),
        ),
        (λ w f h.
            let same : v ≡ w = cc (e, f) in
            let counted = post_vote-counts u decision v db (cast.0 (ground arith)) in
            rw (← same) (ground (arith, ap (λ r. r.1) counted))),
        λ h. ground (arith, post_vote-refuses u decision v db),
      )
]
