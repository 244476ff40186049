-- ===== src/TrustedUser/Tally.antt =====
-- What the votes on a proposal add up to, over any sequence of posts.
use native.Mathlib.Nat.{mul-le-mul_right}
use mprweb.Prelude.{
  ℕ, ◌+◌, ◌*◌, ◌≤◌, ◌≡◌, ◌⊎◌, inl, inr, String, false, not, ◌&&◌, some, List, [], ◌∷◌, ◌++◌, any,
  find?, update_where, count_where, All, All-find?, ◌==◌, ==_self, str_eq, arith, Bool-cases,
  Option-cases, if◌then◌else◌,
}
use mprweb.Models.{User}
use mprweb.Auth.Creds.{Credential, has_credential}
use mprweb.TrustedUser.{
  VoteInfo, TuVote, VoteDb, is_info, has_vote, total_votes, accepted, increment, store_vote,
  cast_vote, post_vote, trusted_user_proposal_post,
}

abbrev pub votes_on : ℕ → List TuVote → ℕ
votes_on i = count_where (λ (v : TuVote). v.vote_id == i)

-- The proposal was created when `active` trusted users were active: its tallies are the votes in the
-- table, and each vote has added one to its number of active trusted users.
abbrev pub IsTallied : ℕ → List TuVote → VoteInfo → Type 0
IsTallied active votes v =
    (total_votes v ≡ votes_on v.id votes) × (v.active_tus ≡ active + total_votes v)

increment-total :
    (d : String) (v w : VoteInfo)
    → increment d v ≡ some w
    → (w.id ≡ v.id) × (total_votes w ≡ total_votes v + 1) × (w.active_tus ≡ v.active_tus)
unfolding increment
increment-total d v w h = (ground arith, ground arith, ground arith)

votes_on-append :
    (i j uid : ℕ) (votes : List TuVote)
    → votes_on i (votes ++ record { vote_id = j; user_id = uid } ∷ [])
      ≡ votes_on i votes + (if j == i then 1 else 0)
votes_on-append i j uid [] = ground arith
votes_on-append i j uid (v ∷ vs) = ground (arith, votes_on-append i j uid vs)

-- A post either leaves the tables as they are, or stores a vote on the proposal.
post_vote-stores :
    (u : User) (d : String) (v : VoteInfo) (db : VoteDb)
    → ((post_vote u d v db).1 ≡ db)
      ⊎ ((w : VoteInfo) × (increment d v ≡ some w) × ((post_vote u d v db).1 ≡ store_vote u v w db))
unfolding post_vote cast_vote
post_vote-stores u d v db = elim (Option-cases (increment d v)) [
  | inl e ↦ inl (ground arith)
  | inr (w, e) ↦
      elim (Bool-cases (
        has_credential u Credential.tu_vote []
        && not (str_eq v.user u.username)
        && not (any (has_vote u.id v.id) db.votes))) [
          | inl granted ↦ inr (w, e, ground arith)
          | inr shut ↦ inl (ground arith)
        ]
]

post-stores :
    (u : User) (p : ℕ) (d : String) (db : VoteDb)
    → ((trusted_user_proposal_post u p d db).1 ≡ db)
      ⊎ ((v w : VoteInfo) × (find? (is_info p) db.infos ≡ some v)
          × (increment d v ≡ some w)
          × ((trusted_user_proposal_post u p d db).1 ≡ store_vote u v w db))
unfolding trusted_user_proposal_post
post-stores u p d db = elim (Option-cases (find? (is_info p) db.infos)) [
  | inl e ↦ inl (ground arith)
  | inr (v, e) ↦ elim (Bool-cases (has_credential u Credential.tu_list_votes [])) [
    | inr shut ↦ inl (ground arith)
    | inl granted ↦ elim (post_vote-stores u d v db) [
      | inl same ↦ inl (ground arith)
      | inr (w, f, g) ↦ inr (v, w, e, f, ground arith)
    ]
  ]
]

module _ (active : ℕ → ℕ) where
  abbrev pub AllTallied : VoteDb → Type 0
  AllTallied db = All (λ (v : VoteInfo). IsTallied (active v.id) db.votes v) db.infos

  row_stays :
      (j uid : ℕ) (votes : List TuVote) (v : VoteInfo)
      → (v.id == j) ≡ false
      → IsTallied (active v.id) votes v
      → IsTallied (active v.id) (votes ++ record { vote_id = j; user_id = uid } ∷ []) v
  row_stays j uid votes v other (t, a) = (ground (arith, votes_on-append v.id j uid votes), a)

  row_counts :
      (d : String) (uid : ℕ) (votes : List TuVote) (v w : VoteInfo)
      → increment d v ≡ some w
      → IsTallied (active v.id) votes v
      → IsTallied
          (active w.id)
          (votes ++ record { vote_id = v.id; user_id = uid } ∷ [])
          (record w { active_tus = w.active_tus + 1 })
  row_counts d uid votes v w e (t, a) =
      let (same, total, act) = increment-total d v w e in
      (
        rw same (ground (arith, votes_on-append v.id v.id uid votes, ==_self v.id)),
        rw same (omega (arith, a, total, act)),
      )

  rows-IsTallied :
      (d : String) (uid : ℕ) (votes : List TuVote) (v w : VoteInfo) (infos : List VoteInfo)
      → increment d v ≡ some w
      → IsTallied (active v.id) votes v
      → All (λ (c : VoteInfo). IsTallied (active c.id) votes c) infos
      → All
          (λ (c : VoteInfo).
            IsTallied (active c.id) (votes ++ record { vote_id = v.id; user_id = uid } ∷ []) c)
          (update_where (is_info v.id) (λ c. record w { active_tus = w.active_tus + 1 }) infos)
  rows-IsTallied d uid votes v w [] e t h = tt
  rows-IsTallied d uid votes v w (c ∷ cs) e t h =
      let rest = rows-IsTallied d uid votes v w cs e t h.1 in
      elim (Bool-cases (c.id == v.id)) [
        | inl here ↦ rw here (row_counts d uid votes v w e t, rest)
        | inr other ↦ rw other (row_stays v.id uid votes c other h.0, rest)
      ]

  post-AllTallied :
      (u : User) (p : ℕ) (d : String) (db : VoteDb)
      → AllTallied db
      → AllTallied (trusted_user_proposal_post u p d db).1
  unfolding store_vote
  post-AllTallied u p d db h = elim (post-stores u p d db) [
    | inl same ↦ rw same h
    | inr (v, w, f, e, same) ↦ rw same (
        rows-IsTallied d u.id db.votes v w db.infos e
          (All-find? (λ (c : VoteInfo). IsTallied (active c.id) db.votes c) (is_info p) db.infos h
            f)
          h)
  ]

-- A request to vote.
abbrev pub Post : Type 0
Post = User × ℕ × String

abbrev pub posted : List Post → VoteDb → VoteDb
posted [] db = db
posted ((u, p, d) ∷ rest) db = posted rest (trusted_user_proposal_post u p d db).1

-- Whatever votes are posted, by whomever, if it is so before, the tallies of each proposal add up to the votes on it that
-- are stored, and its number of active trusted users is the number at its creation and these votes.
pub posted-AllTallied :
    (active : ℕ → ℕ) (posts : List Post) (db : VoteDb)
    → AllTallied active db
    → AllTallied active (posted posts db)
posted-AllTallied active [] db h = h
posted-AllTallied active ((u, p, d) ∷ rest) db h =
    posted-AllTallied active rest (trusted_user_proposal_post u p d db).1
      (post-AllTallied active u p d db h)

accepted-outvoted :
    (v : VoteInfo) (a : ℕ)
    → v.active_tus ≡ a + total_votes v
    → total_votes v ≤ a
    → 50 ≤ v.quorum
    → accepted v ≡ false
unfolding accepted
accepted-outvoted v a active few quorum =
    let scaled : 50 * v.active_tus ≤ v.quorum * v.active_tus =
      mul-le-mul_right v.active_tus quorum in
    ground arith

-- A proposal is never accepted while no more votes have been cast on it than there were active
-- trusted users at its creation, even if all of them vote for it: each vote also raises the number
-- that the majority and the participation are measured by. The quorum is at least one half, as it is
-- for every type of proposal, and the tables are tallied to begin with.
pub never_accepted :
    (active : ℕ → ℕ) (posts : List Post) (db : VoteDb) (i : ℕ) {v : VoteInfo}
    → AllTallied active db
    → find? (is_info i) (posted posts db).infos ≡ some v
    → votes_on v.id (posted posts db).votes ≤ active v.id
    → 50 ≤ v.quorum
    → accepted v ≡ false
never_accepted active posts db i {v} h f few quorum =
    let after = posted posts db in
    let (total, act) =
      All-find? (λ (c : VoteInfo). IsTallied (active c.id) after.votes c) (is_info i) after.infos
        (posted-AllTallied active posts db h) f in
    accepted-outvoted v (active v.id) act (rw total few) quorum
