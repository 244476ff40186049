-- ===== src/Pkgbase/Merging/Followers.antt =====
-- Nobody is lost in a merge, and nobody is counted twice.
use mprweb.Prelude.{
  ℕ, ◌≡◌, ◌≢◌, refl, ap, ◌∙◌, Bool, true, false, not, ◌&&◌, ◌||◌, List, [], ◌∷◌, update_where, any,
  elem, ◌==◌, ==_iff, arith, Bool-cases, inl, inr, if◌then◌else◌,
}
use mprweb.Pkgbase.Merging.{Following, followers, move_rows, drop_rows}

-- Whether a user follows base `c` after `from` is merged into `to`: `old` and `moved` say whether
-- the user followed `c` and `from` before, and `known` whether the user followed `to`.
abbrev pub merged : ℕ → ℕ → ℕ → Bool → Bool → Bool → Bool
merged c from to known old moved = not (c == from) && (old || (c == to && not known && moved))

-- Which rows of a merged table tie user `uid` to base `c`, for a row that stays, one that is
-- dropped, and one that moves.
row_stays :
    (uid c from to : ℕ) (users : List ℕ) (b u : ℕ) (rest old moved : Bool)
    → (b == from) ≡ false
    → rest ≡ merged c from to (elem uid users) old moved
    → ((u == uid && b == c) || rest)
      ≡ merged c from to
          (elem uid users)
          ((u == uid && b == c) || old)
          ((u == uid && b == from) || moved)
row_stays uid c from to users b u rest old moved stays ih = ground arith

row_drops :
    (uid c from to : ℕ) (users : List ℕ) (b u : ℕ) (rest old moved : Bool)
    → (b == from) ≡ true
    → elem u users ≡ true
    → rest ≡ merged c from to (elem uid users) old moved
    → rest
      ≡ merged c from to
          (elem uid users)
          ((u == uid && b == c) || old)
          ((u == uid && b == from) || moved)
row_drops uid c from to users b u rest old moved here known ih = elim (Bool-cases (u == uid)) [
  | inl same ↦
      let uid_known : elem uid users ≡ true = rw (← (==_iff u uid).0 same) known in ground arith
  | inr other ↦ ground arith
]

row_moves :
    (uid c from to : ℕ) (users : List ℕ) (b u : ℕ) (rest old moved : Bool)
    → from ≢ to
    → (b == from) ≡ true
    → elem u users ≡ false
    → rest ≡ merged c from to (elem uid users) old moved
    → ((u == uid && to == c) || rest)
      ≡ merged c from to
          (elem uid users)
          ((u == uid && b == c) || old)
          ((u == uid && b == from) || moved)
row_moves uid c from to users b u rest old moved ne here unknown ih = elim (Bool-cases (u == uid)) [
  | inl same ↦
      let uid_unknown : elem uid users ≡ false = rw (← (==_iff u uid).0 same) unknown in
      ground arith
  | inr other ↦ ground arith
]

module _ {R : Type 0} ⦃f : Following R⦄ where
  -- `uid` follows base `b`.
  abbrev pub follows : ℕ → ℕ → List R → Bool
  follows uid b = any (λ r. f.user r == uid && f.base r == b)

  pub elem-followers :
      (uid b : ℕ) (rows : List R) → elem uid (followers b rows) ≡ follows uid b rows
  unfolding followers
  elem-followers uid b [] = refl
  elem-followers uid b (r ∷ rs) = ground (arith, elem-followers uid b rs)

  abbrev pub merge_rows : ℕ → ℕ → List ℕ → List R → List R
  merge_rows from to users rows =
      drop_rows from
        (update_where (λ r. f.base r == from && not (elem (f.user r) users)) (f.rebase to) rows)

  module _ (from to : ℕ) (users : List ℕ) (r : R) (rs : List R) where
    pub merge_stays :
        (f.base r == from) ≡ false
        → merge_rows from to users (r ∷ rs) ≡ r ∷ merge_rows from to users rs
    unfolding drop_rows
    merge_stays stays = rw (stays, stays) refl

    pub merge_drops :
        (f.base r == from) ≡ true
        → elem (f.user r) users ≡ true
        → merge_rows from to users (r ∷ rs) ≡ merge_rows from to users rs
    unfolding drop_rows
    merge_drops here known = rw (here, known) (rw here refl)

    pub merge_moves :
        from ≢ to
        → (f.base r == from) ≡ true
        → elem (f.user r) users ≡ false
        → merge_rows from to users (r ∷ rs) ≡ f.rebase to r ∷ merge_rows from to users rs
    unfolding drop_rows
    merge_moves ne here unknown =
        let gone : (to == from) ≡ false = ground arith in
        rw (here, unknown) (rw (f.base-rebase to r) (rw gone refl))

  pub follows-merge_rows :
      (uid c from to : ℕ) (users : List ℕ) (rows : List R)
      → from ≢ to
      → follows uid c (merge_rows from to users rows)
        ≡ merged c from to (elem uid users) (follows uid c rows) (follows uid from rows)
  unfolding drop_rows
  follows-merge_rows uid c from to users [] ne = ground arith
  follows-merge_rows uid c from to users (r ∷ rs) ne =
      let ih = follows-merge_rows uid c from to users rs ne in
      elim (Bool-cases (f.base r == from)) [
        | inr stays ↦
            ap (follows uid c) (merge_stays from to users r rs stays)
            ∙ row_stays uid c from to users (f.base r) (f.user r) _ _ _ stays ih
        | inl here ↦ elim (Bool-cases (elem (f.user r) users)) [
          | inl known ↦
              ap (follows uid c) (merge_drops from to users r rs here known)
              ∙ row_drops uid c from to users (f.base r) (f.user r) _ _ _ here known ih
          | inr unknown ↦
              ap (follows uid c) (merge_moves from to users r rs ne here unknown)
              ∙ rw (f.user-rebase to r, f.base-rebase to r)
                  (row_moves uid c from to users (f.base r) (f.user r) _ _ _ ne here unknown ih)
        ]
      ]

  -- After base `from` is merged into another base `to` and deleted, a user follows `to` exactly if they followed
  -- one of the two before, nobody follows `from`, and every other base has the followers it had.
  pub follows-move :
      (uid c from to : ℕ) (rows : List R)
      → from ≢ to
      → follows uid c (drop_rows from (move_rows from to rows)) ≡ (
          if c == from
          then false
          else if c == to
          then follows uid to rows || follows uid from rows
          else follows uid c rows)
  unfolding move_rows
  follows-move uid c from to rows ne =
      follows-merge_rows uid c from to (followers to rows) rows ne
      ∙ ground (arith, elem-followers uid to rows)
