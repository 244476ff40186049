-- ===== src/Pkgbase/Merging/Uniqueness.antt =====
-- A merge keeps the key of a table of followers, so that no vote is counted twice.
use mprweb.Prelude.{
  ℕ, ◌≡◌, ◌≢◌, refl, ◌∙◌, true, false, List, [], ◌∷◌, elem, All, ◌==◌, ==_iff, ==_self, arith, Bool,
  Bool-cases, inl, inr, filter, any-filter-false, any-append, ◌++◌, ◌&&◌,
}
use mprweb.Pkgbase.Merging.{Following, followers, move_rows, drop_rows}
use mprweb.Pkgbase.Merging.Followers.{
  follows, merge_rows, merge_stays, merge_drops, merge_moves, follows-merge_rows, elem-followers,
}

module _ {R : Type 0} ⦃f : Following R⦄ where
  -- No user has two rows for one base.
  abbrev pub HasUniqueFollowers : List R → Type 0
  HasUniqueFollowers [] = Unit {0}
  HasUniqueFollowers (r ∷ rs) = (follows (f.user r) (f.base r) rs ≡ false) × HasUniqueFollowers rs

  -- The list holds the users of the rows of base `to`.
  abbrev Covers : ℕ → List ℕ → R → Type 0
  Covers to users r = (f.base r == to) ≡ true → elem (f.user r) users ≡ true

  uncovered :
      (to uid : ℕ) (users : List ℕ) (rows : List R)
      → All (Covers to users) rows
      → elem uid users ≡ false
      → follows uid to rows ≡ false
  uncovered to uid users [] h e = refl
  uncovered to uid users (r ∷ rs) h e =
      let rest = uncovered to uid users rs h.1 e in
      elim (Bool-cases (f.user r == uid)) [
        | inl same ↦
            let unknown : elem (f.user r) users ≡ false = rw ((==_iff (f.user r) uid).0 same) e in
            ground (arith, h.0)
        | inr other ↦ ground arith
      ]

  HasUniqueFollowers-merge_rows :
      (from to : ℕ) (users : List ℕ) (rows : List R)
      → from ≢ to
      → All (Covers to users) rows
      → HasUniqueFollowers rows
      → HasUniqueFollowers (merge_rows from to users rows)
  unfolding drop_rows
  HasUniqueFollowers-merge_rows from to users [] ne h k = tt
  HasUniqueFollowers-merge_rows from to users (r ∷ rs) ne h k =
      let ih = HasUniqueFollowers-merge_rows from to users rs ne h.1 k.1 in
      elim (Bool-cases (f.base r == from)) [
        | inr stays ↦ rw (merge_stays from to users r rs stays) (
          follows-merge_rows (f.user r) (f.base r) from to users rs ne ∙ ground (arith, h.0, k.0),
          ih,
        )
        | inl here ↦ elim (Bool-cases (elem (f.user r) users)) [
          | inl known ↦ rw (merge_drops from to users r rs here known) ih
          | inr unknown ↦ rw (merge_moves from to users r rs ne here unknown) (
            rw (f.user-rebase to r, f.base-rebase to r)
                (follows-merge_rows (f.user r) to from to users rs ne
                  ∙ (let alone : follows (f.user r) from rs ≡ false =
                        rw ((==_iff (f.base r) from).0 here) at k.0 in
                      ground (arith, uncovered to (f.user r) users rs h.1 unknown))),
            ih,
          )
        ]
      ]

  followers-Covers :
      (to : ℕ) (extra : List ℕ) (rows : List R)
      → ((uid : ℕ) → follows uid to rows ≡ true → elem uid extra ≡ true)
      → All (Covers to extra) rows
  followers-Covers to extra [] h = tt
  followers-Covers to extra (r ∷ rs) h = (
    λ e. h (f.user r) (ground (arith, ==_self (f.user r))),
    followers-Covers to extra rs (λ uid e. h uid (ground arith)),
  )

  -- A table in which nobody follows a base twice still is one after base `from` has been merged
  -- into `to` and deleted.
  pub HasUniqueFollowers-move :
      (from to : ℕ) (rows : List R)
      → from ≢ to
      → HasUniqueFollowers rows
      → HasUniqueFollowers (drop_rows from (move_rows from to rows))
  unfolding move_rows
  HasUniqueFollowers-move from to rows ne k =
      HasUniqueFollowers-merge_rows from to (followers to rows) rows ne
        (followers-Covers to (followers to rows) rows (λ uid e. elem-followers uid to rows ∙ e)) k

  -- The key survives the loss of rows, and a new row for someone who does not follow the base.
  pub HasUniqueFollowers-filter :
      (p : R → Bool) (rows : List R) → HasUniqueFollowers rows → HasUniqueFollowers (filter p rows)
  HasUniqueFollowers-filter p [] k = tt
  HasUniqueFollowers-filter p (r ∷ rs) k = elim (Bool-cases (p r)) [
    | inl e ↦ rw e (
      any-filter-false (λ (q : R). f.user q == f.user r && f.base q == f.base r) p rs k.0,
      HasUniqueFollowers-filter p rs k.1,
    )
    | inr e ↦ rw e (HasUniqueFollowers-filter p rs k.1)
  ]

  pub HasUniqueFollowers-snoc :
      (r : R) (rows : List R)
      → follows (f.user r) (f.base r) rows ≡ false
      → HasUniqueFollowers rows
      → HasUniqueFollowers (rows ++ r ∷ [])
  HasUniqueFollowers-snoc r [] new k = (refl, tt)
  HasUniqueFollowers-snoc r (q ∷ qs) new k = (
    any-append (λ (x : R). f.user x == f.user q && f.base x == f.base q) qs (r ∷ [])
        ∙ ground (arith, k.0),
    HasUniqueFollowers-snoc r qs (ground arith) k.1,
  )
