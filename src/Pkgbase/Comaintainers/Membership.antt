-- ===== src/Pkgbase/Comaintainers/Membership.antt =====
-- Who is a comaintainer after a removal or an addition, and in which place.
use mprweb.Prelude.{
  ℕ, ◌+◌, ◌≤◌, ◌<◌, ◌≡◌, ◌≢◌, refl, ◌∙◌, String, true, false, not, ◌&&◌, Option, some, none, List,
  [], ◌∷◌, ◌++◌, any, find?, All, All-weaken, leb, ◌==◌, str_eq, arith, Bool-cases, inl, inr,
}
use mprweb.Models.{User, PackageComaintainer}
use mprweb.Pkgbase.Comaintainers.{
  of_base, is_row, set_priority, renumber, insert_by_priority, order_by_priority, comaintainers_of,
  rotate_comaintainers, latest_priority, delete_row, remove_comaintainer, added, add_comaintainer,
  unknown_user, resolve_users, invalid_user_name, add_comaintainers,
}

any-set_priority :
    (uid b vid a p : ℕ) (rows : List PackageComaintainer)
    → any (is_row uid b) (set_priority vid a p rows) ≡ any (is_row uid b) rows
unfolding set_priority
any-set_priority uid b vid a p [] = refl
any-set_priority uid b vid a p (c ∷ cs) = ground (arith, any-set_priority uid b vid a p cs)

pub any-renumber :
    (uid b i : ℕ) (cs rows : List PackageComaintainer)
    → any (is_row uid b) (renumber i cs rows) ≡ any (is_row uid b) rows
unfolding renumber
any-renumber uid b i [] rows = refl
any-renumber uid b i (c ∷ cs) rows =
    any-renumber uid b (i + 1) cs (set_priority c.users_id c.package_base_id (i + 1) rows)
    ∙ any-set_priority uid b c.users_id c.package_base_id (i + 1) rows

any-delete_row :
    (uid b vid a : ℕ) (rows : List PackageComaintainer)
    → any (is_row uid b) (delete_row vid a rows)
      ≡ (any (is_row uid b) rows && not (uid == vid && b == a))
unfolding delete_row
any-delete_row uid b vid a [] = refl
any-delete_row uid b vid a (c ∷ cs) = ground (arith, any-delete_row uid b vid a cs)

-- Removing a comaintainer removes that user from that base, and nobody else from anywhere.
pub any-remove_comaintainer :
    (uid b : ℕ) (c : PackageComaintainer) (rows : List PackageComaintainer)
    → any (is_row uid b) (remove_comaintainer c rows)
      ≡ (any (is_row uid b) rows && not (uid == c.users_id && b == c.package_base_id))
unfolding remove_comaintainer rotate_comaintainers
any-remove_comaintainer uid b c rows =
    let left = delete_row c.users_id c.package_base_id rows in
    any-renumber uid b 0 (comaintainers_of c.package_base_id left) left
    ∙ any-delete_row uid b c.users_id c.package_base_id rows

-- The first of the ordered rows has the lowest priority number of all.
abbrev pub HasLeastHead : List PackageComaintainer → List PackageComaintainer → Type 0
HasLeastHead [] rows = rows ≡ []
HasLeastHead (c ∷ cs) rows = All (λ (d : PackageComaintainer). c.priority ≤ d.priority) rows

insert-HasLeastHead :
    (c : PackageComaintainer) (ordered rows : List PackageComaintainer)
    → HasLeastHead ordered rows
    → HasLeastHead (insert_by_priority c ordered) (c ∷ rows)
unfolding insert_by_priority
insert-HasLeastHead c [] rows h = rw h (omega arith, tt)
insert-HasLeastHead c (d ∷ ds) rows h = elim (Bool-cases (leb c.priority d.priority)) [
  | inl e ↦ rw e (
    omega arith,
    All-weaken (λ x. d.priority ≤ x.priority) (λ x. c.priority ≤ x.priority) rows
        (λ x q. ground arith) h,
  )
  | inr e ↦ rw e (ground arith, h)
]

pub order-HasLeastHead :
    (rows : List PackageComaintainer) → HasLeastHead (order_by_priority rows) rows
unfolding order_by_priority
order-HasLeastHead [] = refl
order-HasLeastHead (c ∷ cs) =
    insert-HasLeastHead c (order_by_priority cs) cs (order-HasLeastHead cs)

latest_priority-le :
    (b : ℕ) (rows : List PackageComaintainer)
    → All
        (λ (c : PackageComaintainer). of_base b c ≡ true → c.priority ≤ latest_priority b rows)
        rows
unfolding latest_priority
latest_priority-le b [] = tt
latest_priority-le b (c ∷ cs) = (
  λ e. ground arith,
  All-weaken (λ d. of_base b d ≡ true → d.priority ≤ latest_priority b cs)
      (λ d. of_base b d ≡ true → d.priority ≤ latest_priority b (c ∷ cs)) cs
      (λ d h e. ground (arith, h e)) (latest_priority-le b cs),
)

-- A user who is neither the maintainer nor a comaintainer of the base becomes its last
-- comaintainer: every row that was there stays as it was, and those of the base have smaller
-- priorities than the new row.
pub add_comaintainer-last :
    (maintainer : Option ℕ) (b uid : ℕ) (rows : List PackageComaintainer)
    → maintainer ≢ some uid
    → any (is_row uid b) rows ≡ false
    → (p : ℕ) × (add_comaintainer maintainer b uid rows
        ≡ added
            (rows ++ record { users_id = uid; package_base_id = b; priority = p } ∷ [])
            (uid ∷ []))
      × All (λ (c : PackageComaintainer). of_base b c ≡ true → c.priority < p) rows
unfolding add_comaintainer
add_comaintainer-last maintainer b uid rows ne new = (
  latest_priority b rows + 1,
  ground arith,
  All-weaken (λ c. of_base b c ≡ true → c.priority ≤ latest_priority b rows)
      (λ c. of_base b c ≡ true → c.priority < latest_priority b rows + 1) rows
      (λ c h e. ground (arith, h e)) (latest_priority-le b rows),
)

abbrev pub IsKnown : List User → String → Type 0
IsKnown users n = (u : User) × (find? (λ (v : User). str_eq v.username n) users ≡ some u)

resolve_users-unknown :
    (users : List User) (known : List String) (n : String) (rest : List String)
    → All (IsKnown users) known
    → find? (λ (v : User). str_eq v.username n) users ≡ none
    → resolve_users users (known ++ n ∷ rest) ≡ unknown_user n
unfolding resolve_users
resolve_users-unknown users [] n rest h e = rw (e, resolve_users) refl
resolve_users-unknown users (m ∷ ms) n rest h e =
    rw (h.0.1, resolve_users) (rw (resolve_users-unknown users ms n rest h.1 e) refl)

-- One name that no user has refuses the whole addition, whatever stands before and after it; the
-- first such name is reported, and no row is added.
pub add_comaintainers-rejects_unknown :
    (users : List User) (maintainer : Option ℕ) (b : ℕ) (known : List String) (n : String)
    (rest : List String) (rows : List PackageComaintainer)
    → All (IsKnown users) known
    → find? (λ (v : User). str_eq v.username n) users ≡ none
    → add_comaintainers users maintainer b (known ++ n ∷ rest) rows ≡ invalid_user_name n
unfolding add_comaintainers
add_comaintainers-rejects_unknown users maintainer b known n rest rows h e =
    rw (resolve_users-unknown users known n rest h e, add_comaintainers) refl
