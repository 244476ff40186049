-- ===== src/Pkgbase/Comaintainers.antt =====
-- The comaintainer functions of aurweb/pkgbase/util.py, over the PackageComaintainers table. A row
-- is identified by its user and its package base, as by the table's primary key.
pub mod Order
pub mod Rotation
pub mod Membership
use mprweb.Prelude.{
  ℕ, ◌+◌, String, Bool, true, false, not, ◌&&◌, Option, none, some, List, [], ◌∷◌, ◌++◌, map,
  filter, any, find?, update_where, leb, ◌==◌, str_eq, if◌then◌else◌,
}
use mprweb.Models.{User, PackageComaintainer}

abbrev pub of_base : ℕ → PackageComaintainer → Bool
of_base b c = c.package_base_id == b

abbrev pub is_row : ℕ → ℕ → PackageComaintainer → Bool
is_row uid b c = c.users_id == uid && c.package_base_id == b

-- `order_by(PackageComaintainer.Priority.asc())`
unfoldable pub insert_by_priority :
    PackageComaintainer → List PackageComaintainer → List PackageComaintainer
insert_by_priority c [] = c ∷ []
insert_by_priority c (d ∷ ds) =
    if leb c.priority d.priority then c ∷ d ∷ ds else d ∷ insert_by_priority c ds

unfoldable pub order_by_priority : List PackageComaintainer → List PackageComaintainer
order_by_priority [] = []
order_by_priority (c ∷ cs) = insert_by_priority c (order_by_priority cs)

-- `pkgbase.comaintainers.order_by(PackageComaintainer.Priority.asc())`
unfoldable pub comaintainers_of : ℕ → List PackageComaintainer → List PackageComaintainer
comaintainers_of b rows = order_by_priority (filter (of_base b) rows)

-- `comaint.Priority = p`
unfoldable pub set_priority : ℕ → ℕ → ℕ → List PackageComaintainer → List PackageComaintainer
set_priority uid b p = update_where (is_row uid b) (λ c. record c { priority = p })

-- `for i, comaint in enumerate(comaintainers): comaint.Priority = i + 1`
unfoldable pub renumber :
    ℕ → List PackageComaintainer → List PackageComaintainer → List PackageComaintainer
renumber i [] rows = rows
renumber i (c ∷ cs) rows =
    renumber (i + 1) cs (set_priority c.users_id c.package_base_id (i + 1) rows)

unfoldable pub rotate_comaintainers : ℕ → List PackageComaintainer → List PackageComaintainer
rotate_comaintainers b rows = renumber 0 (comaintainers_of b rows) rows

-- The first record by descending priority, or 0.
unfoldable pub latest_priority : ℕ → List PackageComaintainer → ℕ
latest_priority b [] = 0
latest_priority b (c ∷ cs) =
    let rest = latest_priority b cs in
    if of_base b c then (if leb rest c.priority then c.priority else rest) else rest

-- `db.delete(comaint)`
unfoldable pub delete_row : ℕ → ℕ → List PackageComaintainer → List PackageComaintainer
delete_row uid b = filter (λ c. not (is_row uid b c))

unfoldable pub remove_comaintainer :
    PackageComaintainer → List PackageComaintainer → List PackageComaintainer
remove_comaintainer comaint rows =
    rotate_comaintainers comaint.package_base_id
      (delete_row comaint.users_id comaint.package_base_id rows)

abbrev pub username_of : List User → ℕ → Option String
username_of users uid = elim (find? (λ (u : User). u.id == uid) users) [
  | none ↦ none
  | some u ↦ some u.username
]

abbrev pub is_named : List String → Option String → Bool
is_named names none = false
is_named names (some n) = any (str_eq n) names

-- Deletes the rows of the named users, and rotates.
unfoldable pub remove_comaintainers :
    List User → ℕ → List String → List PackageComaintainer → List PackageComaintainer
remove_comaintainers users b usernames rows =
    rotate_comaintainers b
      (filter (λ c. not (of_base b c && is_named usernames (username_of users c.users_id))) rows)

pub data AddResult : Type 0 where
  -- the table afterwards, and the IDs of the users who are notified
  added : List PackageComaintainer → List ℕ → AddResult
  -- the unique index on user and package base refuses the row
  integrity_error : AddResult

unfoldable pub add_comaintainer : Option ℕ → ℕ → ℕ → List PackageComaintainer → AddResult
add_comaintainer maintainer b uid rows =
    if elim maintainer [ none ↦ false | some m ↦ m == uid ]
    then added rows []
    else if any (is_row uid b) rows
    then integrity_error
    else added
        (rows
          ++ record { users_id = uid; package_base_id = b; priority = latest_priority b rows + 1 }
            ∷ [])
        (uid ∷ [])

-- The users by the given names, or the first name that no user has.
pub data Resolved : Type 0 where
  all_users : List ℕ → Resolved
  unknown_user : String → Resolved

abbrev pub add_resolved : ℕ → Resolved → Resolved
add_resolved uid (all_users us) = all_users (uid ∷ us)
add_resolved uid (unknown_user n) = unknown_user n

unfoldable pub resolve_users : List User → List String → Resolved
resolve_users users [] = all_users []
resolve_users users (n ∷ ns) =
    let rest = resolve_users users ns in
    elim (find? (λ (u : User). str_eq u.username n) users) [
      | none ↦ unknown_user n
      | some u ↦ add_resolved u.id rest
    ]

abbrev pub add_notified : List ℕ → AddResult → AddResult
add_notified ns (added rows ms) = added rows (ns ++ ms)
add_notified ns integrity_error = integrity_error

-- `util.apply_all(users, add_comaint)`
unfoldable pub add_each : Option ℕ → ℕ → List ℕ → List PackageComaintainer → AddResult
add_each maintainer b [] rows = added rows []
add_each maintainer b (u ∷ us) rows = elim (add_comaintainer maintainer b u rows) [
  | integrity_error ↦ integrity_error
  | added rows' ns ↦ add_notified ns (add_each maintainer b us rows')
]

pub data AddOutcome : Type 0 where
  done : AddResult → AddOutcome
  invalid_user_name : String → AddOutcome

unfoldable pub add_comaintainers :
    List User → Option ℕ → ℕ → List String → List PackageComaintainer → AddOutcome
add_comaintainers users maintainer b usernames rows = elim (resolve_users users usernames) [
  | unknown_user n ↦ invalid_user_name n
  | all_users us ↦ done (add_each maintainer b us rows)
]
