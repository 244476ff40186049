-- ===== src/Scripts/Upkeep.antt =====
-- What the scripts leave in the tables.
use mprweb.Prelude.{
  ℕ, ◌≡◌, refl, sym, ap, ◌∙◌, Bool, true, not, ◌&&◌, none, List, [], ◌∷◌, map, any, ◌-◌, filter,
  update_where, All, All-update_where, All-intro, elem, ltb, ◌==◌, ==_iff, Bool-cases, inl, inr,
  arith, if◌then◌else◌,
}
use mprweb.Models.{User, PackageBase, PackageVote}
use mprweb.Pkgbase.Actions.{Db, is_base, delete_base, run_single}
use mprweb.Pkgbase.Actions.Merges.{count_votes}
use mprweb.Routes.Consistency.{IsConsistent, IsCounted}
use mprweb.Routes.Consistency.Moves.{IsConsistent-delete_base}
use mprweb.Scripts.{days, usermaint, is_stale, delete_bases, pkgmaint, run_variable}

-- An account with the addresses of the logins of the last seven days only.
abbrev pub with_recent : ℕ → User → User
with_recent now u = record u {
  last_login_ip = if ltb u.last_login (now - days 7) then none else u.last_login_ip;
  last_ssh_login_ip = if ltb u.last_ssh_login (now - days 7) then none else u.last_ssh_login_ip;
}

-- The script usermaint keeps the address of an account's last login exactly if that login was
-- within the last seven days, the same for logins over SSH, and changes nothing else.
pub usermaint-recent :
    (now : ℕ) (users : List User) → usermaint now users ≡ map (with_recent now) users
unfolding usermaint
usermaint-recent now [] = refl
usermaint-recent now (u ∷ us) = elim (Bool-cases (ltb u.last_login (now - days 7))) [
  | inl old ↦ elim (Bool-cases (ltb u.last_ssh_login (now - days 7))) [
    | inl old_ssh ↦
        rw (old, old_ssh)
          (ap (λ vs. record u { last_login_ip = none; last_ssh_login_ip = none } ∷ vs)
            (usermaint-recent now us))
    | inr recent_ssh ↦
        rw (old, recent_ssh)
          (ap (λ vs. record u { last_login_ip = none } ∷ vs) (usermaint-recent now us))
  ]
  | inr recent ↦ elim (Bool-cases (ltb u.last_ssh_login (now - days 7))) [
    | inl old_ssh ↦
        rw (recent, old_ssh)
          (ap (λ vs. record u { last_ssh_login_ip = none } ∷ vs) (usermaint-recent now us))
    | inr recent_ssh ↦ rw (recent, recent_ssh) (ap (λ vs. u ∷ vs) (usermaint-recent now us))
  ]
]

delete_bases-IsConsistent :
    (bs : List PackageBase) (db : Db) → IsConsistent db → IsConsistent (delete_bases bs db)
delete_bases-IsConsistent [] db c = c
delete_bases-IsConsistent (b ∷ bs) db c =
    delete_bases-IsConsistent bs (delete_base b.id db) (IsConsistent-delete_base b.id db c)

-- Which bases are left.
abbrev among : List PackageBase → PackageBase → Bool
among bs b = any (λ (c : PackageBase). c.id == b.id) bs

keeps_all : (xs : List PackageBase) → filter (λ b. not (among [] b)) xs ≡ xs
keeps_all [] = refl
keeps_all (x ∷ xs) = ap (λ ys. x ∷ ys) (keeps_all xs)

filter-filter :
    (p q r : PackageBase → Bool) (xs : List PackageBase)
    → ((x : PackageBase) → (p x && q x) ≡ r x)
    → filter q (filter p xs) ≡ filter r xs
filter-filter p q r [] same = refl
filter-filter p q r (x ∷ xs) same = elim (Bool-cases (p x)) [
  | inr e ↦ rw (e, filter-filter p q r xs same) (ground (arith, same x))
  | inl e ↦ elim (Bool-cases (q x)) [
    | inl f ↦ rw e (rw (f, filter-filter p q r xs same) (ground (arith, same x)))
    | inr f ↦ rw e (rw (f, filter-filter p q r xs same) (ground (arith, same x)))
  ]
]

bases-delete_bases :
    (bs : List PackageBase) (db : Db)
    → (delete_bases bs db).bases ≡ filter (λ b. not (among bs b)) db.bases
unfolding delete_base
bases-delete_bases [] db = sym (keeps_all db.bases)
bases-delete_bases (b ∷ bs) db =
    bases-delete_bases bs (delete_base b.id db)
    ∙ filter-filter (λ c. not (is_base b.id c)) (λ c. not (among bs c))
        (λ c. not (among (b ∷ bs) c)) db.bases
        (λ c. ground (arith, ==_iff c.id b.id, ==_iff b.id c.id))

-- The script pkgmaint keeps the tables of package bases consistent, and deletes exactly the bases
-- that have the ID of a base that was registered more than a day ago and never pushed.
pub pkgmaint-IsConsistent :
    (now : ℕ) (db : Db)
    → IsConsistent db
    → IsConsistent (pkgmaint now db)
      × ((pkgmaint now db).bases
          ≡ filter
              (λ b. not (any (λ (c : PackageBase). c.id == b.id) (filter (is_stale now) db.bases)))
              db.bases)
unfolding pkgmaint
pkgmaint-IsConsistent now db c = (
  delete_bases-IsConsistent (filter (is_stale now) db.bases) db c,
  bases-delete_bases (filter (is_stale now) db.bases) db,
)

abbrev recounted : List PackageVote → ℕ → List PackageBase → List PackageBase
recounted votes i = update_where (is_base i) (λ b. record b { num_votes = count_votes i votes })

recount-one :
    (votes : List PackageVote) (i : ℕ) (bases : List PackageBase)
    → update_where
        (λ b. elem b.id (i ∷ []))
        (λ b. record b { num_votes = count_votes b.id votes })
        bases
      ≡ recounted votes i bases
recount-one votes i [] = refl
recount-one votes i (b ∷ bs) = elim (Bool-cases (b.id == i)) [
  | inl e ↦
      rw (e, recount-one votes i bs)
        (ap (λ j. record b { num_votes = count_votes j votes } ∷ recounted votes i bs)
          ((==_iff b.id i).0 e))
  | inr e ↦ rw (e, recount-one votes i bs) refl
]

-- Whatever the counts were, after the script popupdate every base counts its votes; and the update
-- of a single base is that of a list of one.
pub run_variable-counts :
    (db : Db)
    → All (IsCounted db.votes) (run_variable [] db).bases
      × ((i : ℕ) → run_variable (i ∷ []) db ≡ run_single i db)
unfolding run_variable run_single
run_variable-counts db = (
  All-update_where (λ b. Unit {0}) (IsCounted db.votes) (λ b. true) _ db.bases (λ b e h. refl)
      (λ b e h. absurd (cc (e))) (All-intro (λ b. Unit {0}) db.bases (λ b. tt)),
  λ i.
      ap (λ (bases : List PackageBase). record db { bases = bases })
        (recount-one db.votes i db.bases),
)
