-- ===== src/Routes/Consistency/Actions.antt =====
-- The actions that may fail keep the tables of package bases consistent where they succeed.
use mprweb.Prelude.{
  Bool, ℕ, ◌≡◌, ◌⊎◌, refl, String, false, Option, some, none, List, [], ◌∷◌, ◌++◌, ◌==◌, Bool-cases,
  inl, inr,
}
use mprweb.Models.{User, PackageBase, PackageComaintainer, orphan_id, deletion_id, merge_id}
use mprweb.Auth.Creds.{Credential, has_credential}
use mprweb.Pkgbase.Comaintainers.{comaintainers_of, remove_comaintainer}
use mprweb.Pkgbase.Closures.{RequestError, Result, ok, err, ◌>>=◌}
use mprweb.Pkgbase.Requests.{Call, handle_request, update_closure_comment}
use mprweb.Pkgbase.Actions.{
  Db, Sent, disown_notification, delete_notification, close_notifications, delete_base, run_single,
  migrate, is_user, set_maintainer, step_down, pkgbase_disown_instance, pkgbase_delete_instance,
  pkgbase_merge_instance,
}
use mprweb.Routes.{Response, acted}
use mprweb.Routes.Consistency.{IsConsistent, IsConsistent-update_base, IsConsistent-same}
use mprweb.Routes.Consistency.Moves.{IsConsistent-delete_base, IsConsistent-merge}

-- What holds of a result if it is one.
abbrev pub OnOk {ℓ κ} : {A : Type ℓ} → (A → Type κ) → Result A → Type κ
OnOk P (ok a) = P a
OnOk P (err e) = Unit

pub OnOk-bind {ℓ κ μ} :
    {A : Type ℓ} {B : Type κ} (P : B → Type μ) (m : Result A) (f : A → Result B)
    → ((a : A) → OnOk P (f a))
    → OnOk P (m >>= f)
OnOk-bind P (ok a) f h = h a
OnOk-bind P (err e) f h = tt

pub Result-cases {ℓ} :
    {A : Type ℓ} (m : Result A) → ((a : A) × (m ≡ ok a)) ⊎ ((e : RequestError) × (m ≡ err e))
Result-cases (ok a) = inl (a, refl)
Result-cases (err e) = inr (e, refl)

abbrev pub Leaves : Result (Db × List Sent) → Type 0
Leaves = OnOk (λ (r : Db × List Sent). IsConsistent r.0)

pub Leaves-acted :
    (r : Response) (db : Db) (m : Result (Db × List Sent))
    → IsConsistent db
    → Leaves m
    → IsConsistent (acted r db m).db
Leaves-acted r db (ok (after, sent)) c h = h
Leaves-acted r db (err e) c h = c

pub IsConsistent-set_maintainer :
    (i : ℕ) (m : Option ℕ) (db : Db) → IsConsistent db → IsConsistent (set_maintainer i m db)
IsConsistent-set_maintainer i m db c =
    IsConsistent-update_base i (λ b. record b { maintainer = m }) db (λ b. (refl, refl)) c

pub step_down-Leaves :
    (suspended : ℕ → Bool) (uid : ℕ) (b : PackageBase) (cs : List PackageComaintainer) (db : Db)
    → IsConsistent db
    → Leaves (step_down suspended uid b cs db)
unfolding step_down
step_down-Leaves suspended uid b [] db c = IsConsistent-set_maintainer b.id none db c
step_down-Leaves suspended uid b (d ∷ ds) db c = elim (Bool-cases (suspended d.users_id)) [
  | inl gone ↦ rw gone tt
  | inr active ↦
      let removed = record db { comaintainers = remove_comaintainer d db.comaintainers } in
      rw active (
        IsConsistent-set_maintainer b.id (some d.users_id) removed
          (IsConsistent-same db removed refl refl refl c))
]

pub disown-Leaves :
    (call : Call) (u : User) (b : PackageBase) (db : Db)
    → IsConsistent db
    → Leaves (pkgbase_disown_instance call u b db)
unfolding pkgbase_disown_instance
disown-Leaves call u b db c = elim (Bool-cases (is_user u.id b.maintainer)) [
  | inl own ↦
      rw own (step_down-Leaves call.suspended u.id b (comaintainers_of b.id db.comaintainers) db c)
  | inr other ↦ elim (Bool-cases (has_credential u Credential.pkgbase_disown [])) [
    | inr untrusted ↦ rw (other, untrusted) c
    | inl trusted ↦
        rw (other, trusted)
          (OnOk-bind (λ (r : Db × List Sent). IsConsistent r.0)
            (handle_request call orphan_id b none db.requests)
            (λ r. ok (
              set_maintainer b.id none (record db { requests = r.0 }),
              disown_notification u.id b.id ∷ close_notifications r.1,
            ))
            (λ r.
              IsConsistent-set_maintainer b.id none (record db { requests = r.0 })
                (IsConsistent-same db (record db { requests = r.0 }) refl refl refl c)))
  ]
]

pub delete-Leaves :
    (call : Call) (u : User) (b : PackageBase) (comments : String) (db : Db)
    → IsConsistent db
    → Leaves (pkgbase_delete_instance call u b comments db)
unfolding pkgbase_delete_instance
delete-Leaves call u b comments db c =
    OnOk-bind (λ (r : Db × List Sent). IsConsistent r.0)
      (handle_request call deletion_id b none db.requests)
      (λ r. update_closure_comment b deletion_id comments none r.0 >>= λ commented. ok (
        delete_base b.id (record db { requests = commented }),
        close_notifications r.1 ++ delete_notification u.id b.id ∷ [],
      ))
      (λ r.
        OnOk-bind (λ (r : Db × List Sent). IsConsistent r.0)
          (update_closure_comment b deletion_id comments none r.0)
          (λ commented. ok (
            delete_base b.id (record db { requests = commented }),
            close_notifications r.1 ++ delete_notification u.id b.id ∷ [],
          ))
          (λ commented.
            IsConsistent-delete_base b.id (record db { requests = commented })
              (IsConsistent-same db (record db { requests = commented }) refl refl refl c)))

pub merge-Leaves :
    (call : Call) (u : User) (b target : PackageBase) (db : Db)
    → (b.id == target.id) ≡ false
    → IsConsistent db
    → Leaves (pkgbase_merge_instance call u b target db)
unfolding pkgbase_merge_instance
merge-Leaves call u b target db ne c =
    OnOk-bind (λ (r : Db × List Sent). IsConsistent r.0)
      (handle_request call merge_id b (some target) db.requests)
      (λ r. ok (
        delete_base b.id
            (run_single target.id (migrate b.id target.id (record db { requests = r.0 }))),
        close_notifications r.1,
      ))
      (λ r.
        IsConsistent-merge b.id target.id (record db { requests = r.0 }) ne
          (IsConsistent-same db (record db { requests = r.0 }) refl refl refl c))
