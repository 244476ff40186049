-- ===== src/Routes/Bulk/Loops.antt =====
-- The loops over the selected bases keep the tables of package bases consistent.
use mprweb.Prelude.{refl, String, none, some, List, [], ◌∷◌, ◌++◌}
use mprweb.Models.{User, PackageBase}
use mprweb.Auth.Creds.{Credential, has_credential}
use mprweb.Pkgbase.Closures.{Result, ok, err, no_due_request, ◌>>=◌}
use mprweb.Pkgbase.Requests.{Call}
use mprweb.Pkgbase.Actions.{
  Db, Sent, pkgbase_unflag_instance, pkgbase_adopt_instance, pkgbase_disown_instance,
  pkgbase_delete_instance,
}
use mprweb.Routes.Bulk.{
  each, adopt_all, disown_all, disowned_outcome, delete_all, next_call, no_due_message,
}
use mprweb.Routes.Consistency.{IsConsistent, IsConsistent-update_base}
use mprweb.Routes.Consistency.Keeping.{IsConsistent-if}
use mprweb.Routes.Consistency.Actions.{
  OnOk, Leaves, IsConsistent-set_maintainer, disown-Leaves, delete-Leaves,
}

pub OnOk-then {ℓ κ μ ν} :
    {A : Type ℓ} {B : Type κ} (Q : A → Type ν) (P : B → Type μ) (m : Result A) (f : A → Result B)
    → OnOk Q m
    → ((a : A) → Q a → OnOk P (f a))
    → OnOk P (m >>= f)
OnOk-then Q P (ok a) f q h = h a q
OnOk-then Q P (err e) f q h = tt

pub each-IsConsistent :
    (action : PackageBase → Db → Db) (bs : List PackageBase) (db : Db)
    → ((b : PackageBase) (d : Db) → IsConsistent d → IsConsistent (action b d))
    → IsConsistent db
    → IsConsistent (each action bs db)
each-IsConsistent action [] db step c = c
each-IsConsistent action (b ∷ bs) db step c =
    each-IsConsistent action bs (action b db) step (step b db c)

pub IsConsistent-unflag :
    (u : User) (b : PackageBase) (db : Db)
    → IsConsistent db
    → IsConsistent (pkgbase_unflag_instance u b db)
unfolding pkgbase_unflag_instance
IsConsistent-unflag u b db c =
    IsConsistent-if (has_credential u Credential.pkgbase_unflag (b.flagger ∷ b.maintainer ∷ [])) _ _
      (λ e.
        IsConsistent-update_base b.id
          (λ d. record d { out_of_date_ts = none; flagger = none; flagger_comment = "" }) db
          (λ d. (refl, refl)) c)
      (λ e. c)

pub adopt_all-IsConsistent :
    (u : User) (bs : List PackageBase) (db : Db)
    → IsConsistent db
    → IsConsistent (adopt_all u bs db).0
unfolding adopt_all pkgbase_adopt_instance
adopt_all-IsConsistent u [] db c = c
adopt_all-IsConsistent u (b ∷ bs) db c =
    adopt_all-IsConsistent u bs (pkgbase_adopt_instance u b db).0
      (IsConsistent-set_maintainer b.id (some u.id) db c)

pub delete_all-Leaves :
    (call : Call) (u : User) (bs : List PackageBase) (db : Db)
    → IsConsistent db
    → Leaves (delete_all call u bs db)
unfolding delete_all
delete_all-Leaves call u [] db c = c
delete_all-Leaves call u (b ∷ bs) db c =
    OnOk-then (λ (r : Db × List Sent). IsConsistent r.0) (λ (r : Db × List Sent). IsConsistent r.0)
      (pkgbase_delete_instance call u b "" db) _ (delete-Leaves call u b "" db c)
      (λ r k.
        OnOk-then (λ (r : Db × List Sent). IsConsistent r.0)
          (λ (r : Db × List Sent). IsConsistent r.0) (delete_all (next_call call) u bs r.0) _
          (delete_all-Leaves (next_call call) u bs r.0 k) (λ s l. l))

-- The tables that a sequence of disownments leaves.
abbrev pub IsKept : List String × Db × List Sent → Type 0
IsKept (errors, db, sent) = IsConsistent db

abbrev next_disowned :
    Call
    → User
    → PackageBase
    → List PackageBase
    → Db
    → Result (Db × List Sent)
    → Result (List String × Db × List Sent)
next_disowned call u b bs db r = elim r [
  | ok (disowned, sent) ↦ (do
    (errors, after, more) ← disown_all (next_call call) u bs disowned
    ok (errors, after, sent ++ more))
  | err no_due_request ↦ (do
    (errors, after, more) ← disown_all (next_call call) u bs db
    ok (no_due_message b.name ∷ errors, after, more))
  | err e ↦ err e
]

pub disown_all-IsKept :
    (call : Call) (u : User) (bs : List PackageBase) (db : Db)
    → IsConsistent db
    → OnOk IsKept (disown_all call u bs db)
unfolding disown_all
disown_all-IsKept call u [] db c = c
disown_all-IsKept call u (b ∷ bs) db c =
    step (pkgbase_disown_instance call u b db) (disown-Leaves call u b db c)
      (λ d k. disown_all-IsKept (next_call call) u bs d k)
  where
    step :
        (r : Result (Db × List Sent))
        → Leaves r
        → ((d : Db) → IsConsistent d → OnOk IsKept (disown_all (next_call call) u bs d))
        → OnOk IsKept (next_disowned call u b bs db r)
    step (ok (disowned, sent)) k ih =
        OnOk-then IsKept IsKept (disown_all (next_call call) u bs disowned) _ (ih disowned k)
          (λ s l. l)
    step (err no_due_request) k ih =
        OnOk-then IsKept IsKept (disown_all (next_call call) u bs db) _ (ih db c) (λ s l. l)
    step (err e) k ih = tt

pub disowned_outcome-IsConsistent :
    (r : List String × Db × List Sent) → IsKept r → IsConsistent (disowned_outcome r).db
disowned_outcome-IsConsistent ([], db, sent) c = c
disowned_outcome-IsConsistent (e ∷ es, db, sent) c = c
