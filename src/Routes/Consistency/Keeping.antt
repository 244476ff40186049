-- ===== src/Routes/Consistency/Keeping.antt =====
-- What it means that a route keeps the tables consistent, and the guards that many routes share.
use mprweb.Prelude.{
  ℕ, ◌≡◌, refl, String, Bool, true, false, Option, [], ◌∷◌, Option-cases, inl, inr, if◌then◌else◌,
}
use mprweb.Models.{PackageBase, PackageComment}
use mprweb.Auth.Creds.{Credential, has_credential}
use mprweb.Pkgbase.Actions.{Db}
use mprweb.Routes.{Visit, Reply, get_pkgbase, with_base}
use mprweb.Routes.Comments.{with_comment, get_pkgbase_comment, moderate, update_comment}
use mprweb.Routes.Consistency.{IsConsistent, IsConsistent-same}

-- What a route answers is consistent.
pub record Keeps (r : Reply) : Type 0 where
  pub kept : IsConsistent r.db

pub keeps : {r : Reply} → IsConsistent r.db → Keeps r
keeps c = record { kept = c }

pub Keeps-if :
    (t : Bool) (r s : Reply)
    → (t ≡ true → Keeps r)
    → (t ≡ false → Keeps s)
    → Keeps (if t then r else s)
Keeps-if true r s h k = h refl
Keeps-if false r s h k = k refl

pub IsConsistent-if :
    (t : Bool) (d e : Db)
    → (t ≡ true → IsConsistent d)
    → (t ≡ false → IsConsistent e)
    → IsConsistent (if t then d else e)
IsConsistent-if true d e h k = h refl
IsConsistent-if false d e h k = k refl

module _ (v : Visit) (name : String) (db : Db) (c : IsConsistent db) where
  pub Keeps-with_base :
      (k : PackageBase → Reply) → ((b : PackageBase) → Keeps (k b)) → Keeps (with_base v name db k)
  Keeps-with_base k h = elim (Option-cases (get_pkgbase v.providers name db.bases)) [
    | inl e ↦ rw (with_base, e) (keeps c)
    | inr (b, e) ↦ rw (with_base, e) (h b)
  ]

  pub Keeps-with_comment :
      (i : ℕ) (k : PackageBase → PackageComment → Reply)
      → ((b : PackageBase) (d : PackageComment) → Keeps (k b d))
      → Keeps (with_comment v name i db k)
  Keeps-with_comment i k h = Keeps-with_base _ (λ b.
      elim (Option-cases (get_pkgbase_comment b i db.comments)) [
        | inl e ↦ rw e (keeps c)
        | inr (d, e) ↦ rw e (h b d)
      ])

  pub Keeps-moderate :
      (credential : Credential) (approved : PackageBase → PackageComment → Option ℕ)
      (change : PackageComment → PackageComment) (i : ℕ) (next : Option String)
      → Keeps (moderate credential approved change v name i next db)
  Keeps-moderate credential approved change i next = Keeps-with_comment i _ (λ b d.
      Keeps-if (has_credential v.user credential (approved b d ∷ [])) _ _
        (λ e. keeps (IsConsistent-same db (update_comment i change db) refl refl refl c))
        (λ e. keeps c))
