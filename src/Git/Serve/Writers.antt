-- ===== src/Git/Serve/Writers.antt =====
-- The users who may write to a package base, by names and by roles.
use mprweb.Prelude.{
  ℕ, ◌≡◌, refl, ap, ◌∙◌, String, Bool, false, ◌&&◌, ◌||◌, Option, none, some, List, [], ◌∷◌, ◌++◌,
  any, any-append, arith, Bool-cases, Option-cases, inl, inr, str_eq, ◌==◌,
}
use mprweb.Models.{User, PackageBase, PackageComaintainer}
use mprweb.Git.Serve.{username_of, cons_name, comaintainer_names, write_users}

-- `uid` is the user with the given name.
abbrev pub is_called : List User → String → ℕ → Bool
is_called users name uid = elim (username_of users uid) [ none ↦ false | some n ↦ str_eq name n ]

-- The user maintains or comaintains the base.
abbrev pub is_writer : List User → List PackageComaintainer → PackageBase → String → Bool
is_writer users rows b name =
    elim b.maintainer [ none ↦ false | some m ↦ is_called users name m ]
    || any
        (λ (c : PackageComaintainer). c.package_base_id == b.id && is_called users name c.users_id)
        rows

any-cons_name :
    (name : String) (o : Option String) (rest : Option (List String)) {names : List String}
    → cons_name o rest ≡ some names
    → (ns : List String) × (rest ≡ some ns)
      × (any (str_eq name) names
          ≡ (elim o [ none ↦ false | some n ↦ str_eq name n ] || any (str_eq name) ns))
any-cons_name name none rest h = absurd (cc)
any-cons_name name (some n) none h = absurd (cc)
any-cons_name name (some n) (some ns) {names} h = (ns, refl, ground arith)

any-comaintainer_names :
    (users : List User) (b : ℕ) (rows : List PackageComaintainer) (name : String)
    {names : List String}
    → comaintainer_names users b rows ≡ some names
    → any (str_eq name) names
      ≡ any
          (λ (c : PackageComaintainer). c.package_base_id == b && is_called users name c.users_id)
          rows
unfolding comaintainer_names
any-comaintainer_names users b [] name {names} h = ground arith
any-comaintainer_names users b (c ∷ cs) name {names} h =
    elim (Bool-cases (c.package_base_id == b)) [
      | inl here ↦
          let (ns, e, q) =
            any-cons_name name (username_of users c.users_id) (comaintainer_names users b cs)
              (rw here at h) in
          rw here (
            q
            ∙ ap (λ r. is_called users name c.users_id || r)
                (any-comaintainer_names users b cs name e))
      | inr other ↦ rw other (any-comaintainer_names users b cs name (rw other at h))
    ]

pub any-write_users :
    (users : List User) (rows : List PackageComaintainer) (b : PackageBase) (name : String)
    {names : List String}
    → write_users users rows b ≡ some names
    → any (str_eq name) names ≡ is_writer users rows b name
unfolding write_users
any-write_users users rows b name {names} h = elim (Option-cases b.maintainer) [
  | inl absent ↦ absurd (ground arith)
  | inr (m, e) ↦ elim (Option-cases (comaintainer_names users b.id rows)) [
    | inl absent ↦ absurd (ground arith)
    | inr (others, f) ↦ elim (Option-cases (username_of users m)) [
      | inl absent ↦ absurd (ground arith)
      | inr (n, g) ↦
          let whole : names ≡ others ++ n ∷ [] = ground arith in
          ap (any (str_eq name)) whole
          ∙ any-append (str_eq name) others (n ∷ [])
          ∙ ap (λ r. r || any (str_eq name) (n ∷ []))
              (any-comaintainer_names users b.id rows name f)
          ∙ rw e (rw (g, is_called) (ground arith))
    ]
  ]
]
