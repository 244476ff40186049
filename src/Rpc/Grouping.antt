-- ===== src/Rpc/Grouping.antt =====
-- What a result of the type multiinfo shows under each key.
use mathlib.Core.List.{append-nil, append_assoc}
use mprweb.Prelude.{
  ◌≡◌, refl, sym, ap, ◌∙◌, String, Bool, true, false, List, [], ◌∷◌, ◌++◌, map, filter, ◌==◌,
  str_eq, eq_iff, Bool-cases, inl, inr, arith, if◌then◌else◌,
}
use mprweb.Rpc.{RpcPackage, ExtraRow, RpcDb}
use mprweb.Rpc.Handlers.{type_mapping, append_to, shown, group_extra, info_of}

-- The list of a key.
abbrev pub values_of : String → List (String × List String) → List String
values_of key [] = []
values_of key ((k, vs) ∷ rest) = if str_eq k key then vs else values_of key rest

abbrev only_if : Bool → String → List String
only_if true v = v ∷ []
only_if false v = []

values_of-append_to :
    (key k v : String) (acc : List (String × List String))
    → values_of key (append_to k v acc) ≡ values_of key acc ++ only_if (str_eq k key) v
unfolding append_to
values_of-append_to key k v [] = elim (Bool-cases (str_eq k key)) [
  | inl e ↦ rw e refl
  | inr e ↦ rw e refl
]
values_of-append_to key k v ((j, vs) ∷ rest) = elim (Bool-cases (str_eq j k)) [
  | inl same ↦
      let e : j ≡ k = (eq_iff j k).0 same in
      rw same (elim (Bool-cases (str_eq k key)) [
        | inl hit ↦ rw e (rw hit refl)
        | inr miss ↦ rw e (rw miss (sym (append-nil _)))
      ])
  | inr other ↦ rw other (elim (Bool-cases (str_eq j key)) [
    | inl hit ↦
        let away : str_eq k key ≡ false = ground (arith, eq_iff j k, eq_iff k key, eq_iff j key) in
        rw (hit, away) (sym (append-nil _))
    | inr miss ↦ rw miss (values_of-append_to key k v rest)
  ])
]

abbrev pub is_under : String → ExtraRow → Bool
is_under key r = str_eq (type_mapping r.type) key

values_of-group_extra :
    (key : String) (rows : List ExtraRow) (acc : List (String × List String))
    → values_of key (group_extra rows acc)
      ≡ values_of key acc ++ map shown (filter (is_under key) rows)
unfolding group_extra
values_of-group_extra key [] acc = sym (append-nil _)
values_of-group_extra key (r ∷ rs) acc =
    values_of-group_extra key rs (append_to (type_mapping r.type) (shown r) acc)
    ∙ ap (λ (vs : List String). vs ++ map shown (filter (is_under key) rs))
        (values_of-append_to key (type_mapping r.type) (shown r) acc)
    ∙ elim (Bool-cases (is_under key r)) [
      | inl e ↦ rw e (append_assoc (values_of key acc) _ _)
      | inr e ↦ rw e (
          ap (λ (vs : List String). vs ++ map shown (filter (is_under key) rs))
            (append-nil (values_of key acc)))
    ]

-- Under each key, a result lists the dependencies, relations, licenses or keywords of its package
-- whose type is shown under that key, a row once and in the order of the query, as the name followed
-- by the condition.
pub values_of-info_of :
    (db : RpcDb) (p : RpcPackage) (key : String)
    → values_of key (info_of db p).extra
      ≡ map shown (filter (is_under key) (filter (λ (r : ExtraRow). r.package_id == p.id) db.extra))
unfolding info_of
values_of-info_of db p key =
    values_of-group_extra key (filter (λ (r : ExtraRow). r.package_id == p.id) db.extra)
      (("License", []) ∷ ("Keywords", []) ∷ [])
    ∙ ap
        (λ (vs : List String).
          vs
          ++ map shown
              (filter (is_under key) (filter (λ (r : ExtraRow). r.package_id == p.id) db.extra)))
        (defaults key)
  where
    defaults : (k : String) → values_of k (("License", []) ∷ ("Keywords", []) ∷ []) ≡ []
    defaults k = ground arith
