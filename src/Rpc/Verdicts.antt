-- ===== src/Rpc/Verdicts.antt =====
-- What the RPC answers: always something, and never more than the limits.
use text.Mathlib.Text.{starts_with}
use mprweb.Prelude.{
  ◌or_else◌, require, ℕ, ◌≤◌, ◌≡◌, ◌↔◌, refl, sym, ap, subst, String, Bool, true, false, not, ◌&&◌,
  Option, none, some, List, [], ◌∷◌, filter, any, take, length, All, All-take, All-filter_where,
  All-intro, length-take-le, ltb, ◌==◌, ==_iff, str_eq, str_len, eq_iff, Bool-cases, Option-cases,
  inl, inr, arith,
}
use mprweb.Rpc.{
  RpcPackage, RpcDb, invalid_version, incorrect_by, incorrect_type, Results, infos, found, names,
  Handled, results, rpc_error, no_handler, RpcAnswer, error, suggestions, data_of, server_error,
  exposed_types, exposed_bys, aliased_type, aliased_by, is_exposed_by, is_exposed_type,
  verify_inputs, search_by, is_packaged, searched, first_arg, handle_search,
}
use mprweb.Rpc.Handlers.{
  handle_multiinfo, handle_suggest, handle_suggest_pkgbase, handle_callback, answered,
  handle_verified, handle,
}

-- What holds of each text of a list holds of a text that is in it.
all_of {κ} :
    (P : String → Type κ) (xs : List String) (s : String)
    → All P xs
    → any (str_eq s) xs ≡ true
    → P s
all_of P [] s h e = absurd (cc (e))
all_of P (x ∷ xs) s h e = elim (Bool-cases (str_eq s x)) [
  | inl same ↦ subst P (sym ((eq_iff s x).0 same)) h.0
  | inr other ↦ all_of P xs s h.1 (rw other at e)
]

-- A result is there, and keeps the limits of its query.
abbrev IsLimited : RpcDb → Results → Type 0
IsLimited db (infos is) = Unit {0}
IsLimited db (found ps) =
    (length ps ≤ db.max_results) × All (λ (p : RpcPackage). is_packaged p.packager ≡ true) ps
IsLimited db (names ns) = length ns ≤ 20

abbrev IsHandled : RpcDb → Handled → Type 0
IsHandled db (results r) = IsLimited db r
IsHandled db (rpc_error e) = Unit {0}
IsHandled db no_handler = ⊥

-- What the RPC answers: an error, or results within the limits.
abbrev pub IsAnswer : RpcDb → RpcAnswer → Type 0
IsAnswer db (error e) = Unit {0}
IsAnswer db (suggestions r) = IsLimited db r
IsAnswer db (data_of type r) = IsLimited db r
IsAnswer db server_error = ⊥

searched-IsHandled :
    (db : RpcDb) (test : RpcPackage → Bool) → IsHandled db (searched db (some test))
searched-IsHandled db test =
    let rows = filter (λ (p : RpcPackage). is_packaged p.packager && test p) db.packages in
    (
      length-take-le db.max_results rows,
      All-take (λ (p : RpcPackage). is_packaged p.packager ≡ true) db.max_results rows
          (All-filter_where (λ p. Unit {0}) (λ (p : RpcPackage). is_packaged p.packager ≡ true)
            (λ (p : RpcPackage). is_packaged p.packager && test p) db.packages
            (λ p e h. ground arith) (All-intro (λ p. Unit {0}) db.packages (λ p. tt))),
    )

abbrev HasTest : RpcDb → String → Type 0
HasTest db by = (arg : String) → (test : RpcPackage → Bool) × (search_by db by arg ≡ some test)

handle_search-IsHandled :
    (db : RpcDb) (by : String) (args : List String)
    → HasTest db by
    → IsHandled db (handle_search db by args)
unfolding handle_search
handle_search-IsHandled db by args has =
    let (test, e) = has (first_arg args) in
    elim (Bool-cases (not (str_eq by "m") && length args == 0)) [
      | inl none_given ↦ rw none_given tt
      | inr given ↦
          rw given (elim (Bool-cases (not (str_eq by "m") && ltb (str_len (first_arg args)) 2)) [
            | inl short ↦ rw short tt
            | inr long ↦ rw long (rw e (searched-IsHandled db test))
          ])
    ]

by-HasTest :
    (db : RpcDb) (by : String) → any (str_eq by) exposed_bys ≡ true → HasTest db (aliased_by by)
unfolding search_by
by-HasTest db by =
    all_of (λ s. HasTest db (aliased_by s)) exposed_bys by
      (
        (λ arg. (_, refl)),
        (
          (λ arg. (_, refl)),
          (
            (λ arg. (_, refl)),
            (
              (λ arg. (_, refl)),
              ((λ arg. (_, refl)), ((λ arg. (_, refl)), ((λ arg. (_, refl)), tt))),
            ),
          ),
        ),
      )

limit_20 : (xs : List String) → length (take 20 xs) ≤ 20
limit_20 xs = length-take-le 20 xs

suggest-IsHandled : (db : RpcDb) (args : List String) → IsHandled db (handle_suggest db args)
unfolding handle_suggest
suggest-IsHandled db [] = omega arith
suggest-IsHandled db (a ∷ rest) = limit_20 _

suggest_pkgbase-IsHandled :
    (db : RpcDb) (args : List String) → IsHandled db (handle_suggest_pkgbase db args)
unfolding handle_suggest_pkgbase
suggest_pkgbase-IsHandled db [] = omega arith
suggest_pkgbase-IsHandled db (a ∷ rest) = limit_20 _

multiinfo-IsHandled : (db : RpcDb) (args : List String) → IsHandled db (handle_multiinfo db args)
unfolding handle_multiinfo
multiinfo-IsHandled db [] = tt
multiinfo-IsHandled db (a ∷ rest) = tt

-- Every exposed type but the alias has a handler.
abbrev Reaches : RpcDb → String → List String → String → Type 0
Reaches db by args type =
    str_eq type "info" ≡ false → IsHandled db (handle_callback db type by args)

type-Reaches :
    (db : RpcDb) (by type : String) (args : List String)
    → HasTest db by
    → any (str_eq type) exposed_types ≡ true
    → Reaches db by args type
unfolding handle_callback search_by
type-Reaches db by type args has = all_of (Reaches db by args) exposed_types type (
  (λ e. cc (e)),
  (
    (λ e. multiinfo-IsHandled db args),
    (
      (λ e. handle_search-IsHandled db by args has),
      (
        (λ e. handle_search-IsHandled db "m" args (λ arg. (_, refl))),
        ((λ e. suggest-IsHandled db args), ((λ e. suggest_pkgbase-IsHandled db args), tt)),
      ),
    ),
  ),
)

answered-IsAnswer :
    (db : RpcDb) (type : String) (h : Handled) → IsHandled db h → IsAnswer db (answered type h)
answered-IsAnswer db type (rpc_error e) h = tt
answered-IsAnswer db type no_handler h = h
answered-IsAnswer db type (results r) h = elim (Bool-cases (starts_with type "suggest")) [
  | inl e ↦ rw e h
  | inr e ↦ rw e h
]

three_checks :
    (p q r : Bool)
    → ((require p invalid_version or_else require q incorrect_by or_else require r incorrect_type)
        ≡ none)
      ↔ ((p ≡ true) × (q ≡ true) × (r ≡ true))
three_checks p q r = ground arith

some-eq {ℓ} : {A : Type ℓ} {a b : A} → some a ≡ some b → a ≡ b
some-eq h = cc (h)

-- The verification passes exactly for version 5, an exposed field and an exposed type.
pub verify_inputs_iff :
    (version : Option ℕ) (type by : Option String)
    → (verify_inputs version type by ≡ none) ↔ (
        (version ≡ some 5)
        × ((b : String) × (by ≡ some b) × (any (str_eq b) exposed_bys ≡ true))
        × ((t : String) × (type ≡ some t) × (any (str_eq t) exposed_types ≡ true)))
unfolding verify_inputs
verify_inputs_iff none type by = ((λ h. absurd (cc (h))), (λ p. absurd (cc (p.0))))
verify_inputs_iff (some v) type none = ((λ h. absurd (ground arith)), (λ p. absurd (cc (p.1.1))))
verify_inputs_iff (some v) none (some b) =
    ((λ h. absurd (ground arith)), (λ p. absurd (cc (p.2.1))))
verify_inputs_iff (some v) (some t) (some b) =
    let checks =
      three_checks (v == 5) (any (str_eq b) exposed_bys) (any (str_eq t) exposed_types) in
    (
      (λ h. let (p, q, r) = checks.0 h in (ap some ((==_iff v 5).0 p), (b, refl, q), (t, refl, r))),
      (λ (p, (c, e, q), (u, f, r)).
          checks.1 ((==_iff v 5).1 (some-eq p), rw (some-eq e) q, rw (some-eq f) r)),
    )

not_info :
    (type : Option String) (t : String) → aliased_type type ≡ some t → str_eq t "info" ≡ false
not_info none t e = absurd (cc (e))
not_info (some s) t e = elim (Bool-cases (str_eq s "info")) [
  | inl hit ↦ let same : "multiinfo" ≡ t = cc (rw hit at e) in rw (← same) refl
  | inr miss ↦ let same : s ≡ t = cc (rw miss at e) in rw (← same) miss
]

handle_verified-IsAnswer :
    (db : RpcDb) (type by : Option String) (args : List String)
    → is_exposed_by by ≡ true
    → is_exposed_type type ≡ none
    → ((t : String) → type ≡ some t → str_eq t "info" ≡ false)
    → IsAnswer db (handle_verified db type by args)
handle_verified-IsAnswer db none by args e f g = absurd (cc (f))
handle_verified-IsAnswer db (some t) none args e f g = absurd (cc (e))
handle_verified-IsAnswer db (some t) (some b) args e f g =
    answered-IsAnswer db t (handle_callback db t (aliased_by b) args)
      (type-Reaches db (aliased_by b) t args (by-HasTest db b e) (exposed f) (g t refl))
  where
    exposed :
        require (any (str_eq t) exposed_types) incorrect_type ≡ none
        → any (str_eq t) exposed_types ≡ true
    exposed h = ground arith

-- Whatever a client asks for, the RPC answers with an error message or with results, and never
-- fails for want of a handler: a search gives at most the configured number of packages, all of
-- them with a packager, and a suggestion gives at most twenty names.
pub handle-IsAnswer :
    (db : RpcDb) (version : Option ℕ) (type by : Option String) (args : List String)
    → IsAnswer db (handle db version type by args)
unfolding handle
handle-IsAnswer db version type by args =
    elim (Option-cases (verify_inputs version (aliased_type type) by)) [
      | inr (e, p) ↦ rw (handle, p) tt
      | inl passes ↦
          let (v, b, t) = (verify_inputs_iff version (aliased_type type) by).0 passes in
          rw (handle, passes)
            (handle_verified-IsAnswer db (aliased_type type) by args (rw b.1 b.2)
              (rw t.1 (rw t.2 refl)) (λ s e. not_info type s e))
    ]
