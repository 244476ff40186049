-- ===== src/Auth/Required/Targets.antt =====
-- Where `_auth_required` sends a visitor who does not get through.
use Prim.Native.String.{◌++◌}
use text.Mathlib.Text.{starts_with}
use text.Mathlib.TextEquality.{starts_with_iff}
use text.Mathlib.TextPositions.{starts_with_of_prefix}
use text.Mathlib.TextLemmas.{append_assoc}
use mprweb.Prelude.{
  none, ◌≢◌, ◌⊎◌, ◌↔◌, Bool, false, ◌||◌, str_eq, eq_iff, sym, ◌∙◌, ap, str_len-append, str_len,
  str_drop, str_drop-append, str_len-append_slash, ◌-◌, ◌≡◌, refl, String, true, some, arith,
  Bool-cases, Option-cases, inl, inr,
}
use mprweb.Auth.Required.{RouteRequest, next_page}

-- What is left of a URL of this site is its path.
str_drop-location :
    (loc rest : String) → str_drop (str_len (loc ++ "/") - 1) ((loc ++ "/") ++ rest) ≡ "/" ++ rest
str_drop-location loc rest =
    let n : str_len (loc ++ "/") - 1 ≡ str_len loc = omega (arith, str_len-append_slash loc) in
    rw (n, append_assoc loc "/" rest) (str_drop-append loc ("/" ++ rest))

abbrev pub may_return : RouteRequest → Bool
may_return r = str_eq r.method "GET" || str_eq r.method "HEAD"

-- The pages that a visitor comes back to: the page that was asked for, if it can be visited; or else the
-- page of this site that they came from, and the homepage without one.
abbrev pub IsReturnPage : String → RouteRequest → String → Type 0
IsReturnPage loc r url =
    ((may_return r ≡ true) × (url ≡ r.path))
    ⊎ ((may_return r ≡ false)
        × (((r.referer ≡ none) × (url ≡ "/"))
            ⊎ ((r.referer ≡ some "") × (url ≡ "/"))
            ⊎ ((rest : String) × (r.referer ≡ some ((loc ++ "/") ++ rest)) × (url ≡ "/" ++ rest))))

-- The path that a referer of this site gives.
site_page :
    (loc referer : String)
    → starts_with referer (loc ++ "/") ≡ true
    → (rest : String) × (referer ≡ (loc ++ "/") ++ rest)
      × (str_drop (str_len (loc ++ "/") - 1) referer ≡ "/" ++ rest)
site_page loc referer h =
    let (rest, p) = (starts_with_iff referer (loc ++ "/")).0 h in
    (rest, sym p, ap (str_drop (str_len (loc ++ "/") - 1)) (sym p) ∙ str_drop-location loc rest)

starts_site : (loc rest : String) → starts_with ((loc ++ "/") ++ rest) (loc ++ "/") ≡ true
starts_site loc rest = starts_with_of_prefix (loc ++ "/") ((loc ++ "/") ++ rest) (rest, refl)

referer_page :
    (loc : String) (r : RouteRequest) (referer rest : String)
    → may_return r ≡ false
    → r.referer ≡ some referer
    → referer ≢ ""
    → referer ≡ (loc ++ "/") ++ rest
    → next_page loc r ≡ some ("/" ++ rest)
unfolding next_page
referer_page loc r referer rest form given filled e =
    let begins : starts_with referer (loc ++ "/") ≡ true = rw e (starts_site loc rest) in
    let left : str_drop (str_len (loc ++ "/") - 1) referer ≡ "/" ++ rest =
      rw e (str_drop-location loc rest) in
    ground (arith, eq_iff referer "", given, begins, left)

nonempty : (loc rest : String) → (loc ++ "/") ++ rest ≢ ""
nonempty loc rest e =
    let n = ap str_len e in
    absurd (omega (arith, n, str_len-append (loc ++ "/") rest, str_len-append_slash loc))

from_form :
    (loc : String) (r : RouteRequest) (url : String)
    → may_return r ≡ false
    → next_page loc r ≡ some url
    → ((r.referer ≡ none) × (url ≡ "/"))
      ⊎ ((r.referer ≡ some "") × (url ≡ "/"))
      ⊎ ((rest : String) × (r.referer ≡ some ((loc ++ "/") ++ rest)) × (url ≡ "/" ++ rest))
unfolding next_page
from_form loc r url form h = elim (Option-cases r.referer) [
  | inl absent ↦ inl (absent, ground arith)
  | inr (referer, given) ↦ elim (Bool-cases (str_eq referer "")) [
    | inl empty ↦ inr (inl (given ∙ ap some ((eq_iff referer "").0 empty), ground arith))
    | inr filled ↦ elim (Bool-cases (starts_with referer (loc ++ "/"))) [
      | inr other ↦ absurd (ground arith)
      | inl ours ↦
          let (rest, e, left) = site_page loc referer ours in
          inr (inr (rest, given ∙ ap some e, ground arith))
    ]
  ]
]

-- After the login a visitor comes back to the path of the request, if its method is GET or HEAD. For
-- another method it is the homepage if there is no Referer header, or an empty one; otherwise it is what
-- follows the address of the site in the header, the slash included, and a header that does not begin
-- with that address and a slash is refused. What follows the slash is not looked at, so that it may
-- begin with another one.
pub next_page_iff :
    (loc : String) (r : RouteRequest) (url : String)
    → (next_page loc r ≡ some url) ↔ IsReturnPage loc r url
unfolding next_page
next_page_iff loc r url = elim (Bool-cases (may_return r)) [
  | inl page ↦ (
    (λ h. inl (page, ground arith)),
    λ q. elim q [ inl (_, e) ↦ ground arith | inr (form, _) ↦ absurd (cc (form, page)) ],
  )
  | inr form ↦ (
    (λ h. inr (form, from_form loc r url form h)),
    λ q. elim q [
      | inl (page, _) ↦ absurd (cc (form, page))
      | inr (_, inl (absent, e)) ↦ ground (arith, absent, e)
      | inr (_, inr (inl (empty, e))) ↦ ground (arith, empty, e)
      | inr (_, inr (inr (rest, given, e))) ↦
          referer_page loc r ((loc ++ "/") ++ rest) rest form given (nonempty loc rest) refl
          ∙ ap some (sym e)
    ],
  )
]
