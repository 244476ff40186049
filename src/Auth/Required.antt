-- ===== src/Auth/Required.antt =====
-- `_auth_required` and `account_type_required` of aurweb/auth/__init__.py: what a route does for a
-- request before its own code runs.
pub mod Targets
use mprweb.Prelude.{
  str_len, str_drop, ℕ, zero, suc, ◌-◌, ◌≡◌, refl, ap, String, Bool, true, false, not, ◌&&◌, ◌||◌,
  Option, none, some, List, arith, Bool-cases, elem, str_eq, eq_iff, inl, inr, if◌then◌else◌,
}
use Prim.Native.String.{◌++◌}
use text.Mathlib.Text.{starts_with}

pub record RouteRequest : Type 0 where
  pub authenticated : Bool
  pub account_type_id : ℕ
  pub method : String
  pub path : String
  pub referer : Option String

pub data Decision : Type 0 where
  -- the decorated function runs
  run : Decision
  -- RedirectResponse with status 303
  see_other : String → Decision
  -- HTTPException with status 400
  bad_referer : Decision

-- The page to come back to; none where the Referer header is refused.
unfoldable pub next_page : String → RouteRequest → Option String
next_page aur_location r =
    if str_eq r.method "GET" || str_eq r.method "HEAD" then some r.path else elim r.referer [
      | none ↦ some "/"
      | some referer ↦
          let aur = aur_location ++ "/" in
          if str_eq referer ""
          then some "/"
          else if starts_with referer aur
          then some (str_drop (str_len aur - 1) referer)
          else none
    ]

-- `urlencode` stands for filters.urlencode({"next": url}).
unfoldable pub auth_required : (String → String) → String → Bool → RouteRequest → Decision
unfolding next_page
auth_required urlencode aur_location auth_goal r =
    if (r.authenticated && auth_goal) || (not r.authenticated && not auth_goal)
    then run
    else if not auth_goal
    then see_other "/"
    else elim (next_page aur_location r) [
      | none ↦ bad_referer
      | some url ↦ see_other ("/login?" ++ urlencode url)
    ]

unfoldable pub account_type_required : List ℕ → RouteRequest → Decision
account_type_required one_of r = if elem r.account_type_id one_of then run else see_other "/"
