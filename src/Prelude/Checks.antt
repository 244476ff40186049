-- ===== src/Prelude/Checks.antt =====
-- Checks that run in order until one of them finds an error, and steps of which one may give nothing.
use mathlib.Core.Path.{◌≡◌, refl}
use mathlib.Core.Logic.{◌↔◌}
use mathlib.Core.Bool.{Bool, true, false, not, ◌||◌}
use mathlib.Core.Option.{Option, none, some}
use mathlib.Core.List.{List, [], ◌∷◌}
use mprweb.Prelude.Tests.{if◌then◌else◌}
use mprweb.Prelude.Lists.{All}

pub negated : (b : Bool) → not b ≡ true → b ≡ false
negated true e = absurd (cc (e))
negated false e = refl

pub not_second : (a b : Bool) → not (a || b) ≡ true → b ≡ false
not_second true b e = absurd (cc (e))
not_second false b e = negated b e

infixl 5 ◌>>=◌
abbrev pub ◌>>=◌ {ℓ κ} : {A : Type ℓ} {B : Type κ} → Option A → (A → Option B) → Option B
none >>= f = none
some a >>= f = f a

module _ {E : Type 0} where
  infixr 40 ◌or_else◌
  abbrev pub ◌or_else◌ : Option E → Option E → Option E
  some e or_else next = some e
  none or_else next = next

  abbrev pub first_error : {A : Type 0} → (A → Option E) → List A → Option E
  first_error f [] = none
  first_error f (x ∷ xs) = f x or_else first_error f xs

  -- An error, unless the condition holds.
  abbrev pub require : Bool → E → Option E
  require b e = if b then none else some e

  pub or_else_iff : (a b : Option E) → (a or_else b ≡ none) ↔ ((a ≡ none) × (b ≡ none))
  or_else_iff none b = ((λ h. (refl, h)), λ (p, q). q)
  or_else_iff (some e) b = ((λ h. absurd (cc)), λ (p, q). absurd (cc))

  pub require_iff : (b : Bool) (e : E) → (require b e ≡ none) ↔ (b ≡ true)
  require_iff true e = ((λ h. refl), λ h. refl)
  require_iff false e = ((λ h. absurd (cc)), λ h. absurd (cc))

  pub first_error_iff :
      {A : Type 0} (f : A → Option E) (P : A → Type 0) (xs : List A)
      → ((x : A) → (f x ≡ none) ↔ P x)
      → (first_error f xs ≡ none) ↔ All P xs
  first_error_iff f P [] h = ((λ e. tt), λ e. refl)
  first_error_iff f P (x ∷ xs) h =
      let rest = first_error_iff f P xs h in
      let both = or_else_iff (f x) (first_error f xs) in
      (
        (λ e. let (p, q) = both.0 e in ((h x).0 p, rest.0 q)),
        λ (p, q). both.1 ((h x).1 p, rest.1 q),
      )
