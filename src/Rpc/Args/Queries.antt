-- ===== src/Rpc/Args/Queries.antt =====
-- Which arguments a query string gives: the last key decides.
use Prim.Native.Char.{Char, code}
use Prim.Native.String.{◌++◌ as str_append}
use Prim.Native.String.append
use text.Mathlib.Text.{starts_with}
use text.Mathlib.TextEquality.{starts_with_iff}
use text.Mathlib.TextPositions.{starts_with_of_prefix}
use mathlib.Core.List.{append_assoc, append-nil, map-append}
use mprweb.Prelude.{
  ℕ, ◌≡◌, refl, sym, ap, ◌∙◌, String, false, List, [], ◌∷◌, ◌++◌, map, filter, All, split,
  split-append, str_drop, str_drop-append, Bool-cases, inl, inr, ◌==◌, arith,
}
use mprweb.Rpc.Args.{reversed, is_arg, key_value, values_until, args_of, parse_args}

abbrev ampersand : Char
ampersand = Char.char 38 tt

-- A text without the character &.
abbrev pub IsPart : String → Type 0
IsPart s = split 38 s ≡ s ∷ []

reversed-snoc {ℓ} : {A : Type ℓ} (xs ys : List A) → reversed (xs ++ ys) ≡ reversed ys ++ reversed xs
reversed-snoc [] ys = sym (append-nil (reversed ys))
reversed-snoc (x ∷ xs) ys =
    ap (λ zs. zs ++ x ∷ []) (reversed-snoc xs ys)
    ∙ append_assoc (reversed ys) (reversed xs) (x ∷ [])

-- A part that begins with characters other than &.
IsPart-cons : (c : Char) (s : String) → (code c == 38) ≡ false → IsPart s → IsPart (String.◌∷◌ c s)
unfolding split
IsPart-cons c s other h = rw other (rw h refl)

abbrev pub arg_of : String → String
arg_of v = str_append "arg=" v

arg_of-IsPart : (v : String) → IsPart v → IsPart (arg_of v)
arg_of-IsPart v h =
    rw
      (
        append.cons (Char.char 97 tt) "rg=" v,
        append.cons (Char.char 114 tt) "g=" v,
        append.cons (Char.char 103 tt) "=" v,
        append.cons (Char.char 61 tt) "" v,
        append.nil v,
      )
      (IsPart-cons _ _ refl (IsPart-cons _ _ refl (IsPart-cons _ _ refl (IsPart-cons _ _ refl h))))

key_value-arg_of : (v : String) → key_value (arg_of v) ≡ ("arg", v)
key_value-arg_of v =
    rw (starts_with_of_prefix "arg=" (arg_of v) (v, refl))
      (ap (λ s. ("arg", s)) (str_drop-append "arg=" v))

-- Where `arg` is the last argument of the query string, its value is the only argument, whatever
-- stands before it.
pub parse_args-last_arg :
    (before v : String)
    → IsPart v
    → parse_args (str_append before (String.◌∷◌ ampersand (arg_of v))) ≡ v ∷ []
unfolding parse_args
parse_args-last_arg before v h =
    ap (λ ps. args_of (map key_value (filter is_arg (reversed ps))))
      (split-append ampersand before (arg_of v)
        ∙ ap (λ ps. split 38 before ++ ps) (arg_of-IsPart v h))
    ∙ ap (λ ps. args_of (map key_value (filter is_arg ps)))
        (reversed-snoc (split 38 before) (arg_of v ∷ []))
    ∙ rw (starts_with_of_prefix "arg=" (arg_of v) (v, refl)) (rw (key_value-arg_of v) refl)

abbrev pub array_arg : String → String
array_arg v = str_append "arg[]=" v

-- arg[]=v&arg[]=w and so on, for a first value and the others.
abbrev pub array_query : String → List String → String
array_query v [] = array_arg v
array_query v (w ∷ ws) = str_append (array_arg v) (String.◌∷◌ ampersand (array_query w ws))

array_arg-IsPart : (v : String) → IsPart v → IsPart (array_arg v)
array_arg-IsPart v h =
    rw
      (
        append.cons (Char.char 97 tt) "rg[]=" v,
        append.cons (Char.char 114 tt) "g[]=" v,
        append.cons (Char.char 103 tt) "[]=" v,
        append.cons (Char.char 91 tt) "]=" v,
        append.cons (Char.char 93 tt) "=" v,
        append.cons (Char.char 61 tt) "" v,
        append.nil v,
      )
      (IsPart-cons _ _ refl (
        IsPart-cons _ _ refl (
          IsPart-cons _ _ refl
            (IsPart-cons _ _ refl (IsPart-cons _ _ refl (IsPart-cons _ _ refl h))))))

split-array_query :
    (v : String) (vs : List String)
    → All IsPart (v ∷ vs)
    → split 38 (array_query v vs) ≡ map array_arg (v ∷ vs)
split-array_query v [] h = array_arg-IsPart v h.0
split-array_query v (w ∷ ws) h =
    split-append ampersand (array_arg v) (array_query w ws)
    ∙ ap (λ ps. ps ++ split 38 (array_query w ws)) (array_arg-IsPart v h.0)
    ∙ ap (λ ps. array_arg v ∷ ps) (split-array_query w ws h.1)

abbrev array_pair : String → String × String
array_pair v = ("arg[]", v)

-- The fourth character of a text.
abbrev fourth : String → ℕ
fourth s = elim (str_drop 3 s) [ String.[] ↦ 0 | String.◌∷◌ c t ↦ code c ]

fourth-arg_of : (v : String) → fourth (arg_of v) ≡ 61
fourth-arg_of v =
    rw
      (
        append.cons (Char.char 97 tt) "rg=" v,
        append.cons (Char.char 114 tt) "g=" v,
        append.cons (Char.char 103 tt) "=" v,
        append.cons (Char.char 61 tt) "" v,
      )
      refl

fourth-array_arg : (v : String) → fourth (array_arg v) ≡ 91
fourth-array_arg v =
    rw
      (
        append.cons (Char.char 97 tt) "rg[]=" v,
        append.cons (Char.char 114 tt) "g[]=" v,
        append.cons (Char.char 103 tt) "[]=" v,
        append.cons (Char.char 91 tt) "]=" v,
      )
      refl

not_arg : (v : String) → starts_with (array_arg v) "arg=" ≡ false
not_arg v = elim (Bool-cases (starts_with (array_arg v) "arg=")) [
  | inr e ↦ e
  | inl e ↦
      let (rest, p) = (starts_with_iff (array_arg v) "arg=").0 e in
      absurd (omega (arith, fourth-arg_of rest, fourth-array_arg v, ap fourth p))
]

parts-array :
    (vs : List String) → map key_value (filter is_arg (map array_arg vs)) ≡ map array_pair vs
parts-array [] = refl
parts-array (v ∷ vs) = rw (not_arg v) (
    rw (starts_with_of_prefix "arg[]=" (array_arg v) (v, refl)) (
      rw (not_arg v)
        (rw (str_drop-append "arg[]=" v) (ap (λ ps. array_pair v ∷ ps) (parts-array vs)))))

reversed-map : (vs : List String) → reversed (map array_arg vs) ≡ map array_arg (reversed vs)
reversed-map [] = refl
reversed-map (v ∷ vs) =
    ap (λ ps. ps ++ array_arg v ∷ []) (reversed-map vs)
    ∙ sym (map-append array_arg (reversed vs) (v ∷ []))

values_until-array : (vs : List String) → values_until "arg[]" (map array_pair vs) ≡ vs
values_until-array [] = refl
values_until-array (v ∷ vs) = ap (λ ws. v ∷ ws) (values_until-array vs)

args_of-array : (vs : List String) → args_of (map array_pair vs) ≡ vs
args_of-array [] = refl
args_of-array (v ∷ vs) = values_until-array (v ∷ vs)

-- A query string of `arg[]` only gives all of its values, from the last to the first.
pub parse_args-arrays :
    (v : String) (vs : List String)
    → All IsPart (v ∷ vs)
    → parse_args (array_query v vs) ≡ reversed (v ∷ vs)
unfolding parse_args
parse_args-arrays v vs h =
    ap (λ ps. args_of (map key_value (filter is_arg (reversed ps)))) (split-array_query v vs h)
    ∙ ap (λ ps. args_of (map key_value (filter is_arg ps))) (reversed-map (v ∷ vs))
    ∙ ap args_of (parts-array (reversed (v ∷ vs)))
    ∙ args_of-array (reversed (v ∷ vs))
