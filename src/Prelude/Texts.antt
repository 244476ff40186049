-- ===== src/Prelude/Texts.antt =====
-- Slices and tests of texts, by characters.
use Prim.Native.Nat.{ℕ, zero, suc, ◌+◌}
use Prim.Native.String.append
use Prim.Native.String.{String, ◌++◌}
use mathlib.Core.Path.{◌≡◌, refl, ap, ◌∙◌}
use mathlib.Core.Bool.{Bool, true, false, ◌&&◌, ◌||◌}
use mathlib.Core.List.{List, [], ◌∷◌, ◌++◌ as ◌++l◌}
use mathlib.Core.Logic.{◌≢◌, inl, inr}
use Prim.Native.Char.{Char, code}
use mprweb.Prelude.Tests.{leb, ◌==◌, ==_self, if◌then◌else◌, Bool-cases}
use native.Mathlib.Omega.{arith}
use text.Mathlib.Text.{◌==◌ as str_eq, starts_with}
use text.Mathlib.TextPositions.{eq_refl}

-- The number of characters.
abbrev pub str_len : String → ℕ
str_len String.[] = 0
str_len (String.◌∷◌ c s) = suc (str_len s)

-- The text without its first n characters, and those characters.
abbrev pub str_drop : ℕ → String → String
str_drop zero s = s
str_drop (suc n) String.[] = ""
str_drop (suc n) (String.◌∷◌ c s) = str_drop n s

abbrev pub str_take : ℕ → String → String
str_take zero s = ""
str_take (suc n) String.[] = ""
str_take (suc n) (String.◌∷◌ c s) = String.◌∷◌ c (str_take n s)

abbrev pub ends_with : String → String → Bool
ends_with String.[] t = str_eq "" t
ends_with (String.◌∷◌ c s) t = str_eq (String.◌∷◌ c s) t || ends_with s t

pub str_drop-append : (s t : String) → str_drop (str_len s) (s ++ t) ≡ t
str_drop-append String.[] t = append.nil t
str_drop-append (String.◌∷◌ c s) t = rw (append.cons c s t) (str_drop-append s t)

pub str_take-append : (s t : String) → str_take (str_len s) (s ++ t) ≡ s
str_take-append String.[] t = refl
str_take-append (String.◌∷◌ c s) t =
    rw (append.cons c s t) (ap (λ r. String.◌∷◌ c r) (str_take-append s t))

pub str_len-append : (s t : String) → str_len (s ++ t) ≡ str_len s + str_len t
str_len-append String.[] t = rw (append.nil t) (omega arith)
str_len-append (String.◌∷◌ c s) t = rw (append.cons c s t) (omega (arith, str_len-append s t))

pub str_len-append_slash : (s : String) → str_len (s ++ "/") ≡ suc (str_len s)
str_len-append_slash s = omega (arith, str_len-append s "/")

pub ends_with-append : (s t : String) → ends_with (s ++ t) t ≡ true
ends_with-append String.[] t = rw (append.nil t) (ends_with_self t)
  where
    ends_with_self : (t : String) → ends_with t t ≡ true
    ends_with_self String.[] = refl
    ends_with_self (String.◌∷◌ c s) = rw (eq_refl (String.◌∷◌ c s)) refl
ends_with-append (String.◌∷◌ c s) t = rw (append.cons c s t) (ground (arith, ends_with-append s t))

abbrev prepend : Char → List String → List String
prepend c [] = String.◌∷◌ c String.[] ∷ []
prepend c (w ∷ ws) = String.◌∷◌ c w ∷ ws

-- `s.split(sep)` for a separator of one character, given by its number.
unfoldable pub split : ℕ → String → List String
split sep String.[] = "" ∷ []
split sep (String.◌∷◌ c s) =
    let rest = split sep s in if code c == sep then "" ∷ rest else prepend c rest

-- The white space that `str.strip` removes.
abbrev pub is_space : ℕ → Bool
is_space n =
    (leb 9 n && leb n 13)
    || (leb 28 n && leb n 32)
    || n == 133
    || n == 160
    || n == 5760
    || (leb 8192 n && leb n 8202)
    || n == 8232
    || n == 8233
    || n == 8239
    || n == 8287
    || n == 12288

unfoldable pub lstrip : String → String
lstrip String.[] = ""
lstrip (String.◌∷◌ c s) = let rest = lstrip s in if is_space (code c) then rest else String.◌∷◌ c s

unfoldable pub rstrip : String → String
rstrip String.[] = ""
rstrip (String.◌∷◌ c s) =
    let rest = rstrip s in if is_space (code c) && str_eq rest "" then "" else String.◌∷◌ c rest

unfoldable pub strip : String → String
unfolding lstrip rstrip
strip s = lstrip (rstrip s)

-- `sub in s`
abbrev pub contains : String → String → Bool
contains String.[] sub = str_eq sub ""
contains (String.◌∷◌ c s) sub = starts_with (String.◌∷◌ c s) sub || contains s sub

-- Whether a list of texts holds one, and the list without repetitions.
abbrev pub holds : String → List String → Bool
holds s [] = false
holds s (t ∷ ts) = str_eq t s || holds s ts

abbrev pub distinct : List String → List String
distinct [] = []
distinct (s ∷ ss) = let rest = distinct ss in if holds s rest then rest else s ∷ rest

prepend-append :
    (c : Char) (ws xs : List String) → ws ≢ [] → prepend c (ws ++l xs) ≡ prepend c ws ++l xs
prepend-append c [] xs h = absurd (h refl)
prepend-append c (w ∷ ws) xs h = refl

split-ne-nil : (sep : ℕ) (s : String) → split sep s ≢ []
unfolding split
split-ne-nil sep String.[] e = cc (e)
split-ne-nil sep (String.◌∷◌ c s) e = elim (Bool-cases (code c == sep)) [
  | inl here ↦ cc (rw here at e)
  | inr away ↦ prepend-ne-nil c (split sep s) (rw away at e)
]
  where
    prepend-ne-nil : (d : Char) (ws : List String) → prepend d ws ≡ [] → ⊥
    prepend-ne-nil d [] e = cc (e)
    prepend-ne-nil d (w ∷ ws) e = cc (e)

-- A separator divides the parts of what stands before it from those of what follows.
pub split-append :
    (sep : Char) (s t : String)
    → split (code sep) (s ++ String.◌∷◌ sep t) ≡ split (code sep) s ++l split (code sep) t
unfolding split
split-append sep String.[] t = rw (append.nil (String.◌∷◌ sep t)) (rw (==_self (code sep)) refl)
split-append sep (String.◌∷◌ c s) t =
    rw (append.cons c s (String.◌∷◌ sep t)) (elim (Bool-cases (code c == code sep)) [
      | inl here ↦ rw here (ap (λ (ws : List String). "" ∷ ws) (split-append sep s t))
      | inr away ↦ rw away (
          ap (prepend c) (split-append sep s t)
          ∙ prepend-append c (split (code sep) s) (split (code sep) t) (split-ne-nil _ s))
    ])
