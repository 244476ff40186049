-- ===== src/Git/Keys/Quoting.antt =====
-- The words that a shell reads, and what it reads where a quoted text stands.
use Prim.Native.Char.{code}
use Prim.Native.String.{◌++◌ as str_append}
use Prim.Native.String.append
use mprweb.Prelude.{
  ℕ, ◌≡◌, refl, String, Bool, true, false, not, Option, none, some, List, [], ◌∷◌, ◌++◌, arith,
  ◌==◌, Bool-cases, inl, inr, sym, if◌then◌else◌,
}
use mprweb.Git.Keys.{apostrophe, is_safe, all_safe, close_quote, shell_quote}

abbrev pub codes : String → List ℕ
codes String.[] = []
codes (String.◌∷◌ c s) = code c ∷ codes s

-- Outside of quotation marks, between apostrophes, and between double quotes.
pub data Mode : Type 0 where
  bare single double : Mode

-- The rest of a word, and the words after it.
abbrev pub Reading : Type 0
Reading = Option (List ℕ × List (List ℕ))

abbrev pub prepend : List ℕ → Reading → Reading
prepend ns none = none
prepend ns (some (w, ws)) = some (ns ++ w, ws)

abbrev pub next_word : Reading → Reading
next_word none = none
next_word (some (w, ws)) = some ([], w ∷ ws)

-- A word begins here: the text is not at its end, or at a blank.
abbrev pub starts_word : String → Bool
starts_word String.[] = false
starts_word (String.◌∷◌ c s) = not (code c == 32)

-- What a POSIX shell reads in words with one blank between them. It is none where an unquoted
-- character may have a meaning to the shell, between double quotes for all but the apostrophe, and for
-- a quotation that does not end.
unfoldable pub read_words : Mode → String → Reading
read_words bare String.[] = some ([], [])
read_words _ String.[] = none
read_words bare (String.◌∷◌ c s) =
    let in_single = read_words single s in
    let in_double = read_words double s in
    let rest = read_words bare s in
    if code c == 39
    then in_single
    else if code c == 34
    then in_double
    else if code c == 32
    then (if starts_word s then next_word rest else none)
    else if is_safe (code c)
    then prepend (code c ∷ []) rest
    else none
read_words single (String.◌∷◌ c s) =
    let after = read_words bare s in
    let rest = read_words single s in if code c == 39 then after else prepend (code c ∷ []) rest
read_words double (String.◌∷◌ c s) =
    let after = read_words bare s in
    let rest = read_words double s in
    if code c == 34 then after else if code c == 39 then prepend (39 ∷ []) rest else none

abbrev pub all_words : Reading → Option (List (List ℕ))
all_words none = none
all_words (some (w, ws)) = some (w ∷ ws)

abbrev pub shell_words : String → Option (List (List ℕ))
shell_words s = if starts_word s then all_words (read_words bare s) else none

prepend-prepend :
    (ns : List ℕ) (n : ℕ) (r : Reading) → prepend (n ∷ []) (prepend ns r) ≡ prepend (n ∷ ns) r
prepend-prepend ns n none = refl
prepend-prepend ns n (some (w, ws)) = refl

prepend-nothing : (r : Reading) → prepend [] r ≡ r
prepend-nothing none = refl
prepend-nothing (some (w, ws)) = refl

pub safe-not_special :
    (n : ℕ) → is_safe n ≡ true → ((n == 39) ≡ false) × ((n == 34) ≡ false) × ((n == 32) ≡ false)
safe-not_special n h = (ground arith, ground arith, ground arith)

pub read_words-safe :
    (s t : String)
    → all_safe s ≡ true
    → read_words bare (str_append s t) ≡ prepend (codes s) (read_words bare t)
unfolding read_words
read_words-safe String.[] t h = rw (append.nil t) (sym (prepend-nothing (read_words bare t)))
read_words-safe (String.◌∷◌ c s) t h = elim (Bool-cases (is_safe (code c))) [
  | inr e ↦ absurd (cc (rw e at h))
  | inl e ↦
      let (p, q, r) = safe-not_special (code c) e in
      rw (append.cons c s t) (
        rw (p, q, r, e, read_words-safe s t (rw e at h))
          (prepend-prepend (codes s) (code c) (read_words bare t)))
]

read_words-close_quote :
    (s t : String)
    → read_words single (str_append (close_quote s) t) ≡ prepend (codes s) (read_words bare t)
unfolding read_words
read_words-close_quote String.[] t =
    rw (append.cons apostrophe String.[] t)
      (rw (append.nil t) (sym (prepend-nothing (read_words bare t))))
read_words-close_quote (String.◌∷◌ c s) t = elim (Bool-cases (code c == 39)) [
  | inr e ↦
      rw (e, append.cons c (close_quote s) t)
        (rw (e, read_words-close_quote s t)
          (prepend-prepend (codes s) (code c) (read_words bare t)))
  | inl e ↦
      let same : code c ≡ 39 = ground arith in
      rw e (
        simp (
          append.cons,
          read_words-close_quote s t,
          same,
          prepend-prepend (codes s) 39 (read_words bare t),
        ))
]

pub read_words-shell_quote :
    (s t : String)
    → read_words bare (str_append (shell_quote s) t) ≡ prepend (codes s) (read_words bare t)
unfolding shell_quote read_words
read_words-shell_quote String.[] t =
    rw (append.cons apostrophe (String.◌∷◌ apostrophe String.[]) t) (
      rw (append.cons apostrophe String.[] t)
        (rw (append.nil t) (sym (prepend-nothing (read_words bare t)))))
read_words-shell_quote (String.◌∷◌ c s) t = elim (Bool-cases (all_safe (String.◌∷◌ c s))) [
  | inl e ↦ rw e (read_words-safe (String.◌∷◌ c s) t e)
  | inr e ↦
      rw (e, append.cons apostrophe (close_quote (String.◌∷◌ c s)) t)
        (read_words-close_quote (String.◌∷◌ c s) t)
]

pub starts_word-safe :
    (s t : String) → all_safe s ≡ true → starts_word t ≡ true → starts_word (str_append s t) ≡ true
starts_word-safe String.[] t h k = rw (append.nil t) k
starts_word-safe (String.◌∷◌ c s) t h k = elim (Bool-cases (is_safe (code c))) [
  | inr e ↦ absurd (cc (rw e at h))
  | inl e ↦ let (p, q, r) = safe-not_special (code c) e in rw (append.cons c s t) (rw r refl)
]

pub starts_word-shell_quote : (s : String) → starts_word (shell_quote s) ≡ true
unfolding shell_quote
starts_word-shell_quote String.[] = refl
starts_word-shell_quote (String.◌∷◌ c s) = elim (Bool-cases (all_safe (String.◌∷◌ c s))) [
  | inl e ↦
      let safe : is_safe (code c) ≡ true = ground arith in
      let (p, q, r) = safe-not_special (code c) safe in rw e (rw r refl)
  | inr e ↦ rw e refl
]
