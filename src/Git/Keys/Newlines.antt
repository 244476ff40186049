-- ===== src/Git/Keys/Newlines.antt =====
-- Texts without a newline, and that quoting leaves them so.
use Prim.Native.Char.{Char, code}
use Prim.Native.String.{◌++◌ as str_append}
use Prim.Native.String.append
use mprweb.Prelude.{
  ℕ, ◌≡◌, refl, String, Bool, true, false, not, ◌&&◌, List, [], ◌∷◌, arith, ◌==◌, Bool-cases, inl,
  inr, All,
}
use mprweb.Git.Keys.{is_safe, all_safe, close_quote, shell_quote, environment, shell_command}

-- The text has no newline.
abbrev pub one_line : String → Bool
one_line String.[] = true
one_line (String.◌∷◌ c s) = not (code c == 10) && one_line s

pub one_line-head :
    (c : Char) (s : String) → one_line (String.◌∷◌ c s) ≡ true → (code c == 10) ≡ false
one_line-head c s h = ground arith

pub one_line-tail : (c : Char) (s : String) → one_line (String.◌∷◌ c s) ≡ true → one_line s ≡ true
one_line-tail c s h = ground arith

one_line-cons :
    (c : Char) (s : String)
    → (code c == 10) ≡ false
    → one_line s ≡ true
    → one_line (String.◌∷◌ c s) ≡ true
one_line-cons c s h k = rw (h, k) refl

one_line-append :
    (s t : String) → one_line s ≡ true → one_line t ≡ true → one_line (str_append s t) ≡ true
one_line-append String.[] t h k = rw (append.nil t) k
one_line-append (String.◌∷◌ c s) t h k = rw (append.cons c s t) (
    one_line-cons c (str_append s t) (one_line-head c s h)
      (one_line-append s t (one_line-tail c s h) k))

safe-no_newline : (n : ℕ) → is_safe n ≡ true → (n == 10) ≡ false
safe-no_newline n h = ground arith

one_line-safe : (s : String) → all_safe s ≡ true → one_line s ≡ true
one_line-safe String.[] h = refl
one_line-safe (String.◌∷◌ c s) h = elim (Bool-cases (is_safe (code c))) [
  | inr e ↦ absurd (cc (rw e at h))
  | inl e ↦ one_line-cons c s (safe-no_newline (code c) e) (one_line-safe s (rw e at h))
]

one_line-close_quote : (s : String) → one_line s ≡ true → one_line (close_quote s) ≡ true
one_line-close_quote String.[] h = refl
one_line-close_quote (String.◌∷◌ c s) h = elim (Bool-cases (code c == 39)) [
  | inl e ↦ rw e (one_line-close_quote s (one_line-tail c s h))
  | inr e ↦ rw e (
      one_line-cons c (close_quote s) (one_line-head c s h)
        (one_line-close_quote s (one_line-tail c s h)))
]

one_line-shell_quote : (s : String) → one_line s ≡ true → one_line (shell_quote s) ≡ true
unfolding shell_quote
one_line-shell_quote String.[] h = refl
one_line-shell_quote (String.◌∷◌ c s) h = elim (Bool-cases (all_safe (String.◌∷◌ c s))) [
  | inl e ↦ rw e h
  | inr e ↦ rw e (one_line-close_quote (String.◌∷◌ c s) h)
]

one_line-environment :
    (vars : List (String × String))
    → All (λ (v : String × String). all_safe v.0 ≡ true) vars
    → All (λ (v : String × String). one_line v.1 ≡ true) vars
    → one_line (environment vars) ≡ true
one_line-environment [] h k = refl
one_line-environment ((key, var) ∷ vars) (safe, h) (line, k) =
    let after = str_append " " (environment vars) in
    let value = str_append (shell_quote var) after in
    let rest = one_line-append " " (environment vars) refl (one_line-environment vars h k) in
    let quoted = one_line-append (shell_quote var) after (one_line-shell_quote var line) rest in
    one_line-append key (str_append "=" value) (one_line-safe key safe)
      (one_line-append "=" value refl quoted)

pub one_line-shell_command :
    (vars : List (String × String)) (command : String)
    → All (λ (v : String × String). all_safe v.0 ≡ true) vars
    → All (λ (v : String × String). one_line v.1 ≡ true) vars
    → one_line command ≡ true
    → one_line (shell_command vars command) ≡ true
unfolding shell_command
one_line-shell_command vars command h lines line =
    one_line-append (environment vars) (shell_quote command) (one_line-environment vars h lines)
      (one_line-shell_quote command line)
