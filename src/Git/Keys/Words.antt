-- ===== src/Git/Keys/Words.antt =====
-- The words that a shell reads in the command of an authorized_keys line.
use Prim.Native.Char.{Char}
use Prim.Native.String.{◌++◌ as str_append}
use Prim.Native.String.append
use text.Mathlib.TextLemmas.{append_assoc, append-nil as text-append-nil}
use mathlib.Core.List.{append-nil}
use mprweb.Prelude.{
  ℕ, ◌≡◌, refl, String, true, none, some, List, [], ◌∷◌, ◌++◌, map, ap, sym, ◌∙◌, All,
}
use mprweb.Git.Keys.{blank, all_safe, shell_quote, environment, shell_command}
use mprweb.Git.Keys.Quoting.{
  codes, bare, Reading, prepend, next_word, starts_word, read_words, all_words, shell_words,
  read_words-safe, read_words-shell_quote, starts_word-safe, starts_word-shell_quote,
}

read_words-blank :
    (s : String)
    → starts_word s ≡ true
    → read_words bare (str_append " " s) ≡ next_word (read_words bare s)
unfolding read_words
read_words-blank s h = rw (append.cons blank String.[] s) (rw (append.nil s) (rw h refl))

shell_command-assignment :
    (key var : String) (vars : List (String × String)) (command : String)
    → shell_command ((key, var) ∷ vars) command
      ≡ str_append key (
          str_append "="
            (str_append (shell_quote var) (str_append " " (shell_command vars command))))
unfolding shell_command
shell_command-assignment key var vars command =
    rw
      (append_assoc key
        (str_append "=" (str_append (shell_quote var) (str_append " " (environment vars))))
        (shell_quote command))
      (rw
        (append_assoc "=" (str_append (shell_quote var) (str_append " " (environment vars)))
          (shell_quote command))
        (rw
          (append_assoc (shell_quote var) (str_append " " (environment vars)) (shell_quote command))
          (rw (append_assoc " " (environment vars) (shell_quote command)) refl)))

all_words-assignment :
    (key var : List ℕ) (r : Reading) (ws : List (List ℕ))
    → all_words r ≡ some ws
    → all_words (prepend key (prepend (61 ∷ []) (prepend var (next_word r))))
      ≡ some ((key ++ 61 ∷ var) ∷ ws)
all_words-assignment key var none ws h = absurd (cc)
all_words-assignment key var (some (w, vs)) ws h =
    let same : w ∷ vs ≡ ws = cc in rw (same, append-nil var) refl

read_words-assignment :
    (key var rest : String)
    → all_safe key ≡ true
    → starts_word rest ≡ true
    → read_words bare
        (str_append key (str_append "=" (str_append (shell_quote var) (str_append " " rest))))
      ≡ prepend
          (codes key)
          (prepend (61 ∷ []) (prepend (codes var) (next_word (read_words bare rest))))
read_words-assignment key var rest safe starts =
    rw
      (
        read_words-safe key (str_append "=" (str_append (shell_quote var) (str_append " " rest)))
            safe,
        read_words-safe "=" (str_append (shell_quote var) (str_append " " rest)) refl,
        read_words-shell_quote var (str_append " " rest),
        read_words-blank rest starts,
      )
      refl

-- The word of the command.
last_word :
    (command : String)
    → all_words (read_words bare (shell_quote command)) ≡ some (codes command ∷ [])
unfolding read_words
last_word command =
    let same = text-append-nil (shell_quote command) in
    ap all_words (ap (read_words bare) (sym same) ∙ read_words-shell_quote command String.[])
    ∙ ap (λ w. some (w ∷ [])) (append-nil (codes command))

abbrev equals_sign : Char
equals_sign = Char.char 61 tt

starts_word-equals : (s : String) → starts_word (str_append "=" s) ≡ true
starts_word-equals s = rw (append.cons equals_sign String.[] s) refl

read_words-shell_command :
    (vars : List (String × String)) (command : String)
    → All (λ (v : String × String). all_safe v.0 ≡ true) vars
    → (starts_word (shell_command vars command) ≡ true)
      × (all_words (read_words bare (shell_command vars command))
          ≡ some (
              map (λ (v : String × String). codes v.0 ++ 61 ∷ codes v.1) vars
              ++ codes command ∷ []))
read_words-shell_command [] command h =
    let same : shell_command [] command ≡ shell_quote command =
      unfold shell_command in append.nil (shell_quote command) in
    rw same (starts_word-shell_quote command, last_word command)
read_words-shell_command ((key, var) ∷ vars) command (safe, h) =
    let (starts, words) = read_words-shell_command vars command h in
    let value = str_append (shell_quote var) (str_append " " (shell_command vars command)) in
    rw (shell_command-assignment key var vars command) (
      starts_word-safe key (str_append "=" value) safe (starts_word-equals value),
      rw (read_words-assignment key var (shell_command vars command) safe starts)
          (all_words-assignment (codes key) (codes var) _ _ words),
    )

-- The command of the line is read by a shell as one assignment for each
-- variable, of its value as it is, and the command as one more word, whatever characters they have. The
-- names of the variables have no character that would need quoting.
pub shell_words-shell_command :
    (vars : List (String × String)) (command : String)
    → All (λ (v : String × String). all_safe v.0 ≡ true) vars
    → shell_words (shell_command vars command)
      ≡ some (map (λ (v : String × String). codes v.0 ++ 61 ∷ codes v.1) vars ++ codes command ∷ [])
shell_words-shell_command vars command h =
    let (starts, words) = read_words-shell_command vars command h in rw starts words
