-- ===== src/Git/Keys/Options.antt =====
-- What sshd and the shell make of the line that `format_command` makes.
use Prim.Native.Char.{Char, code}
use Prim.Native.String.{◌++◌ as str_append}
use Prim.Native.String.append
use text.Mathlib.TextLemmas.{append_assoc}
use mprweb.Prelude.{
  ℕ, ◌≡◌, refl, String, Bool, true, false, not, Option, none, some, List, [], ◌∷◌, ◌++◌, map, arith,
  ◌==◌, Bool-cases, inl, inr, ap, ◌∙◌, All, if◌then◌else◌,
}
use mprweb.Git.Keys.{
  apostrophe, double_quote, backslash, all_safe, close_quote, shell_quote, escape_double_quotes,
  environment, shell_command, format_command,
}
use mprweb.Git.Keys.Quoting.{codes, shell_words}
use mprweb.Git.Keys.Newlines.{one_line, one_line-head, one_line-tail, one_line-shell_command}
use mprweb.Git.Keys.Words.{shell_words-shell_command}

abbrev pub with_code : ℕ → Option (List ℕ × String) → Option (List ℕ × String)
with_code n none = none
with_code n (some (ns, rest)) = some (n ∷ ns, rest)

-- What sshd reads of an option from its opening double quote on: the characters up to the closing one,
-- with a backslash before a double quote taken off, and the rest. A newline ends the line. The flag tells that the
-- character before was a backslash.
unfoldable pub dequote : Bool → String → Option (List ℕ × String)
dequote after_backslash String.[] = none
dequote false (String.◌∷◌ c s) =
    let escaped = dequote true s in
    let rest = dequote false s in
    if code c == 34
    then some ([], s)
    else if code c == 92
    then escaped
    else if code c == 10
    then none
    else with_code (code c) rest
dequote true (String.◌∷◌ c s) =
    let escaped = dequote true s in
    let rest = dequote false s in
    if code c == 34
    then with_code 34 rest
    else if code c == 92
    then with_code 92 escaped
    else if code c == 10
    then none
    else with_code 92 (with_code (code c) rest)

-- The text does not end in a backslash, and is not empty.
abbrev pub ends_well : String → Bool
ends_well String.[] = false
ends_well (String.◌∷◌ c String.[]) = not (code c == 92)
ends_well (String.◌∷◌ c (String.◌∷◌ d s)) = ends_well (String.◌∷◌ d s)

dequote-close : (rest : String) → dequote false (str_append "\"" rest) ≡ some ([], rest)
unfolding dequote
dequote-close rest = rw (append.cons double_quote String.[] rest) (rw (append.nil rest) refl)

escape-append :
    (c : Char) (s rest : String)
    → str_append (escape_double_quotes (String.◌∷◌ c s)) rest ≡ (
        if code c == 34
        then String.◌∷◌ backslash
            (String.◌∷◌ double_quote (str_append (escape_double_quotes s) rest))
        else String.◌∷◌ c (str_append (escape_double_quotes s) rest))
escape-append c s rest = elim (Bool-cases (code c == 34)) [
  | inl e ↦ rw e (
      rw (append.cons backslash (String.◌∷◌ double_quote (escape_double_quotes s)) rest)
        (rw (append.cons double_quote (escape_double_quotes s) rest) refl))
  | inr e ↦ rw e (append.cons c (escape_double_quotes s) rest)
]

dequote-char :
    (c : Char) (s text rest : String) (ns : List ℕ)
    → (code c == 10) ≡ false
    → dequote false (str_append (escape_double_quotes s) text) ≡ some (ns, rest)
    → ((code c == 92) ≡ true
        → dequote true (str_append (escape_double_quotes s) text) ≡ some (92 ∷ ns, rest))
    → (dequote false (str_append (escape_double_quotes (String.◌∷◌ c s)) text)
        ≡ some (code c ∷ ns, rest))
      × (dequote true (str_append (escape_double_quotes (String.◌∷◌ c s)) text)
          ≡ some (92 ∷ code c ∷ ns, rest))
unfolding dequote
dequote-char c s text rest ns on_line plain escaped =
    let split = escape-append c s text in
    elim (Bool-cases (code c == 34)) [
      | inl e ↦
          let same : code c ≡ 34 = ground arith in rw split (rw (e, same) (rw plain (refl, refl)))
      | inr e ↦ elim (Bool-cases (code c == 92)) [
        | inl f ↦
            let same : code c ≡ 92 = ground arith in
            rw split (rw e (rw e (rw f (rw (escaped f) (rw same (refl, refl))))))
        | inr f ↦ rw split (rw e (rw e (rw f (rw on_line (rw plain (refl, refl))))))
      ]
    ]

-- The escaped text is read back, whether or not a backslash stands before it.
dequote-escape :
    (s rest : String)
    → ends_well s ≡ true
    → one_line s ≡ true
    → (dequote false (str_append (escape_double_quotes s) (str_append "\"" rest))
        ≡ some (codes s, rest))
      × (dequote true (str_append (escape_double_quotes s) (str_append "\"" rest))
          ≡ some (92 ∷ codes s, rest))
dequote-escape String.[] rest h k = absurd (cc (h))
dequote-escape (String.◌∷◌ c String.[]) rest h k =
    dequote-char c String.[] (str_append "\"" rest) rest [] (one_line-head c String.[] k)
      (ap (dequote false) (append.nil (str_append "\"" rest)) ∙ dequote-close rest)
      (λ e. absurd (ground arith))
dequote-escape (String.◌∷◌ c (String.◌∷◌ d s)) rest h k =
    let (plain, escaped) =
      dequote-escape (String.◌∷◌ d s) rest h (one_line-tail c (String.◌∷◌ d s) k) in
    dequote-char c (String.◌∷◌ d s) (str_append "\"" rest) rest (codes (String.◌∷◌ d s))
      (one_line-head c (String.◌∷◌ d s) k) plain (λ e. escaped)

ends_well-cons : (c : Char) (s : String) → ends_well s ≡ true → ends_well (String.◌∷◌ c s) ≡ true
ends_well-cons c String.[] h = absurd (cc (h))
ends_well-cons c (String.◌∷◌ d s) h = h

ends_well-append : (s t : String) → ends_well t ≡ true → ends_well (str_append s t) ≡ true
ends_well-append String.[] t h = rw (append.nil t) h
ends_well-append (String.◌∷◌ c s) t h =
    rw (append.cons c s t) (ends_well-cons c (str_append s t) (ends_well-append s t h))

ends_well-close_quote : (s : String) → ends_well (close_quote s) ≡ true
ends_well-close_quote String.[] = refl
ends_well-close_quote (String.◌∷◌ c s) = elim (Bool-cases (code c == 39)) [
  | inl e ↦ rw e (ends_well-cons apostrophe (close_quote s) (ends_well-close_quote s))
  | inr e ↦ rw e (ends_well-cons c (close_quote s) (ends_well-close_quote s))
]

ends_well-safe :
    (c : Char) (s : String) → all_safe (String.◌∷◌ c s) ≡ true → ends_well (String.◌∷◌ c s) ≡ true
ends_well-safe c String.[] h = ground arith
ends_well-safe c (String.◌∷◌ d s) h = ends_well-safe d s (ground arith)

ends_well-shell_quote : (s : String) → ends_well (shell_quote s) ≡ true
unfolding shell_quote
ends_well-shell_quote String.[] = refl
ends_well-shell_quote (String.◌∷◌ c s) = elim (Bool-cases (all_safe (String.◌∷◌ c s))) [
  | inl e ↦ rw e (ends_well-safe c s e)
  | inr e ↦ rw e (
      ends_well-cons apostrophe (close_quote (String.◌∷◌ c s))
        (ends_well-close_quote (String.◌∷◌ c s)))
]

ends_well-shell_command :
    (vars : List (String × String)) (command : String)
    → ends_well (shell_command vars command) ≡ true
unfolding shell_command
ends_well-shell_command vars command =
    ends_well-append (environment vars) (shell_quote command) (ends_well-shell_quote command)

-- What the line that `format_command` makes comes to. After the opening of the option, sshd reads the
-- characters of a command, and what follows is the options and the key. A shell reads that command as
-- one assignment for each variable, of its value as it is, and the command as one more word, whatever
-- characters they have but a newline, which would end the line. The names of the variables have no
-- character that would need quoting.
pub format_command-runs :
    (vars : List (String × String)) (command ssh_opts ssh_key : String)
    → All (λ (v : String × String). all_safe v.0 ≡ true) vars
    → All (λ (v : String × String). one_line v.1 ≡ true) vars
    → one_line command ≡ true
    → (option text : String) × (format_command vars command ssh_opts ssh_key
        ≡ str_append "command=\"" option)
      × (dequote false option
          ≡ some (codes text, str_append "," (str_append ssh_opts (str_append " " ssh_key))))
      × (shell_words text
          ≡ some (
              map (λ (v : String × String). codes v.0 ++ 61 ∷ codes v.1) vars
              ++ codes command ∷ []))
unfolding format_command
format_command-runs vars command ssh_opts ssh_key h lines line =
    let rest = str_append "," (str_append ssh_opts (str_append " " ssh_key)) in
    let text = shell_command vars command in
    (
      str_append (escape_double_quotes text) (str_append "\"" rest),
      text,
      ap (λ (x : String). str_append "command=\"" (str_append (escape_double_quotes text) x))
          (append_assoc "\"" "," (str_append ssh_opts (str_append " " ssh_key))),
      (dequote-escape text rest (ends_well-shell_command vars command)
          (one_line-shell_command vars command h lines line)).0,
      shell_words-shell_command vars command h,
    )
