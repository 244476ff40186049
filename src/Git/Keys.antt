-- ===== src/Git/Keys.antt =====
-- aurweb/git/auth.py: the line of an authorized_keys file that sshd asks for a key. `shlex.quote` is
-- the standard library's.
pub mod Quoting
pub mod Words
pub mod Newlines
pub mod Options
pub mod Answers
mod Tests
use Prim.Native.Char.{Char, code}
use Prim.Native.String.{◌++◌ as str_append}
use mprweb.Prelude.{
  ℕ, String, Bool, true, false, not, ◌&&◌, ◌||◌, none, some, List, [], ◌∷◌, any, find?, ltb, leb,
  elem, ◌==◌, str_eq, if◌then◌else◌,
}
use mprweb.Models.{User, user_id}

-- SSHPubKeys
pub record SshPubKey : Type 0 where
  pub user_id : ℕ
  pub pub_key : String

-- The section "auth" of the configuration.
pub record AuthConfig : Type 0 where
  pub valid_keytypes : List String
  pub git_serve_cmd : String
  pub ssh_options : String

-- exit(1), an AttributeError (a key without a user), or the line that is printed.
pub data KeyAnswer : Type 0 where
  exited key_attribute_error : KeyAnswer
  printed : String → KeyAnswer

abbrev pub apostrophe : Char
apostrophe = Char.char 39 tt

abbrev pub blank : Char
blank = Char.char 32 tt

abbrev pub double_quote : Char
double_quote = Char.char 34 tt

abbrev pub backslash : Char
backslash = Char.char 92 tt

-- The characters that shlex.quote leaves bare: [a-zA-Z0-9_@%+=:,./-].
abbrev pub is_safe : ℕ → Bool
is_safe n =
    (leb 97 n && leb n 122)
    || ((leb 65 n && leb n 90)
        || ((leb 45 n && leb n 58) || elem n (95 ∷ 64 ∷ 37 ∷ 43 ∷ 61 ∷ 44 ∷ [])))

abbrev pub all_safe : String → Bool
all_safe String.[] = true
all_safe (String.◌∷◌ c s) = is_safe (code c) && all_safe s

-- `s.replace("'", "'\"'\"'")`, and the apostrophe that ends the quotation.
abbrev pub close_quote : String → String
close_quote String.[] = String.◌∷◌ apostrophe String.[]
close_quote (String.◌∷◌ c s) =
    let rest = close_quote s in
    if code c == 39
    then String.◌∷◌ apostrophe (
        String.◌∷◌ double_quote
          (String.◌∷◌ apostrophe (String.◌∷◌ double_quote (String.◌∷◌ apostrophe rest))))
    else String.◌∷◌ c rest

unfoldable pub shell_quote : String → String
shell_quote String.[] = String.◌∷◌ apostrophe (String.◌∷◌ apostrophe String.[])
shell_quote (String.◌∷◌ c s) =
    if all_safe (String.◌∷◌ c s)
    then String.◌∷◌ c s
    else String.◌∷◌ apostrophe (close_quote (String.◌∷◌ c s))

abbrev pub escape_double_quotes : String → String
escape_double_quotes String.[] = ""
escape_double_quotes (String.◌∷◌ c s) =
    let rest = escape_double_quotes s in
    if code c == 34 then String.◌∷◌ backslash (String.◌∷◌ double_quote rest) else String.◌∷◌ c rest

abbrev pub environment : List (String × String) → String
environment [] = ""
environment ((key, var) ∷ vars) =
    str_append key
      (str_append "=" (str_append (shell_quote var) (str_append " " (environment vars))))

-- The command that the line runs, before it is escaped.
unfoldable pub shell_command : List (String × String) → String → String
unfolding shell_quote
shell_command env_vars command = str_append (environment env_vars) (shell_quote command)

unfoldable pub format_command : List (String × String) → String → String → String → String
unfolding shell_command
format_command env_vars command ssh_opts ssh_key = str_append "command=\"" (
    str_append (escape_double_quotes (shell_command env_vars command))
      (str_append "\"," (str_append ssh_opts (str_append " " ssh_key))))

abbrev pub env_vars : User → List (String × String)
env_vars user =
    ("AUR_USER", user.username)
    ∷ ("AUR_PRIVILEGED", if ltb user_id user.account_type_id then "1" else "0")
    ∷ []

unfoldable pub answer_user : AuthConfig → String → User → KeyAnswer
answer_user config pubkey user =
    if user.suspended || str_eq user.passwd ""
    then exited
    else printed (format_command (env_vars user) config.git_serve_cmd config.ssh_options pubkey)

unfoldable pub answer_key : AuthConfig → List SshPubKey → List User → String → KeyAnswer
answer_key config keys users pubkey =
    elim (find? (λ (k : SshPubKey). str_eq k.pub_key pubkey) keys) [
      | none ↦ exited
      | some key ↦ elim (find? (λ (u : User). u.id == key.user_id) users) [
        | none ↦ key_attribute_error
        | some user ↦ answer_user config pubkey user
      ]
    ]

unfoldable pub authorized_key :
    AuthConfig → List SshPubKey → List User → String → String → KeyAnswer
authorized_key config keys users keytype keytext =
    if not (any (λ t. str_eq t keytype) config.valid_keytypes)
    then exited
    else answer_key config keys users (str_append keytype (str_append " " keytext))
