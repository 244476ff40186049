-- ===== src/Git/Keys/Tests.antt =====
-- A user's key, and quoted texts.
use mprweb.Prelude.{◌≡◌, refl, String, false, some, none, List, [], ◌∷◌}
use mprweb.Models.{User, trusted_user_id}
use mprweb.Git.Keys.{
  AuthConfig, SshPubKey, printed, exited, shell_quote, shell_command, format_command, answer_user,
  answer_key, authorized_key,
}
use mprweb.Git.Keys.Quoting.{codes, shell_words}
use mprweb.Git.Keys.Options.{dequote, format_command-runs}
use Prim.Native.String.{◌++◌ as str_append}
use mprweb.Git.Keys.Answers.{IsOwner, MayLogIn, line_for, authorized_key_iff}

abbrev config : AuthConfig
config = record {
  valid_keytypes = "ssh-rsa" ∷ "ssh-ed25519" ∷ [];
  git_serve_cmd = "/usr/bin/git serve";
  ssh_options = "restrict";
}

abbrev alice : User
alice = record {
  id = 7;
  username = "alice";
  email = "";
  account_type_id = trusted_user_id;
  suspended = false;
  passwd = "hash";
  salt = "";
  inactivity_ts = 0;
  last_login = 0;
  last_login_ip = none;
  last_ssh_login = 0;
  last_ssh_login_ip = none;
}

abbrev keys : List SshPubKey
keys = record { user_id = 7; pub_key = "ssh-rsa AAAA" } ∷ []

abbrev alice_line : String
alice_line =
    "command=\"AUR_USER=alice AUR_PRIVILEGED=1 '/usr/bin/git serve'\",restrict ssh-rsa AAAA"

accepted_key : authorized_key config keys (alice ∷ []) "ssh-rsa" "AAAA" ≡ printed alice_line
unfolding authorized_key answer_key answer_user format_command shell_command shell_quote
accepted_key = refl

invalid_keytype : authorized_key config keys (alice ∷ []) "ssh-dss" "AAAA" ≡ exited
unfolding authorized_key
invalid_keytype = refl

unknown_key : authorized_key config keys (alice ∷ []) "ssh-rsa" "BBBB" ≡ exited
unfolding authorized_key answer_key
unknown_key = refl

quoted_apostrophe : shell_quote "it's" ≡ "'it'\"'\"'s'"
unfolding shell_quote
quoted_apostrophe = refl

authorized_key_iff_example :
    (user : User) × IsOwner keys (alice ∷ []) "ssh-rsa AAAA" user
    × MayLogIn user
    × (alice_line ≡ line_for config "ssh-rsa AAAA" user)
authorized_key_iff_example =
    ((authorized_key_iff config keys (alice ∷ []) "ssh-rsa" "AAAA" alice_line).0 accepted_key).1

-- A user whose name has an apostrophe, a semicolon and a blank.
format_command-runs_example :
    (option text : String) × (format_command
        (("AUR_USER", "it's; rm") ∷ [])
        "/usr/bin/git serve"
        "restrict"
        "ssh-rsa AAAA"
      ≡ str_append "command=\"" option)
    × (dequote false option ≡ some (codes text, ",restrict ssh-rsa AAAA"))
    × (shell_words text ≡ some (codes "AUR_USER=it's; rm" ∷ codes "/usr/bin/git serve" ∷ []))
format_command-runs_example =
    format_command-runs (("AUR_USER", "it's; rm") ∷ []) "/usr/bin/git serve" "restrict"
      "ssh-rsa AAAA" (refl, tt) (refl, tt) refl
