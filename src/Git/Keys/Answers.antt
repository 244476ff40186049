-- ===== src/Git/Keys/Answers.antt =====
-- Which keys the SSH daemon accepts.
use Prim.Native.String.{◌++◌ as str_append}
use mprweb.Prelude.{
  ◌≡◌, ◌≢◌, ◌↔◌, String, true, false, some, List, any, find?, arith, eq_iff, str_eq, ◌==◌,
  Bool-cases, Option-cases, inl, inr,
}
use mprweb.Models.{User}
use mprweb.Git.Keys.{
  AuthConfig, SshPubKey, printed, format_command, env_vars, answer_user, answer_key, authorized_key,
}

-- The user of a key: the owner of the first row with that key.
pub IsOwner : List SshPubKey → List User → String → User → Type 0
IsOwner keys users pubkey user =
    (key : SshPubKey) × (find? (λ (k : SshPubKey). str_eq k.pub_key pubkey) keys ≡ some key)
    × (find? (λ (u : User). u.id == key.user_id) users ≡ some user)

pub MayLogIn : User → Type 0
MayLogIn user = (user.suspended ≡ false) × (user.passwd ≢ "")

-- The line that the configured command is printed in for a user and their key.
abbrev pub line_for : AuthConfig → String → User → String
line_for config pubkey user =
    format_command (env_vars user) config.git_serve_cmd config.ssh_options pubkey

printed-line : {a b : String} → printed a ≡ printed b → a ≡ b
printed-line h = cc

answer_user_iff :
    (config : AuthConfig) (pubkey : String) (user : User) (line : String)
    → (answer_user config pubkey user ≡ printed line)
      ↔ (MayLogIn user × (line ≡ line_for config pubkey user))
unfolding answer_user MayLogIn
answer_user_iff config pubkey user line = ground (arith, eq_iff user.passwd "")

answer_key-line :
    (config : AuthConfig) (keys : List SshPubKey) (users : List User) (pubkey line : String)
    → answer_key config keys users pubkey ≡ printed line
    → (user : User) × IsOwner keys users pubkey user
      × MayLogIn user
      × (line ≡ line_for config pubkey user)
unfolding answer_key IsOwner
answer_key-line config keys users pubkey line h =
    elim (Option-cases (find? (λ (k : SshPubKey). str_eq k.pub_key pubkey) keys)) [
      | inl e ↦ absurd (cc (rw (answer_key, e) at h))
      | inr (key, e) ↦ elim (Option-cases (find? (λ (u : User). u.id == key.user_id) users)) [
        | inl none_owns ↦ absurd (cc (rw (answer_key, e, none_owns) at h))
        | inr (user, owner) ↦
            let (may, same) =
              (answer_user_iff config pubkey user line).0 (rw (answer_key, e, owner) at h) in
            (user, (key, e, owner), may, same)
      ]
    ]

answer_key-prints :
    (config : AuthConfig) (keys : List SshPubKey) (users : List User) (pubkey line : String)
    (user : User)
    → IsOwner keys users pubkey user
    → MayLogIn user
    → line ≡ line_for config pubkey user
    → answer_key config keys users pubkey ≡ printed line
unfolding answer_key IsOwner
answer_key-prints config keys users pubkey line user (key, found, owner) may same =
    rw (answer_key, found, owner) ((answer_user_iff config pubkey user line).1 (may, same))

-- A line is printed exactly if the type of the key is configured as valid, the key has an owner who is
-- not suspended and has a password, and it is the line that runs the configured command for that
-- owner.
pub authorized_key_iff :
    (config : AuthConfig) (keys : List SshPubKey) (users : List User)
    (keytype keytext line : String)
    → (authorized_key config keys users keytype keytext ≡ printed line) ↔ (
        (any (λ t. str_eq t keytype) config.valid_keytypes ≡ true)
        × ((user : User) × IsOwner keys users (str_append keytype (str_append " " keytext)) user
            × MayLogIn user
            × (line ≡ line_for config (str_append keytype (str_append " " keytext)) user)))
unfolding authorized_key
authorized_key_iff config keys users keytype keytext line =
    let pubkey = str_append keytype (str_append " " keytext) in
    elim (Bool-cases (any (λ t. str_eq t keytype) config.valid_keytypes)) [
      | inl e ↦ (
        λ h. (e, answer_key-line config keys users pubkey line (rw e at h)),
        λ (_, (user, owner, may, same)).
            rw e (answer_key-prints config keys users pubkey line user owner may same),
      )
      | inr e ↦ (λ h. absurd (cc (rw e at h)), λ r. absurd (cc (e, r.0)))
    ]
