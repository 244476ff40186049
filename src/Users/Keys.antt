-- ===== src/Users/Keys.antt =====
-- aurweb/users/update.py, ssh_pubkey: the SSH key of an account.
pub mod Saving
use Prim.Native.String.{◌++◌ as str_append}
use mprweb.Prelude.{
  ℕ, ◌≡◌, refl, ap, ◌∙◌, String, Bool, true, false, not, ◌&&◌, ◌||◌, Option, none, some, List, [],
  ◌∷◌, ◌++◌, filter, find?, any, update_where, split, strip, rstrip, ◌==◌, ==_self, str_eq,
  Bool-cases, Option-cases, inl, inr, arith, if◌then◌else◌,
}

-- SSHPubKeys
pub record AccountKey : Type 0 where
  pub user_id : ℕ
  pub pub_key : String
  pub fingerprint : String

-- The key without the host part.
abbrev pub without_host : String → List String → String
without_host key (a ∷ b ∷ c ∷ []) = str_append a (str_append " " b)
without_host key parts = key

unfoldable pub stored_pubkey : String → String
unfolding split strip rstrip
stored_pubkey pk = let pubkey = rstrip (strip pk) in without_host pubkey (split 32 pubkey)

abbrev pub is_key_of : ℕ → AccountKey → Bool
is_key_of uid k = k.user_id == uid

-- `user.ssh_pub_key`, created, updated or left alone; `fingerprint` is get_fingerprint.
abbrev pub put_pubkey : (String → String) → ℕ → String → List AccountKey → List AccountKey
put_pubkey fingerprint uid key rows = elim (find? (is_key_of uid) rows) [
  | none ↦ rows ++ record { user_id = uid; pub_key = key; fingerprint = fingerprint key } ∷ []
  | some old ↦
      if str_eq old.pub_key key
      then rows
      else update_where (is_key_of uid)
          (λ k. record k { pub_key = key; fingerprint = fingerprint key }) rows
]

-- An empty field deletes the key.
unfoldable pub update_ssh_pubkey :
    (String → String) → ℕ → String → List AccountKey → List AccountKey
unfolding stored_pubkey
update_ssh_pubkey fingerprint uid pk rows =
    if str_eq pk ""
    then filter (λ k. not (is_key_of uid k)) rows
    else put_pubkey fingerprint uid (stored_pubkey pk) rows
