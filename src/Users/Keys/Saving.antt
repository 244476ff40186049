-- ===== src/Users/Keys/Saving.antt =====
-- Saving the same key again.
use text.Mathlib.TextPositions.{eq_refl}
use mprweb.Prelude.{
  ℕ, ◌≡◌, refl, sym, ap, ◌∙◌, String, Bool, true, false, not, none, some, List, [], ◌∷◌, ◌++◌,
  filter, find?, find?-snoc, find?-update_where, find?-holds, any, any-find?, update_where, ==_self,
  str_eq, Bool-cases, Option-cases, inl, inr,
}
use mprweb.Users.Keys.{AccountKey, is_key_of, put_pubkey, stored_pubkey, update_ssh_pubkey}

filter-again :
    (p : AccountKey → Bool) (rows : List AccountKey) → filter p (filter p rows) ≡ filter p rows
filter-again p [] = refl
filter-again p (k ∷ ks) = elim (Bool-cases (p k)) [
  | inl e ↦ rw e (rw e (ap (λ rest. k ∷ rest) (filter-again p ks)))
  | inr e ↦ rw e (filter-again p ks)
]

module _ (fingerprint : String → String) (uid : ℕ) (key : String) where
  kept :
      (rows : List AccountKey) (old : AccountKey)
      → find? (is_key_of uid) rows ≡ some old
      → str_eq old.pub_key key ≡ true
      → put_pubkey fingerprint uid key rows ≡ rows
  kept rows old found same = rw (put_pubkey, found) (rw same refl)

  nobody-any :
      (rows : List AccountKey)
      → find? (is_key_of uid) rows ≡ none
      → any (is_key_of uid) rows ≡ false
  nobody-any rows e = elim (Bool-cases (any (is_key_of uid) rows)) [
    | inr absent ↦ absent
    | inl there ↦ let (k, found) = any-find? (is_key_of uid) rows there in absurd (cc (found, e))
  ]

  through :
      (rows after : List AccountKey)
      → put_pubkey fingerprint uid key rows ≡ after
      → put_pubkey fingerprint uid key after ≡ after
      → put_pubkey fingerprint uid key (put_pubkey fingerprint uid key rows)
        ≡ put_pubkey fingerprint uid key rows
  through rows after e again = ap (put_pubkey fingerprint uid key) e ∙ again ∙ sym e

  put_pubkey-again :
      (rows : List AccountKey)
      → put_pubkey fingerprint uid key (put_pubkey fingerprint uid key rows)
        ≡ put_pubkey fingerprint uid key rows
  put_pubkey-again rows = elim (Option-cases (find? (is_key_of uid) rows)) [
    | inl nobody ↦
        let row : AccountKey = record {
          user_id = uid;
          pub_key = key;
          fingerprint = fingerprint key;
        } in
        through rows (rows ++ row ∷ []) (rw (put_pubkey, nobody) refl) (
          kept (rows ++ row ∷ []) row
            (find?-snoc (is_key_of uid) rows row (nobody-any rows nobody) (==_self uid))
            (eq_refl key))
    | inr (old, found) ↦ elim (Bool-cases (str_eq old.pub_key key)) [
      | inl same ↦ through rows rows (kept rows old found same) (kept rows old found same)
      | inr differs ↦
          let changed : AccountKey → AccountKey =
            λ k. record k { pub_key = key; fingerprint = fingerprint key } in
          let is_own = find?-holds (is_key_of uid) rows found in
          through rows (update_where (is_key_of uid) changed rows)
            (rw (put_pubkey, found) (rw differs refl))
            (kept (update_where (is_key_of uid) changed rows) (changed old)
              (find?-update_where (is_key_of uid) (is_key_of uid) changed rows (λ k. refl)
                ∙ rw found (rw is_own refl))
              (eq_refl key))
    ]
  ]

-- Saving the same form twice leaves the keys as saving it once.
pub update_ssh_pubkey-again :
    (fingerprint : String → String) (uid : ℕ) (pk : String) (rows : List AccountKey)
    → update_ssh_pubkey fingerprint uid pk (update_ssh_pubkey fingerprint uid pk rows)
      ≡ update_ssh_pubkey fingerprint uid pk rows
unfolding update_ssh_pubkey
update_ssh_pubkey-again fingerprint uid pk rows = elim (Bool-cases (str_eq pk "")) [
  | inl empty ↦ rw (update_ssh_pubkey, empty) (filter-again (λ k. not (is_key_of uid k)) rows)
  | inr full ↦
      rw (update_ssh_pubkey, full) (put_pubkey-again fingerprint uid (stored_pubkey pk) rows)
]
