-- ===== src/Routes/Ownership/Comaintainers.antt =====
-- Who is a comaintainer after the form has been sent.
pub mod Replacing
use mprweb.Prelude.{
  ℕ, ◌+◌, ◌≡◌, ◌≢◌, refl, sym, ap, ◌∙◌, subst, String, Bool, true, false, not, ◌&&◌, ◌||◌, Option,
  some, none, List, [], ◌∷◌, ◌++◌, map, any, filter, find?, holds, any-append, elem, ◌==◌, ==_iff,
  ==_self, str_eq, eq_iff, Bool-cases, Option-cases, inl, inr, arith, if◌then◌else◌,
}
use mprweb.Models.{User, PackageBase, PackageComaintainer}
use mprweb.Pkgbase.Comaintainers.{
  of_base, is_row, is_named, username_of, rotate_comaintainers, remove_comaintainers,
  latest_priority, add_comaintainer, add_each, AddResult, AddOutcome, added, Resolved, all_users,
  add_resolved, add_notified, resolve_users, add_comaintainers,
}
use mprweb.Pkgbase.Comaintainers.Membership.{any-renumber}
use mprweb.Routes.Flags.Keywords.{holds-filter}
use mprweb.Routes.Ownership.{
  ComaintainersReply, saved, saved_as, difference, comaintainer_records, replace_comaintainers,
}

-- A row of the Users table, whose IDs and names are unique.
pub record IsAccount (users : List User) (u : User) : Type 0 where
  pub by_id : username_of users u.id ≡ some u.username
  pub by_name : find? (λ (v : User). str_eq v.username u.username) users ≡ some u
  pub own_name : (i : ℕ) → username_of users i ≡ some u.username → i ≡ u.id
  pub own_id :
      (n : String) (w : User)
      → find? (λ (v : User). str_eq v.username n) users ≡ some w
      → w.id ≡ u.id
      → n ≡ u.username

named-holds : (n : String) (names : List String) → any (str_eq n) names ≡ holds n names
named-holds n [] = refl
named-holds n (m ∷ ms) = ground (arith, eq_iff n m, eq_iff m n, named-holds n ms)

module _ (users : List User) (b : ℕ) (u : User) (known : IsAccount users u) where
  -- The row of the user stays if their name does.
  any-removed :
      (names : List String) (rows : List PackageComaintainer)
      → any
          (is_row u.id b)
          (filter (λ c. not (of_base b c && is_named names (username_of users c.users_id))) rows)
        ≡ (any (is_row u.id b) rows && not (holds u.username names))
  any-removed names [] = refl
  any-removed names (c ∷ cs) = elim (Bool-cases (is_row u.id b c)) [
    | inr other ↦ elim (Bool-cases (of_base b c && is_named names (username_of users c.users_id))) [
      | inl gone ↦ rw gone (rw other (any-removed names cs))
      | inr stays ↦ rw stays (rw other (any-removed names cs))
    ]
    | inl own ↦
        let same : c.users_id ≡ u.id = ground arith in
        let here : of_base b c ≡ true = ground arith in
        let name : username_of users c.users_id ≡ some u.username =
          ap (username_of users) same ∙ known.by_id in
        rw (here, name)
          (rw (named-holds u.username names) (elim (Bool-cases (holds u.username names)) [
            | inl gone ↦ rw gone (any-removed names cs ∙ rw gone (ground arith))
            | inr stays ↦ rw stays (ground arith)
          ]))
  ]

  pub any-remove_comaintainers :
      (names : List String) (rows : List PackageComaintainer)
      → any (is_row u.id b) (remove_comaintainers users b names rows)
        ≡ (any (is_row u.id b) rows && not (holds u.username names))
  unfolding remove_comaintainers rotate_comaintainers
  any-remove_comaintainers names rows =
      any-renumber u.id b 0 _
        (filter (λ c. not (of_base b c && is_named names (username_of users c.users_id))) rows)
      ∙ any-removed names rows

  nobody-other : (i : ℕ) → username_of users i ≡ none → (i == u.id) ≡ false
  nobody-other i e = elim (Bool-cases (i == u.id)) [
    | inr other ↦ other
    | inl own ↦
        let named = ap (username_of users) ((==_iff i u.id).0 own) ∙ known.by_id in
        absurd (cc (e, named))
  ]

  name-eq-id :
      (i : ℕ) (n : String) → username_of users i ≡ some n → str_eq n u.username ≡ (i == u.id)
  name-eq-id i n e = elim (Bool-cases (i == u.id)) [
    | inl own ↦
        let named = ap (username_of users) ((==_iff i u.id).0 own) ∙ known.by_id in
        let same : n ≡ u.username = cc (e, named) in rw own ((eq_iff n u.username).1 same)
    | inr other ↦ elim (Bool-cases (str_eq n u.username)) [
      | inr differs ↦ rw other differs
      | inl same ↦
          let named = e ∙ ap some ((eq_iff n u.username).0 same) in
          absurd (cc ((==_iff i u.id).1 (known.own_name i named), other))
    ]
  ]

  -- The user stands on the page exactly if they are a comaintainer.
  pub holds-records :
      (rows : List PackageComaintainer)
      → holds u.username (comaintainer_records users b rows) ≡ any (is_row u.id b) rows
  unfolding comaintainer_records
  holds-records [] = refl
  holds-records (c ∷ cs) = elim (Bool-cases (of_base b c)) [
    | inr away ↦ rw away (ground (arith, holds-records cs))
    | inl here ↦ elim (Option-cases (username_of users c.users_id)) [
      | inl nobody ↦ rw here (rw nobody (rw (nobody-other c.users_id nobody) (holds-records cs)))
      | inr (n, e) ↦
          rw here (rw e (rw (name-eq-id c.users_id n e) (ground (arith, holds-records cs))))
    ]
  ]

  found-is :
      (n : String) (w : User)
      → find? (λ (v : User). str_eq v.username n) users ≡ some w
      → (u.id == w.id) ≡ str_eq n u.username
  found-is n w found = elim (Bool-cases (str_eq n u.username)) [
    | inl same ↦
        let e : n ≡ u.username = (eq_iff n u.username).0 same in
        let here =
          subst (λ (s : String). find? (λ (v : User). str_eq v.username s) users ≡ some w) e
            found in
        let it : u ≡ w = cc (here, known.by_name) in
        rw same (ap (λ (x : User). u.id == x.id) (sym it) ∙ ==_self u.id)
    | inr differs ↦ elim (Bool-cases (u.id == w.id)) [
      | inr other ↦ rw differs other
      | inl own ↦
          let e = known.own_id n w found (sym ((==_iff u.id w.id).0 own)) in
          absurd (cc ((eq_iff n u.username).1 e, differs))
    ]
  ]

  pub elem-resolved :
      (names : List String) (us : List ℕ)
      → resolve_users users names ≡ all_users us
      → elem u.id us ≡ holds u.username names
  unfolding resolve_users
  elem-resolved [] us h = let e : us ≡ [] = cc (h) in rw e refl
  elem-resolved (n ∷ ns) us h =
      elim (Option-cases (find? (λ (v : User). str_eq v.username n) users)) [
        | inl nobody ↦ absurd (cc (rw (resolve_users, nobody) at h))
        | inr (w, found) ↦
            elem-first n ns w us found (resolve_users users ns) (λ vs e. elem-resolved ns vs e)
              (rw (resolve_users, found) at h)
      ]
    where
      elem-first :
          (n : String) (ns : List String) (w : User) (us : List ℕ)
          → find? (λ (v : User). str_eq v.username n) users ≡ some w
          → (r : Resolved) → ((vs : List ℕ) → r ≡ all_users vs → elem u.id vs ≡ holds u.username ns)
          → add_resolved w.id r ≡ all_users us
          → elem u.id us ≡ holds u.username (n ∷ ns)
      elem-first n ns w us found (Resolved.unknown_user m) ih h = absurd (cc (h))
      elem-first n ns w us found (all_users vs) ih h =
          let e : us ≡ w.id ∷ vs = cc (h) in
          rw e (rw (found-is n w found) (ap (λ (t : Bool). str_eq n u.username || t) (ih vs refl)))

  any-add_comaintainer :
      (maintainer : Option ℕ) (v : ℕ) (rows after : List PackageComaintainer) (ns : List ℕ)
      → add_comaintainer maintainer b v rows ≡ added after ns
      → elim maintainer [ none ↦ false | some m ↦ m == u.id ] ≡ false
      → any (is_row u.id b) after ≡ (any (is_row u.id b) rows || u.id == v)
  unfolding add_comaintainer
  any-add_comaintainer maintainer v rows after ns h other =
      elim (Bool-cases (elim maintainer [ none ↦ false | some m ↦ m == v ])) [
        | inl is_maintainer ↦
            let e : after ≡ rows = cc (rw (add_comaintainer, is_maintainer) at h) in
            let apart : (u.id == v) ≡ false = not_both maintainer v is_maintainer other in
            rw e (ground (arith, apart))
        | inr someone ↦ elim (Bool-cases (any (is_row v b) rows)) [
          | inl old ↦ absurd (cc (rw (add_comaintainer, someone, old) at h))
          | inr new ↦
              let row : PackageComaintainer = record {
                users_id = v;
                package_base_id = b;
                priority = latest_priority b rows + 1;
              } in
              let e : after ≡ rows ++ row ∷ [] = cc (rw (add_comaintainer, someone, new) at h) in
              rw e (
                any-append (is_row u.id b) rows (row ∷ [])
                ∙ ground (arith, ==_self b, ==_iff v u.id, ==_iff u.id v))
        ]
      ]
    where
      not_both :
          (m : Option ℕ) (v : ℕ)
          → elim m [ none ↦ false | some k ↦ k == v ] ≡ true
          → elim m [ none ↦ false | some k ↦ k == u.id ] ≡ false
          → (u.id == v) ≡ false
      not_both none v p q = absurd (cc (p))
      not_both (some k) v p q = ground (arith, ==_iff k v, ==_iff u.id v)

  -- What the loop over the new comaintainers adds.
  abbrev pub Adds : List PackageComaintainer → List ℕ → List PackageComaintainer → Type 0
  Adds rows us after = any (is_row u.id b) after ≡ (any (is_row u.id b) rows || elem u.id us)

  then_rest :
      (v : ℕ) (vs ms ns : List ℕ) (rows rows' after : List PackageComaintainer) (r : AddResult)
      → ((last : List PackageComaintainer) (ls : List ℕ) → r ≡ added last ls → Adds rows' vs last)
      → add_notified ms r ≡ added after ns
      → any (is_row u.id b) rows' ≡ (any (is_row u.id b) rows || u.id == v)
      → Adds rows (v ∷ vs) after
  then_rest v vs ms ns rows rows' after AddResult.integrity_error ih k first = absurd (cc (k))
  then_rest v vs ms ns rows rows' after (added last ls) ih k first =
      let same : last ≡ after = cc (k) in rw (← same) (ih last ls refl ∙ rw first (ground arith))

  add_first :
      (maintainer : Option ℕ) (v : ℕ) (vs ns : List ℕ) (rows after : List PackageComaintainer)
      (r : AddResult)
      → add_comaintainer maintainer b v rows ≡ r
      → ((rows' last : List PackageComaintainer) (ls : List ℕ)
          → add_each maintainer b vs rows' ≡ added last ls
          → Adds rows' vs last)
      → elim r [
        | AddResult.integrity_error ↦ AddResult.integrity_error
        | added rows' ms ↦ add_notified ms (add_each maintainer b vs rows')
      ]
        ≡ added after ns
      → elim maintainer [ none ↦ false | some m ↦ m == u.id ] ≡ false
      → Adds rows (v ∷ vs) after
  add_first maintainer v vs ns rows after AddResult.integrity_error e ih k other = absurd (cc (k))
  add_first maintainer v vs ns rows after (added rows' ms) e ih k other =
      then_rest v vs ms ns rows rows' after (add_each maintainer b vs rows') (ih rows') k
        (any-add_comaintainer maintainer v rows rows' ms e other)

  pub any-add_each :
      (maintainer : Option ℕ) (us : List ℕ) (rows after : List PackageComaintainer) (ns : List ℕ)
      → add_each maintainer b us rows ≡ added after ns
      → elim maintainer [ none ↦ false | some m ↦ m == u.id ] ≡ false
      → Adds rows us after
  unfolding add_each
  any-add_each maintainer [] rows after ns h other =
      let e : after ≡ rows = cc (h) in rw e (ground arith)
  any-add_each maintainer (v ∷ vs) rows after ns h other =
      add_first maintainer v vs ns rows after (add_comaintainer maintainer b v rows) refl
        (λ rows' last ls e. any-add_each maintainer vs rows' last ls e other) h other
