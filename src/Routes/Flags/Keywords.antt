-- ===== src/Routes/Flags/Keywords.antt =====
-- The keywords of a package base after its form has been sent.
use mprweb.Prelude.{
  ℕ, ◌≡◌, refl, ap, ◌∙◌, String, Bool, not, ◌&&◌, ◌||◌, List, [], ◌∷◌, map, any, filter, any-append,
  ◌==◌, ==_iff, str_eq, eq_iff, holds, distinct, split, some, Bool-cases, inl, inr, arith,
  if◌then◌else◌,
}
use mprweb.Models.{PackageBase, PackageKeyword}
use mprweb.Pkgbase.Actions.{Db}
use mprweb.Routes.{Visit, get_pkgbase, with_base}
use mprweb.Routes.Flags.{is_keyword, keep_keywords, new_keywords, set_keywords, pkgbase_keywords}

pub holds-distinct : (w : String) (ss : List String) → holds w (distinct ss) ≡ holds w ss
holds-distinct w [] = refl
holds-distinct w (s ∷ ss) = elim (Bool-cases (holds s (distinct ss))) [
  | inr new ↦ rw new (ap (λ (t : Bool). str_eq s w || t) (holds-distinct w ss))
  | inl old ↦ rw old (elim (Bool-cases (str_eq s w)) [
    | inr other ↦ rw other (holds-distinct w ss)
    | inl same ↦ rw same (rw (← (eq_iff s w).0 same) old)
  ])
]

pub holds-filter :
    (w : String) (q : String → Bool) (ss : List String)
    → holds w (filter q ss) ≡ (holds w ss && q w)
holds-filter w q [] = refl
holds-filter w q (s ∷ ss) = elim (Bool-cases (str_eq s w)) [
  | inl same ↦ let e : s ≡ w = (eq_iff s w).0 same in ground (arith, holds-filter w q ss, ap q e)
  | inr other ↦ ground (arith, holds-filter w q ss)
]

-- The rows that are kept.
any-keep :
    (b c : ℕ) (w : String) (words : List String) (rows : List PackageKeyword)
    → any (is_keyword c w) (keep_keywords b words rows)
      ≡ (any (is_keyword c w) rows && (not (c == b) || holds w words))
any-keep b c w words [] = refl
any-keep b c w words (k ∷ ks) = elim (Bool-cases (is_keyword c w k)) [
  | inl hit ↦
      let base : k.package_base_id ≡ c = ground arith in
      let word : k.keyword ≡ w = (eq_iff k.keyword w).0 (ground arith) in
      ground (
        arith,
        any-keep b c w words ks,
        ap (λ (j : ℕ). j == b) base,
        ap (λ (s : String). holds s words) word,
      )
  | inr miss ↦ ground (arith, any-keep b c w words ks)
]

any-new :
    (b c : ℕ) (w : String) (ss : List String)
    → any (is_keyword c w) (
        map
          (λ (s : String).
            let k : PackageKeyword = record { package_base_id = b; keyword = s } in k)
          ss)
      ≡ (c == b && holds w ss)
any-new b c w [] = ground arith
any-new b c w (s ∷ ss) = ground (arith, any-new b c w ss, ==_iff b c, ==_iff c b)

pub any-set_keywords :
    (b c : ℕ) (w : String) (words : List String) (rows : List PackageKeyword)
    → any (is_keyword c w) (set_keywords b words rows)
      ≡ (if c == b then holds w words else any (is_keyword c w) rows)
unfolding set_keywords
any-set_keywords b c w words rows =
    any-append (is_keyword c w) (keep_keywords b words rows) (new_keywords b words rows)
    ∙ rw
        (
          any-keep b c w words rows,
          any-new b c w (filter (λ s. not (any (is_keyword b s) rows)) (distinct words)),
          holds-filter w (λ s. not (any (is_keyword b s) rows)) (distinct words),
          holds-distinct w words,
        )
        (elim (Bool-cases (c == b)) [
          | inl same ↦
              let e : c ≡ b = (==_iff c b).0 same in
              ground (arith, ap (λ (j : ℕ). any (is_keyword j w) rows) e)
          | inr other ↦ ground arith
        ])

-- Sending the form of keywords makes the keywords of the base exactly the words between the spaces,
-- and leaves those of the other bases. The route checks nothing about the visitor, so this holds for
-- everybody.
pub keywords_replaced :
    (v : Visit) (name text : String) (db : Db) (b : PackageBase) (c : ℕ) (w : String)
    → get_pkgbase v.providers name db.bases ≡ some b
    → any (is_keyword c w) (pkgbase_keywords v name text db).db.keywords
      ≡ (if c == b.id then holds w (split 32 text) else any (is_keyword c w) db.keywords)
unfolding pkgbase_keywords
keywords_replaced v name text db b c w known =
    rw (with_base, known) (any-set_keywords b.id c w (split 32 text) db.keywords)
