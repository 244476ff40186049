-- ===== src/Pkgbase/Closures.antt =====
-- `ClosureFactory` of aurweb/packages/requests.py: the comments that requests are closed with, and the
-- errors of the calls on requests.
use Prim.Native.String.{◌++◌ as str_append}
use mprweb.Prelude.{ℕ, String, Option, none, some, List, [], ◌∷◌, ◌==◌, if◌then◌else◌}
use mprweb.Models.{PackageBase, rejected_id, deletion_id, orphan_id, merge_id}

pub data RequestError : Type 0 where
  -- InvariantError: there is no due orphan request
  no_due_request : RequestError
  -- NotImplementedError: `ClosureFactory` has no such handler
  not_implemented : RequestError
  -- AttributeError: the name of a target that is None
  no_target : RequestError
  -- AttributeError: a notification to a user who is suspended
  no_recipient : RequestError

pub data Result {ℓ} (A : Type ℓ) : Type ℓ where
  ok : A → Result A
  err : RequestError → Result A

infixl 5 ◌>>=◌
abbrev pub ◌>>=◌ {ℓ κ} : {A : Type ℓ} {B : Type κ} → Result A → (A → Result B) → Result B
ok a >>= f = f a
err e >>= f = err e

abbrev pub target_name : Option PackageBase → Result String
target_name none = err no_target
target_name (some t) = ok t.name

abbrev concat : List String → String
concat [] = ""
concat (s ∷ ss) = str_append s (concat ss)

-- The handlers of `ClosureFactory`.
unfoldable pub deletion_closure : PackageBase → String
deletion_closure b = concat ("[Autogenerated] Accepted deletion for " ∷ b.name ∷ "." ∷ [])

unfoldable pub orphan_closure : PackageBase → String
orphan_closure b = concat ("[Autogenerated] Accepted orphan for " ∷ b.name ∷ "." ∷ [])

unfoldable pub merge_closure : PackageBase → String → String
merge_closure b target =
    concat ("[Autogenerated] Accepted merge for " ∷ b.name ∷ " into " ∷ target ∷ "." ∷ [])

unfoldable pub rejected_merge_closure : PackageBase → String → String
rejected_merge_closure b target = concat (
    "[Autogenerated] Another request to merge " ∷ b.name ∷ " into " ∷ target
    ∷ " has rendered this request invalid." ∷ [])

-- `ClosureFactory.get_closure`
unfoldable pub get_closure : ℕ → PackageBase → Option PackageBase → ℕ → Result String
get_closure reqtype_id b target status =
    if status == rejected_id
    then if reqtype_id == merge_id
      then (do name ← target_name target; ok (rejected_merge_closure b name))
      else err not_implemented
    else if reqtype_id == deletion_id
    then ok (deletion_closure b)
    else if reqtype_id == merge_id
    then (do name ← target_name target; ok (merge_closure b name))
    else if reqtype_id == orphan_id
    then ok (orphan_closure b)
    else err not_implemented
