-- ===== src/Scope/Union.antt =====
-- internal/core/scope/intersection.go: the union of the lists of bundles.
use aps.Base.{
  contains-append, ℕ, String, Bool, true, ◌||◌, ◌&&◌, ◌≡◌, List, [], ◌∷◌, ◌++◌, count, contains,
  ◌==◌, not, if◌then◌else◌, arith, eq_iff, ap,
}
use aps.Scope.{union_from, bundle_union_strings}

abbrev once : Bool → ℕ
once b = if b then 1 else 0

contains-same : (xs : List String) (a b : String) → (a == b) ≡ true → contains xs a ≡ contains xs b
contains-same xs a b h = ap (contains xs) ((eq_iff a b).0 h)

count-union_from :
    (seen xs : List String) (s : String)
    → count (λ x. x == s) (union_from seen xs) ≡ once (not (contains seen s) && contains xs s)
unfolding union_from
count-union_from seen [] s = ground arith
count-union_from seen (x ∷ xs) s =
    ground
      (arith, count-union_from seen xs s, count-union_from (x ∷ seen) xs s, contains-same seen x s)

-- The union of two lists holds each text of either once, and no other text.
pub count-bundle_union_strings :
    (a b : List String) (s : String)
    → count (λ x. x == s) (bundle_union_strings a b)
      ≡ (if contains a s || contains b s then 1 else 0)
unfolding bundle_union_strings
count-bundle_union_strings a b s =
    ground (arith, count-union_from [] (a ++ b) s, contains-append a b s)
