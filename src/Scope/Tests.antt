-- ===== src/Scope/Tests.antt =====
-- internal/core/scope: rules with few entries, and the theorems at them.
use aps.Base.{
  String, true, false, ◌||◌, ◌≡◌, ◌↔◌, refl, some, List, [], ◌∷◌, All, count, contains, ◌==◌,
  if◌then◌else◌, arith, ok,
}
use aps.Scope.{
  Rule, Scope, no_rule, validate_scope, allows_file, allows_item, intersect_slices, intersect,
  intersect_all, narrow, collected, resolve, bundle_union_strings,
}
use aps.Scope.Intersection.{by_tool, allows, allows-resolve, disjoint_unrestricted}
use aps.Scope.Union.{count-bundle_union_strings}

-- The folding of the texts that occur here.
abbrev fold : String → String
fold s = if s == "Git" then "git" else s

abbrev tools_of : List String → Rule
tools_of ts = record no_rule { tools = ts }

abbrev mine : Scope
mine = record { owner_type = "profile"; owner_id = "ann"; rules = tools_of ("Git" ∷ "make" ∷ []) }

abbrev shared : Scope
shared = record { owner_type = "workspace"; owner_id = "w"; rules = tools_of ("git" ∷ "curl" ∷ []) }

mine_is_valid : validate_scope mine ≡ ok tt
unfolding validate_scope
mine_is_valid = refl

only_git : (resolve fold (some mine) [] (some shared)).tools ≡ "Git" ∷ []
unfolding resolve intersect_all narrow intersect intersect_slices
only_git = refl

no_pattern_matches :
    allows_file (λ p path. p == path) (record no_rule { file_patterns = "a" ∷ [] }) "b" ≡ false
unfolding allows_file
no_pattern_matches = refl

allows-resolve_example :
    (allows fold by_tool (resolve fold (some mine) [] (some shared)) "make" ≡ true)
    ↔ All (λ r. allows fold by_tool r "make" ≡ true) (collected fold (some mine) [] (some shared))
allows-resolve_example =
    allows-resolve fold by_tool (some mine) [] (some shared) "make" "git"
      (unfold allows_item in (refl, (refl, tt)))

disjoint_unrestricted_at :
    allows_item fold (intersect_slices fold ("make" ∷ []) ("curl" ∷ "Git" ∷ [])) "rm" ≡ true
disjoint_unrestricted_at =
    disjoint_unrestricted fold ("make" ∷ []) ("curl" ∷ "Git" ∷ []) "rm" (ground arith)
      (ground arith) (refl, tt)

count-bundle_union_strings_at :
    count (λ x. x == "b") (bundle_union_strings ("a" ∷ "b" ∷ []) ("b" ∷ "c" ∷ []))
    ≡ (if contains ("a" ∷ "b" ∷ []) "b" || contains ("b" ∷ "c" ∷ []) "b" then 1 else 0)
count-bundle_union_strings_at = count-bundle_union_strings ("a" ∷ "b" ∷ []) ("b" ∷ "c" ∷ []) "b"
