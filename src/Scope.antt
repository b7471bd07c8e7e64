-- ===== src/Scope.antt =====
-- internal/core/scope: scope.go, and `Resolve` and the union of intersection.go. `strings.ToLower` and
-- `filepath.Match` are parameters; a pattern that `filepath.Match` rejects matches nothing.
pub mod Intersection
pub mod Union
pub mod Tests
use aps.Base.{
  String, Bool, true, false, ◌||◌, Option, none, some, List, [], ◌∷◌, ◌++◌, Result, ok, err, any,
  keep, contains, ◌==◌, not, if◌then◌else◌, refuse_if, ◌>>◌, ◌>>=◌, map,
}

pub record Rule : Type 0 where
  pub file_patterns : List String
  pub operations : List String
  pub tools : List String
  pub secrets : List String
  pub networks : List String

pub record Scope : Type 0 where
  pub owner_type : String
  pub owner_id : String
  pub rules : Rule

-- `Rule{}`
abbrev pub no_rule : Rule
no_rule = record { file_patterns = []; operations = []; tools = []; secrets = []; networks = [] }

pub data ScopeError : Type 0 where
  owner_type_required owner_id_required invalid_owner_type : ScopeError

-- `(s *Scope) Validate`
unfoldable pub validate_scope : Scope → Result ScopeError (Unit {0})
validate_scope s = do
  refuse_if (s.owner_type == "") owner_type_required
  refuse_if (s.owner_id == "") owner_id_required
  refuse_if
      (not
        ((s.owner_type == "profile") || (s.owner_type == "squad") || (s.owner_type == "workspace")))
      invalid_owner_type

-- `AllowsFile`
unfoldable pub allows_file : (String → String → Bool) → Rule → String → Bool
allows_file file_match r path = files_allow r.file_patterns
  where
    files_allow : List String → Bool
    files_allow [] = true
    files_allow (p ∷ ps) = any (λ pattern. file_match pattern path) (p ∷ ps)

module _ (to_lower : String → String) where
  -- `strings.ToLower(a) == strings.ToLower(b)`
  abbrev pub same_folded : String → String → Bool
  same_folded a b = to_lower a == to_lower b

  -- `allowsItem`
  unfoldable pub allows_item : List String → String → Bool
  allows_item [] item = true
  allows_item (a ∷ allowed) item = any (λ x. same_folded x item) (a ∷ allowed)

  -- `intersectSlices`
  unfoldable pub intersect_slices : List String → List String → List String
  intersect_slices [] b = b
  intersect_slices (x ∷ a) [] = x ∷ a
  intersect_slices (x ∷ a) (y ∷ b) = keep (λ v. any (λ w. same_folded w v) (y ∷ b)) (x ∷ a)

  -- `Intersect`
  unfoldable pub intersect : Rule → Rule → Rule
  unfolding intersect_slices
  intersect a b = record {
    file_patterns = intersect_slices a.file_patterns b.file_patterns;
    operations = intersect_slices a.operations b.operations;
    tools = intersect_slices a.tools b.tools;
    secrets = intersect_slices a.secrets b.secrets;
    networks = intersect_slices a.networks b.networks;
  }

  -- The loop of `IntersectAll`.
  unfoldable pub narrow : Rule → List Rule → Rule
  narrow result [] = result
  narrow result (r ∷ rules) = narrow (intersect result r) rules

  -- `IntersectAll`
  unfoldable pub intersect_all : List Rule → Rule
  intersect_all [] = no_rule
  intersect_all (r ∷ rules) = narrow r rules

  abbrev pub rule_of : Option Scope → List Rule
  rule_of none = []
  rule_of (some s) = s.rules ∷ []

  abbrev rules_of : List Scope → List Rule
  rules_of [] = []
  rules_of (s ∷ rest) = s.rules ∷ rules_of rest

  -- The rules that `Resolve` collects.
  abbrev pub collected : Option Scope → List Scope → Option Scope → List Rule
  collected profile squads workspace = rule_of profile ++ (rules_of squads ++ rule_of workspace)

  -- `Resolve`, its `Effective`
  unfoldable pub resolve : Option Scope → List Scope → Option Scope → Rule
  resolve profile squads workspace = intersect_all (collected profile squads workspace)

-- `bundleUnionStrings`: each text at its first place.
unfoldable pub union_from : List String → List String → List String
union_from seen [] = []
union_from seen (s ∷ rest) =
    let without = union_from seen rest in
    let with_s = union_from (s ∷ seen) rest in if contains seen s then without else s ∷ with_s

unfoldable pub bundle_union_strings : List String → List String → List String
bundle_union_strings a b = union_from [] (a ++ b)
