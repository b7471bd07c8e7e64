-- ===== src/Base/Assoc.antt =====
-- Go's `map[string]V` as an association list. A read returns `none` where Go's second result is
-- `false`; `range` over the map takes the entries in the list's order.
use Prim.Native.String.{String}
use mathlib.Core.Path.{◌≡◌, refl}
use mathlib.Core.Bool.{Bool, true, false, ◌||◌}
use mathlib.Core.List.{List, [], ◌∷◌}
use mathlib.Core.Option.{Option, none, some}
use native.Mathlib.Omega.{arith}
use text.Mathlib.TextEquality.{eq_iff}
use package.aps.Base.Tests.{if◌then◌else◌, ◌==◌, ==-comm}

abbrev pub Dict {ℓ} : Type ℓ → Type ℓ
Dict V = List (String × V)

module _ {ℓ} {V : Type ℓ} where
  -- `v, ok := d[key]`
  unfoldable pub lookup : String → Dict V → Option V
  lookup key [] = none
  lookup key (entry ∷ d) =
      let later = lookup key d in if entry.0 == key then some entry.1 else later

  -- `d[key] = v`
  unfoldable pub insert : String → V → Dict V → Dict V
  insert key v [] = (key, v) ∷ []
  insert key v (entry ∷ d) =
      let later = insert key v d in if entry.0 == key then (key, v) ∷ d else entry ∷ later

  -- `delete(d, key)`
  unfoldable pub delete : String → Dict V → Dict V
  delete key [] = []
  delete key (entry ∷ d) =
      let later = delete key d in if entry.0 == key then later else entry ∷ later

  pub lookup-insert :
      (key other : String) (v : V) (d : Dict V)
      → lookup other (insert key v d) ≡ (if key == other then some v else lookup other d)
  unfolding lookup insert
  lookup-insert key other v [] = refl
  lookup-insert key other v (entry ∷ d) = ground (
    arith,
    lookup-insert key other v d,
    eq_iff key other,
    eq_iff entry.0 other,
    eq_iff entry.0 key,
  )

  pub lookup-delete :
      (key other : String) (d : Dict V)
      → lookup other (delete key d) ≡ (if key == other then none else lookup other d)
  unfolding lookup delete
  lookup-delete key other [] = ground arith
  lookup-delete key other (entry ∷ d) =
      ground (
        arith,
        lookup-delete key other d,
        eq_iff key other,
        eq_iff entry.0 other,
        eq_iff entry.0 key,
      )

  -- `_, ok := d[key]`
  abbrev pub has_key : String → Dict V → Bool
  has_key key d = elim (lookup key d) [ none ↦ false | some v ↦ true ]

  -- No key stands twice, as in a Go map.
  abbrev pub Distinct : Dict V → Type 0
  Distinct [] = Unit
  Distinct (entry ∷ d) = (has_key entry.0 d ≡ false) × Distinct d

  -- The keys, in the list's order.
  abbrev pub keys_of : Dict V → List String
  keys_of [] = []
  keys_of (entry ∷ d) = entry.0 ∷ keys_of d

  pub has_key-insert :
      (key other : String) (v : V) (d : Dict V)
      → has_key other (insert key v d) ≡ ((key == other) || has_key other d)
  has_key-insert key other v d = ground (arith, lookup-insert key other v d)

  pub Distinct-insert : (key : String) (v : V) (d : Dict V) → Distinct d → Distinct (insert key v d)
  unfolding insert
  Distinct-insert key v [] h = (unfold lookup in refl, tt)
  Distinct-insert key v (entry ∷ d) h = ground (
    arith,
    h,
    Distinct-insert key v d h.1,
    has_key-insert key entry.0 v d,
    eq_iff entry.0 key,
    ==-comm entry.0 key,
  )
