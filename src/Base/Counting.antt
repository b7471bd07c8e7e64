-- ===== src/Base/Counting.antt =====
-- Lists of texts by how often they hold each text.
use Prim.Native.Nat.{suc, ◌+◌, ◌-◌, ◌≤◌, ◌<◌}
use Prim.Native.String.{String}
use mathlib.Core.Bool.{◌||◌}
use mathlib.Core.Path.{◌≡◌, refl, ap}
use mathlib.Core.List.{List, [], ◌∷◌, ◌++◌}
use native.Mathlib.Omega.{arith}
use text.Mathlib.TextEquality.{eq_iff}
use text.Mathlib.TextPositions.{eq_refl}
use package.aps.Base.Tests.{if◌then◌else◌, ◌==◌, ltb}
use package.aps.Base.Assoc.{Dict, lookup, has_key, Distinct, keys_of}
use package.aps.Base.Lists.{length, times, contains, count-append}

abbrev remove_one : String → List String → List String
remove_one s [] = []
remove_one s (x ∷ xs) = let rest = remove_one s xs in if x == s then xs else x ∷ rest

times-remove_one :
    (s x : String) (xs : List String)
    → times x (remove_one s xs) ≡ times x xs - (if s == x then 1 else 0)
times-remove_one s x [] = ground arith
times-remove_one s x (y ∷ xs) =
    ground (arith, times-remove_one s x xs, eq_iff s x, eq_iff y x, eq_iff y s)

length-remove_one :
    (s : String) (xs : List String) → 0 < times s xs → length xs ≡ suc (length (remove_one s xs))
length-remove_one s [] h = absurd (omega arith)
length-remove_one s (y ∷ xs) h = ground (arith, length-remove_one s xs)

pub contains-times : (xs : List String) (s : String) → contains xs s ≡ ltb 0 (times s xs)
contains-times [] s = refl
contains-times (x ∷ xs) s = ground (arith, contains-times xs s)

pub times-append : (s : String) (xs ys : List String) → times s (xs ++ ys) ≡ times s xs + times s ys
times-append s xs ys = count-append (λ x. x == s) xs ys

HoldsMore-rest :
    (a : String) (xs ys : List String)
    → ((s : String) → times s (a ∷ xs) ≤ times s ys)
    → (s : String) → times s xs ≤ times s (remove_one a ys)
HoldsMore-rest a xs ys h s = ground (arith, h s, times-remove_one a s ys)

-- A list that holds no text more often than another is not longer.
pub length-le_of_times :
    (xs ys : List String) → ((s : String) → times s xs ≤ times s ys) → length xs ≤ length ys
length-le_of_times [] ys h = omega arith
length-le_of_times (a ∷ xs) ys h =
    let found : 0 < times a ys = ground (arith, h a, eq_refl a) in
    ground (
      arith,
      length-remove_one a ys found,
      length-le_of_times xs (remove_one a ys) (HoldsMore-rest a xs ys h),
    )

-- If it is as long, it holds each text as often.
pub times-eq_of_length :
    (xs ys : List String)
    → ((s : String) → times s xs ≤ times s ys)
    → length xs ≡ length ys
    → (s : String) → times s xs ≡ times s ys
times-eq_of_length [] [] h e s = refl
times-eq_of_length [] (y ∷ ys) h e s = absurd (omega (arith, e))
times-eq_of_length (a ∷ xs) ys h e s =
    let found : 0 < times a ys = ground (arith, h a, eq_refl a) in
    let same : length xs ≡ length (remove_one a ys) =
      omega (arith, e, length-remove_one a ys found) in
    ground (
      arith,
      h s,
      times-remove_one a s ys,
      times-eq_of_length xs (remove_one a ys) (HoldsMore-rest a xs ys h) same s,
    )

-- The keys of a map, once each.
pub times-keys_of {ℓ} :
    {V : Type ℓ} (x : String) (d : Dict V)
    → Distinct d
    → times x (keys_of d) ≡ (if has_key x d then 1 else 0)
unfolding lookup
times-keys_of x [] h = refl
times-keys_of x (entry ∷ d) h = ground (arith, h.0, times-keys_of x d h.1, eq_iff entry.0 x)

pub length-keys_of {ℓ} : {V : Type ℓ} (d : Dict V) → length (keys_of d) ≡ length d
length-keys_of [] = refl
length-keys_of (entry ∷ d) = ap suc (length-keys_of d)

pub contains-append :
    (xs ys : List String) (s : String) → contains (xs ++ ys) s ≡ (contains xs s || contains ys s)
contains-append xs ys s = ground (
  arith,
  contains-times (xs ++ ys) s,
  contains-times xs s,
  contains-times ys s,
  times-append s xs ys,
)
