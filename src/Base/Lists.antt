-- ===== src/Base/Lists.antt =====
-- Lists over native numbers, Boolean searches and filters that run in tests.
use Prim.Native.Nat.{ℕ, zero, suc, ◌+◌, ◌-◌, ◌≤◌}
use Prim.Native.String.{String}
use mathlib.Core.Path.{◌≡◌, refl, sym, subst}
use mathlib.Core.Logic.{◌⊎◌, inl, inr}
use mathlib.Core.Bool.{Bool, true, false, false≢true, ◌||◌}
use mathlib.Core.List.{List, [], ◌∷◌, ◌++◌}
use mathlib.Core.Option.{Option, none, some}
use native.Mathlib.Omega.{arith}
use text.Mathlib.TextEquality.{eq_iff}
use text.Mathlib.TextPositions.{eq_refl}
use package.aps.Base.Tests.{Bool-cases, if◌then◌else◌, ◌==◌}

module _ {ℓ} {A : Type ℓ} where
  abbrev pub length : List A → ℕ
  length [] = 0
  length (x ∷ xs) = suc (length xs)

  abbrev pub take : ℕ → List A → List A
  take zero xs = []
  take (suc n) [] = []
  take (suc n) (x ∷ xs) = x ∷ take n xs

  abbrev pub drop : ℕ → List A → List A
  drop zero xs = xs
  drop (suc n) [] = []
  drop (suc n) (x ∷ xs) = drop n xs

  -- The loop that sets a flag and breaks at the first hit.
  abbrev pub any : (A → Bool) → List A → Bool
  any p [] = false
  any p (x ∷ xs) = p x || any p xs

  -- The loop that appends what passes a test.
  abbrev pub keep : (A → Bool) → List A → List A
  keep p [] = []
  keep p (x ∷ xs) = let rest = keep p xs in if p x then x ∷ rest else rest

  -- The number of entries that pass a test.
  abbrev pub count : (A → Bool) → List A → ℕ
  count p [] = 0
  count p (x ∷ xs) = let rest = count p xs in if p x then suc rest else rest

  -- The first entry that passes a test.
  abbrev pub find : (A → Bool) → List A → Option A
  find p [] = none
  find p (x ∷ xs) = let rest = find p xs in if p x then some x else rest

  -- A predicate at every entry.
  abbrev pub All {κ} : (A → Type κ) → List A → Type κ
  All P [] = Unit
  All P (x ∷ xs) = P x × All P xs

  -- Membership, with the position kept.
  pub data IsIn (a : A) : List A → Type ℓ where
    at_head : {xs : List A} → IsIn a (a ∷ xs)
    in_tail : {x : A} {xs : List A} → IsIn a xs → IsIn a (x ∷ xs)

  pub length-append : (xs ys : List A) → length (xs ++ ys) ≡ length xs + length ys
  length-append [] ys = omega arith
  length-append (x ∷ xs) ys = omega (arith, length-append xs ys)

  pub length-drop : (n : ℕ) (xs : List A) → length (drop n xs) ≡ length xs - n
  length-drop zero xs = omega arith
  length-drop (suc n) [] = omega arith
  length-drop (suc n) (x ∷ xs) = omega (arith, length-drop n xs)

  pub count-append : (p : A → Bool) (xs ys : List A) → count p (xs ++ ys) ≡ count p xs + count p ys
  count-append p [] ys = omega arith
  count-append p (x ∷ xs) ys = ground (arith, count-append p xs ys)

  pub length-keep : (p : A → Bool) (xs : List A) → length (keep p xs) ≡ count p xs
  length-keep p [] = refl
  length-keep p (x ∷ xs) = ground (arith, length-keep p xs)

  pub count-le-length : (p : A → Bool) (xs : List A) → count p xs ≤ length xs
  count-le-length p [] = omega arith
  count-le-length p (x ∷ xs) = ground (arith, count-le-length p xs)

-- `slices.Contains` on strings.
abbrev pub contains : List String → String → Bool
contains [] s = false
contains (x ∷ xs) s = (x == s) || contains xs s

pub contains→IsIn : (xs : List String) (s : String) → contains xs s ≡ true → IsIn s xs
contains→IsIn [] s h = absurd (false≢true h)
contains→IsIn (x ∷ xs) s h = elim (Bool-cases (x == s)) [
  | inl e ↦ subst (λ y. IsIn s (y ∷ xs)) (sym ((eq_iff x s).0 e)) at_head
  | inr n ↦ in_tail (contains→IsIn xs s (ground arith))
]

pub IsIn→contains : (xs : List String) (s : String) → IsIn s xs → contains xs s ≡ true
IsIn→contains [] s h = elim h [ ]
IsIn→contains (x ∷ xs) s at_head = ground (arith, eq_refl s)
IsIn→contains (x ∷ xs) s (in_tail h) = ground (arith, IsIn→contains xs s h)

-- How often a text stands in a list.
abbrev pub times : String → List String → ℕ
times s xs = count (λ x. x == s) xs

module _ {ℓ} {A : Type ℓ} where
  pub any-IsIn : (p : A → Bool) (xs : List A) → any p xs ≡ true → (x : A) × IsIn x xs × (p x ≡ true)
  any-IsIn p [] h = absurd (false≢true h)
  any-IsIn p (x ∷ xs) h = elim (Bool-cases (p x)) [
    | inl e ↦ (x, at_head, e)
    | inr n ↦ let (y, i, e) = any-IsIn p xs (ground (arith, h, n)) in (y, in_tail i, e)
  ]

  pub IsIn-any : (p : A → Bool) (x : A) (xs : List A) → IsIn x xs → p x ≡ true → any p xs ≡ true
  IsIn-any p x [] h e = elim h [ ]
  IsIn-any p x (_ ∷ xs) at_head e = ground (arith, e)
  IsIn-any p x (y ∷ xs) (in_tail h) e = ground (arith, IsIn-any p x xs h e)

  pub IsIn-keep : (p : A → Bool) (x : A) (xs : List A) → IsIn x xs → p x ≡ true → IsIn x (keep p xs)
  IsIn-keep p x [] h e = elim h [ ]
  IsIn-keep p x (_ ∷ xs) at_head e = simp e at_head
  IsIn-keep p x (y ∷ xs) (in_tail h) e = elim (Bool-cases (p y)) [
    | inl k ↦ simp k (in_tail (IsIn-keep p x xs h e))
    | inr n ↦ simp n (IsIn-keep p x xs h e)
  ]

  IsIn-cases : (x y : A) (xs : List A) → IsIn x (y ∷ xs) → (x ≡ y) ⊎ IsIn x xs
  IsIn-cases x _ xs at_head = inl refl
  IsIn-cases x y xs (in_tail h) = inr h

  pub keep-IsIn :
      (p : A → Bool) (x : A) (xs : List A) → IsIn x (keep p xs) → IsIn x xs × (p x ≡ true)
  keep-IsIn p x [] h = elim h [ ]
  keep-IsIn p x (y ∷ xs) h = elim (Bool-cases (p y)) [
    | inl k ↦
        let i : IsIn x (y ∷ keep p xs) = simp k at h in
        elim (IsIn-cases x y (keep p xs) i) [
          | inl same ↦
              (subst (λ z. IsIn x (z ∷ xs)) same at_head, subst (λ z. p z ≡ true) (sym same) k)
          | inr later ↦ let (j, e) = keep-IsIn p x xs later in (in_tail j, e)
        ]
    | inr n ↦
        let i : IsIn x (keep p xs) = simp n at h in
        let (j, e) = keep-IsIn p x xs i in (in_tail j, e)
  ]
