-- ===== src/Base/Sorting.antt =====
-- `sort.Strings`, and `sort.Slice` by a text.
use Prim.Native.String.{String}
use mathlib.Core.Path.{◌≡◌, refl}
use mathlib.Core.Bool.{false}
use mathlib.Core.List.{List, [], ◌∷◌, map}
use mathlib.Core.Logic.{inl, inr}
use native.Mathlib.Omega.{arith}
use package.aps.Base.Tests.{Bool-cases, if◌then◌else◌}
use package.aps.Base.Texts.{text_gtb, text_gtb_asym}
use package.aps.Base.Lists.{times}

module _ {A : Type 0} (key : A → String) where
  abbrev pub insert_by : A → List A → List A
  insert_by a [] = a ∷ []
  insert_by a (x ∷ xs) =
      let later = insert_by a xs in if text_gtb (key a) (key x) then x ∷ later else a ∷ x ∷ xs

  unfoldable pub sort_by : List A → List A
  sort_by [] = []
  sort_by (x ∷ xs) = insert_by x (sort_by xs)

  -- The sorted list has each key as often.
  times-insert_by :
      (s : String) (a : A) (xs : List A)
      → times s (map key (insert_by a xs)) ≡ times s (map key (a ∷ xs))
  times-insert_by s a [] = refl
  times-insert_by s a (x ∷ xs) = ground (arith, times-insert_by s a xs)

  pub times-sort_by :
      (s : String) (xs : List A) → times s (map key (sort_by xs)) ≡ times s (map key xs)
  unfolding sort_by
  times-sort_by s [] = refl
  times-sort_by s (x ∷ xs) = ground (arith, times-insert_by s x (sort_by xs), times-sort_by s xs)

  -- No key is followed by a smaller one.
  abbrev pub AllFrom : A → List A → Type 0
  AllFrom a [] = Unit
  AllFrom a (x ∷ xs) = (text_gtb (key a) (key x) ≡ false) × AllFrom x xs

  abbrev pub IsSortedBy : List A → Type 0
  IsSortedBy [] = Unit
  IsSortedBy (x ∷ xs) = AllFrom x xs

  AllFrom-insert_by :
      (b a : A) (xs : List A)
      → text_gtb (key b) (key a) ≡ false
      → AllFrom b xs
      → AllFrom b (insert_by a xs)
  AllFrom-insert_by b a [] h s = (h, tt)
  AllFrom-insert_by b a (x ∷ xs) h s = elim (Bool-cases (text_gtb (key a) (key x))) [
    | inl later ↦
        simp later (s.0, AllFrom-insert_by x a xs (text_gtb_asym (key a) (key x) later) s.1)
    | inr here ↦ simp here (h, (refl, s.1))
  ]

  IsSortedBy-insert_by : (a : A) (xs : List A) → IsSortedBy xs → IsSortedBy (insert_by a xs)
  IsSortedBy-insert_by a [] s = tt
  IsSortedBy-insert_by a (x ∷ xs) s = elim (Bool-cases (text_gtb (key a) (key x))) [
    | inl later ↦ simp later (AllFrom-insert_by x a xs (text_gtb_asym (key a) (key x) later) s)
    | inr here ↦ simp here (refl, s)
  ]

  pub sort_by-IsSortedBy : (xs : List A) → IsSortedBy (sort_by xs)
  unfolding sort_by
  sort_by-IsSortedBy [] = tt
  sort_by-IsSortedBy (x ∷ xs) = IsSortedBy-insert_by x (sort_by xs) (sort_by-IsSortedBy xs)
