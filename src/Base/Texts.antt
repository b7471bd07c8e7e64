-- ===== src/Base/Texts.antt =====
-- The order of texts, as Go's `>` on strings: the order of the UTF-8's bytes.
use Prim.Native.Nat.{Ordering, compare as compare_ℕ}
use Prim.Native.Char.{Char, code}
use Prim.Native.String.{String, [], ◌∷◌, ◌++◌ as text_append, compare, then}
use Prim.Native.String.compare
use Prim.Native.String.append
use mathlib.Core.Path.{◌≡◌, refl}
use mathlib.Core.Bool.{Bool, true, false}
use native.Mathlib.Omega.{arith}
use text.Mathlib.TextEquality.{eq_iff}
use text.Mathlib.TextLemmas.{append_cancel_left}
use package.aps.Base.Tests.{◌==◌, nat_eq, if◌then◌else◌}

abbrev pub is_gt : Ordering → Bool
is_gt Ordering.gt = true
is_gt _ = false

abbrev pub text_gtb : String → String → Bool
text_gtb a b = is_gt (compare a b)

compare_empty_left : (y : Char) (b : String) → compare [] (y ∷ b) ≡ Ordering.lt
compare_empty_left y b = λ i. compare.nil-cons y b i

compare_empty_right : (x : Char) (a : String) → compare (x ∷ a) [] ≡ Ordering.gt
compare_empty_right x a = λ i. compare.cons-nil x a i

compare_cons :
    (x y : Char) (a b : String)
    → compare (x ∷ a) (y ∷ b) ≡ (then) (compare_ℕ (code x) (code y)) (compare a b)
compare_cons x y a b = λ i. compare.cons-cons x y a b i

pub text_gtb_trans :
    (a b c : String) → text_gtb a b ≡ false → text_gtb b c ≡ false → text_gtb a c ≡ false
text_gtb_trans [] b [] h k = refl
text_gtb_trans [] b (z ∷ c) h k = ground (arith, compare_empty_left z c)
text_gtb_trans (x ∷ a) [] c h k = ground (arith, h, compare_empty_right x a)
text_gtb_trans (x ∷ a) (y ∷ b) [] h k = ground (arith, k, compare_empty_right y b)
text_gtb_trans (x ∷ a) (y ∷ b) (z ∷ c) h k = ground (
  arith,
  h,
  k,
  text_gtb_trans a b c,
  compare_cons x y a b,
  compare_cons y z b c,
  compare_cons x z a c,
)

same_of_gtb : (a b : String) → text_gtb a b ≡ false → text_gtb b a ≡ false → (a == b) ≡ true
same_of_gtb [] [] h k = refl
same_of_gtb [] (y ∷ b) h k = ground (arith, k, compare_empty_right y b)
same_of_gtb (x ∷ a) [] h k = ground (arith, h, compare_empty_right x a)
same_of_gtb (x ∷ a) (y ∷ b) h k =
    ground (arith, h, k, same_of_gtb a b, compare_cons x y a b, compare_cons y x b a)

pub text_gtb_antisym : (a b : String) → text_gtb a b ≡ false → text_gtb b a ≡ false → a ≡ b
text_gtb_antisym a b h k = (eq_iff a b).0 (same_of_gtb a b h k)

pub text_gtb_asym : (a b : String) → text_gtb a b ≡ true → text_gtb b a ≡ false
text_gtb_asym [] [] h = refl
text_gtb_asym [] (y ∷ b) h = ground (arith, h, compare_empty_left y b)
text_gtb_asym (x ∷ a) [] h = ground (arith, compare_empty_left x a)
text_gtb_asym (x ∷ a) (y ∷ b) h =
    ground (arith, h, text_gtb_asym a b, compare_cons x y a b, compare_cons y x b a)

-- `strings.HasPrefix`
abbrev pub starts_with : String → String → Bool
starts_with [] s = true
starts_with (c ∷ p) [] = false
starts_with (c ∷ p) (d ∷ s) =
    let rest = starts_with p s in if nat_eq (code c) (code d) then rest else false

-- `strings.SplitN(s, ".", 2)[0]`: the text before the first dot.
abbrev pub before_dot : String → String
before_dot [] = []
before_dot (c ∷ s) = let rest = before_dot s in if nat_eq (code c) 46 then [] else c ∷ rest

pub text_append_inj : (p s t : String) → text_append p s ≡ text_append p t → s ≡ t
text_append_inj p s t h = append_cancel_left p s t h

pub starts_with-text_append : (p s : String) → starts_with p (text_append p s) ≡ true
starts_with-text_append [] s = refl
starts_with-text_append (c ∷ p) s =
    rw (append.cons c p s) (ground (arith, starts_with-text_append p s))
