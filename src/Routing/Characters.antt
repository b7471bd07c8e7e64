-- ===== src/Routing/Characters.antt =====
-- internal/core/msgroute/senderkey.go: the loops over the characters of a text.
use Prim.Native.Nat.{ℕ, ◌+◌}
use Prim.Native.Char.{code}
use Prim.Native.String.{String, [], ◌∷◌}
use mathlib.Core.Path.{◌≡◌, refl}
use mathlib.Core.Bool.{Bool, true, false, ◌&&◌, ◌||◌}
use mathlib.Core.Option.{Option, none, some}
use mathlib.Core.Logic.{inl, inr}
use native.Mathlib.Omega.{arith}
use aps.Base.{ltb, leb, nat_eq, if◌then◌else◌, Bool-cases}

-- The text after the characters of a prefix.
abbrev pub drop_prefix : String → String → String
drop_prefix [] s = s
drop_prefix (c ∷ p) [] = []
drop_prefix (c ∷ p) (d ∷ s) = drop_prefix p s

abbrev pub has_char : (ℕ → Bool) → String → Bool
has_char p [] = false
has_char p (c ∷ s) = p (code c) || has_char p s

-- `r >= '0' && r <= '9'`
abbrev pub is_digit : ℕ → Bool
is_digit c = leb 48 c && leb c 57

-- A space, `-`, `.`, `(` or `)`.
abbrev pub is_separator : ℕ → Bool
is_separator c = nat_eq c 32 || (nat_eq c 45 || (nat_eq c 46 || (nat_eq c 40 || nat_eq c 41)))

-- `*` or `?`
abbrev pub is_wildcard : ℕ → Bool
is_wildcard c = nat_eq c 42 || nat_eq c 63

-- The loop of `isPhoneShaped`: the number of digits, or nothing where it returns false.
abbrev pub phone_digits : Bool → Bool → ℕ → String → Option ℕ
phone_digits pattern first digits [] = some digits
phone_digits pattern first digits (c ∷ s) =
    let counted = phone_digits pattern false (digits + 1) s in
    let skipped = phone_digits pattern false digits s in
    if is_digit (code c)
    then counted
    else if nat_eq (code c) 43 && first
    then skipped
    else if is_separator (code c)
    then skipped
    else if pattern && is_wildcard (code c)
    then skipped
    else none

abbrev phone_by : Bool → String → Option ℕ → Bool
phone_by pattern value none = false
phone_by pattern value (some digits) = ltb 0 digits || (pattern && has_char is_wildcard value)

-- `isPhoneShaped`
unfoldable pub is_phone_shaped : String → Bool → Bool
is_phone_shaped value pattern = phone_by pattern value (phone_digits pattern true 0 value)

-- The loop of `canonicalPhone`.
abbrev pub without_separators : String → String
without_separators [] = []
without_separators (c ∷ s) =
    let rest = without_separators s in if is_separator (code c) then rest else c ∷ rest

abbrev starts_with_digit : String → Bool
starts_with_digit [] = false
starts_with_digit (c ∷ s) = is_digit (code c)

-- `canonicalPhone`
unfoldable pub canonical_phone : String → Bool → String
canonical_phone value add_plus =
    let out = without_separators value in
    if add_plus && starts_with_digit out then "+" ∷ out else out

without_separators_again :
    (s : String) → without_separators (without_separators s) ≡ without_separators s
without_separators_again [] = refl
without_separators_again (c ∷ s) = ground (arith, without_separators_again s)

-- The canonical form of a phone number is its own canonical form.
pub canonical_phone_again :
    (value : String) (add_plus : Bool)
    → canonical_phone (canonical_phone value add_plus) add_plus ≡ canonical_phone value add_plus
unfolding canonical_phone
canonical_phone_again value add_plus =
    elim (Bool-cases (add_plus && starts_with_digit (without_separators value))) [
      | inl plus ↦ ground (arith, plus, without_separators_again value)
      | inr bare ↦ ground (arith, bare, without_separators_again value)
    ]

-- A number that starts with a digit and the same number with a plus before it have one canonical form on a phone
-- platform.
pub canonical_phone_plus :
    (value : String)
    → starts_with_digit (without_separators value) ≡ true
    → canonical_phone ("+" ∷ value) true ≡ canonical_phone value true
unfolding canonical_phone
canonical_phone_plus value h = ground (arith, h)
