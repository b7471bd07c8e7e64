-- ===== src/Multidevice/Causality/Order.antt =====
-- internal/core/multidevice/causality.go: the order that the clocks stand for, and that `Compare` decides it.
use mathlib.Core.Bool.{false≢true}
use aps.Base.{
  contains-append, ℕ, ◌+◌, ◌≤◌, ◌<◌, String, Bool, true, false, ◌≡◌, ◌⊎◌, inl, inr, refl, List, [],
  ◌∷◌, ◌++◌, lookup, insert, ltb, if◌then◌else◌, arith, ◌==◌, eq_iff, eq_refl, contains,
  lookup-insert, Bool-cases, subst, sym, ◌∙◌,
}
use aps.Multidevice.Causality.{
  VectorClock, get, increment, merge, Relation, equal, before, after, concurrent, devices, Flags,
  scan, compare_clocks,
}

-- Every counter of the first clock is at most the second's.
abbrev pub Below : VectorClock → VectorClock → Type 0
Below a b = (d : String) → get a d ≤ get b d

abbrev pub Same : VectorClock → VectorClock → Type 0
Same a b = (d : String) → get a d ≡ get b d

get-insert :
    (vc : VectorClock) (k d : String) (n : ℕ)
    → get (insert k n vc) d ≡ (if k == d then n else get vc d)
unfolding get
get-insert vc k d n = ground (arith, lookup-insert k d n vc)

absent_zero : (vc : VectorClock) (d : String) → contains (devices vc) d ≡ false → get vc d ≡ 0
unfolding get lookup
absent_zero [] d h = refl
absent_zero (entry ∷ rest) d h = ground (arith, absent_zero rest d)

get_head :
    (entry : String × ℕ) (rest : VectorClock) (d : String)
    → entry.0 == d ≡ true
    → get (entry ∷ rest) d ≡ entry.1
unfolding get lookup
get_head entry rest d e = rw e

get_tail :
    (entry : String × ℕ) (rest : VectorClock) (d : String)
    → entry.0 == d ≡ false
    → get (entry ∷ rest) d ≡ get rest d
unfolding get lookup
get_tail entry rest d e = rw e

-- The flags speak of the devices that were scanned.
scan_sound :
    (a b : VectorClock) (ds : List String) (d : String)
    → contains ds d ≡ true
    → ((scan a b ds).a_before_b ≡ true → get a d ≤ get b d)
      × ((scan a b ds).b_before_a ≡ true → get b d ≤ get a d)
      × ((scan a b ds).same ≡ true → get a d ≡ get b d)
unfolding scan
scan_sound a b [] d h = absurd (false≢true h)
scan_sound a b (x ∷ ds) d h = ground (arith, scan_sound a b ds d, eq_iff x d)

scan_complete :
    (a b : VectorClock) (ds : List String)
    → (Below a b → (scan a b ds).a_before_b ≡ true)
      × (Below b a → (scan a b ds).b_before_a ≡ true)
      × (Same a b → (scan a b ds).same ≡ true)
unfolding scan
scan_complete a b [] = ((λ h. refl), (λ h. refl), λ h. refl)
scan_complete a b (x ∷ ds) =
    let (p, q, r) = scan_complete a b ds in
    (
      (λ h. ground (arith, p h, h x)),
      (λ h. ground (arith, q h, h x)),
      λ h. ground (arith, r h, h x),
    )

all_devices :
    (a b : VectorClock) (d : String)
    → (contains (devices a ++ devices b) d ≡ true) ⊎ ((get a d ≡ 0) × (get b d ≡ 0))
all_devices a b d =
    ground (arith, contains-append (devices a) (devices b) d, absent_zero a d, absent_zero b d)

-- What each verdict says of the two clocks. The four exclude one another.
abbrev pub Means : Relation → VectorClock → VectorClock → Type 0
Means equal a b = Same a b
Means before a b = Below a b × ¬ Same a b
Means after a b = Below b a × ¬ Same a b
Means concurrent a b = (¬ Below a b) × (¬ Below b a)

module _ (a b : VectorClock) where
  flags : Flags
  flags = scan a b (devices a ++ devices b)

  Below-of_flag : flags.a_before_b ≡ true → Below a b
  unfolding flags
  Below-of_flag h d = elim (all_devices a b d) [
    | inl there ↦ (scan_sound a b (devices a ++ devices b) d there).0 h
    | inr zeros ↦ omega (arith, zeros)
  ]

  above_of_flag : flags.b_before_a ≡ true → Below b a
  unfolding flags
  above_of_flag h d = elim (all_devices a b d) [
    | inl there ↦ (scan_sound a b (devices a ++ devices b) d there).1 h
    | inr zeros ↦ omega (arith, zeros)
  ]

  same_of_flag : flags.same ≡ true → Same a b
  unfolding flags
  same_of_flag h d = elim (all_devices a b d) [
    | inl there ↦ (scan_sound a b (devices a ++ devices b) d there).2 h
    | inr zeros ↦ omega (arith, zeros)
  ]

  refute : {P : Type 0} (x : Bool) → (P → x ≡ true) → x ≡ false → ¬ P
  refute x f h p = false≢true (sym h ∙ f p)

  -- `Compare` decides the causal order: it answers equal, before, after or concurrent exactly as every
  -- counter of the first clock is the same, at most, or at least the second's, or neither.
  pub compare_clocks-Means : Means (compare_clocks a b) a b
  unfolding compare_clocks flags
  compare_clocks-Means =
      let (p, q, r) = scan_complete a b (devices a ++ devices b) in
      elim (Bool-cases (scan a b (devices a ++ devices b)).same) [
        | inl e ↦ simp e (same_of_flag e)
        | inr e ↦ elim (Bool-cases (scan a b (devices a ++ devices b)).a_before_b) [
          | inl f ↦ simp (e, f) (Below-of_flag f, refute _ r e)
          | inr f ↦ elim (Bool-cases (scan a b (devices a ++ devices b)).b_before_a) [
            | inl g ↦ simp (e, f, g) (above_of_flag g, refute _ r e)
            | inr g ↦ simp (e, f, g) (refute _ p f, refute _ q g)
          ]
        ]
      ]

increment_lem : (vc : VectorClock) (d : String) → increment vc d ≡ insert d (get vc d + 1) vc
unfolding increment
increment_lem vc d = refl

get-increment :
    (vc : VectorClock) (d e : String)
    → get (increment vc d) e ≡ (if d == e then get vc d + 1 else get vc e)
get-increment vc d e = rw (increment_lem vc d) (get-insert vc d e (get vc d + 1))

increment-Below : (vc : VectorClock) (d : String) → Below vc (increment vc d)
increment-Below vc d e = ground (arith, get-increment vc d e, eq_iff d e)

only_before :
    (a b : VectorClock) (d : String) (r : Relation)
    → Below a b
    → get a d < get b d
    → Means r a b
    → r ≡ before
only_before a b d before up h m = refl
only_before a b d equal up h m = absurd (omega (arith, m d))
only_before a b d after up h m = absurd (omega (arith, m.0 d))
only_before a b d concurrent up h m = absurd (m.0 up)

-- A clock compares as before itself incremented, for every device.
pub compare-increment :
    (vc : VectorClock) (d : String) → compare_clocks vc (increment vc d) ≡ before
compare-increment vc d =
    only_before vc (increment vc d) d (compare_clocks vc (increment vc d)) (increment-Below vc d)
      (ground (arith, get-increment vc d d, eq_refl d)) (compare_clocks-Means vc (increment vc d))

-- One turn of the loop of `Merge`.
abbrev raise : VectorClock → String × ℕ → VectorClock
raise vc entry = if ltb (get vc entry.0) entry.1 then insert entry.0 entry.1 vc else vc

get-raise :
    (vc : VectorClock) (entry : String × ℕ) (d : String)
    → (get vc d ≤ get (raise vc entry) d)
      × (entry.0 ≡ d → entry.1 ≤ get (raise vc entry) d)
      × ((get (raise vc entry) d ≡ get vc d) ⊎ ((entry.0 ≡ d) × (get (raise vc entry) d ≡ entry.1)))
get-raise vc entry d = ground (arith, get-insert vc entry.0 d entry.1, eq_iff entry.0 d)

merge-ge_left : (a b : VectorClock) (d : String) → get a d ≤ get (merge a b) d
unfolding merge
merge-ge_left a [] d = omega arith
merge-ge_left a (entry ∷ others) d =
    omega (arith, (get-raise a entry d).0, merge-ge_left (raise a entry) others d)

merge-ge_right : (a b : VectorClock) (d : String) → get b d ≤ get (merge a b) d
unfolding merge
merge-ge_right a [] d = unfold get lookup in omega arith
merge-ge_right a (entry ∷ others) d = elim (Bool-cases (entry.0 == d)) [
  | inl e ↦ omega (
    arith,
    (get-raise a entry d).1 ((eq_iff entry.0 d).0 e),
    merge-ge_left (raise a entry) others d,
    get_head entry others d e,
  )
  | inr e ↦ omega (arith, merge-ge_right (raise a entry) others d, get_tail entry others d e)
]

-- The keys of a Go map are distinct.
abbrev pub Keyed : VectorClock → Type 0
Keyed [] = Unit
Keyed (entry ∷ rest) = (contains (devices rest) entry.0 ≡ false) × Keyed rest

merge-le :
    (a b : VectorClock) (d : String) (n : ℕ)
    → Keyed b
    → get a d ≤ n
    → get b d ≤ n
    → get (merge a b) d ≤ n
unfolding merge
merge-le a [] d n k p q = p
merge-le a (entry ∷ others) d n k p q = elim (Bool-cases (entry.0 == d)) [
  | inl e ↦
      let head = get_head entry others d e in
      let none_left =
        absent_zero others d
          (subst (λ x. contains (devices others) x ≡ false) ((eq_iff entry.0 d).0 e) k.0) in
      merge-le (raise a entry) others d n k.1 (ground (arith, get-raise a entry d)) (omega arith)
  | inr e ↦
      let rest = get_tail entry others d e in
      merge-le (raise a entry) others d n k.1
        (ground (arith, get-raise a entry d, eq_iff entry.0 d)) (omega arith)
]

-- `Merge`, where the clock merged in has no device twice, is the least clock above both: it is above the clock and above the one merged into it, and
-- below every clock that is above both.
pub merge_least :
    (a b : VectorClock)
    → Keyed b
    → Below a (merge a b)
      × Below b (merge a b)
      × ((c : VectorClock) → Below a c → Below b c → Below (merge a b) c)
merge_least a b k =
    (merge-ge_left a b, merge-ge_right a b, λ c p q d. merge-le a b d (get c d) k (p d) (q d))
