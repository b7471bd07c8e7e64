-- ===== src/Collaboration/Paging.antt =====
-- internal/core/collaboration/messaging.go: `paginate`, the window that task and audit listings show.
-- A limit of 0 means no limit. Offsets and limits are not negative (a negative one acts as 0).
use native.Mathlib.Nat.{zero-add, suc-add}
use aps.Base.{
  length-drop, ℕ, zero, suc, ◌+◌, ◌≤◌, ◌<◌, ◌≡◌, refl, List, [], ◌∷◌, ◌++◌, arith, length, take,
  drop, ltb, ◌&&◌, ◌∙◌, sym, if◌then◌else◌, ap,
}

module _ {ℓ} {A : Type ℓ} where
  -- `items[offset:]` if the offset is inside the list; any other offset leaves the list whole.
  unfoldable pub from_offset : List A → ℕ → List A
  from_offset items offset =
      if ltb 0 offset && ltb offset (length items) then drop offset items else items

  -- `items[:limit]`
  unfoldable pub up_to : List A → ℕ → List A
  up_to items limit = if ltb 0 limit && ltb limit (length items) then take limit items else items

  unfoldable pub paginate : List A → ℕ → ℕ → List A
  unfolding from_offset up_to
  paginate items offset limit = up_to (from_offset items offset) limit

  length-take_lt : (n : ℕ) (xs : List A) → n < length xs → length (take n xs) ≡ n
  length-take_lt zero xs h = refl
  length-take_lt (suc n) [] h = absurd (omega arith)
  length-take_lt (suc n) (x ∷ xs) h = ap suc (length-take_lt n xs (omega arith))

  take-append-drop : (n : ℕ) (xs : List A) → take n xs ++ drop n xs ≡ xs
  take-append-drop zero xs = refl
  take-append-drop (suc n) [] = refl
  take-append-drop (suc n) (x ∷ xs) = ap (λ ys. x ∷ ys) (take-append-drop n xs)

  drop-nil : (n : ℕ) → drop {A = A} n [] ≡ []
  drop-nil zero = refl
  drop-nil (suc n) = refl

  drop-drop : (m n : ℕ) (xs : List A) → drop n (drop m xs) ≡ drop (m + n) xs
  drop-drop zero n xs = rw zero-add
  drop-drop (suc m) n [] = drop-nil n ∙ sym (drop-nil (suc m + n))
  drop-drop (suc m) n (x ∷ xs) = rw suc-add (drop-drop m n xs)

  from_offset_inside :
      (items : List A) (offset : ℕ)
      → offset < length items
      → from_offset items offset ≡ drop offset items
  unfolding from_offset
  from_offset_inside items zero h = refl
  from_offset_inside items (suc n) h = ground arith

  up_to_inside :
      (items : List A) (limit : ℕ)
      → 0 < limit
      → limit < length items
      → up_to items limit ≡ take limit items
  unfolding up_to
  up_to_inside items limit p h = ground arith

  -- A page never holds more than its limit, when one is given.
  pub length-paginate :
      (items : List A) (offset limit : ℕ) → 0 < limit → length (paginate items offset limit) ≤ limit
  unfolding paginate
  length-paginate items offset limit h =
      ground (arith, length-take_lt limit (from_offset items offset))

  -- Consecutive pages join up: from an offset inside the list, a page of `limit` entries followed by
  -- everything from the next offset is everything from the first offset, as long as that next offset
  -- is inside the list too.
  pub paginate_pages :
      (items : List A) (offset limit : ℕ)
      → 0 < limit
      → offset + limit < length items
      → paginate items offset limit ++ paginate items (offset + limit) 0 ≡ paginate items offset 0
  unfolding paginate
  paginate_pages items offset limit p h = rw (from_offset_inside items offset (omega arith)) (
      rw (from_offset_inside items (offset + limit) h) (
        rw (up_to_inside (drop offset items) limit p (omega (arith, length-drop offset items)))
          (rw (← drop-drop offset limit items) (take-append-drop limit (drop offset items)))))

  -- An offset at or past the end does not give an empty page: it gives the first page again.
  pub paginate_past_end :
      (items : List A) (offset limit : ℕ)
      → length items ≤ offset
      → paginate items offset limit ≡ paginate items 0 limit
  unfolding paginate
  paginate_past_end items offset limit h = ground arith
