-- ===== src/Routing/Compiling.antt =====
-- internal/core/msgroute/table.go: a route table that compiles ends with its one terminal route.
use aps.Base.{
  ℕ, suc, ◌+◌, String, Bool, true, ◌≡◌, refl, ap, Option-cases, inl, inr, Bool-cases, Option, none,
  some, List, [], ◌∷◌, ◌++◌, count, length, if◌then◌else◌, arith,
}
use aps.Routing.{
  TextFunctions, Route, CompiledRoute, RouteProblem, duplicate_terminal, is_terminal_kind,
  has_terminal, compile_route, compile_from, end_problems, compile_routes,
}

append-empty : (xs ys : List RouteProblem) → xs ++ ys ≡ [] → (xs ≡ []) × (ys ≡ [])
append-empty [] ys h = (refl, h)
append-empty (x ∷ xs) ys h = absurd (ground (arith, h))

-- The terminal routes of a table.
abbrev pub terminal_count : List CompiledRoute → ℕ
terminal_count routes = count (λ cr. is_terminal_kind cr.kind) routes

has_terminal_alone :
    (cr : CompiledRoute) (rest : List CompiledRoute)
    → length rest ≡ 0
    → has_terminal (cr ∷ rest) ≡ is_terminal_kind cr.kind
has_terminal_alone cr [] h = refl
has_terminal_alone cr (x ∷ rest) h = absurd (omega (arith, h))

has_terminal_later :
    (cr : CompiledRoute) (rest : List CompiledRoute)
    → has_terminal rest ≡ true
    → has_terminal (cr ∷ rest) ≡ true
has_terminal_later cr [] h = absurd (ground (arith, h))
has_terminal_later cr (x ∷ rest) h = h

length-compile_from :
    (compile : Route → CompiledRoute × List RouteProblem) (fn : TextFunctions) (i : ℕ)
    (at : Option ℕ) (routes : List Route)
    → length (compile_from fn compile i at routes).routes ≡ length routes
unfolding compile_from
length-compile_from compile fn i at [] = refl
length-compile_from compile fn i at (route ∷ rest) =
    let next : Option ℕ = elim at [
      | some k ↦ some k
      | none ↦ if is_terminal_kind (compile route).0.kind then some i else none
    ] in
    ap suc (length-compile_from compile fn (i + 1) next rest)

-- After a terminal route, a table without problems has no other.
no_second_terminal :
    (fn : TextFunctions) (compile : Route → CompiledRoute × List RouteProblem) (i k : ℕ)
    (routes : List Route)
    → let done = compile_from fn compile i (some k) routes in
      done.problems ≡ [] → (terminal_count done.routes ≡ 0) × (done.terminal_at ≡ some k)
unfolding compile_from
no_second_terminal fn compile i k [] h = (refl, refl)
no_second_terminal fn compile i k (route ∷ rest) h =
    let later = compile_from fn compile (i + 1) (some k) rest in
    let problems = (compile route).1 in
    let again : List RouteProblem =
      if is_terminal_kind (compile route).0.kind then duplicate_terminal ∷ [] else [] in
    let all : problems ++ (again ++ later.problems) ≡ [] = h in
    elim (Bool-cases (is_terminal_kind (compile route).0.kind)) [
      | inl ends ↦
          let h' : problems ++ duplicate_terminal ∷ later.problems ≡ [] = simp ends at all in
          let nothing : duplicate_terminal ∷ later.problems ≡ [] =
            (append-empty problems (duplicate_terminal ∷ later.problems) h').1 in
          absurd (ground (arith, nothing))
      | inr other ↦
          let h' : problems ++ later.problems ≡ [] = simp other at all in
          let (none_more, same) =
            no_second_terminal fn compile (i + 1) k rest
              (append-empty problems later.problems h').1 in
          (ground (arith, other, none_more), same)
    ]

-- One terminal route, at the last place.
ends_with_terminal :
    (fn : TextFunctions) (compile : Route → CompiledRoute × List RouteProblem) (i k : ℕ)
    (routes : List Route)
    → let done = compile_from fn compile i none routes in
      done.problems ≡ []
      → done.terminal_at ≡ some k
      → k + 1 ≡ i + length routes
      → (has_terminal done.routes ≡ true) × (terminal_count done.routes ≡ 1)
unfolding compile_from
ends_with_terminal fn compile i k [] h at e = absurd (ground (arith, at))
ends_with_terminal fn compile i k (route ∷ rest) h at e =
    let (cr, problems) = compile route in
    let next : Option ℕ = if is_terminal_kind cr.kind then some i else none in
    let all : problems ++ (compile_from fn compile (i + 1) next rest).problems ≡ [] = h in
    elim (Bool-cases (is_terminal_kind cr.kind)) [
      | inl ends ↦
          let later = compile_from fn compile (i + 1) (some i) rest in
          let h' : problems ++ later.problems ≡ [] = simp ends at all in
          let (none_more, same) =
            no_second_terminal fn compile (i + 1) i rest
              (append-empty problems later.problems h').1 in
          let last : length later.routes ≡ 0 =
            ground
              (arith, ends, same, at, e, length-compile_from compile fn (i + 1) (some i) rest) in
          (
            ground (arith, ends, has_terminal_alone cr later.routes last),
            ground (arith, ends, none_more),
          )
      | inr other ↦
          let later = compile_from fn compile (i + 1) none rest in
          let h' : problems ++ later.problems ≡ [] = simp other at all in
          let (ends, once) =
            ends_with_terminal fn compile (i + 1) k rest (append-empty problems later.problems h').1
              (ground (arith, other, at)) (omega (arith, e)) in
          (
            ground (arith, other, has_terminal_later cr later.routes ends),
            ground (arith, other, once),
          )
    ]

-- A table that compiles without a problem ends with a terminal route and has no other.
pub compile_routes-terminal :
    (fn : TextFunctions) (platform default_profile : String) (has_contacts : Bool)
    (routes : List Route)
    → (compile_routes fn platform default_profile has_contacts routes).1 ≡ []
    → (has_terminal (compile_routes fn platform default_profile has_contacts routes).0 ≡ true)
      × (terminal_count (compile_routes fn platform default_profile has_contacts routes).0 ≡ 1)
unfolding compile_routes
compile_routes-terminal fn platform default_profile has_contacts routes h =
    let compile = compile_route fn platform default_profile has_contacts in
    let done = compile_from fn compile 0 none routes in
    let (clean, last) =
      append-empty done.problems (end_problems fn done.terminal_at (length routes)) h in
    elim (Option-cases done.terminal_at) [
      | inl none_found ↦ absurd (ground (arith, none_found, last))
      | inr (k, found) ↦
          ends_with_terminal fn compile 0 k routes clean found (ground (arith, found, last))
    ]
