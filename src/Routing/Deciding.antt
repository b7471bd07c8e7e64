-- ===== src/Routing/Deciding.antt =====
-- internal/core/msgroute/resolve.go: which route a sender gets.
use aps.Base.{
  ℕ, ◌+◌, String, Bool, true, false, ◌≡◌, refl, ap, inl, inr, Bool-cases, Option, some, List, [],
  ◌∷◌, ◌++◌, All, length, arith,
}
use aps.Routing.{
  TextFunctions, Route, Contact, ContactIndex, CompiledRoute, Table, is_terminal_kind, has_terminal,
  compile_routes, normalize, route_matches, first_match, contact_of, resolve_sender,
}
use aps.Routing.Compiling.{compile_routes-terminal}

terminal_matches :
    (fn : TextFunctions) (cr : CompiledRoute) (key : String) (contact : Option Contact)
    → is_terminal_kind cr.kind ≡ true
    → route_matches fn cr key contact ≡ true
unfolding route_matches
terminal_matches fn cr key contact h = ground (arith, h)

rest_terminal :
    (fn : TextFunctions) (key : String) (contact : Option Contact) (cr : CompiledRoute)
    (rest : List CompiledRoute)
    → has_terminal (cr ∷ rest) ≡ true
    → route_matches fn cr key contact ≡ false
    → has_terminal rest ≡ true
rest_terminal fn key contact cr [] h miss =
    absurd (ground (arith, miss, terminal_matches fn cr key contact h))
rest_terminal fn key contact cr (x ∷ rest) h miss = h

-- The first route of a list that matches, where it stands at position `i` of the list and after.
record Wins (fn : TextFunctions) (key : String) (contact : Option Contact) (i : ℕ)
    (routes : List CompiledRoute) : Type 0 where
  before : List CompiledRoute
  winner : CompiledRoute
  after : List CompiledRoute
  split : routes ≡ before ++ winner ∷ after
  passed : All (λ cr. route_matches fn cr key contact ≡ false) before
  matched : route_matches fn winner key contact ≡ true
  found : first_match fn key contact i routes ≡ some (i + length before, winner)

first_match-Wins :
    (fn : TextFunctions) (key : String) (contact : Option Contact) (i : ℕ)
    (routes : List CompiledRoute)
    → has_terminal routes ≡ true
    → Wins fn key contact i routes
unfolding first_match
first_match-Wins fn key contact i [] h = absurd (ground (arith, h))
first_match-Wins fn key contact i (cr ∷ rest) h =
    elim (Bool-cases (route_matches fn cr key contact)) [
      | inl hit ↦ record {
        before = [];
        winner = cr;
        after = rest;
        split = refl;
        passed = tt;
        matched = hit;
        found = ground (arith, hit);
      }
      | inr miss ↦
          let later =
            first_match-Wins fn key contact (i + 1) rest
              (rest_terminal fn key contact cr rest h miss) in
          record {
            before = cr ∷ later.before;
            winner = later.winner;
            after = later.after;
            split = ap (λ l. cr ∷ l) later.split;
            passed = (miss, later.passed);
            matched = later.matched;
            found = ground (arith, miss, later.found);
          }
    ]

-- In a table whose routes compiled without a problem, every sender gets a route: the first of those that match,
-- with its position, and the decision says whether it is the terminal one.
pub resolve_sender_first :
    (fn : TextFunctions) (platform default_profile : String) (contacts : Option ContactIndex)
    (has_contacts : Bool) (routes : List Route) (sender_id : String)
    → (compile_routes fn platform default_profile has_contacts routes).1 ≡ []
    → let compiled = (compile_routes fn platform default_profile has_contacts routes).0 in
      let table : Table = record { platform = platform; routes = compiled; contacts = contacts } in
      let key = normalize fn platform sender_id false in
      let contact = contact_of fn table key in
      (before after : List CompiledRoute) × (winner : CompiledRoute) × (compiled
        ≡ before ++ winner ∷ after)
      × All (λ cr. route_matches fn cr key contact ≡ false) before
      × (route_matches fn winner key contact ≡ true)
      × (resolve_sender fn table sender_id ≡ record {
        sender_key = key;
        contact = contact;
        route = some winner.route;
        index = some (length before);
        terminal = is_terminal_kind winner.kind;
      })
unfolding resolve_sender
resolve_sender_first fn platform default_profile contacts has_contacts routes sender_id h =
    let compiled = (compile_routes fn platform default_profile has_contacts routes).0 in
    let table : Table = record { platform = platform; routes = compiled; contacts = contacts } in
    let key = normalize fn platform sender_id false in
    let ends = (compile_routes-terminal fn platform default_profile has_contacts routes h).0 in
    let wins = first_match-Wins fn key (contact_of fn table key) 0 compiled ends in
    (
      wins.before,
      wins.after,
      wins.winner,
      wins.split,
      wins.passed,
      wins.matched,
      ground (arith, wins.found),
    )
