-- ===== src/Routing.antt =====
-- internal/core/msgroute: the route tables of message services (senderkey.go, table.go, resolve.go, and the index of
-- contacts.go). `strings.ToLower`, `strings.TrimSpace` and `path.Match` are the parameter `TextFunctions`. The prefixes
-- are ASCII, so that the slices by bytes are slices by characters. Left out: the files of routes and contacts.
pub mod Characters
pub mod Compiling
pub mod Deciding
pub mod Tests
use aps.Base.{
  starts_with, ℕ, suc, ◌+◌, ◌-◌, String, Bool, true, false, not, ◌&&◌, ◌||◌, Option, none, some,
  List, [], ◌∷◌, ◌++◌, Dict, lookup, drop, length, nat_eq, ◌==◌, if◌then◌else◌,
}
use aps.Routing.Characters.{
  drop_prefix, has_char, is_wildcard, is_separator, is_phone_shaped, canonical_phone,
}

-- `glob_match` is `path.Match`, `none` where the pattern is malformed.
pub record TextFunctions : Type 0 where
  pub to_lower : String → String
  pub trim : String → String
  pub glob_match : String → String → Option Bool

pub record Route : Type 0 where
  pub match_text : String
  pub profile : String
  pub action : String

pub record Contact : Type 0 where
  pub id : String
  pub name : String
  pub org : String
  pub keys : List String

pub data MatchKind : Type 0 where
  kind_sender kind_org kind_contact kind_terminal : MatchKind

pub record CompiledRoute : Type 0 where
  pub route : Route
  pub kind : MatchKind
  pub pattern : String
  pub glob : Bool

pub record ContactIndex : Type 0 where
  pub contacts : List Contact
  pub by_key : Dict ℕ

pub record Table : Type 0 where
  pub platform : String
  pub routes : List CompiledRoute
  pub contacts : Option ContactIndex

pub data RouteProblem : Type 0 where
  match_required action_required action_not_plain profile_required : RouteProblem
  pattern_required contacts_required invalid_glob : RouteProblem
  duplicate_terminal missing_terminal terminal_not_last : RouteProblem

abbrev pub is_terminal_kind : MatchKind → Bool
is_terminal_kind kind_terminal = true
is_terminal_kind _ = false

-- `HasTerminal`
abbrev pub has_terminal : List CompiledRoute → Bool
has_terminal [] = false
has_terminal (cr ∷ []) = is_terminal_kind cr.kind
has_terminal (_ ∷ cr ∷ rest) = has_terminal (cr ∷ rest)

-- `isGlob`
abbrev pub is_glob : String → Bool
is_glob pattern = has_char (λ c. is_wildcard c || nat_eq c 91) pattern

-- `channelPrefixes`, each with whether it is one of `phonePrefixes`.
abbrev pub channel_prefixes : List (String × Bool)
channel_prefixes = ("whatsapp:", true) ∷ ("sms:", true) ∷ ("tel:", true) ∷ ("mailto:", false) ∷ []

module _ (fn : TextFunctions) where
  open fn use {to_lower, trim, glob_match}

  -- `IsPhonePlatform`
  abbrev pub is_phone_platform : String → Bool
  is_phone_platform platform =
      let name = to_lower (trim platform) in (name == "sms") || (name == "whatsapp")

  -- `stripChannelPrefix`
  unfoldable pub strip_channel_prefix : List (String × Bool) → String → String × Bool
  strip_channel_prefix [] value = (value, false)
  strip_channel_prefix (entry ∷ prefixes) value =
      let rest = strip_channel_prefix prefixes value in
      if starts_with entry.0 (to_lower value)
      then (trim (drop_prefix entry.0 value), entry.1)
      else rest

  -- `normalize`
  unfoldable pub normalize : String → String → Bool → String
  normalize platform raw pattern =
      let (value, phone_hint) = strip_channel_prefix channel_prefixes (trim raw) in
      if value == ""
      then ""
      else if has_char (λ c. nat_eq c 64) value
      then to_lower value
      else if is_phone_shaped value pattern
      then canonical_phone value (phone_hint || is_phone_platform platform)
      else value

  -- `parseMatch`: the kind and the pattern, and the problem if there is one
  unfoldable pub parse_match : String → String → Bool → MatchKind × String × List RouteProblem
  parse_match text platform has_contacts =
      let lower = to_lower text in
      let org = to_lower (trim (drop_prefix "org:" text)) in
      let contact = to_lower (trim (drop_prefix "contact:" text)) in
      let without = if has_contacts then [] else contacts_required ∷ [] in
      if lower == "unknown"
      then (kind_terminal, "", [])
      else if starts_with "org:" lower
      then (kind_org, org, if org == "" then pattern_required ∷ [] else without)
      else if starts_with "contact:" lower
      then (kind_contact, contact, if contact == "" then pattern_required ∷ [] else without)
      else (kind_sender, normalize platform text true, [])

  -- `strings.ContainsAny(action, "= \t")`
  abbrev pub action_problems : String → List RouteProblem
  action_problems action =
      if action == ""
      then action_required ∷ []
      else if has_char (λ c. nat_eq c 61 || (nat_eq c 32 || nat_eq c 9)) action
      then action_not_plain ∷ []
      else []

  abbrev pub glob_problems : String → List RouteProblem
  glob_problems pattern =
      if is_glob pattern
      then elim (glob_match pattern "") [ none ↦ invalid_glob ∷ [] | some b ↦ [] ]
      else []

  -- `compileRoute`: the route, and its problems, which the source joins into one error
  unfoldable pub compile_route : String → String → Bool → Route → CompiledRoute × List RouteProblem
  compile_route platform default_profile has_contacts route =
      let text = trim route.match_text in
      let action = trim route.action in
      let own = trim route.profile in
      let profile = if own == "" then trim default_profile else own in
      let problems =
        action_problems action ++ (if profile == "" then profile_required ∷ [] else []) in
      let named : Route = record route { action = action; profile = profile } in
      let (kind, pattern, more) = parse_match text platform has_contacts in
      if text == ""
      then (
        record { route = named; kind = kind_sender; pattern = ""; glob = false },
        match_required ∷ problems,
      )
      else (
        record { route = named; kind = kind; pattern = pattern; glob = is_glob pattern },
        problems ++ more ++ glob_problems pattern,
      )

  pub record Compiled : Type 0 where
    pub routes : List CompiledRoute
    pub problems : List RouteProblem
    pub terminal_at : Option ℕ

  -- The loop of `compileRoutes` from route `i` on, `terminal_at` being the first terminal route so far.
  unfoldable pub compile_from :
      (Route → CompiledRoute × List RouteProblem) → ℕ → Option ℕ → List Route → Compiled
  compile_from compile i terminal_at [] = record {
    routes = [];
    problems = [];
    terminal_at = terminal_at;
  }
  compile_from compile i terminal_at (route ∷ rest) =
      let (cr, problems) = compile route in
      let ends = is_terminal_kind cr.kind in
      let again : List RouteProblem = elim terminal_at [
        | none ↦ []
        | some k ↦ if ends then duplicate_terminal ∷ [] else []
      ] in
      let next : Option ℕ = elim terminal_at [
        | some k ↦ some k
        | none ↦ if ends then some i else none
      ] in
      let later = compile_from compile (i + 1) next rest in
      record {
        routes = cr ∷ later.routes;
        problems = problems ++ (again ++ later.problems);
        terminal_at = later.terminal_at;
      }

  abbrev pub end_problems : Option ℕ → ℕ → List RouteProblem
  end_problems none n = missing_terminal ∷ []
  end_problems (some k) n = if nat_eq (k + 1) n then [] else terminal_not_last ∷ []

  -- `compileRoutes`
  unfoldable pub compile_routes :
      String → String → Bool → List Route → List CompiledRoute × List RouteProblem
  compile_routes platform default_profile has_contacts routes =
      let done = compile_from (compile_route platform default_profile has_contacts) 0 none routes in
      (done.routes, done.problems ++ end_problems done.terminal_at (length routes))

  abbrev nth_contact : List Contact → Option Contact
  nth_contact [] = none
  nth_contact (c ∷ cs) = some c

  -- `LookupContact`; the source panics where the index is out of range, which it is not
  abbrev pub lookup_contact : ContactIndex → String → Option Contact
  lookup_contact index key = elim (lookup key index.by_key) [
    | none ↦ none
    | some i ↦ nth_contact (drop i index.contacts)
  ]

  -- `matchPattern`
  abbrev pub match_pattern : String → Bool → String → Bool
  match_pattern pattern glob value =
      if glob
      then elim (glob_match pattern value) [ none ↦ false | some b ↦ b ]
      else pattern == value

  abbrev pub matches_org : CompiledRoute → Option Contact → Bool
  matches_org cr none = false
  matches_org cr (some c) =
      if c.org == "" then false else match_pattern cr.pattern cr.glob (to_lower c.org)

  abbrev pub matches_contact : CompiledRoute → Option Contact → Bool
  matches_contact cr none = false
  matches_contact cr (some c) = match_pattern cr.pattern cr.glob (to_lower c.id)

  -- `(cr compiledRoute) matches`
  unfoldable pub route_matches : CompiledRoute → String → Option Contact → Bool
  route_matches cr sender_key contact = elim cr.kind [
    | kind_terminal ↦ true
    | kind_org ↦ matches_org cr contact
    | kind_contact ↦ matches_contact cr contact
    | kind_sender ↦ if sender_key == "" then false else match_pattern cr.pattern cr.glob sender_key
  ]

  -- `index` is `none` where the source has -1, and then there is no route.
  pub record Decision : Type 0 where
    pub sender_key : String
    pub contact : Option Contact
    pub route : Option Route
    pub index : Option ℕ
    pub terminal : Bool

  -- The loop of `Resolve` from route `i` on: the position and the route that wins.
  unfoldable pub first_match :
      String → Option Contact → ℕ → List CompiledRoute → Option (ℕ × CompiledRoute)
  first_match sender_key contact i [] = none
  first_match sender_key contact i (cr ∷ rest) =
      let later = first_match sender_key contact (i + 1) rest in
      if route_matches cr sender_key contact then some (i, cr) else later

  abbrev pub contact_of : Table → String → Option Contact
  contact_of table sender_key = elim table.contacts [
    | none ↦ none
    | some index ↦ if sender_key == "" then none else lookup_contact index sender_key
  ]

  -- `Resolve`, on a table that is not nil
  unfoldable pub resolve_sender : Table → String → Decision
  resolve_sender table sender_id =
      let key = normalize table.platform sender_id false in
      let contact = contact_of table key in
      elim (first_match key contact 0 table.routes) [
        | none ↦ record {
          sender_key = key;
          contact = contact;
          route = none;
          index = none;
          terminal = false;
        }
        | some win ↦ record {
          sender_key = key;
          contact = contact;
          route = some (win.1.route);
          index = some win.0;
          terminal = is_terminal_kind win.1.kind;
        }
      ]
