-- ===== src/Routing/Tests.antt =====
-- internal/core/msgroute: a table of three routes, with text functions that leave a text as it is, and the theorems
-- at it.
use aps.Base.{String, true, false, ◌≡◌, refl, some, List, [], ◌∷◌, ◌++◌, All, length, lookup, ◌==◌}
use aps.Routing.Characters.{
  is_phone_shaped, canonical_phone, canonical_phone_again, canonical_phone_plus,
}
use aps.Routing.{
  TextFunctions, Route, ContactIndex, terminal_not_last, CompiledRoute, Table, is_terminal_kind,
  has_terminal, strip_channel_prefix, normalize, parse_match, compile_route, compile_from,
  compile_routes, route_matches, first_match, contact_of, resolve_sender,
}
use aps.Routing.Compiling.{terminal_count, compile_routes-terminal}
use aps.Routing.Deciding.{resolve_sender_first}

abbrev plain_text : TextFunctions
plain_text = record { to_lower = λ s. s; trim = λ s. s; glob_match = λ p s. some (p == s) }

abbrev to_route : String → String → Route
to_route match_text action = record { match_text = match_text; profile = ""; action = action }

abbrev routes : List Route
routes =
    to_route "org:acme" "sales" ∷ to_route "+1 555-0100" "vip" ∷ to_route "unknown" "triage" ∷ []

abbrev acme : ContactIndex
acme = record {
  contacts = record { id = "c1"; name = "Ann"; org = "acme"; keys = "+15550199" ∷ [] } ∷ [];
  by_key = ("+15550199", 0) ∷ [];
}

abbrev table : Table
table = record {
  platform = "sms";
  routes = (compile_routes plain_text "sms" "desk" true routes).0;
  contacts = some acme;
}

routes_compile : (compile_routes plain_text "sms" "desk" true routes).1 ≡ []
unfolding compile_routes compile_from compile_route parse_match normalize strip_channel_prefix
    is_phone_shaped canonical_phone
routes_compile = refl

known_number : (resolve_sender plain_text table "whatsapp:15550100").index ≡ some 1
unfolding compile_routes compile_from compile_route parse_match normalize strip_channel_prefix
    is_phone_shaped canonical_phone resolve_sender first_match route_matches lookup
known_number = refl

known_org : (resolve_sender plain_text table "+1 (555) 0199").index ≡ some 0
unfolding compile_routes compile_from compile_route parse_match normalize strip_channel_prefix
    is_phone_shaped canonical_phone resolve_sender first_match route_matches lookup
known_org = refl

stranger : (resolve_sender plain_text table "tel:5").terminal ≡ true
unfolding compile_routes compile_from compile_route parse_match normalize strip_channel_prefix
    is_phone_shaped canonical_phone resolve_sender first_match route_matches lookup
stranger = refl

unreachable_route :
    (compile_routes plain_text "sms" "desk" true
      (to_route "unknown" "triage" ∷ to_route "x" "y" ∷ [])).1
    ≡ terminal_not_last ∷ []
unfolding compile_routes compile_from compile_route parse_match normalize strip_channel_prefix
    is_phone_shaped canonical_phone
unreachable_route = refl

-- One leading prefix is stripped, so that a key with two of them is not normalised at once.
two_prefixes :
    (normalize plain_text "slack" "whatsapp:sms:123" false ≡ "sms:123")
    × (normalize plain_text "slack" "sms:123" false ≡ "+123")
unfolding normalize strip_channel_prefix is_phone_shaped canonical_phone
two_prefixes = (refl, refl)

compile_routes-terminal_example :
    (has_terminal (compile_routes plain_text "sms" "desk" true routes).0 ≡ true)
    × (terminal_count (compile_routes plain_text "sms" "desk" true routes).0 ≡ 1)
compile_routes-terminal_example =
    compile_routes-terminal plain_text "sms" "desk" true routes routes_compile

resolve_sender_first_example :
    let key = normalize plain_text "sms" "tel:5" false in
    let contact = contact_of plain_text table key in
    (before after : List CompiledRoute) × (winner : CompiledRoute) × (table.routes
      ≡ before ++ winner ∷ after)
    × All (λ cr. route_matches plain_text cr key contact ≡ false) before
    × (route_matches plain_text winner key contact ≡ true)
    × (resolve_sender plain_text table "tel:5" ≡ record {
      sender_key = key;
      contact = contact;
      route = some winner.route;
      index = some (length before);
      terminal = is_terminal_kind winner.kind;
    })
resolve_sender_first_example =
    resolve_sender_first plain_text "sms" "desk" (some acme) true routes "tel:5" routes_compile

canonical_phone_same :
    canonical_phone (canonical_phone "1 (555) 0100" true) true ≡ canonical_phone "1 (555) 0100" true
canonical_phone_same = canonical_phone_again "1 (555) 0100" true

canonical_phone_joined : canonical_phone "+1 555" true ≡ canonical_phone "1 555" true
canonical_phone_joined = canonical_phone_plus "1 555" refl
