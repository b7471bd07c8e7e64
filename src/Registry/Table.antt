-- ===== src/Registry/Table.antt =====
-- internal/core/session/kvstore.go: a store in memory that fails at one key, with the texts of three sessions.
use aps.Base.{
  ℕ, String, Bool, true, false, false≢true, ◌&&◌, ◌≡◌, refl, sym, ◌∙◌, ap, subst, inl, inr, Option,
  none, some, List, [], ◌∷◌, keep, Result, ok, err, Bool-cases, contains, times, times-keys_of,
  keys_of, Dict, Distinct, Distinct-insert, lookup, insert, delete, lookup-insert, lookup-delete,
  has_key, starts_with, ◌==◌, if◌then◌else◌, arith, eq_iff,
}
use native.Mathlib.Decide.{ℕ_discrete}
use aps.Registry.{SessionInfo, session_active, session_errored, KvRows, Backend}

abbrev pub decide_by_test : (a b : String) (t : Bool) → (a == b) ≡ t → Dec (a ≡ b)
decide_by_test a b true same = yes ((eq_iff a b).0 same)
decide_by_test a b false other = no (λ e. false≢true (sym other ∙ (eq_iff a b).1 e))

abbrev pub text_discrete : Discrete String
text_discrete a b = decide_by_test a b (a == b) refl

unfoldable pub SessionInfo-discrete : Discrete SessionInfo
SessionInfo-discrete = hlevel (ℕ_discrete, text_discrete)

abbrev pub session : String → String → ℕ → ℕ → SessionInfo
session id status created_at last_seen_at = record {
  id = id;
  profile_id = "ann";
  profile_dir = "";
  command = "sh";
  pid = 7;
  status = status;
  tier = "basic";
  type = "";
  tmux_socket = "";
  tmux_session = "";
  container_id = "";
  created_at = created_at;
  last_seen_at = last_seen_at;
  environment = [];
  workspace_id = "";
}

abbrev pub broken : SessionInfo
broken = session "s1" session_errored 1 1

abbrev pub old : SessionInfo
old = session "s2" session_active 2 2

abbrev pub fresh : SessionInfo
fresh = session "s3" session_active 90 90

-- The sessions that the texts of the tests stand for.
abbrev chosen : {P Q R : Type 0} → Dec P → Dec Q → Dec R → Option String
chosen (yes p) q r = some "broken"
chosen (no p) (yes q) r = some "old"
chosen (no p) (no q) (yes r) = some "fresh"
chosen (no p) (no q) (no r) = none

abbrev text_of : SessionInfo → Option String
text_of s =
    chosen (SessionInfo-discrete s broken) (SessionInfo-discrete s old)
      (SessionInfo-discrete s fresh)

abbrev session_of : String → Option SessionInfo
session_of text =
    if text == "broken"
    then some broken
    else if text == "old"
    then some old
    else if text == "fresh"
    then some fresh
    else none

pub chosen_read :
    (s : SessionInfo) (text : String) (p : Dec (s ≡ broken)) (q : Dec (s ≡ old))
    (r : Dec (s ≡ fresh))
    → chosen p q r ≡ some text
    → session_of text ≡ some s
chosen_read s text (yes p) q r e =
    let named : "broken" ≡ text = ground (arith, e) in
    subst (λ t. session_of t ≡ some s) named (ap (λ t. some t) (sym p))
chosen_read s text (no p) (yes q) r e =
    let named : "old" ≡ text = ground (arith, e) in
    subst (λ t. session_of t ≡ some s) named (ap (λ t. some t) (sym q))
chosen_read s text (no p) (no q) (yes r) e =
    let named : "fresh" ≡ text = ground (arith, e) in
    subst (λ t. session_of t ≡ some s) named (ap (λ t. some t) (sym r))
chosen_read s text (no p) (no q) (no r) e = absurd (ground (arith, e))

abbrev get_row : KvRows → String → Result String (Option String)
get_row rows k = ok (lookup k rows)

-- The store refuses to delete the key of the session `s3`.
abbrev remove_row : KvRows → String → Result String KvRows
remove_row rows k = if k == "session/s3" then err "locked" else ok (delete k rows)

-- A list of pairs with each key once.
abbrev one_each : KvRows → KvRows
one_each [] = []
one_each (row ∷ rows) = insert row.0 row.1 (one_each rows)

lookup-one_each : (x : String) (rows : KvRows) → lookup x (one_each rows) ≡ lookup x rows
unfolding lookup
lookup-one_each x [] = refl
lookup-one_each x (row ∷ rows) =
    ground
      (arith, lookup-insert row.0 x row.1 (one_each rows), lookup-one_each x rows, eq_iff row.0 x)

Distinct-one_each : (rows : KvRows) → Distinct (one_each rows)
Distinct-one_each [] = tt
Distinct-one_each (row ∷ rows) =
    Distinct-insert row.0 row.1 (one_each rows) (Distinct-one_each rows)

abbrev keys_under : String → KvRows → List String
keys_under prefix rows = keep (starts_with prefix) (keys_of (one_each rows))

times-keep :
    (p : String → Bool) (x : String) (keys : List String)
    → times x (keep p keys) ≡ (if p x then times x keys else 0)
times-keep p x [] = ground arith
times-keep p x (k ∷ keys) = ground (arith, times-keep p x keys, eq_iff k x)

abbrev transition_in : Dict (List String) → String → String → Bool
transition_in rules from to = elim (lookup from rules) [
  | none ↦ false
  | some targets ↦ contains targets to
]

times-keys_under :
    (rows : KvRows) (prefix x : String)
    → times x (keys_under prefix rows) ≡ (if starts_with prefix x && has_key x rows then 1 else 0)
times-keys_under rows prefix x = ground (
  arith,
  times-keep (starts_with prefix) x (keys_of (one_each rows)),
  times-keys_of x (one_each rows) (Distinct-one_each rows),
  lookup-one_each x rows,
)

pub remove_row_ran :
    (rows rows' : KvRows) (k : String)
    → remove_row rows k ≡ ok rows'
    → (x : String) → lookup x rows' ≡ (if k == x then none else lookup x rows)
remove_row_ran rows rows' k e x = elim (Bool-cases (k == "session/s3")) [
  | inl locked ↦ absurd (ground (arith, e, locked))
  | inr free ↦
      let same : delete k rows ≡ rows' = ground (arith, e, free) in
      ap (lookup x) (sym same) ∙ lookup-delete k x rows
]

pub looked_up :
    (rows : KvRows) (k : String) (v : Option String) → get_row rows k ≡ ok v → v ≡ lookup k rows
looked_up rows k v e = ground (arith, e)

abbrev put_row : KvRows → String → String → Result String KvRows
put_row rows k v = ok (insert k v rows)

pub put_row_ran :
    (rows rows' : KvRows) (k v : String)
    → put_row rows k v ≡ ok rows'
    → (x : String) → lookup x rows' ≡ (if k == x then some v else lookup x rows)
put_row_ran rows rows' k v e x =
    let same : insert k v rows ≡ rows' = ground (arith, e) in
    ap (lookup x) (sym same) ∙ lookup-insert k x v rows

abbrev list_rows : KvRows → String → Result String (List String)
list_rows rows prefix = ok (keys_under prefix rows)

pub listed_keys :
    (rows : KvRows) (prefix : String) (keys : List String)
    → list_rows rows prefix ≡ ok keys
    → (x : String) → times x keys ≡ (if starts_with prefix x && has_key x rows then 1 else 0)
listed_keys rows prefix keys e x =
    let same : keys_under prefix rows ≡ keys = ground (arith, e) in
    ap (times x) (sym same) ∙ times-keys_under rows prefix x

abbrev pub table : Backend String
table = record {
  get = get_row;
  put = put_row;
  remove = remove_row;
  list = list_rows;
  marshal = text_of;
  unmarshal = session_of;
  transition = transition_in;
  get_ran = looked_up;
  put_ran = put_row_ran;
  remove_ran = remove_row_ran;
  list_ran = listed_keys;
  marshal_read = λ s text.
      chosen_read s text (SessionInfo-discrete s broken) (SessionInfo-discrete s old)
        (SessionInfo-discrete s fresh);
  transition_rules = λ rules from to. refl;
}
