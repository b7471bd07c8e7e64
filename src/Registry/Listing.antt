-- ===== src/Registry/Listing.antt =====
-- internal/core/session/kvstore.go and registry.go: what the lists of sessions hold.
use aps.Base.{
  ℕ, String, true, ◌&&◌, ◌≡◌, refl, sym, ap, ◌∙◌, subst, inl, inr, Option, none, some, List, [],
  ◌∷◌, map, IsIn, at_head, in_tail, ok, Result-cases, Option-cases, Bool-cases, contains,
  contains-times, times, lookup, has_key, starts_with, starts_with-text_append, ◌==◌, if◌then◌else◌,
  arith, eq_iff, eq_refl,
}
use aps.Registry.{
  SessionInfo, KvRows, Backend, session_prefix, session_key, read_sessions, kv_list_sessions,
}
use aps.Registry.Rows.{stored, IsSound, key_test}

abbrev pub session_ids : List SessionInfo → List String
session_ids sessions = map (λ s. s.id) sessions

abbrev pub count_of : Option SessionInfo → ℕ
count_of none = 0
count_of (some s) = 1

-- A list with each stored session once.
pub record IsListing {E : Type 0} (backend : Backend E) (rows : KvRows) (out : List SessionInfo)
    : Type 0 where
  pub once : (x : String) → times x (session_ids out) ≡ count_of (stored backend rows x)
  pub real : (s : SessionInfo) → IsIn s out → stored backend rows s.id ≡ some s

pub IsIn-of_id :
    (out : List SessionInfo) (x : String)
    → contains (session_ids out) x ≡ true
    → (s : SessionInfo) × IsIn s out × (s.id ≡ x)
IsIn-of_id [] x h = absurd (ground (arith, h))
IsIn-of_id (s ∷ out) x h = elim (Bool-cases (s.id == x)) [
  | inl here ↦ (s, at_head, (eq_iff s.id x).0 here)
  | inr other ↦
      let (t, placed, e) = IsIn-of_id out x (ground (arith, h, other)) in (t, in_tail placed, e)
]

module _ {E : Type 0} (backend : Backend E) where
  pub listed :
      (rows : KvRows) (out : List SessionInfo) (x : String) (s : SessionInfo)
      → IsListing backend rows out
      → stored backend rows x ≡ some s
      → IsIn s out
  listed rows out x s h e =
      let (t, placed, at) =
        IsIn-of_id out x (ground (arith, e, h.once x, contains-times (session_ids out) x)) in
      let same : t ≡ s = ground (arith, e, at, h.real t placed) in
      subst (λ r. IsIn r out) same placed

  -- The keys of the list are those of rows.
  abbrev AreKeys : KvRows → List String → Type 0
  AreKeys rows keys =
      (k : String)
      → contains keys k ≡ true
      → (starts_with session_prefix k ≡ true) × (has_key k rows ≡ true)

  abbrev Reads : KvRows → List String → List SessionInfo → Type 0
  Reads rows keys out =
      ((x : String) → times x (session_ids out) ≡ times (session_key x) keys)
      × ((s : SessionInfo) → IsIn s out → stored backend rows s.id ≡ some s)

  Reads-cons :
      (rows : KvRows) (keys : List String) (out : List SessionInfo) (s : SessionInfo)
      → stored backend rows s.id ≡ some s
      → Reads rows keys out
      → Reads rows (session_key s.id ∷ keys) (s ∷ out)
  Reads-cons rows keys out s here h = (λ x. ground (arith, h.0 x, key_test s.id x), real)
    where
      real : (t : SessionInfo) → IsIn t (s ∷ out) → stored backend rows t.id ≡ some t
      real _ at_head = here
      real t (in_tail later) = h.1 t later

  read_sessions-Reads :
      (rows : KvRows) (keys : List String) (out : List SessionInfo)
      → IsSound backend rows
      → AreKeys rows keys
      → read_sessions backend rows keys ≡ ok out
      → Reads rows keys out
  unfolding read_sessions
  read_sessions-Reads rows [] out sound are_keys e =
      let same : [] ≡ out = ground (arith, e) in
      subst (Reads rows []) same (λ x. refl, λ s h. elim h [ ])
  read_sessions-Reads rows (k ∷ keys) out sound are_keys e =
      let (starts, known) = are_keys k (ground (arith, eq_refl k)) in
      let rest_keys : AreKeys rows keys = λ x h. are_keys x (ground (arith, h)) in
      elim (Option-cases (lookup k rows)) [
        | inl absent ↦ absurd (ground (arith, known, absent))
        | inr (raw, found) ↦
            let (s, read, at) = sound k raw starts found in
            elim (Result-cases (backend.get rows k)) [
              | inl (f, failed) ↦ absurd (ground (arith, e, failed))
              | inr (v, got) ↦
                  let is_raw : v ≡ some raw = backend.get_ran rows k v got ∙ found in
                  elim (Result-cases (read_sessions backend rows keys)) [
                    | inl (f, failed) ↦ absurd (ground (arith, e, got, is_raw, read, failed))
                    | inr (rest, later) ↦
                        let same : s ∷ rest ≡ out = ground (arith, e, got, is_raw, read, later) in
                        let here : stored backend rows s.id ≡ some s =
                          ground (arith, read, ap (λ z. lookup z rows) (sym at) ∙ found) in
                        subst (λ z. Reads rows (z ∷ keys) out) (sym at)
                          (subst (Reads rows (session_key s.id ∷ keys)) same (
                            Reads-cons rows keys rest s here
                              (read_sessions-Reads rows keys rest sound rest_keys later)))
                  ]
            ]
      ]

  -- A sound row is read, and another is not there.
  stored_times :
      (rows : KvRows) (x : String)
      → IsSound backend rows
      → count_of (stored backend rows x) ≡ (if has_key (session_key x) rows then 1 else 0)
  stored_times rows x sound = elim (Option-cases (lookup (session_key x) rows)) [
    | inl absent ↦ ground (arith, absent)
    | inr (raw, found) ↦
        let (s, read, at) =
          sound (session_key x) raw (starts_with-text_append session_prefix x) found in
        ground (arith, found, read)
  ]

  pub kv_list_sessions-IsListing :
      (rows : KvRows) (out : List SessionInfo)
      → IsSound backend rows
      → kv_list_sessions backend rows ≡ ok out
      → IsListing backend rows out
  unfolding kv_list_sessions
  kv_list_sessions-IsListing rows out sound e =
      elim (Result-cases (backend.list rows session_prefix)) [
        | inl (f, failed) ↦ absurd (ground (arith, e, failed))
        | inr (keys, ran) ↦
            let count = backend.list_ran rows session_prefix keys ran in
            let are_keys : AreKeys rows keys = λ k h. (
              ground (arith, h, count k, contains-times keys k),
              ground (arith, h, count k, contains-times keys k),
            ) in
            let reads = read_sessions-Reads rows keys out sound are_keys (ground (arith, e, ran)) in
            record {
              once = λ x.
                  reads.0 x
                  ∙ count (session_key x)
                  ∙ ap (λ b. if b && has_key (session_key x) rows then 1 else 0)
                      (starts_with-text_append session_prefix x)
                  ∙ sym (stored_times rows x sound);
              real = reads.1;
            }
      ]
