-- ===== src/Registry/Rows.antt =====
-- internal/core/session/kvstore.go: the sessions that stand in the rows.
use aps.Base.{
  String, true, ◌≡◌, sym, ap, ◌∙◌, subst, inl, inr, Option, none, some, ok, Result-cases,
  Option-cases, Bool-cases, lookup, starts_with, starts_with-text_append, text_append_inj, ◌==◌,
  if◌then◌else◌, arith, eq_iff, eq_refl,
}
use aps.Registry.{
  SessionInfo, KvRows, Backend, session_prefix, session_key, kv_get_session, kv_put_session,
  kv_delete_session,
}

-- The session under an ID.
abbrev pub stored : {E : Type 0} → Backend E → KvRows → String → Option SessionInfo
stored backend rows id = elim (lookup (session_key id) rows) [
  | none ↦ none
  | some raw ↦ backend.unmarshal raw
]

-- Each row of the registry is a session, and stands under its ID.
abbrev pub IsSound : {E : Type 0} → Backend E → KvRows → Type 0
IsSound backend rows =
    (k raw : String)
    → starts_with session_prefix k ≡ true
    → lookup k rows ≡ some raw
    → (s : SessionInfo) × (backend.unmarshal raw ≡ some s) × (k ≡ session_key s.id)

pub key_test : (a b : String) → (session_key a == session_key b) ≡ (a == b)
key_test a b = elim (Bool-cases (a == b)) [
  | inl same ↦ ground (arith, same, (eq_iff a b).0 same, eq_refl (session_key a))
  | inr other ↦ elim (Bool-cases (session_key a == session_key b)) [
    | inl same ↦ absurd (
        ground (
          arith,
          other,
          eq_iff a b,
          text_append_inj session_prefix a b ((eq_iff (session_key a) (session_key b)).0 same),
        ))
    | inr differ ↦ differ ∙ sym other
  ]
]

module _ {E : Type 0} (backend : Backend E) where
  pub stored-id :
      (rows : KvRows) (x : String) (s : SessionInfo)
      → IsSound backend rows
      → stored backend rows x ≡ some s
      → s.id ≡ x
  stored-id rows x s sound e = elim (Option-cases (lookup (session_key x) rows)) [
    | inl absent ↦ absurd (ground (arith, e, absent))
    | inr (raw, found) ↦
        let (t, read, at) =
          sound (session_key x) raw (starts_with-text_append session_prefix x) found in
        let same : s ≡ t = ground (arith, e, found, read) in
        ap (λ r. r.id) same ∙ sym (text_append_inj session_prefix x t.id at)
  ]

  pub kv_get_info-stored :
      (rows : KvRows) (id : String) (v : Option SessionInfo)
      → kv_get_session backend rows id ≡ ok v
      → v ≡ stored backend rows id
  unfolding kv_get_session
  kv_get_info-stored rows id v e = elim (Result-cases (backend.get rows (session_key id))) [
    | inl (f, failed) ↦ absurd (ground (arith, e, failed))
    | inr (none, got) ↦ ground (arith, e, got, backend.get_ran rows (session_key id) none got)
    | inr (some raw, got) ↦ elim (Option-cases (backend.unmarshal raw)) [
      | inl bad ↦ absurd (ground (arith, e, got, bad))
      | inr (s, read) ↦
          ground (arith, e, got, read, backend.get_ran rows (session_key id) (some raw) got)
    ]
  ]

  put_row :
      (rows rows' : KvRows) (s : SessionInfo)
      → kv_put_session backend rows s ≡ ok rows'
      → (raw : String) × (backend.unmarshal raw ≡ some s)
        × ((x : String)
            → lookup x rows' ≡ (if session_key s.id == x then some raw else lookup x rows))
  put_row rows rows' s e = elim (Option-cases (backend.marshal s)) [
    | inl bad ↦ absurd (ground (arith, e, bad))
    | inr (raw, written) ↦ elim (Result-cases (backend.put rows (session_key s.id) raw)) [
      | inl (f, failed) ↦ absurd (ground (arith, e, written, failed))
      | inr (r, put) ↦
          let same : r ≡ rows' = ground (arith, e, written, put) in
          (
            raw,
            backend.marshal_read s raw written,
            subst
                (λ z.
                  (x : String)
                  → lookup x z ≡ (if session_key s.id == x then some raw else lookup x rows))
                same (backend.put_ran rows r (session_key s.id) raw put),
          )
    ]
  ]

  pub stored-kv_put_session :
      (rows rows' : KvRows) (s : SessionInfo)
      → kv_put_session backend rows s ≡ ok rows'
      → (x : String)
      → stored backend rows' x ≡ (if s.id == x then some s else stored backend rows x)
  stored-kv_put_session rows rows' s e x =
      let (raw, read, at) = put_row rows rows' s e in
      ground (arith, at (session_key x), read, key_test s.id x)

  pub IsSound-kv_put_session :
      (rows rows' : KvRows) (s : SessionInfo)
      → kv_put_session backend rows s ≡ ok rows'
      → IsSound backend rows
      → IsSound backend rows'
  IsSound-kv_put_session rows rows' s e sound k text h found =
      let (raw, read, at) = put_row rows rows' s e in
      elim (Bool-cases (session_key s.id == k)) [
        | inl here ↦
            (s, ground (arith, found, at k, here, read), sym ((eq_iff (session_key s.id) k).0 here))
        | inr other ↦ sound k text h (ground (arith, found, at k, other))
      ]

  deleted_row :
      (rows rows' : KvRows) (id : String)
      → kv_delete_session backend rows id ≡ ok rows'
      → (x : String) → lookup x rows' ≡ (if session_key id == x then none else lookup x rows)
  deleted_row rows rows' id e = elim (Result-cases (backend.remove rows (session_key id))) [
    | inl (f, failed) ↦ absurd (ground (arith, e, failed))
    | inr (r, ran) ↦
        let same : r ≡ rows' = ground (arith, e, ran) in
        subst
          (λ z. (x : String) → lookup x z ≡ (if session_key id == x then none else lookup x rows))
          same (backend.remove_ran rows r (session_key id) ran)
  ]

  pub stored-kv_delete_session :
      (rows rows' : KvRows) (id : String)
      → kv_delete_session backend rows id ≡ ok rows'
      → (x : String) → stored backend rows' x ≡ (if id == x then none else stored backend rows x)
  stored-kv_delete_session rows rows' id e x =
      ground (arith, deleted_row rows rows' id e (session_key x), key_test id x)

  pub IsSound-kv_delete_session :
      (rows rows' : KvRows) (id : String)
      → kv_delete_session backend rows id ≡ ok rows'
      → IsSound backend rows
      → IsSound backend rows'
  IsSound-kv_delete_session rows rows' id e sound k text h found =
      sound k text h (ground (arith, found, deleted_row rows rows' id e k))
