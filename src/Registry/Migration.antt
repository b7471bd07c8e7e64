-- ===== src/Registry/Migration.antt =====
-- internal/core/session/kvstore.go: the loop that moves the sessions of an old registry file into the store. The file
-- itself is read before, and renamed after.
use aps.Base.{
  String, false, ◌≡◌, refl, sym, ap, ◌∙◌, inl, inr, Option, none, some, [], ◌∷◌, ok, err,
  Result-cases, Option-cases, Bool-cases, Dict, Distinct, lookup, has_key, ◌==◌, if◌then◌else◌,
  arith, eq_iff,
}
use aps.Registry.{
  SessionInfo, KvRows, Backend, RegistryError, cannot_marshal, store_failed, session_key,
}
use aps.Registry.Rows.{key_test, stored}

-- `map[string]*SessionInfo`
abbrev pub LegacySessions : Type 0
LegacySessions = Dict (Option SessionInfo)

-- What the old file has under an ID.
abbrev pub legacy_session : LegacySessions → String → Option SessionInfo
legacy_session legacy x = elim (lookup x legacy) [ none ↦ none | some info ↦ info ]

module _ {E : Type 0} (backend : Backend E) where
  -- The loop of `migrateLegacyJSONLocked`: the rows it leaves, and its error.
  unfoldable pub migrate_legacy : KvRows → LegacySessions → KvRows × Option (RegistryError E)
  migrate_legacy rows [] = (rows, none)
  migrate_legacy rows (entry ∷ legacy) = elim entry.1 [
    | none ↦ migrate_legacy rows legacy
    | some info ↦ elim (backend.get rows (session_key entry.0)) [
      | err e ↦ (rows, some (store_failed e))
      | ok (some raw) ↦ migrate_legacy rows legacy
      | ok none ↦ elim (backend.marshal info) [
        | none ↦ (rows, some cannot_marshal)
        | some raw ↦ elim (backend.put rows (session_key entry.0) raw) [
          | err e ↦ (rows, some (store_failed e))
          | ok rows' ↦ migrate_legacy rows' legacy
        ]
      ]
    ]
  ]

  -- What a migration makes of the rows: those that were there stay, and where it ends without an error, each other ID has
  -- the session of the old file.
  record IsMigrated (rows : KvRows) (legacy : LegacySessions)
      (done : KvRows × Option (RegistryError E)) : Type 0 where
    kept : (k raw : String) → lookup k rows ≡ some raw → lookup k done.0 ≡ some raw
    moved :
        done.1 ≡ none
        → (x : String) → lookup (session_key x) rows ≡ none
        → stored backend done.0 x ≡ legacy_session legacy x

  IsMigrated-nil : (rows : KvRows) → IsMigrated rows [] (rows, none)
  unfolding lookup
  IsMigrated-nil rows = record {
    kept = λ k raw e. e;
    moved = λ ended x absent. ground (arith, absent);
  }

  IsMigrated-failed :
      (rows : KvRows) (legacy : LegacySessions) (e : RegistryError E)
      → IsMigrated rows legacy (rows, some e)
  IsMigrated-failed rows legacy e = record {
    kept = λ k raw found. found;
    moved = λ ended x absent. absurd (ground (arith, ended));
  }

  -- An ID that the old file has no session for, or that has a row, is passed over.
  IsMigrated-skip :
      (rows : KvRows) (id : String) (info : Option SessionInfo) (legacy : LegacySessions)
      (done : KvRows × Option (RegistryError E))
      → has_key id legacy ≡ false
      → (lookup (session_key id) rows ≡ none → info ≡ none)
      → IsMigrated rows legacy done
      → IsMigrated rows ((id, info) ∷ legacy) done
  unfolding lookup
  IsMigrated-skip rows id info legacy done once present rest = record {
    kept = rest.kept;
    moved = λ ended x absent. elim (Bool-cases (id == x)) [
      | inl here ↦
          let same : id ≡ x = (eq_iff id x).0 here in
          let nothing : info ≡ none =
            present (ap (λ z. lookup (session_key z) rows) same ∙ absent) in
          ground (arith, here, same, once, nothing, rest.moved ended x absent)
      | inr other ↦ ground (arith, other, rest.moved ended x absent)
    ];
  }

  -- A row that is written under a new ID.
  IsMigrated-put :
      (rows rows' : KvRows) (id raw : String) (info : SessionInfo) (legacy : LegacySessions)
      (done : KvRows × Option (RegistryError E))
      → lookup (session_key id) rows ≡ none
      → backend.unmarshal raw ≡ some info
      → ((x : String) → lookup x rows' ≡ (if session_key id == x then some raw else lookup x rows))
      → IsMigrated rows' legacy done
      → IsMigrated rows ((id, some info) ∷ legacy) done
  unfolding lookup
  IsMigrated-put rows rows' id raw info legacy done new read put rest = record {
    kept = λ k text e. rest.kept k text (ground (arith, e, new, put k, eq_iff (session_key id) k));
    moved = λ ended x absent. elim (Bool-cases (id == x)) [
      | inl here ↦
          let same : id ≡ x = (eq_iff id x).0 here in
          let at : lookup (session_key x) done.0 ≡ some raw =
            rest.kept (session_key x) raw
              (ground (arith, here, put (session_key x), key_test id x)) in
          ground (arith, here, at, read)
      | inr other ↦ ground (
        arith,
        other,
        rest.moved ended x (ground (arith, other, absent, put (session_key x), key_test id x)),
      )
    ];
  }

  migrate_legacy-IsMigrated :
      (rows : KvRows) (legacy : LegacySessions)
      → Distinct legacy
      → IsMigrated rows legacy (migrate_legacy rows legacy)
  unfolding migrate_legacy
  migrate_legacy-IsMigrated rows [] distinct = IsMigrated-nil rows
  migrate_legacy-IsMigrated rows ((id, none) ∷ legacy) distinct =
      IsMigrated-skip rows id none legacy (migrate_legacy rows legacy) distinct.0 (λ absent. refl)
        (migrate_legacy-IsMigrated rows legacy distinct.1)
  migrate_legacy-IsMigrated rows ((id, some info) ∷ legacy) distinct =
      elim (Result-cases (backend.get rows (session_key id))) [
        | inl (f, failed) ↦
            simp (failed, migrate_legacy)
              (IsMigrated-failed rows ((id, some info) ∷ legacy) (store_failed f))
        | inr (some raw, got) ↦
            let there = backend.get_ran rows (session_key id) (some raw) got in
            simp (got, migrate_legacy)
              (IsMigrated-skip rows id (some info) legacy (migrate_legacy rows legacy) distinct.0
                (λ absent. absurd (ground (arith, there, absent)))
                (migrate_legacy-IsMigrated rows legacy distinct.1))
        | inr (none, got) ↦ elim (Option-cases (backend.marshal info)) [
          | inl bad ↦
              simp (got, bad, migrate_legacy)
                (IsMigrated-failed rows ((id, some info) ∷ legacy) cannot_marshal)
          | inr (raw, written) ↦ elim (Result-cases (backend.put rows (session_key id) raw)) [
            | inl (f, failed) ↦
                simp (got, written, failed, migrate_legacy)
                  (IsMigrated-failed rows ((id, some info) ∷ legacy) (store_failed f))
            | inr (rows', ran) ↦
                simp (got, written, ran, migrate_legacy)
                  (IsMigrated-put rows rows' id raw info legacy (migrate_legacy rows' legacy)
                    (sym (backend.get_ran rows (session_key id) none got))
                    (backend.marshal_read info raw written)
                    (backend.put_ran rows rows' (session_key id) raw ran)
                    (migrate_legacy-IsMigrated rows' legacy distinct.1))
          ]
        ]
      ]

-- The migration of an old file never takes a row away or changes it, also where it fails, so that it can be run again.
pub migrate_legacy_keeps :
    {E : Type 0} (backend : Backend E) (rows : KvRows) (legacy : LegacySessions) (k raw : String)
    → Distinct legacy
    → lookup k rows ≡ some raw
    → lookup k (migrate_legacy backend rows legacy).0 ≡ some raw
migrate_legacy_keeps backend rows legacy k raw distinct found =
    (migrate_legacy-IsMigrated backend rows legacy distinct).kept k raw found

-- Where the migration of an old file ends without an error, an ID that had a row has the session of this row, and any
-- other has the session that the old file has under it, or none.
pub migrate_legacy_lem :
    {E : Type 0} (backend : Backend E) (rows : KvRows) (legacy : LegacySessions) (x : String)
    → Distinct legacy
    → (migrate_legacy backend rows legacy).1 ≡ none
    → stored backend (migrate_legacy backend rows legacy).0 x
      ≡ (if has_key (session_key x) rows then stored backend rows x else legacy_session legacy x)
migrate_legacy_lem backend rows legacy x distinct ended =
    let done = migrate_legacy-IsMigrated backend rows legacy distinct in
    elim (Option-cases (lookup (session_key x) rows)) [
      | inl absent ↦ ground (arith, absent, done.moved ended x absent)
      | inr (raw, found) ↦ ground (arith, found, done.kept (session_key x) raw found)
    ]
