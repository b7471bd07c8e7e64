-- ===== src/Collaboration/Resolution/Detection.antt =====
-- internal/core/collaboration/conflict.go: which keys DetectWriteConflicts reports.
use mathlib.Core.List.{append_assoc, append-nil}
use aps.Base.{
  keys_of, ℕ, ◌-◌, ◌≤◌, String, Bool, true, false, not, ◌&&◌, ◌||◌, ◌≡◌, ◌≢◌, ◌↔◌, refl, ap, sym,
  ◌∙◌, inl, inr, Bool-cases, List, [], ◌∷◌, ◌++◌, any, keep, length, IsIn, at_head, in_tail,
  any-IsIn, IsIn-any, IsIn-keep, keep-IsIn, Dict, Distinct, Distinct-insert, has_key,
  has_key-insert, lookup, insert, lookup-insert, ltb, ◌==◌, arith, eq_iff, eq_refl,
}
use aps.Collaboration.Context.{ContextMutation, WorkspaceContext}
use aps.Collaboration.Resolution.{
  recent, writes_in, group_by_key, agents_of, conflicts_of, detect_write_conflicts,
}

-- The group of a key holds its mutations, in the log's order.
writes_in-group_by_key :
    (key : String) (by_key : Dict (List ContextMutation)) (ms : List ContextMutation)
    → writes_in (group_by_key by_key ms) key ≡ writes_in by_key key ++ keep (λ m. m.key == key) ms
unfolding group_by_key
writes_in-group_by_key key by_key [] = sym (append-nil (writes_in by_key key))
writes_in-group_by_key key by_key (m ∷ ms) =
    let more = writes_in by_key m.key ++ m ∷ [] in
    let step = writes_in-group_by_key key (insert m.key more by_key) ms in
    let rest = keep (λ x. x.key == key) ms in
    elim (Bool-cases (m.key == key)) [
      | inl same ↦
          let at : writes_in (insert m.key more by_key) key ≡ writes_in by_key key ++ m ∷ [] =
            ground (arith, same, lookup-insert m.key key more by_key, eq_iff m.key key) in
          simp same
            (step ∙ ap (λ l. l ++ rest) at ∙ append_assoc (writes_in by_key key) (m ∷ []) rest)
      | inr other ↦
          let at : writes_in (insert m.key more by_key) key ≡ writes_in by_key key =
            ground (arith, other, lookup-insert m.key key more by_key) in
          simp other (step ∙ ap (λ l. l ++ rest) at)
    ]

Distinct-group_by_key :
    (by_key : Dict (List ContextMutation)) (ms : List ContextMutation)
    → Distinct by_key
    → Distinct (group_by_key by_key ms)
unfolding group_by_key
Distinct-group_by_key by_key [] h = h
Distinct-group_by_key by_key (m ∷ ms) h =
    let more = writes_in by_key m.key ++ m ∷ [] in
    Distinct-group_by_key (insert m.key more by_key) ms (Distinct-insert m.key more by_key h)

has_key-agents_of :
    (x : String) (agents : Dict Bool) (ms : List ContextMutation)
    → has_key x (agents_of agents ms) ≡ (has_key x agents || any (λ m. m.agent_id == x) ms)
unfolding agents_of
has_key-agents_of x agents [] = ground arith
has_key-agents_of x agents (m ∷ ms) = ground (
  arith,
  has_key-agents_of x (insert m.agent_id true agents) ms,
  has_key-insert m.agent_id x true agents,
)

Distinct-agents_of :
    (agents : Dict Bool) (ms : List ContextMutation)
    → Distinct agents
    → Distinct (agents_of agents ms)
unfolding agents_of
Distinct-agents_of agents [] h = h
Distinct-agents_of agents (m ∷ ms) h =
    Distinct-agents_of (insert m.agent_id true agents) ms (Distinct-insert m.agent_id true agents h)

-- The test of the loop on one group.
abbrev is_contended : List ContextMutation → Bool
is_contended ms = not (ltb (length ms) 2) && not (ltb (length (keys_of (agents_of [] ms))) 2)

any-conflicts_of :
    (key : String) (now : ℕ) (ids : ℕ → String) (workspace_id : String)
    (groups : Dict (List ContextMutation))
    → Distinct groups
    → any (λ c. c.resource == key) (conflicts_of now ids workspace_id groups)
      ≡ is_contended (writes_in groups key)
unfolding conflicts_of lookup
any-conflicts_of key now ids workspace_id [] h = refl
any-conflicts_of key now ids workspace_id (group ∷ groups) h =
    ground (arith, h.0, any-conflicts_of key now ids workspace_id groups h.1, eq_iff group.0 key)

-- A map with two keys has two entries, and the other way round.
two_keys-long :
    (agents : Dict Bool) (a b : String)
    → has_key a agents ≡ true
    → has_key b agents ≡ true
    → a ≢ b
    → ltb (length (keys_of agents)) 2 ≡ false
unfolding lookup
two_keys-long [] a b h k other = absurd (ground (arith, h))
two_keys-long (e ∷ []) a b h k other =
    absurd (other (ground (arith, h, k, eq_iff e.0 a, eq_iff e.0 b)))
two_keys-long (e ∷ f ∷ agents) a b h k other = ground arith

long-two_keys :
    (agents : Dict Bool)
    → Distinct agents
    → ltb (length (keys_of agents)) 2 ≡ false
    → (a b : String) × (has_key a agents ≡ true) × (has_key b agents ≡ true) × (a ≢ b)
unfolding lookup
long-two_keys [] d h = absurd (ground (arith, h))
long-two_keys (e ∷ []) d h = absurd (ground (arith, h))
long-two_keys (e ∷ f ∷ agents) d h = (
  e.0,
  f.0,
  ground (arith, eq_refl e.0),
  ground (arith, eq_refl f.0),
  λ same. ground (arith, d.0, same, eq_refl f.0),
)

two_writers-long :
    (ms : List ContextMutation) (m n : ContextMutation)
    → IsIn m ms
    → IsIn n ms
    → m.agent_id ≢ n.agent_id
    → ltb (length ms) 2 ≡ false
two_writers-long [] m n i j other = elim i [ ]
two_writers-long (x ∷ []) m n i j other = absurd (other (alone i ∙ sym (alone j)))
  where
    alone : {k : ContextMutation} → IsIn k (x ∷ []) → k.agent_id ≡ x.agent_id
    alone at_head = refl
    alone (in_tail h) = elim h [ ]
two_writers-long (x ∷ y ∷ ms) m n i j other = ground arith

abbrev pub TwoWriters : List ContextMutation → Type 0
TwoWriters ms = (m n : ContextMutation) × IsIn m ms × IsIn n ms × (m.agent_id ≢ n.agent_id)

has_key-empty : (x : String) → has_key {V = Bool} x [] ≡ false
unfolding lookup
has_key-empty x = refl

is_contended_iff : (ms : List ContextMutation) → (is_contended ms ≡ true) ↔ TwoWriters ms
is_contended_iff ms =
    let agents = agents_of [] ms in
    let known = λ (x : String). has_key-agents_of x [] ms in
    (
      λ h.
          let (a, b, at_a, at_b, other) =
            long-two_keys agents (Distinct-agents_of [] ms tt) (ground (arith, h)) in
          let (m, i, by_m) =
            any-IsIn (λ m. m.agent_id == a) ms (ground (arith, at_a, known a, has_key-empty a)) in
          let (n, j, by_n) =
            any-IsIn (λ m. m.agent_id == b) ms (ground (arith, at_b, known b, has_key-empty b)) in
          (
            m,
            n,
            i,
            j,
            λ same.
                other (ground (arith, same, by_m, by_n, eq_iff m.agent_id a, eq_iff n.agent_id b)),
          ),
      λ (m, n, i, j, other).
          let wrote = λ (x : ContextMutation) (k : IsIn x ms).
            IsIn-any (λ y. y.agent_id == x.agent_id) x ms k (eq_refl x.agent_id) in
          let two =
            two_keys-long agents m.agent_id n.agent_id (ground (arith, known m.agent_id, wrote m i))
              (ground (arith, known n.agent_id, wrote n j)) other in
          ground (arith, two, two_writers-long ms m n i j other),
    )

-- Two different agents wrote to the key at or after the cutoff.
abbrev pub Contended : ℕ → ℕ → List ContextMutation → String → Type 0
Contended now window log key =
    (m n : ContextMutation) × IsIn m log
    × IsIn n log
    × (m.key ≡ key)
    × (n.key ≡ key)
    × (now - window ≤ m.timestamp)
    × (now - window ≤ n.timestamp)
    × (m.agent_id ≢ n.agent_id)

IsIn-recent :
    (now window : ℕ) (key : String) (log : List ContextMutation) (m : ContextMutation)
    → IsIn m (keep (λ x. x.key == key) (recent now window log))
      ↔ (IsIn m log × (m.key ≡ key) × (now - window ≤ m.timestamp))
IsIn-recent now window key log m = (
  λ i.
      let (j, of_key) = keep-IsIn (λ x. x.key == key) m (recent now window log) i in
      let (k, late) = keep-IsIn (λ x. not (ltb x.timestamp (now - window))) m log j in
      (k, (eq_iff m.key key).0 of_key, ground (arith, late)),
  λ (i, of_key, late).
      IsIn-keep (λ x. x.key == key) m (recent now window log)
        (IsIn-keep (λ x. not (ltb x.timestamp (now - window))) m log i (ground (arith, late)))
        ((eq_iff m.key key).1 of_key),
)

recent_of_key :
    (now window : ℕ) (key : String) (log : List ContextMutation)
    → TwoWriters (keep (λ m. m.key == key) (recent now window log)) ↔ Contended now window log key
recent_of_key now window key log =
    let at = IsIn-recent now window key log in
    (
      λ (m, n, i, j, other).
          let (k, m_key, m_late) = (at m).0 i in
          let (l, n_key, n_late) = (at n).0 j in (m, n, k, l, m_key, n_key, m_late, n_late, other),
      λ (m, n, k, l, m_key, n_key, m_late, n_late, other).
          (m, n, (at m).1 (k, m_key, m_late), (at n).1 (l, n_key, n_late), other),
    )

-- DetectWriteConflicts reports a key exactly when two different agents wrote to it inside the window.
pub detect_write_conflicts_iff :
    (now : ℕ) (ids : ℕ → String) (workspace_id : String) (wc : WorkspaceContext) (window : ℕ)
    (key : String)
    → (any (λ c. c.resource == key) (detect_write_conflicts now ids workspace_id wc window) ≡ true)
      ↔ Contended now window wc.mutations key
unfolding detect_write_conflicts lookup
detect_write_conflicts_iff now ids workspace_id wc window key =
    let log = recent now window wc.mutations in
    let groups = group_by_key [] log in
    let of_key = keep (λ m. m.key == key) log in
    let grouped : any (λ c. c.resource == key) (conflicts_of now ids workspace_id groups)
        ≡ is_contended of_key =
      any-conflicts_of key now ids workspace_id groups (Distinct-group_by_key [] log tt)
      ∙ ap is_contended (writes_in-group_by_key key [] log) in
    (
      λ h.
          (recent_of_key now window key wc.mutations).0
            ((is_contended_iff of_key).0 (ground (arith, h, grouped))),
      λ c.
          let (m, n, i, j, m_key, n_key, m_late, n_late, other) = c in
          let contended =
            (is_contended_iff of_key).1 ((recent_of_key now window key wc.mutations).1 c) in
          ground (arith, contended, grouped, two_writers-long wc.mutations m n i j other),
    )
