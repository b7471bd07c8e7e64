-- ===== src/Collaboration/Dependencies/Tables.antt =====
-- internal/core/collaboration/task_dependency.go: what the tables of the topological sort hold.
use aps.Base.{
  ℕ, ◌+◌, String, true, false, ◌&&◌, ◌||◌, ◌≡◌, refl, none, some, List, [], ◌∷◌, ◌++◌, Dict, lookup,
  insert, lookup-insert, has_key, Distinct, has_key-insert, Distinct-insert, nat_eq, length, times,
  count-append, if◌then◌else◌, ◌==◌, arith, eq_iff, eq_refl, ◌∙◌,
}
use aps.Collaboration.Dependencies.{
  DependencyGraph, degree_in, downstream_in, zero_degrees, with_zero, EdgeTables, add_edges,
  fill_tables, tables_of, seeds,
}

-- How many dependencies a task has.
abbrev pub demand : DependencyGraph → String → ℕ
demand [] x = 0
demand (node ∷ nodes) x = (if node.0 == x then length node.1 else 0) + demand nodes x

-- How often a task has another one as its dependency.
abbrev pub wants : DependencyGraph → String → String → ℕ
wants [] x dep = 0
wants (node ∷ nodes) x dep = (if node.0 == x then times dep node.1 else 0) + wants nodes x dep

degree_in-add_edges :
    (id x : String) (t : EdgeTables) (deps : List String)
    → degree_in (add_edges id t deps).in_degree x
      ≡ degree_in t.in_degree x + (if id == x then length deps else 0)
unfolding add_edges
degree_in-add_edges id x t [] = ground arith
degree_in-add_edges id x t (dep ∷ deps) =
    let t' : EdgeTables = record {
      in_degree = insert id (degree_in t.in_degree id + 1) t.in_degree;
      depended_by = insert dep (downstream_in t.depended_by dep ++ id ∷ []) t.depended_by;
    } in
    ground (
      arith,
      degree_in-add_edges id x t' deps,
      lookup-insert id x (degree_in t.in_degree id + 1) t.in_degree,
      eq_iff id x,
    )

downstream-add_edges :
    (id x y : String) (t : EdgeTables) (deps : List String)
    → times x (downstream_in (add_edges id t deps).depended_by y)
      ≡ times x (downstream_in t.depended_by y) + (if id == x then times y deps else 0)
unfolding add_edges
downstream-add_edges id x y t [] = ground arith
downstream-add_edges id x y t (dep ∷ deps) =
    let more = downstream_in t.depended_by dep ++ id ∷ [] in
    let t' : EdgeTables = record {
      in_degree = insert id (degree_in t.in_degree id + 1) t.in_degree;
      depended_by = insert dep more t.depended_by;
    } in
    ground (
      arith,
      downstream-add_edges id x y t' deps,
      lookup-insert dep y more t.depended_by,
      eq_iff dep y,
      count-append (λ z. z == x) (downstream_in t.depended_by dep) (id ∷ []),
    )

degree_in-fill_tables :
    (x : String) (t : EdgeTables) (nodes : DependencyGraph)
    → degree_in (fill_tables t nodes).in_degree x ≡ degree_in t.in_degree x + demand nodes x
unfolding fill_tables
degree_in-fill_tables x t [] = omega arith
degree_in-fill_tables x t (node ∷ nodes) = omega (
  arith,
  degree_in-fill_tables x (add_edges node.0 t node.1) nodes,
  degree_in-add_edges node.0 x t node.1,
)

downstream-fill_tables :
    (x y : String) (t : EdgeTables) (nodes : DependencyGraph)
    → times x (downstream_in (fill_tables t nodes).depended_by y)
      ≡ times x (downstream_in t.depended_by y) + wants nodes x y
unfolding fill_tables
downstream-fill_tables x y t [] = omega arith
downstream-fill_tables x y t (node ∷ nodes) = omega (
  arith,
  downstream-fill_tables x y (add_edges node.0 t node.1) nodes,
  downstream-add_edges node.0 x y t node.1,
)

degree_in-with_zero :
    (x id : String) (degrees : Dict ℕ) → degree_in (with_zero degrees id) x ≡ degree_in degrees x
degree_in-with_zero x id degrees = ground (arith, lookup-insert id x 0 degrees, eq_iff id x)

has_key-with_zero :
    (x id : String) (degrees : Dict ℕ)
    → has_key x (with_zero degrees id) ≡ ((id == x) || has_key x degrees)
has_key-with_zero x id degrees = ground (arith, lookup-insert id x 0 degrees, eq_iff id x)

Distinct-with_zero :
    (id : String) (degrees : Dict ℕ) → Distinct degrees → Distinct (with_zero degrees id)
Distinct-with_zero id degrees h =
    elim (lookup id degrees)
      as (λ o. Distinct (elim o [ none ↦ insert id 0 degrees | some n ↦ degrees ])) [
        | none ↦ Distinct-insert id 0 degrees h
        | some n ↦ h
      ]

degree_in-empty : (x : String) → degree_in [] x ≡ 0
unfolding lookup
degree_in-empty x = refl

downstream-empty : (x dep : String) → times x (downstream_in [] dep) ≡ 0
unfolding lookup
downstream-empty x dep = refl

has_key-empty : (x : String) → has_key {V = ℕ} x [] ≡ false
unfolding lookup
has_key-empty x = refl

degree_in-zero_degrees :
    (x : String) (degrees : Dict ℕ) (nodes : DependencyGraph)
    → degree_in (zero_degrees degrees nodes) x ≡ degree_in degrees x
unfolding zero_degrees
degree_in-zero_degrees x degrees [] = refl
degree_in-zero_degrees x degrees (node ∷ nodes) =
    degree_in-zero_degrees x (with_zero degrees node.0) nodes ∙ degree_in-with_zero x node.0 degrees

has_key-zero_degrees :
    (x : String) (degrees : Dict ℕ) (nodes : DependencyGraph)
    → has_key x (zero_degrees degrees nodes) ≡ (has_key x degrees || has_key x nodes)
unfolding zero_degrees lookup
has_key-zero_degrees x degrees [] = ground arith
has_key-zero_degrees x degrees (node ∷ nodes) = ground (
  arith,
  has_key-zero_degrees x (with_zero degrees node.0) nodes,
  has_key-with_zero x node.0 degrees,
)

Distinct-zero_degrees :
    (degrees : Dict ℕ) (nodes : DependencyGraph)
    → Distinct degrees
    → Distinct (zero_degrees degrees nodes)
unfolding zero_degrees
Distinct-zero_degrees degrees [] h = h
Distinct-zero_degrees degrees (node ∷ nodes) h =
    Distinct-zero_degrees (with_zero degrees node.0) nodes (Distinct-with_zero node.0 degrees h)

Distinct-add_edges :
    (id : String) (t : EdgeTables) (deps : List String)
    → Distinct t.in_degree
    → Distinct (add_edges id t deps).in_degree
unfolding add_edges
Distinct-add_edges id t [] h = h
Distinct-add_edges id t (dep ∷ deps) h =
    let t' : EdgeTables = record {
      in_degree = insert id (degree_in t.in_degree id + 1) t.in_degree;
      depended_by = insert dep (downstream_in t.depended_by dep ++ id ∷ []) t.depended_by;
    } in
    Distinct-add_edges id t' deps (Distinct-insert id (degree_in t.in_degree id + 1) t.in_degree h)

has_key-add_edges :
    (id x : String) (t : EdgeTables) (deps : List String)
    → has_key id t.in_degree ≡ true
    → has_key x (add_edges id t deps).in_degree ≡ has_key x t.in_degree
unfolding add_edges
has_key-add_edges id x t [] h = refl
has_key-add_edges id x t (dep ∷ deps) h =
    let n = degree_in t.in_degree id + 1 in
    let t' : EdgeTables = record {
      in_degree = insert id n t.in_degree;
      depended_by = insert dep (downstream_in t.depended_by dep ++ id ∷ []) t.depended_by;
    } in
    has_key-add_edges id x t' deps (ground (arith, has_key-insert id id n t.in_degree, eq_refl id))
    ∙ ground (arith, h, has_key-insert id x n t.in_degree, eq_iff id x)

Distinct-fill_tables :
    (t : EdgeTables) (nodes : DependencyGraph)
    → Distinct t.in_degree
    → Distinct (fill_tables t nodes).in_degree
unfolding fill_tables
Distinct-fill_tables t [] h = h
Distinct-fill_tables t (node ∷ nodes) h =
    Distinct-fill_tables (add_edges node.0 t node.1) nodes (Distinct-add_edges node.0 t node.1 h)

-- Every task of the graph has an in-degree in the table.
abbrev AllKeyed : Dict ℕ → DependencyGraph → Type 0
AllKeyed degrees [] = Unit
AllKeyed degrees (node ∷ nodes) = (has_key node.0 degrees ≡ true) × AllKeyed degrees nodes

AllKeyed-same :
    (d d' : Dict ℕ) (nodes : DependencyGraph)
    → ((x : String) → has_key x d' ≡ has_key x d)
    → AllKeyed d nodes
    → AllKeyed d' nodes
AllKeyed-same d d' [] e h = tt
AllKeyed-same d d' (node ∷ nodes) e h = (e node.0 ∙ h.0, AllKeyed-same d d' nodes e h.1)

has_key-fill_tables :
    (x : String) (t : EdgeTables) (nodes : DependencyGraph)
    → AllKeyed t.in_degree nodes
    → has_key x (fill_tables t nodes).in_degree ≡ has_key x t.in_degree
unfolding fill_tables
has_key-fill_tables x t [] h = refl
has_key-fill_tables x t (node ∷ nodes) h =
    let same = λ (y : String). has_key-add_edges node.0 y t node.1 h.0 in
    has_key-fill_tables x (add_edges node.0 t node.1) nodes
      (AllKeyed-same t.in_degree (add_edges node.0 t node.1).in_degree nodes same h.1)
    ∙ same x

AllKeyed-found :
    (d : Dict ℕ) (all nodes : DependencyGraph)
    → ((x : String) → has_key x all ≡ true → has_key x d ≡ true)
    → ((x : String) → has_key x nodes ≡ true → has_key x all ≡ true)
    → AllKeyed d nodes
unfolding lookup
AllKeyed-found d all [] h sub = tt
AllKeyed-found d all (node ∷ nodes) h sub = (
  h node.0 (sub node.0 (ground (arith, eq_refl node.0))),
  AllKeyed-found d all nodes h (λ x k. sub x (ground (arith, k))),
)

times-seeds :
    (x : String) (degrees : Dict ℕ)
    → Distinct degrees
    → times x (seeds degrees)
      ≡ (if has_key x degrees && nat_eq (degree_in degrees x) 0 then 1 else 0)
unfolding seeds lookup
times-seeds x [] h = refl
times-seeds x (entry ∷ degrees) h = ground (arith, h.0, times-seeds x degrees h.1, eq_iff entry.0 x)

-- The state before the first round, for a graph without a task twice: the in-degrees are the numbers of the
-- dependencies, the table of the dependents counts each edge, and the queue holds once each task without
-- dependencies.
pub record Filled (nodes : DependencyGraph) (t : EdgeTables) : Type 0 where
  pub degree : (x : String) → degree_in t.in_degree x ≡ demand nodes x
  pub downstream : (x dep : String) → times x (downstream_in t.depended_by dep) ≡ wants nodes x dep
  pub start :
      (x : String)
      → times x (seeds t.in_degree)
        ≡ (if has_key x nodes && nat_eq (demand nodes x) 0 then 1 else 0)

pub tables_of-Filled : (nodes : DependencyGraph) → Filled nodes (tables_of nodes)
unfolding tables_of
tables_of-Filled nodes =
    let zeros = zero_degrees [] nodes in
    let t : EdgeTables = record { in_degree = zeros; depended_by = [] } in
    let keys = λ (x : String). has_key-zero_degrees x [] nodes in
    let keyed =
      AllKeyed-found zeros nodes nodes (λ x k. ground (arith, keys x, has_key-empty x, k))
        (λ x k. k) in
    let distinct = Distinct-fill_tables t nodes (Distinct-zero_degrees [] nodes tt) in
    let degrees = λ (x : String). degree_in-fill_tables x t nodes in
    record {
      degree = λ x. ground (arith, degrees x, degree_in-zero_degrees x [] nodes, degree_in-empty x);
      downstream =
          λ x dep. ground (arith, downstream-fill_tables x dep t nodes, downstream-empty x dep);
      start = λ x. ground (
        arith,
        times-seeds x (fill_tables t nodes).in_degree distinct,
        has_key-fill_tables x t nodes keyed,
        keys x,
        has_key-empty x,
        degrees x,
        degree_in-zero_degrees x [] nodes,
        degree_in-empty x,
      );
    }
