-- ===== src/Org/Sweeps.antt =====
-- internal/core/org/graph.go: one level of TransitiveReports.
use aps.Base.{
  contains-append, ◌+◌, String, Bool, true, false, not, ◌&&◌, ◌||◌, ◌≡◌, refl, List, [], ◌∷◌, ◌++◌,
  any, length, length-append, contains, contains-times, times, ◌==◌, if◌then◌else◌, arith, eq_iff,
  eq_refl,
}
use aps.Org.{
  Profile, Graph, profile_at, reports_in, ids_of, Sweep, visit_child, visit_children,
  visit_frontier,
}

-- What the visits to the IDs that pass `p` do: those that are not in the set enter it, the list of the next level and
-- the result.
pub record Swept (p : String → Bool) (s t : Sweep) : Type 0 where
  pub visited : (x : String) → contains t.visited x ≡ (contains s.visited x || p x)
  pub next :
      (x : String) → contains t.next x ≡ (contains s.next x || (p x && not (contains s.visited x)))
  pub out :
      (x : String)
      → times x (ids_of t.out) + times x s.visited ≡ times x (ids_of s.out) + times x t.visited
  pub grown : length t.visited + length s.next ≡ length s.visited + length t.next
  pub once :
      (x : String)
      → times x t.visited
        ≡ (if contains s.visited x then times x s.visited else if p x then 1 else 0)

ids_of-append_one :
    (ps : List Profile) (p : Profile) (s : String)
    → times s (ids_of (ps ++ p ∷ [])) ≡ times s (p.id ∷ ids_of ps)
ids_of-append_one [] p s = ground arith
ids_of-append_one (q ∷ ps) p s = ground (arith, ids_of-append_one ps p s)

visit_child-Swept :
    (g : Graph) (s : Sweep) (child : String)
    → (profile_at g.by_id child).id ≡ child
    → Swept (λ x. child == x) s (visit_child g s child)
visit_child-Swept g s child same = record {
  visited = λ x. ground (arith, eq_iff child x);
  next = λ x. ground (arith, eq_iff child x, contains-append s.next (child ∷ []) x);
  out = λ x.
      ground (arith, same, eq_iff child x, ids_of-append_one s.out (profile_at g.by_id child) x);
  grown = ground (arith, length-append s.next (child ∷ []));
  once = λ x. ground (arith, eq_iff child x, contains-times s.visited x);
}

Swept-trans :
    (p q : String → Bool) (s t u : Sweep) → Swept p s t → Swept q t u → Swept (λ x. p x || q x) s u
Swept-trans p q s t u h k = record {
  visited = λ x. ground (arith, h.visited x, k.visited x);
  next = λ x. ground (arith, h.visited x, h.next x, k.next x);
  out = λ x. omega (arith, h.out x, k.out x);
  grown = omega (arith, h.grown, k.grown);
  once = λ x. ground (arith, h.visited x, h.once x, k.once x);
}

Swept-none : (s : Sweep) → Swept (λ x. false) s s
Swept-none s = record {
  visited = λ x. ground arith;
  next = λ x. ground arith;
  out = λ x. refl;
  grown = refl;
  once = λ x. ground (arith, contains-times s.visited x);
}

visit_children-Swept :
    (g : Graph) (s : Sweep) (children : List String)
    → ((x : String) → contains children x ≡ true → (profile_at g.by_id x).id ≡ x)
    → Swept (contains children) s (visit_children g s children)
unfolding visit_children
visit_children-Swept g s [] h = Swept-none s
visit_children-Swept g s (child ∷ children) h =
    Swept-trans (λ x. child == x) (contains children) s (visit_child g s child)
      (visit_children g (visit_child g s child) children)
      (visit_child-Swept g s child (h child (ground (arith, eq_refl child))))
      (visit_children-Swept g (visit_child g s child) children (λ x k. h x (ground (arith, k))))

-- Whether a profile reports to one of the list.
abbrev pub reports_to_any : Graph → List String → String → Bool
reports_to_any g frontier x = any (λ y. contains (reports_in g.reports y) x) frontier

pub visit_frontier-Swept :
    (g : Graph) (s : Sweep) (frontier : List String)
    → ((y x : String) → contains (reports_in g.reports y) x ≡ true → (profile_at g.by_id x).id ≡ x)
    → Swept (reports_to_any g frontier) s (visit_frontier g s frontier)
unfolding visit_frontier
visit_frontier-Swept g s [] h = Swept-none s
visit_frontier-Swept g s (cur ∷ frontier) h =
    let t = visit_children g s (reports_in g.reports cur) in
    Swept-trans (contains (reports_in g.reports cur)) (reports_to_any g frontier) s t
      (visit_frontier g t frontier) (visit_children-Swept g s (reports_in g.reports cur) (h cur))
      (visit_frontier-Swept g t frontier h)
