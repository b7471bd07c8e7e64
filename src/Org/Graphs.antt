-- ===== src/Org/Graphs.antt =====
-- internal/core/org/graph.go: what Build makes of the profiles.
use aps.Base.{
  contains-append, String, Bool, not, ◌&&◌, ◌||◌, ◌≡◌, refl, sym, ◌∙◌, ap, some, List, [], ◌∷◌,
  ◌++◌, map, contains, contains-times, times, times-keys_of, times-sort_by, sort_by, Dict, Distinct,
  Distinct-insert, lookup, lookup-insert, insert, has_key, keys_of, ◌==◌, if◌then◌else◌, arith,
  eq_iff,
}
use aps.Org.{Profile, Graph, profile_at, reports_in, put_profiles, report_one, put_reports, build}

-- Whether a profile has another one, known or not, as its manager's ID.
abbrev pub is_boss : Dict Profile → String → String → Bool
is_boss by_id mgr x = not (mgr == "") && ((profile_at by_id x).reports_to == mgr)

pub record IsBuilt (g : Graph) : Type 0 where
  pub keyed : (x : String) (p : Profile) → lookup x g.by_id ≡ some p → p.id ≡ x
  pub known : (x : String) → times x g.ids ≡ (if has_key x g.by_id then 1 else 0)
  pub listed : (mgr x : String) → contains (reports_in g.reports mgr) x ≡ is_boss g.by_id mgr x

put_profiles-keyed :
    (by_id : Dict Profile) (ps : List Profile)
    → ((x : String) (p : Profile) → lookup x by_id ≡ some p → p.id ≡ x)
    → (x : String) (p : Profile) → lookup x (put_profiles by_id ps) ≡ some p
    → p.id ≡ x
unfolding put_profiles
put_profiles-keyed by_id [] h = h
put_profiles-keyed by_id (q ∷ ps) h =
    put_profiles-keyed (insert q.id q by_id) ps
      λ x p e. ground (arith, e, h x p, lookup-insert q.id x q by_id, eq_iff q.id x)

Distinct-put_profiles :
    (by_id : Dict Profile) (ps : List Profile) → Distinct by_id → Distinct (put_profiles by_id ps)
unfolding put_profiles
Distinct-put_profiles by_id [] h = h
Distinct-put_profiles by_id (p ∷ ps) h =
    Distinct-put_profiles (insert p.id p by_id) ps (Distinct-insert p.id p by_id h)

reports_in-report_one :
    (by_id : Dict Profile) (reports : Dict (List String)) (id mgr x : String)
    → contains (reports_in (report_one by_id reports id) mgr) x
      ≡ (contains (reports_in reports mgr) x || ((id == x) && is_boss by_id mgr id))
reports_in-report_one by_id reports id mgr x =
    let boss = (profile_at by_id id).reports_to in
    ground (
      arith,
      lookup-insert boss mgr (reports_in reports boss ++ id ∷ []) reports,
      contains-append (reports_in reports boss) (id ∷ []) x,
      eq_iff boss mgr,
      eq_iff boss "",
    )

reports_in-put_reports :
    (by_id : Dict Profile) (reports : Dict (List String)) (ids : List String) (mgr x : String)
    → contains (reports_in (put_reports by_id reports ids) mgr) x
      ≡ (contains (reports_in reports mgr) x || (contains ids x && is_boss by_id mgr x))
unfolding put_reports
reports_in-put_reports by_id reports [] mgr x = ground arith
reports_in-put_reports by_id reports (id ∷ ids) mgr x = ground (
  arith,
  reports_in-put_reports by_id (report_one by_id reports id) ids mgr x,
  reports_in-report_one by_id reports id mgr x,
  eq_iff id x,
)

map-id : (xs : List String) → map (λ x. x) xs ≡ xs
map-id [] = refl
map-id (x ∷ xs) = ap (λ l. x ∷ l) (map-id xs)

pub build-IsBuilt : (profiles : List Profile) → IsBuilt (build profiles)
unfolding build lookup
build-IsBuilt profiles =
    let by_id = put_profiles [] profiles in
    let keys = keys_of by_id in
    let ids = sort_by (λ id. id) keys in
    let known : (x : String) → times x ids ≡ (if has_key x by_id then 1 else 0) = λ x.
      ap (times x) (sym (map-id ids))
      ∙ times-sort_by (λ id. id) x keys
      ∙ ap (times x) (map-id keys)
      ∙ times-keys_of x by_id (Distinct-put_profiles [] profiles tt) in
    record {
      keyed = put_profiles-keyed [] profiles (λ x p e. absurd (ground (arith, e)));
      known = known;
      listed = λ mgr x. ground (
        arith,
        reports_in-put_reports by_id [] ids mgr x,
        known x,
        contains-times ids x,
        eq_iff mgr "",
        eq_iff "" mgr,
      );
    }
