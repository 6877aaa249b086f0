-- ===== src/Store/Supersede/Admission.antt =====
-- What `supersede` admits, and that what it admits stays acyclic.
use mathlib.Core.Path.{subst}
use atlas_py.Prelude.{ℕ, String, ◌≡◌, refl, sym, ap, ◌∙◌, [], ◌∷◌, ◌==◌, arith}
use atlas_py.Prelude.Dict.{Dict, get, put, has}
use atlas_py.Errors.{ok, validation_error, admission_error, refuse, >>-eq-ok}
use atlas_py.Graph.Walk.{ok_injective}
use atlas_py.Model.Knowledge.{Supersession, check_supersession}
use atlas_py.Store.{Store, check_open}
use atlas_py.Store.Supersede.{
  graph_of, check_acyclic, check_records, check_membership, check_supersession_candidate, supersede,
}
use atlas_py.Store.Supersede.Chains.{EndsAfter, check_acyclic_iff}

abbrev pub edge_of : String → String → String → Supersession
edge_of old new snapshot = record { old = old; new = new; snapshot = snapshot }

graph_of-put :
    (edges : Dict Supersession) (k : String) (edge : Supersession)
    → graph_of (put edges k edge) ≡ put (graph_of edges) k edge.new
unfolding graph_of put
graph_of-put [] k edge = refl
graph_of-put ((j, e) ∷ edges) k edge = ground (arith, graph_of-put edges k edge)

check_candidate-Acyclic :
    (s : Store) (old new snapshot : String)
    → check_supersession_candidate s old new snapshot ≡ ok tt
    → check_acyclic (put (graph_of s.supersessions) old new) ≡ ok tt
unfolding check_supersession_candidate
check_candidate-Acyclic s old new snapshot h =
    let (apart, h1) =
      >>-eq-ok (refuse (old == new) (validation_error "knowledge cannot supersede itself")) h in
    let (slots, h2) = >>-eq-ok (check_records (get s.records old) (get s.records new)) h1 in
    (>>-eq-ok (check_membership (get s.snapshots snapshot) old new) h2).1

-- After an admitted edge the chain of replacements from every record ends: the supersessions of the
-- store are acyclic.
pub supersede-Acyclic :
    (s after : Store) (edge : Supersession) (old new snapshot : String)
    → supersede s old new snapshot ≡ ok (after, edge)
    → (x : String) → (n : ℕ) × EndsAfter (graph_of after.supersessions) n x
unfolding supersede
supersede-Acyclic s after edge old new snapshot h x =
    let (opened, h1) = >>-eq-ok (check_open s) h in
    let (checked, h2) = >>-eq-ok (check_supersession_candidate s old new snapshot) h1 in
    let (fresh, h3) =
      >>-eq-ok
        (refuse (has s.supersessions old) (admission_error "knowledge already has a supersession"))
        h2 in
    let (apart, h4) = >>-eq-ok (check_supersession (edge_of old new snapshot)) h3 in
    let stored : after.supersessions ≡ put s.supersessions old (edge_of old new snapshot) =
      ap (λ r. r.0.supersessions) (sym (ok_injective h4)) in
    let graph : graph_of after.supersessions ≡ put (graph_of s.supersessions) old new =
      ap graph_of stored ∙ graph_of-put s.supersessions old (edge_of old new snapshot) in
    subst (λ g. (n : ℕ) × EndsAfter g n x) (sym graph)
      ((check_acyclic_iff (put (graph_of s.supersessions) old new)).0
        (check_candidate-Acyclic s old new snapshot checked) x)
