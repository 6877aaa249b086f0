-- ===== src/Witnesses/Replacement.antt =====
-- The admission of the replacement to that store, and a decision on one of its records.
use atlas_py.Prelude.{ℕ, String, ◌≡◌, ◌↔◌, refl, true, List, [], ◌∷◌, contains, arith, eq_iff}
use atlas_py.Prelude.Dict.{Dict, get, put}
use atlas_py.Errors.{ok, err, validation_error}
use atlas_py.Graph.Walk.{Reach}
use atlas_py.Model.Knowledge.{Supersession}
use atlas_py.Store.{Store}
use atlas_py.Store.Supersede.{graph_of, check_acyclic, with_edge, supersede}
use atlas_py.Store.Supersede.Chains.{EndsAfter, check_acyclic_iff}
use atlas_py.Store.Supersede.Admission.{supersede-Acyclic}
use atlas_py.Store.Supersede.Replacement.{IsReplaced, IsReplacement, supersede_iff}
use atlas_py.Store.Dependencies.{derivation_inputs, decision_reads, decision_dependency_closure}
use atlas_py.Store.Dependencies.Reachability.{decision_dependency_closure_lem}
use atlas_py.Witnesses.Selection.{offers}
use atlas_py.Witnesses.Shop.{features_of, second, replacement, shop, edges_after}

admits : supersede (shop []) "have" "newer" "s2" ≡ ok (shop edges_after, replacement)
unfolding supersede atlas_py.Store.check_open atlas_py.Store.Supersede.check_supersession_candidate
    atlas_py.Store.Supersede.check_records get atlas_py.Store.Supersede.same_slot
    atlas_py.Store.Supersede.same_kind atlas_py.Store.Supersede.check_membership contains
    check_acyclic atlas_py.Store.Supersede.follow_each put graph_of atlas_py.Store.Supersede.follow
    atlas_py.Model.Knowledge.check_supersession
admits = refl

supersede-Acyclic_example : (n : ℕ) × EndsAfter (graph_of edges_after) n "have"
supersede-Acyclic_example =
    supersede-Acyclic (shop []) (shop edges_after) replacement "have" "newer" "s2" admits "have"

abbrev chain : Dict String
chain = ("a", "b") ∷ ("b", "c") ∷ []

check_acyclic_iff_example :
    check_acyclic chain ≡ ok tt ↔ ((x : String) → (n : ℕ) × EndsAfter chain n x)
check_acyclic_iff_example = check_acyclic_iff chain

refuses_cycle : check_acyclic (put chain "c" "a") ≡ err (validation_error "supersession cycle")
unfolding check_acyclic atlas_py.Store.Supersede.follow_each put atlas_py.Store.Supersede.follow get
    contains
refuses_cycle = refl

ends_alone : check_acyclic (put (graph_of []) "have" "newer") ≡ ok tt
unfolding check_acyclic atlas_py.Store.Supersede.follow_each put graph_of
    atlas_py.Store.Supersede.follow get contains
ends_alone = refl

supersede_iff_example : IsReplacement (shop []) "have" "newer" "s2" ↔ (
    (after : Store) × (edge : Supersession) × (supersede (shop []) "have" "newer" "s2"
      ≡ ok (after, edge))
    × IsReplaced (shop []) after edge "have" "newer" "s2")
supersede_iff_example = supersede_iff (shop []) "have" "newer" "s2"

-- The replacement that was admitted is one.
replaces : IsReplacement (shop []) "have" "newer" "s2"
unfolding get contains
replaces = record {
  previous = features_of "have" "slot" "offers" ("x" ∷ []);
  replacement = features_of "newer" "slot" "offers" ("y" ∷ "x" ∷ []);
  target = second;
  is_open = refl;
  apart = λ e. ground (arith, e, eq_iff "have" "newer");
  has_previous = refl;
  has_replacement = refl;
  domain = (refl, refl, refl, refl);
  has_target = refl;
  holds_old = refl;
  holds_new = refl;
  unreplaced = refl;
  ends = (check_acyclic_iff (put (graph_of []) "have" "newer")).0 ends_alone;
}

decision_dependency_closure_lem_example :
    (closure : List String) × (decision_dependency_closure (shop []) offers ≡ ok closure)
    × ((y : String)
        → contains closure y ≡ true ↔ (
            (x : String) × (contains (decision_reads (shop []) offers) x ≡ true)
            × Reach (λ ident. ok (derivation_inputs (shop []) ident)) x y))
decision_dependency_closure_lem_example = decision_dependency_closure_lem (shop []) offers
