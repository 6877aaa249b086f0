-- ===== src/Graph.antt =====
-- The depth-first walks of src/atlas/store.py and problem.py: `visit` marks a node once, in the
-- order in which it is met, and goes on to its successors. The list of marked nodes is the `seen`
-- set and the result list of the source at once. `next` may raise.
pub mod Walk
pub mod Sound
pub mod Ends
pub mod Errors
use atlas_py.Prelude.{ℕ, zero, suc, String, Bool, List, [], ◌∷◌, ◌++◌, contains, if◌then◌else◌}
use atlas_py.Errors.{Result, ok, err, out_of_fuel, ◌>>=◌}

-- for node in nodes: visit(node)
unfoldable pub each :
    (String → List String → Result (List String)) → List String → List String → Result (List String)
each f [] seen = ok seen
each f (x ∷ xs) seen = do marked ← f x seen; each f xs marked

module _ (next : String → Result (List String)) where
  unfoldable pub visit : ℕ → String → List String → Result (List String)
  visit zero x seen = err out_of_fuel
  visit (suc fuel) x seen =
      let deeper = (do xs ← next x; each (visit fuel) xs (seen ++ x ∷ [])) in
      if contains seen x then ok seen else deeper

  unfoldable pub visit_all : ℕ → List String → Result (List String)
  visit_all fuel xs = each (visit fuel) xs []
