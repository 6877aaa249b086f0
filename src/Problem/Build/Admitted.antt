-- ===== src/Problem/Build/Admitted.antt =====
-- store.py: `admit_grounded_decision_problem` on what `ground_decision_problem` returns.
use atlas_py.Errors.{>>-of_ok, >>=-of_ok, expect, ok, refuse-of_false, require-pass}
use atlas_py.Json.{Json}
use atlas_py.Prelude.{String, ap, false, refl, ◌∙◌, ◌≡◌}
use atlas_py.Prelude.Dict.{get-put_self, has}
use atlas_py.Problem.{GroundedDecisionProblem}
use atlas_py.Problem.Access.{decision_problem}
use atlas_py.Problem.Build.{admit_problem, build_problem, with_problem}
use atlas_py.Problem.Equality.Reflexive.{problem_eq_refl}
use atlas_py.Store.{Store, check_open}

-- In an open store, the problem that is built from a scope under its own identity is admitted under
-- every identity that is free, and is read back there.
pub admit_problem_built :
    (digest : Json → String) (s : Store) (scope_id ident : String) (p : GroundedDecisionProblem)
    → check_open s ≡ ok tt
    → build_problem digest s scope_id ≡ ok p
    → p.scope_id ≡ scope_id
    → has s.grounded_decision_problems ident ≡ false
    → (admit_problem digest s ident p ≡ ok (with_problem s ident p))
      × (decision_problem (with_problem s ident p) ident ≡ ok p)
unfolding admit_problem decision_problem expect check_open
admit_problem_built digest s scope_id ident p is_open built own fresh = (
  >>-of_ok is_open (
      >>-of_ok (refuse-of_false _ fresh) (
        >>=-of_ok _ (ap (build_problem digest s) own ∙ built)
          (require-pass _ (problem_eq_refl p) refl))),
  >>-of_ok is_open (
      ap (expect "unknown grounded decision problem")
        (get-put_self s.grounded_decision_problems ident p)),
)
