-- ===== src/Store/History.antt =====
-- store.py: `snapshot`, which fixes what the store holds under a new identity.
pub mod Growth
use atlas_py.Prelude.{
  String, Bool, true, false, not, ◌&&◌, ◌||◌, Option, none, some, List, [], ◌∷◌, map, ◌==◌,
  if◌then◌else◌,
}
use atlas_py.Prelude.Order.{text_lt, sorted_set}
use atlas_py.Prelude.Dict.{Dict, get, put, has, keys, values}
use atlas_py.Errors.{
  Check, Result, ok, err, validation_error, admission_error, require, refuse, ◌>>=◌, ◌>>◌,
}
use atlas_py.Vocabulary.{latest_versions}
use atlas_py.Model.Knowledge.{Rule, Context}
use atlas_py.Model.Snapshot.{Snapshot, ContextDefinition, RuleDefinition, check_snapshot}
use atlas_py.Store.{Store, check_open}

-- The order of pairs of texts.
abbrev pub pair_lt : String × String → String × String → Bool
pair_lt a b = text_lt a.0 b.0 || (a.0 == b.0 && text_lt a.1 b.1)

unfoldable pub insert_pair : String × String → List (String × String) → List (String × String)
insert_pair p [] = p ∷ []
insert_pair p (q ∷ qs) = if pair_lt q p then q ∷ insert_pair p qs else p ∷ q ∷ qs

-- sorted(pairs)
unfoldable pub sort_pairs : List (String × String) → List (String × String)
sort_pairs [] = []
sort_pairs (p ∷ ps) = insert_pair p (sort_pairs ps)

-- d[k] for k in ks, where the keys are there
unfoldable pub values_at {ℓ} : {V : Type ℓ} → Dict V → List String → List V
values_at d [] = []
values_at d (k ∷ ks) =
    let rest = values_at d ks in elim (get d k) [ none ↦ rest | some v ↦ v ∷ rest ]

abbrev pub context_definition : Context → ContextDefinition
context_definition c = record {
  id = c.id;
  visible_scopes = c.visible_scopes;
  enabled_rules = c.enabled_rules;
}

abbrev pub rule_definition : Rule → RuleDefinition
rule_definition r = record {
  id = r.id;
  version = r.version;
  payload = r.payload;
  evaluation_supported = r.evaluation_supported;
}

-- The snapshot of what the store holds. The keys of a dictionary are distinct, so `sorted_set` sorts
-- them.
unfoldable pub snapshot_of_store : Store → String → Option String → Snapshot
snapshot_of_store s ident parent = record {
  id = ident;
  parent = parent;
  record_ids = sorted_set (keys s.records);
  predicate_versions = sort_pairs (latest_versions [] (map (λ e. e.0) s.vocabulary.predicates));
  property_versions = sort_pairs (latest_versions [] (map (λ e. e.0) s.vocabulary.properties));
  rule_versions = sort_pairs (map (λ r. (r.id, r.version)) (values s.rules));
  context_ids = sorted_set (keys s.contexts);
  context_definitions =
      map context_definition (values_at s.contexts (sorted_set (keys s.contexts)));
  rule_definitions = map rule_definition (values_at s.rules (sorted_set (keys s.rules)));
  description_ids = sorted_set (keys s.descriptions);
}

-- parent is not None and parent not in self.snapshots
unfoldable pub is_unresolved : Store → Option String → Bool
is_unresolved s none = false
is_unresolved s (some p) = not (has s.snapshots p)

-- self.snapshots[sid.value] = snap
abbrev pub with_snapshot : Store → Snapshot → Store
with_snapshot s snapshot = record s { snapshots = put s.snapshots snapshot.id snapshot }

-- Store.snapshot: the store afterwards
unfoldable pub create_snapshot : Store → String → Option String → Result Store
create_snapshot s ident parent = do
  check_open s
  refuse (has s.snapshots ident) (admission_error "duplicate snapshot identity")
  refuse (is_unresolved s parent) (validation_error "unresolved snapshot parent")
  check_snapshot (snapshot_of_store s ident parent)
  ok (with_snapshot s (snapshot_of_store s ident parent))
