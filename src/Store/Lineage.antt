-- ===== src/Store/Lineage.antt =====
-- The loop of `_snapshot_descends_from` over a history whose snapshots are stored under their ids.
use mathlib.Core.Path.{subst}
use atlas_py.Prelude.{
  ℕ, zero, suc, String, Bool, true, false, ◌≡◌, ◌≢◌, sym, ◌∙◌, ap, inl, inr, some, List, ◌∷◌, ◌==◌,
  arith, eq_iff, contains, contains_self, contains-tail, Bool-cases, Option-cases, some_injective,
}
use atlas_py.Errors.{Result, ok, err, out_of_fuel, Result-cases}
use atlas_py.Graph.Walk.{ok_injective, contains-cons_cases}
use atlas_py.Model.Snapshot.{Snapshot}
use atlas_py.Store.View.{ascend}

module _ (next : String → Result Snapshot) where
  -- `e` is `c` or one of its ancestors.
  pub data Above : Snapshot → Snapshot → Type 0 where
    here : {c : Snapshot} → Above c c
    up : {c d e : Snapshot} (p : String) → c.parent ≡ some p → next p ≡ ok d → Above d e → Above c e

  -- What is stored under an id has that id, and the ids are the keys.
  pub record IsKeyed (ks : List String) : Type 0 where
    pub same : (p : String) (d : Snapshot) → next p ≡ ok d → d.id ≡ p
    pub listed : (p : String) (d : Snapshot) → next p ≡ ok d → contains ks p ≡ true
    pub honest : (p : String) → next p ≢ err out_of_fuel

  module _ (ancestor : String) where
    -- The marked snapshots are no match, and their parents are marked or the current one.
    pub record Explored (seen : List String) (current : Snapshot) : Type 0 where
      pub stored : next current.id ≡ ok current
      pub differ : (x : String) → contains seen x ≡ true → x ≢ ancestor
      pub closed :
          (x : String) (c : Snapshot) (p : String)
          → contains seen x ≡ true
          → next x ≡ ok c
          → c.parent ≡ some p
          → contains (current.id ∷ seen) p ≡ true

    -- The snapshot or one of its ancestors has the id that is looked for.
    abbrev pub Matches : Snapshot → Type 0
    Matches current = (e : Snapshot) × Above current e × (e.id ≡ ancestor)

    module _ (ks : List String) (k : IsKeyed ks) where
      stored_self : (p : String) (d : Snapshot) → next p ≡ ok d → next d.id ≡ ok d
      stored_self p d found = subst (λ x. next x ≡ ok d) (sym (k.same p d found)) found

      -- Nothing above leaves a set of marked ids that holds the parents of its members.
      stays :
          (set : List String) (c e : Snapshot)
          → ((x : String) (d : Snapshot) (p : String)
              → contains set x ≡ true
              → next x ≡ ok d
              → d.parent ≡ some p
              → contains set p ≡ true)
          → next c.id ≡ ok c
          → contains set c.id ≡ true
          → Above c e
          → (next e.id ≡ ok e) × (contains set e.id ≡ true)
      stays set c e closed stored m here = (stored, m)
      stays set c e closed stored m (up {d} p parent found r) =
          stays set d e closed (stored_self p d found)
            (subst (λ x. contains set x ≡ true) (sym (k.same p d found))
              (closed c.id c p m stored parent))
            r

      -- Where the parent is marked or absent, no ancestor matches.
      exhausted :
          (seen : List String) (current : Snapshot)
          → Explored seen current
          → (current.id == ancestor) ≡ false
          → ((p : String) → current.parent ≡ some p → contains seen p ≡ true)
          → (e : Snapshot) → Above current e
          → e.id ≢ ancestor
      exhausted seen current x other parents e r same =
          let set = current.id ∷ seen in
          let (_, m) =
            stays set current e
              (λ y d p m found parent. elim (contains-cons_cases current.id seen y m) [
                | inr old ↦ x.closed y d p old found parent
                | inl now ↦ contains-tail current.id seen p (
                    parents p (
                      subst (λ (u : Snapshot). u.parent ≡ some p)
                        (ok_injective {a = d} {b = current}
                          (sym found ∙ subst (λ z. next z ≡ ok current) now x.stored))
                        parent))
              ])
              x.stored (contains_self current.id seen) r in
          elim (contains-cons_cases current.id seen e.id m) [
            | inl now ↦ ground (arith, eq_iff current.id ancestor)
            | inr old ↦ x.differ e.id old same
          ]

      -- Moving on to a parent that is not marked.
      pub onward :
          (seen : List String) (current above : Snapshot) (p : String)
          → Explored seen current
          → (current.id == ancestor) ≡ false
          → current.parent ≡ some p
          → next p ≡ ok above
          → Explored (current.id ∷ seen) above
      onward seen current above p x other parent found = record {
        stored = stored_self p above found;
        differ = λ y m. elim (contains-cons_cases current.id seen y m) [
          | inl now ↦ ground (arith, eq_iff current.id ancestor)
          | inr old ↦ x.differ y old
        ];
        closed = λ y c q m stored e. elim (contains-cons_cases current.id seen y m) [
          | inr old ↦ contains-tail above.id (current.id ∷ seen) q (x.closed y c q old stored e)
          | inl now ↦
              subst (λ z. contains (above.id ∷ current.id ∷ seen) z ≡ true)
                (k.same p above found
                  ∙ some_injective (
                      sym parent
                      ∙ subst (λ (u : Snapshot). u.parent ≡ some q)
                          (ok_injective {a = c} {b = current}
                            (sym stored ∙ subst (λ z. next z ≡ ok current) now x.stored))
                          e))
                (contains_self above.id (current.id ∷ seen))
        ];
      }

      Matches-Above :
          {current : Snapshot} (above : Snapshot) (p : String)
          → (current.id == ancestor) ≡ false
          → current.parent ≡ some p
          → next p ≡ ok above
          → (e : Snapshot) → Above current e
          → e.id ≡ ancestor
          → Matches above
      Matches-Above above p other parent found e here same =
          absurd (ground (arith, eq_iff e.id ancestor))
      Matches-Above above p other parent found e (up {d} q parent' found' r) same = (
        e,
        subst (λ z. Above z e)
            (ok_injective {a = d} {b = above}
              (sym found' ∙ ap next (some_injective (sym parent' ∙ parent)) ∙ found))
            r,
        same,
      )

      pub ascend-decides :
          (fuel : ℕ) (seen : List String) (current : Snapshot) (b : Bool)
          → Explored seen current
          → ascend next ancestor fuel seen current ≡ ok b
          → (b ≡ true → Matches current) × (b ≡ false → ¬ Matches current)
      unfolding ascend
      ascend-decides zero seen current b x h = cc
      ascend-decides (suc fuel) seen current b x h = elim (Bool-cases (current.id == ancestor)) [
        | inl found ↦
            (λ _. (current, here, (eq_iff current.id ancestor).0 found), λ e. ground arith)
        | inr other ↦ elim (Option-cases current.parent) [
          | inl root ↦ (
            λ e. ground arith,
            λ _ (e, r, same). exhausted seen current x other (λ p q. ground arith) e r same,
          )
          | inr (p, parent) ↦ elim (Bool-cases (contains seen p)) [
            | inl marked ↦ (
              λ e. ground arith,
              λ _ (e, r, same).
                  exhausted seen current x other
                    (λ q f.
                      subst (λ z. contains seen z ≡ true) (some_injective (sym parent ∙ f)) marked)
                    e r same,
            )
            | inr new ↦ elim (Result-cases (next p)) [
              | inr (c, failed) ↦ absurd (ground arith)
              | inl (above, found) ↦
                  let (yes_above, no_above) =
                    ascend-decides fuel (current.id ∷ seen) above b
                      (onward seen current above p x other parent found) (ground arith) in
                  (
                    λ t. let (e, r, same) = yes_above t in (e, up p parent found r, same),
                    λ f (e, r, same).
                        no_above f (Matches-Above above p other parent found e r same),
                  )
            ]
          ]
        ]
      ]
