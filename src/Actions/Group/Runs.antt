-- ===== src/Actions/Group/Runs.antt =====
-- The runs of `ActionGroup.sort`: what they keep, and when they change nothing.
use native.Mathlib.Nat.{le_refl, le_trans}
use opsiconfd.Prelude.{
  ◌≤◌, sym, ap, append-nil, append_assoc, ◌++◌, arith, length, length-append, ℕ, zero, suc, String,
  ◌≡◌, refl, ◌∙◌, List, [], ◌∷◌, Option, none, some, Bool, true, false, if◌then◌else◌,
}
use opsiconfd.Prelude.Text.{eq_option}
use opsiconfd.Prelude.Sort.{sort-perm}
use mathlib.Core.List.{Perm}
use mathlib.Core.List.Perm
use opsiconfd.Actions.Data.{ProductDependency, ProductOnClient, Action, SortEntry, ActionGroup}
use opsiconfd.Actions.Group.{
  Positions, before, move_in, find_positions, order_before, order_after, order_dependency,
  order_dependencies, dependencies_of, sort_run, sort_runs, sort,
}
use opsiconfd.Actions.Group.Positions.{move-perm}

-- The step from `g` to `g'` rearranges the actions and keeps the rest of the group.
pub record Rearranges (g g' : ActionGroup) : Type 0 where
  pub perm : Perm g'.actions g.actions
  pub dependencies : g'.dependencies ≡ g.dependencies
  pub priority : g'.priority ≡ g.priority
  pub log_kept : (more : List SortEntry) × (g'.sort_log ≡ g.sort_log ++ more)
  pub logged : length g.sort_log ≤ length g'.sort_log

Rearranges-refl : (g : ActionGroup) → Rearranges g g
Rearranges-refl g = record {
  perm = Perm.rfl;
  dependencies = refl;
  priority = refl;
  log_kept = ([], sym (append-nil g.sort_log));
  logged = le_refl _;
}

Rearranges-trans : {g h k : ActionGroup} → Rearranges g h → Rearranges h k → Rearranges g k
Rearranges-trans r s = record {
  perm = Perm.trans s.perm r.perm;
  dependencies = s.dependencies ∙ r.dependencies;
  priority = s.priority ∙ r.priority;
  log_kept = (
    r.log_kept.0 ++ s.log_kept.0,
    s.log_kept.1
        ∙ ap (λ l. l ++ s.log_kept.0) r.log_kept.1
        ∙ append_assoc _ r.log_kept.0 s.log_kept.0,
  );
  logged = le_trans r.logged s.logged;
}

Rearranges-move_in :
    (g : ActionGroup) (entry : SortEntry) (from : Option ℕ) (to : ℕ)
    → Rearranges g (move_in g entry from to)
Rearranges-move_in g entry from to = record {
  perm = move-perm from to g.actions;
  dependencies = refl;
  priority = refl;
  log_kept = (entry ∷ [], refl);
  logged = omega (arith, length-append {0} g.sort_log (entry ∷ []));
}

Rearranges-if :
    (b : Bool) {g h k : ActionGroup}
    → Rearranges g h
    → Rearranges g k
    → Rearranges g (if b then h else k)
Rearranges-if true r s = r
Rearranges-if false r s = s

module _ (run : ℕ) (product required : String) (g : ActionGroup) where
  Rearranges-order_before :
      (found : Positions) → Rearranges g (order_before run product required found g)
  unfolding order_before
  Rearranges-order_before (prd, none) = Rearranges-refl g
  Rearranges-order_before (prd, some req) =
      Rearranges-if _ (Rearranges-move_in g _ _ _) (Rearranges-refl g)

  Rearranges-order_after :
      (found : Positions) → Rearranges g (order_after run product required found g)
  unfolding order_after
  Rearranges-order_after (none, req) = Rearranges-refl g
  Rearranges-order_after (some prd, req) =
      Rearranges-if _ (Rearranges-move_in g _ _ _) (Rearranges-refl g)

pub Rearranges-order_dependency :
    (run : ℕ) (product : String) (d : ProductDependency) (g : ActionGroup)
    → Rearranges g (order_dependency run product d g)
unfolding order_dependency
Rearranges-order_dependency run product d g =
    let required = d.required_product_id in
    let found = find_positions product required 0 g.actions (none, none) in
    Rearranges-if (eq_option d.requirement_type (some "before"))
      (Rearranges-order_before run product required g found)
      (Rearranges-if (eq_option d.requirement_type (some "after"))
        (Rearranges-order_after run product required g found) (Rearranges-refl g))

pub Rearranges-order_dependencies :
    (run : ℕ) (product : String) (ds : List ProductDependency) (g : ActionGroup)
    → Rearranges g (order_dependencies run product ds g)
unfolding order_dependencies
Rearranges-order_dependencies run product [] g = Rearranges-refl g
Rearranges-order_dependencies run product (d ∷ ds) g =
    Rearranges-trans (Rearranges-order_dependency run product d g)
      (Rearranges-order_dependencies run product ds _)

pub Rearranges-sort_run :
    (run : ℕ) (l : List Action) (g : ActionGroup) → Rearranges g (sort_run run l g)
unfolding sort_run
Rearranges-sort_run run [] g = Rearranges-refl g
Rearranges-sort_run run (a ∷ l) g =
    Rearranges-trans
      (Rearranges-order_dependencies run a.product_id (dependencies_of a.product_id g) g)
      (Rearranges-sort_run run l _)

module _ (same_on_client : ProductOnClient → ProductOnClient → Bool) where
  Rearranges-sort_runs :
      (left run : ℕ) (g : ActionGroup) → Rearranges g (sort_runs same_on_client left run g)
  unfolding sort_runs
  Rearranges-sort_runs zero run g = Rearranges-refl g
  Rearranges-sort_runs (suc left) run g = Rearranges-if _ (Rearranges-sort_run run g.actions g) (
      Rearranges-trans (Rearranges-sort_run run g.actions g)
        (Rearranges-sort_runs left (suc run) _))

  -- Sorting a group rearranges its actions: none is lost, added or doubled. The dependencies and the
  -- priority of the group stay, and its log so far with new entries behind it.
  pub Rearranges-sort : (g : ActionGroup) → Rearranges g (sort same_on_client g)
  unfolding sort
  Rearranges-sort g =
      Rearranges-trans
        (record {
          perm = sort-perm before g.actions;
          dependencies = refl;
          priority = refl;
          log_kept = (_, refl);
          logged = omega (arith, length-append {0} g.sort_log);
        })
        (Rearranges-sort_runs _ 1 _)
