-- ===== src/Actions/Group/Quiet.antt =====
-- A run of `ActionGroup.sort` that logs no move found every dependency settled.
use mathlib.Core.Path.{subst}
use native.Mathlib.Nat.{le_trans, le_of_eq}
use opsiconfd.Prelude.{
  ℕ, suc, ◌≤◌, String, ◌≡◌, refl, ap, ◌↔◌, inl, inr, List, [], ◌∷◌, Option, none, some, Bool, true,
  false, arith, if◌then◌else◌, ◌==◌, eq_iff, All, length, length-append, Bool-cases,
}
use opsiconfd.Prelude.Text.{eq_option}
use opsiconfd.Actions.Data.{ProductDependency, Action, SortEntry, moved, ActionGroup}
use opsiconfd.Actions.Group.{
  Positions, move_in, find_positions, order_before, order_after, order_dependency,
  order_dependencies, dependencies_of, sort_run,
}
use opsiconfd.Actions.Group.Positions.{has, IsUnique, find_positions_lem}
use opsiconfd.Actions.Group.Moves.{index_of-some, index_of-eq-none, order_dependency-meets}
use opsiconfd.Actions.Group.Runs.{Rearranges-order_dependencies, Rearranges-sort_run}
use opsiconfd.Actions.Group.Settled.{Settled, AllSettled, sort_run_settled}

pub not_both :
    (o : Option String) → eq_option o (some "after") ≡ true → eq_option o (some "before") ≡ false
not_both none h = refl
not_both (some s) h = ground (arith, eq_iff s "after", eq_iff s "before", eq_iff "after" "before")

-- A step either changes nothing or logs one move.
pub data Step (g g' : ActionGroup) : Type 0 where
  idle : g' ≡ g → Step g g'
  logs : length g'.sort_log ≡ suc (length g.sort_log) → Step g g'

Step-move_in :
    (g : ActionGroup) (entry : SortEntry) (from : Option ℕ) (to : ℕ)
    → Step g (move_in g entry from to)
Step-move_in g entry from to = logs (omega (arith, length-append {0} g.sort_log (entry ∷ [])))

Step-if : (b : Bool) {g h k : ActionGroup} → Step g h → Step g k → Step g (if b then h else k)
Step-if true r s = r
Step-if false r s = s

module _ (run : ℕ) (p : String) (d : ProductDependency) (g : ActionGroup) where
  Step-order_before : (r : String) (found : Positions) → Step g (order_before run p r found g)
  unfolding order_before
  Step-order_before r (prd, none) = idle refl
  Step-order_before r (prd, some req) = Step-if _ (Step-move_in g _ _ _) (idle refl)

  Step-order_after : (r : String) (found : Positions) → Step g (order_after run p r found g)
  unfolding order_after
  Step-order_after r (none, req) = idle refl
  Step-order_after r (some prd, req) = Step-if _ (Step-move_in g _ _ _) (idle refl)

  Step-order_dependency : Step g (order_dependency run p d g)
  unfolding order_dependency
  Step-order_dependency =
      let found = find_positions p d.required_product_id 0 g.actions (none, none) in
      Step-if (eq_option d.requirement_type (some "before"))
        (Step-order_before d.required_product_id found)
        (Step-if (eq_option d.requirement_type (some "after"))
          (Step-order_after d.required_product_id found) (idle refl))

-- Where the required product has no action, the `after` branch logs a move.
order_after_missing :
    (run : ℕ) (p r : String) (i : ℕ) (g : ActionGroup)
    → length (order_after run p r (some i, none) g).sort_log ≡ suc (length g.sort_log)
unfolding order_after
order_after_missing run p r i g =
    omega (arith, length-append {0} g.sort_log (moved run r none p i ∷ []))

module _ (run : ℕ) (p : String) (d : ProductDependency) (g : ActionGroup)
    (unique : IsUnique g.actions) (here : has p g.actions ≡ true)
    (apart : (p == d.required_product_id) ≡ false) where
  order_dependency_missing :
      has d.required_product_id g.actions ≡ false
      → eq_option d.requirement_type (some "after") ≡ true
      → length (order_dependency run p d g).sort_log ≡ suc (length g.sort_log)
  unfolding order_dependency
  order_dependency_missing absent is_after =
      let (i, e) = index_of-some p g.actions here in
      rw (find_positions_lem p d.required_product_id apart g.actions unique) (
        rw (e, index_of-eq-none d.required_product_id g.actions absent)
          (ground (
            arith,
            order_after_missing run p d.required_product_id i g,
            not_both d.requirement_type,
          )))

  Settled-of_idle : order_dependency run p d g ≡ g → Settled g.actions p d
  Settled-of_idle e = elim (Bool-cases (has d.required_product_id g.actions)) [
    | inl there ↦
        (apart, inl (there, rw e at (order_dependency-meets run p d g unique here apart there)))
    | inr absent ↦ (
      apart,
      inr (
        absent,
        ground
            (arith, ap (λ (k : ActionGroup). length k.sort_log) e, order_dependency_missing absent),
      ),
    )
  ]

  -- A step that logs nothing found its dependency settled, and changed nothing.
  quiet_step :
      length (order_dependency run p d g).sort_log ≤ length g.sort_log
      → (order_dependency run p d g ≡ g) × Settled g.actions p d
  quiet_step h = elim (Step-order_dependency run p d g) [
    | idle e ↦ (e, Settled-of_idle e)
    | logs e ↦ absurd (omega arith)
  ]

-- Product `p` has an action in the group, and requires other products only.
abbrev pub IsApart : ActionGroup → String → List ProductDependency → Type 0
IsApart g p ds = All (λ d. (p == d.required_product_id) ≡ false) ds

quiet_dependencies :
    (run : ℕ) (p : String) (ds : List ProductDependency) (g : ActionGroup)
    → IsUnique g.actions
    → has p g.actions ≡ true
    → IsApart g p ds
    → length (order_dependencies run p ds g).sort_log ≤ length g.sort_log
    → (order_dependencies run p ds g ≡ g) × All (Settled g.actions p) ds
unfolding order_dependencies
quiet_dependencies run p [] g u here h quiet = (refl, tt)
quiet_dependencies run p (d ∷ ds) g u here h quiet =
    let first = order_dependency run p d g in
    let rest = (Rearranges-order_dependencies run p ds first).logged in
    let (e, s) = quiet_step run p d g u here h.0 (le_trans rest quiet) in
    let (e', s') =
      quiet_dependencies run p ds g u here h.1 (
        subst (λ k. length (order_dependencies run p ds k).sort_log ≤ length g.sort_log) e quiet) in
    (rw e e', (s, s'))

-- Every action of the list is in the group, and no product requires itself.
abbrev pub AllApart : List Action → ActionGroup → Type 0
AllApart l g =
    All
      (λ a.
        (has a.product_id g.actions ≡ true)
        × IsApart g a.product_id (dependencies_of a.product_id g))
      l

quiet_run :
    (run : ℕ) (l : List Action) (g : ActionGroup)
    → IsUnique g.actions
    → AllApart l g
    → length (sort_run run l g).sort_log ≤ length g.sort_log
    → (sort_run run l g ≡ g) × AllSettled l g
unfolding sort_run
quiet_run run [] g u h quiet = (refl, tt)
quiet_run run (a ∷ l) g u h quiet =
    let p = a.product_id in
    let ds = dependencies_of p g in
    let rest = (Rearranges-sort_run run l (order_dependencies run p ds g)).logged in
    let (e, s) = quiet_dependencies run p ds g u h.0.0 h.0.1 (le_trans rest quiet) in
    let (e', s') =
      quiet_run run l g u h.1
        (subst (λ k. length (sort_run run l k).sort_log ≤ length g.sort_log) e quiet) in
    (rw e e', ((h.0.0, s), s'))

-- A run of the dependency sort logs no move exactly when every dependency is settled; the group
-- is then left as it was.
pub sort_run_quiet :
    (run : ℕ) (g : ActionGroup)
    → IsUnique g.actions
    → AllApart g.actions g
    → (length (sort_run run g.actions g).sort_log ≤ length g.sort_log) ↔ AllSettled g.actions g
sort_run_quiet run g u h = (
  λ quiet. (quiet_run run g.actions g u h quiet).1,
  λ settled.
      le_of_eq
        (ap (λ (k : ActionGroup). length k.sort_log) (sort_run_settled run g.actions g u settled)),
)
