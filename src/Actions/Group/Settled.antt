-- ===== src/Actions/Group/Settled.antt =====
-- When a run of `ActionGroup.sort` moves nothing, and what that says of the order.
use opsiconfd.Prelude.{
  suc, false, inl, inr, ℕ, Bool, ℕ, zero, suc, String, ◌≡◌, refl, ◌⊎◌, inl, inr, List, [], ◌∷◌,
  some, Bool, true, false, arith, ◌==◌, All, ap,
}
use opsiconfd.Prelude.Text.{eq_option}
use opsiconfd.Prelude.Sort.{sort-perm, sort as stable_sort}
use opsiconfd.Actions.Data.{ProductDependency, ProductOnClient, Action, ActionGroup}
use opsiconfd.Actions.Group.{
  order_before, before, order_before, order_dependency, order_dependencies, dependencies_of,
  sort_run, sort_runs, sort,
}
use opsiconfd.Actions.Group.Positions.{has, IsUnique, IsUnique-perm, find_positions_lem}
use opsiconfd.Actions.Group.Moves.{index_of-some, index_of-eq-none, meets, order_dependency_idle}

-- The dependency `d` of product `p` is settled in `l`: the order that it asks for holds. A
-- `before` dependency on a product with no action in the list is settled too.
abbrev pub Settled : List Action → String → ProductDependency → Type 0
Settled l p d =
    ((p == d.required_product_id) ≡ false)
    × ((has d.required_product_id l ≡ true) × (meets p d l ≡ true)
        ⊎ (has d.required_product_id l ≡ false)
          × (eq_option d.requirement_type (some "after") ≡ false))

module _ (run : ℕ) (p : String) (d : ProductDependency) (g : ActionGroup)
    (unique : IsUnique g.actions) (here : has p g.actions ≡ true) where
  -- A step for a `before` dependency on a product that has no action changes nothing.
  order_dependency_absent :
      (p == d.required_product_id) ≡ false
      → has d.required_product_id g.actions ≡ false
      → eq_option d.requirement_type (some "after") ≡ false
      → order_dependency run p d g ≡ g
  unfolding order_dependency order_before
  order_dependency_absent apart absent type =
      let (i, e) = index_of-some p g.actions here in
      rw (find_positions_lem p d.required_product_id apart g.actions unique)
        (rw (e, index_of-eq-none d.required_product_id g.actions absent) (ground arith))

  order_dependency-Settled : Settled g.actions p d → order_dependency run p d g ≡ g
  order_dependency-Settled (apart, inl (there, met)) =
      order_dependency_idle run p d g unique here apart there met
  order_dependency-Settled (apart, inr (absent, type)) = order_dependency_absent apart absent type

order_dependencies-Settled :
    (run : ℕ) (p : String) (ds : List ProductDependency) (g : ActionGroup)
    → IsUnique g.actions
    → has p g.actions ≡ true
    → All (Settled g.actions p) ds
    → order_dependencies run p ds g ≡ g
unfolding order_dependencies
order_dependencies-Settled run p [] g u here h = refl
order_dependencies-Settled run p (d ∷ ds) g u here h =
    rw (order_dependency-Settled run p d g u here h.0)
      (order_dependencies-Settled run p ds g u here h.1)

-- Every dependency of every action in `l` is settled in the group.
abbrev pub AllSettled : List Action → ActionGroup → Type 0
AllSettled l g =
    All
      (λ a.
        (has a.product_id g.actions ≡ true)
        × All (Settled g.actions a.product_id) (dependencies_of a.product_id g))
      l

pub sort_run_settled :
    (run : ℕ) (l : List Action) (g : ActionGroup)
    → IsUnique g.actions
    → AllSettled l g
    → sort_run run l g ≡ g
unfolding sort_run
sort_run_settled run [] g u h = refl
sort_run_settled run (a ∷ l) g u h =
    rw
      (order_dependencies-Settled run a.product_id (dependencies_of a.product_id g) g u h.0.0 h.0.1)
      (sort_run_settled run l g u h.1)

module _ (same_on_client : ProductOnClient → ProductOnClient → Bool) where
  sort_runs_settled :
      (left run : ℕ) (g : ActionGroup)
      → IsUnique g.actions
      → AllSettled g.actions g
      → sort_runs same_on_client left run g ≡ g
  unfolding sort_runs
  sort_runs_settled zero run g u h = refl
  sort_runs_settled (suc left) run g u h =
      rw (sort_run_settled run g.actions g u h)
        (rw (sort_runs_settled left (suc run) g u h) (ground arith))

  -- If the order by priority and product id settles every dependency, sorting gives that order.
  pub sort_settled :
      (g : ActionGroup)
      → IsUnique g.actions
      → AllSettled
          (stable_sort before g.actions)
          (record g { actions = stable_sort before g.actions })
      → (sort same_on_client g).actions ≡ stable_sort before g.actions
  unfolding sort
  sort_settled g u h =
      ap (λ (k : ActionGroup). k.actions)
        (sort_runs_settled _ 1 _ (IsUnique-perm (sort-perm before g.actions) u) h)
