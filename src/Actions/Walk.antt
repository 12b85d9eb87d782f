-- ===== src/Actions/Walk.antt =====
-- `ActionSorter.process_dependencies` of opsiconfd/backend/rpc/obj_product_dependency.py.
pub mod Rule
pub mod Path
pub mod Fuel
pub mod Linked
pub mod Own
use opsiconfd.Prelude.{
  ℕ, zero, suc, String, List, [], ◌∷◌, ◌++◌, Option, none, some, Bool, true, false, not, ◌&&◌, ◌||◌,
  if◌then◌else◌, ◌==◌, any,
}
use opsiconfd.Prelude.Int.{ℤ, pos}
use opsiconfd.Prelude.Text.{truthy, eq_option, contains}
use opsiconfd.Prelude.Dict.{Dict, lookup, insert}
use opsiconfd.Actions.Data.{
  ProductDependency, ProductOnDepot, Product, ProductOnClient, Action, ActionGroup,
}
use opsiconfd.Actions.Partition.{join}
use opsiconfd.Actions.Error.{
  Error, invalid_installation_status, attribute_error, out_of_fuel, Result, returns, raises,
  is_unavailable, ◌>>=◌,
}

-- What the sorter of one client asks of the functions nested in `get_product_action_groups`, and
-- `==` on dependencies, which is opsicommon's.
pub record Lookups : Type 0 where
  pub product_on_depot : String → Option String → Option String → Result ProductOnDepot
  pub product : String → String → String → Result Product
  pub dependencies : String → String → String → List ProductDependency
  pub product_on_client : String → String → ProductOnClient
  pub same_dependency : ProductDependency → ProductDependency → Bool

-- The fields of `ActionSorter` that change.
pub record Sorter : Type 0 where
  pub groups : List ActionGroup
  pub unsorted_actions : Dict (List Action)
  pub product_id_groups : List (List String)
  pub dependencies : Dict (List ProductDependency)

abbrev pub empty_sorter : Sorter
empty_sorter = record {
  groups = [];
  unsorted_actions = [];
  product_id_groups = [];
  dependencies = [];
}

-- `d[k]` of a `defaultdict(list)`
abbrev pub get_list {ℓ} : {V : Type ℓ} → String → Dict (List V) → List V
get_list k d = elim (lookup k d) [ none ↦ [] | some vs ↦ vs ]

-- `self.unsorted_actions[action.product_id].append(action)`
unfoldable pub add_unsorted : Action → Sorter → Sorter
add_unsorted a s = record s {
  unsorted_actions =
      insert a.product_id (get_list a.product_id s.unsorted_actions ++ a ∷ []) s.unsorted_actions;
}

-- `product.priority or 0`
abbrev pub priority_or_zero : Option ℤ → ℤ
priority_or_zero none = pos 0
priority_or_zero (some n) = n

-- `not required or not present or required == present`
abbrev version_fits : Option String → Option String → Bool
version_fits required present =
    not (truthy required) || not (truthy present) || eq_option required present

-- The action that a dependency requires; `none` if it is fulfilled.
unfoldable pub required_action : ProductDependency → ProductOnClient → Result (Option String)
required_action d poc =
    if truthy d.required_action
    then returns d.required_action
    else if eq_option d.required_installation_status poc.installation_status
        && version_fits d.required_product_version poc.product_version
        && version_fits d.required_package_version poc.package_version
    then returns none
    else if eq_option d.required_installation_status (some "installed")
    then returns (some "setup")
    else if eq_option d.required_installation_status (some "not_installed")
    then returns (some "uninstall")
    else raises invalid_installation_status

-- The path is one list that all nested calls append to.
abbrev pub State : Type 0
State = List String × Sorter

module _ (l : Lookups) where
  -- `get_product_on_depot` followed by `get_product`
  unfoldable pub find_product : String → Option String → Option String → Result Product
  find_product id product_version package_version = do
    pod ← l.product_on_depot id product_version package_version
    l.product id pod.product_version pod.package_version

  -- Only a dependency with a requirement type affects the order.
  unfoldable pub register : Action → Product → ProductDependency → Product → Sorter → Sorter
  register action product d dep_product s =
      let known = get_list product.id s.dependencies in
      if any (λ k. l.same_dependency k d) known then s else record s {
        dependencies = insert product.id (known ++ d ∷ []) s.dependencies;
        product_id_groups = join action.product_id dep_product.id s.product_id_groups;
      }

  -- Only "hard" requirements are registered.
  unfoldable pub register_hard : Action → Product → ProductDependency → Product → Sorter → Sorter
  register_hard action product d dep_product s =
      if truthy d.requirement_type then register action product d dep_product s else s

  abbrev pub dependent_action : Product → String → Action
  dependent_action dep_product required = record {
    product_id = dep_product.id;
    product_type = dep_product.product_type;
    action = required;
    priority = priority_or_zero dep_product.priority;
    product_on_client = none;
  }

  module _ (ignore_unavailable : Bool) where
    -- `follow` is the recursive call.
    module _ (follow : Action → State → Result State) where
      -- From `if not getattr(...)` to the end of the loop body.
      unfoldable pub require : Product → String → State → Result State
      require dep_product required (path, s) = elim (dep_product.script required) [
        | none ↦ raises attribute_error
        | some script ↦
            let action = dependent_action dep_product required in
            let followed = follow action (path, add_unsorted action s) in
            if truthy script then followed else returns (path, s)
      ]

      -- What follows on the required action.
      unfoldable pub follow_required : Product → Result (Option String) → State → Result State
      follow_required dep_product (raises e) st = raises e
      follow_required dep_product (returns none) st = returns st
      follow_required dep_product (returns (some required)) st = require dep_product required st

      -- The loop body below the lookup of the required product.
      unfoldable pub follow_dependency :
          Action → Product → ProductDependency → Product → State → Result State
      follow_dependency action product d dep_product (path, s) =
          follow_required dep_product
            (required_action d (l.product_on_client dep_product.id dep_product.product_type))
            (path, register_hard action product d dep_product s)

      -- After the lookup of the required product.
      unfoldable pub with_required :
          Action → Product → ProductDependency → Result Product → State → Result State
      with_required action product d (raises e) st =
          if is_unavailable e && ignore_unavailable then returns st else raises e
      with_required action product d (returns dep_product) st =
          follow_dependency action product d dep_product st

      -- The body of the loop over the dependencies of the product.
      unfoldable pub process_dependency :
          Action → Product → ProductDependency → State → Result State
      process_dependency action product d (path, s) =
          let found =
            find_product d.required_product_id d.required_product_version
              d.required_package_version in
          if not (d.product_action == action.action) || contains d.required_product_id path
          then returns (path, s)
          else with_required action product d found (path, s)

      unfoldable pub process_all : Action → Product → List ProductDependency → State → Result State
      process_all action product [] st = returns st
      process_all action product (d ∷ ds) st = do
        st' ← process_dependency action product d st
        process_all action product ds st'

      -- After the lookup of the action's own product.
      unfoldable pub with_product : Action → Result Product → State → Result State
      with_product action (raises e) st =
          if is_unavailable e && ignore_unavailable then returns st else raises e
      with_product action (returns product) st =
          process_all action product
            (l.dependencies product.id product.product_version product.package_version) st

    -- `process_dependencies`
    unfoldable pub process_dependencies : ℕ → Action → State → Result State
    process_dependencies zero action st = raises out_of_fuel
    process_dependencies (suc fuel) action (path, s) =
        with_product (process_dependencies fuel) action (find_product action.product_id none none)
          (path ++ action.product_id ∷ [], s)
