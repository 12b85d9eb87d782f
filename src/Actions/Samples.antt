-- ===== src/Actions/Samples.antt =====
-- Test data: two products on one depot, "firefox" requiring "java" first.
mod Orders
mod Walks
use opsiconfd.Prelude.{
  ℕ, ◌≤◌, String, ◌≡◌, ◌≢◌, ◌↔◌, refl, List, [], ◌∷◌, Option, none, some, Bool, true, false, arith,
  ◌==◌, ◌||◌, ◌&&◌, eq_iff, inl, inr, if◌then◌else◌, All, Bool-cases, length, get_elem?, count,
  take,
}
use opsiconfd.Prelude.Int.{ℤ, pos, negsuc}
use opsiconfd.Prelude.Text.{contains, text_le}
use opsiconfd.Prelude.Dict.{Dict, lookup, insert, keys, remove}
use opsiconfd.Prelude.Sort.{sort as stable_sort, insert as insert_sorted}
use mathlib.Core.List.{Perm}
use opsiconfd.Actions.Data.{
  ProductDependency, ProductOnDepot, Product, ProductOnClient, Action, ActionGroup, ordered, moved,
  add_action,
}
use opsiconfd.Actions.Error.{out_of_fuel, Result, returns, raises}
use opsiconfd.Actions.Group.{
  before, sort, sort_run, order_dependency, sort_runs, same_actions, same_action,
  order_dependencies, order_before, order_after, find_positions, see, move,
}
use opsiconfd.Actions.Group.Positions.{precedes, is_named}
use opsiconfd.Actions.Group.Moves.{meets, order_dependency-meets}
use opsiconfd.Actions.Group.Runs.{Rearranges, Rearranges-sort}
use opsiconfd.Actions.Group.Settled.{AllSettled, sort_settled}
use opsiconfd.Actions.Group.Quiet.{sort_run_quiet}
use opsiconfd.Actions.Partition.{add, find_group, join}
use opsiconfd.Actions.Partition.Join.{IsDisjoint, together}
use opsiconfd.Actions.Partition.Classes.{touches, together-join, join-IsDisjoint}
use opsiconfd.Actions.Walk.{
  Lookups, Sorter, empty_sorter, find_product, process_dependencies, with_product, process_all,
  process_dependency, with_required, follow_dependency, register_hard, register, required_action,
  follow_required, require, add_unsorted,
}
use opsiconfd.Actions.Walk.Fuel.{IsClosed, process_dependencies_ends}
use opsiconfd.Actions.Walk.Linked.{Linked}
use opsiconfd.Actions.Plan.{
  build_groups, take_products, take_product, merge_actions, first_product_on_client, last_active,
  single_groups, collect_actions, process_product_on_clients, add_product_on_clients,
  add_product_on_client, with_own_product, process_products, process_actions, group_actions,
  merge_all, is_idle,
}
use opsiconfd.Actions.Plan.Components.{collect_actions_components, collect_actions_ends}
use opsiconfd.Actions.Plan.Firsts.{all_actions, first_actions}
use opsiconfd.Actions.Plan.Single.{process_product_on_clients-perm, process_product_on_clients_once}
use opsiconfd.Actions.Numbers.{number_groups}
use opsiconfd.Actions.Numbers.Sequence.{sequences, is_active, number_groups-sequence}

abbrev needs : String → Option String → ProductDependency
needs required requirement_type = record {
  product_id = "firefox";
  product_version = "1";
  package_version = "1";
  product_action = "setup";
  required_product_id = required;
  required_product_version = none;
  required_package_version = none;
  required_action = some "setup";
  required_installation_status = none;
  requirement_type = requirement_type;
}

abbrev needs_java : ProductDependency
needs_java = needs "java" (some "before")

abbrev a_product : String → Product
a_product id = record {
  id = id;
  product_version = "1";
  package_version = "1";
  product_type = "LocalbootProduct";
  priority = some (pos 10);
  script = λ a. some (some "run.opsiscript");
}

abbrev on_client : String → Option String → ProductOnClient
on_client id request = record {
  product_id = id;
  product_type = "LocalbootProduct";
  client_id = "pc1";
  action_request = request;
  action_sequence = negsuc 0;
  installation_status = some "not_installed";
  product_version = none;
  package_version = none;
}

abbrev lookups : Lookups
lookups = record {
  product_on_depot = λ id v p.
      returns record {
        depot_id = "depot1";
        product_id = id;
        product_version = "1";
        package_version = "1";
      };
  product = λ id v p. returns (a_product id);
  dependencies = λ id v p. if id == "firefox" then needs_java ∷ [] else [];
  product_on_client = λ id t. on_client id none;
  same_dependency = λ d e. d.required_product_id == e.required_product_id;
}

abbrev setup : String → Action
setup id = record {
  product_id = id;
  product_type = "LocalbootProduct";
  action = "setup";
  priority = pos 10;
  product_on_client = none;
}

-- "firefox" stands before the "java" that it requires.
abbrev two : ActionGroup
two = record {
  priority = pos 10;
  actions = setup "firefox" ∷ setup "java" ∷ [];
  dependencies = ("firefox", needs_java ∷ []) ∷ [];
  sort_log = [];
}

-- "java" stands before the "wine" that requires it.
abbrev in_order : ActionGroup
in_order = record {
  priority = pos 10;
  actions = setup "wine" ∷ setup "java" ∷ [];
  dependencies = ("wine", needs_java ∷ []) ∷ [];
  sort_log = [];
}

abbrev same_on_client : ProductOnClient → ProductOnClient → Bool
same_on_client p q = p.product_id == q.product_id
