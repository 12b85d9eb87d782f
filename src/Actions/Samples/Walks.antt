-- ===== src/Actions/Samples/Walks.antt =====
-- Tests of the sorter of one client as a whole, and of the numbering.
use opsiconfd.Prelude.{
  ◌≤◌, String, ◌≡◌, ◌≢◌, ◌↔◌, refl, List, [], ◌∷◌, none, some, true, arith, ◌==◌, inl, inr,
  Bool-cases, get_elem?, count,
}
use opsiconfd.Prelude.Int.{pos}
use opsiconfd.Prelude.Text.{contains, text_le}
use opsiconfd.Prelude.Dict.{lookup, insert, keys, remove}
use opsiconfd.Prelude.Sort.{sort as stable_sort, insert as insert_sorted}
use mathlib.Core.List.{Perm}
use opsiconfd.Actions.Data.{ProductOnClient, ActionGroup, ordered, moved, add_action}
use opsiconfd.Actions.Error.{out_of_fuel, returns, raises}
use opsiconfd.Actions.Group.{
  before, sort, sort_run, order_dependency, sort_runs, same_actions, same_action,
  order_dependencies, order_before, order_after, find_positions, see, move,
}
use opsiconfd.Actions.Group.Positions.{is_named}
use opsiconfd.Actions.Partition.{add, find_group, join}
use opsiconfd.Actions.Partition.Join.{IsDisjoint, together}
use opsiconfd.Actions.Walk.Rule.{OnOk}
use opsiconfd.Actions.Plan.Own.{process_actions_own}
use opsiconfd.Actions.Walk.{
  get_list, Sorter, empty_sorter, find_product, process_dependencies, with_product, process_all,
  process_dependency, with_required, follow_dependency, register_hard, register, required_action,
  follow_required, require, add_unsorted,
}
use opsiconfd.Actions.Walk.Fuel.{IsClosed, process_dependencies_ends}
use opsiconfd.Actions.Walk.Linked.{Linked}
use opsiconfd.Actions.Plan.{
  build_groups, take_products, take_product, merge_actions, first_product_on_client, last_active,
  single_groups, collect_actions, process_product_on_clients, add_product_on_clients,
  add_product_on_client, with_own_product, process_products, process_actions, group_actions,
  merge_all,
}
use opsiconfd.Actions.Plan.Components.{collect_actions_components}
use opsiconfd.Actions.Plan.Firsts.{all_actions, first_actions}
use opsiconfd.Actions.Plan.Single.{process_product_on_clients-perm, process_product_on_clients_once}
use opsiconfd.Actions.Numbers.{number_groups}
use opsiconfd.Actions.Numbers.Sequence.{sequences, number_groups-sequence}
use opsiconfd.Actions.Samples.{needs_java, on_client, lookups, setup, two, in_order, same_on_client}

lookups-IsClosed : IsClosed lookups ("java" ∷ [])
unfolding find_product contains
lookups-IsClosed = record {
  finds = λ id v p. refl;
  covers =
      λ id v p. elim (Bool-cases (id == "firefox")) [ inl e ↦ rw e (refl, tt) | inr e ↦ rw e tt ];
}

process_dependencies_ends_example :
    process_dependencies lookups true 2 (setup "firefox") ([], empty_sorter) ≢ raises out_of_fuel
process_dependencies_ends_example =
    process_dependencies_ends lookups true ("java" ∷ []) lookups-IsClosed 2 (setup "firefox")
      empty_sorter (omega arith)

number_groups-sequence_example :
    get_elem?
      (sequences (number_groups (λ p t c. on_client p none) "pc1" 0 (two ∷ in_order ∷ [])))
      2
    ≡ some (pos 2)
number_groups-sequence_example =
    number_groups-sequence (λ p t c. on_client p none) "pc1" (two ∷ in_order ∷ []) 2 (setup "wine")
      refl

abbrev requested : List ProductOnClient
requested = on_client "firefox" (some "setup") ∷ []

abbrev collected_sorter : Sorter
collected_sorter = record {
  groups = [];
  unsorted_actions =
      (
        "firefox",
        record (setup "firefox") { product_on_client = some (on_client "firefox" (some "setup")) }
            ∷ [],
      )
      ∷ ("java", setup "java" ∷ [])
      ∷ [];
  product_id_groups = ("firefox" ∷ "java" ∷ []) ∷ [];
  dependencies = ("firefox", needs_java ∷ []) ∷ [];
}

collect_sample : collect_actions lookups true 2 requested ≡ returns collected_sorter
unfolding collect_actions add_product_on_clients add_product_on_client with_own_product find_product
    process_products process_actions process_dependencies with_product process_all
    process_dependency with_required follow_dependency register_hard register required_action
    follow_required require add_unsorted join find_group add contains insert keys lookup
collect_sample = refl

collect_actions_components_example :
    IsDisjoint collected_sorter.product_id_groups
    × ((x y : String)
        → (together x y collected_sorter.product_id_groups ≡ true)
          ↔ Linked collected_sorter.dependencies x y)
collect_actions_components_example =
    collect_actions_components lookups true ("java" ∷ []) lookups-IsClosed 2 requested
      collected_sorter collect_sample

-- The one group of both products: "java" comes first.
abbrev sorted_group : ActionGroup
sorted_group = record {
  priority = pos 10;
  actions =
      setup "java"
      ∷ record (setup "firefox") { product_on_client = some (on_client "firefox" (some "setup")) }
      ∷ [];
  dependencies = ("firefox", needs_java ∷ []) ∷ [];
  sort_log =
      ordered (("firefox", pos 10) ∷ ("java", pos 10) ∷ [])
      ∷ moved 1 "firefox" (some 0) "java" 1
      ∷ [];
}

process_sample :
    process_product_on_clients lookups true same_on_client 2 requested ≡ returns (sorted_group ∷ [])
unfolding collect_actions add_product_on_clients add_product_on_client with_own_product find_product
    process_products process_actions process_dependencies with_product process_all
    process_dependency with_required follow_dependency register_hard register required_action
    follow_required require add_unsorted join find_group add contains insert keys lookup
    process_product_on_clients group_actions build_groups take_products take_product merge_all
    merge_actions first_product_on_client last_active add_action remove single_groups stable_sort
    insert_sorted before text_le sort sort_runs sort_run same_actions same_action order_dependencies
    order_dependency order_before order_after find_positions see move
process_sample = refl

process_product_on_clients-perm_example :
    (s : Sorter) × (collect_actions lookups true 2 requested ≡ returns s)
    × Perm (all_actions (sorted_group ∷ [])) (first_actions (merge_all s.unsorted_actions))
process_product_on_clients-perm_example =
    process_product_on_clients-perm lookups true same_on_client 2 requested (sorted_group ∷ [])
      process_sample

process_product_on_clients_once_example :
    count (is_named "java") (all_actions (sorted_group ∷ [])) ≤ 1
process_product_on_clients_once_example =
    process_product_on_clients_once lookups true same_on_client 2 requested (sorted_group ∷ [])
      process_sample "java"

own_actions_kept :
    OnOk
      (λ s'.
        get_list "firefox" s'.unsorted_actions ≡ get_list "firefox" empty_sorter.unsorted_actions)
      (process_actions lookups true 2 (setup "firefox" ∷ []) empty_sorter)
own_actions_kept =
    process_actions_own lookups true ("java" ∷ []) lookups-IsClosed 2 "firefox"
      (setup "firefox" ∷ []) empty_sorter (refl, tt)
