-- ===== src/Actions/Numbers.antt =====
-- The result of `get_product_action_groups` of opsiconfd/backend/rpc/obj_product_dependency.py:
-- the actions of a client numbered through.
pub mod Sequence
use opsiconfd.Prelude.{
  ℕ, zero, suc, ◌+◌, String, List, [], ◌∷◌, ◌++◌, Option, none, some, Bool, true, false, not, ◌&&◌,
  ◌||◌, if◌then◌else◌, ◌==◌, map, length,
}
use opsiconfd.Prelude.Int.{ℤ, pos, negsuc, leb_ℤ}
use opsiconfd.Prelude.Dict.{Dict, lookup, insert, remove, keys}
use opsiconfd.Prelude.Sort.{sort as stable_sort}
use opsiconfd.Actions.Data.{
  ProductDependency, Product, ProductOnClient, Action, ActionGroup, SortEntry, empty_group,
  add_action,
}
use opsiconfd.Actions.Group.{sort}
use opsiconfd.Actions.Error.{Error, Result, returns, raises, is_unavailable, ◌>>=◌}
use opsiconfd.Actions.Walk.{
  Lookups, Sorter, empty_sorter, get_list, priority_or_zero, add_unsorted, find_product,
  process_dependencies,
}
use opsiconfd.Actions.Plan.{is_idle}

-- A `ProductActionGroup`: `priorities` is a dict, and the objects are copies of the cached ones.
pub record ProductActionGroup : Type 0 where
  pub priority : ℤ
  pub product_on_clients : List ProductOnClient
  pub priorities : Dict ℤ
  pub dependencies : Dict (List ProductDependency)
  pub sort_log : List SortEntry

-- `Action.get_product_on_client`; `new` is the constructor of opsicommon's class.
module _ (new : String → String → String → ProductOnClient) (client_id : String) where
  pub get_product_on_client : Action → ProductOnClient
  get_product_on_client a = elim a.product_on_client [
    | none ↦ record (new a.product_id a.product_type client_id) { action_request = some a.action }
    | some poc ↦ record poc { action_request = some a.action }
  ]

  -- The loop over the actions of a group: the next number, and the group so far.
  pub number_action : Action → ℕ × ProductActionGroup → ℕ × ProductActionGroup
  unfolding get_product_on_client
  number_action a (next, g) =
      let poc = get_product_on_client a in
      let g' : ProductActionGroup = record g {
        priorities = insert a.product_id a.priority g.priorities;
      } in
      if is_idle a
      then (
        next,
        record g' {
          product_on_clients =
              g.product_on_clients ++ record poc { action_sequence = negsuc 0 } ∷ [];
        },
      )
      else (
        suc next,
        record g' {
          product_on_clients =
              g.product_on_clients ++ record poc { action_sequence = pos next } ∷ [];
        },
      )

  pub number_actions : List Action → ℕ × ProductActionGroup → ℕ × ProductActionGroup
  unfolding number_action
  number_actions [] st = st
  number_actions (a ∷ as') st = number_actions as' (number_action a st)

  -- The loop over the groups of one client.
  pub number_groups : ℕ → List ActionGroup → List ProductActionGroup
  unfolding number_actions
  number_groups next [] = []
  number_groups next (g ∷ gs) =
      let start : ProductActionGroup = record {
        priority = g.priority;
        product_on_clients = [];
        priorities = [];
        dependencies = g.dependencies;
        sort_log = g.sort_log;
      } in
      let (next', numbered) = number_actions g.actions (next, start) in
      numbered ∷ number_groups next' gs
