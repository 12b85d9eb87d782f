-- ===== src/Actions/Plan.antt =====
-- `ActionSorter.process_product_on_clients` in `get_product_action_groups` of
-- opsiconfd/backend/rpc/obj_product_dependency.py.
pub mod Collect
pub mod Filed
pub mod Components
pub mod Firsts
pub mod Own
pub mod Complete
pub mod Single
use opsiconfd.Prelude.{
  ℕ, zero, suc, ◌+◌, String, List, [], ◌∷◌, ◌++◌, Option, none, some, Bool, true, false, not, ◌&&◌,
  ◌||◌, if◌then◌else◌, ◌==◌, map, length,
}
use opsiconfd.Prelude.Int.{ℤ, pos, negsuc, leb_ℤ}
use opsiconfd.Prelude.Dict.{Dict, lookup, insert, remove, keys}
use opsiconfd.Prelude.Sort.{sort as stable_sort}
use opsiconfd.Actions.Data.{
  ProductDependency, Product, ProductOnClient, Action, ActionGroup, SortEntry, empty_group,
  add_action,
}
use opsiconfd.Actions.Group.{sort}
use opsiconfd.Actions.Error.{Error, Result, returns, raises, is_unavailable, ◌>>=◌}
use opsiconfd.Actions.Walk.{
  Lookups, Sorter, empty_sorter, get_list, priority_or_zero, add_unsorted, find_product,
  process_dependencies,
}

-- `product_on_client.actionRequest or "none"`
abbrev action_or_none : Option String → String
action_or_none none = "none"
action_or_none (some a) = if a == "" then "none" else a

-- The first `product_on_client` of the actions for one product.
unfoldable pub first_product_on_client : List Action → Option ProductOnClient
first_product_on_client [] = none
first_product_on_client (a ∷ as') = elim a.product_on_client [
  | none ↦ first_product_on_client as'
  | some poc ↦ some poc
]

-- `not act.action or act.action == "none"`
abbrev pub is_idle : Action → Bool
is_idle a = (a.action == "") || (a.action == "none")

-- The last action that is not idle; `action` if there is none.
unfoldable pub last_active : Action → List Action → Action
last_active action [] = action
last_active action (a ∷ as') = last_active (if is_idle a then action else a) as'

-- "Merge duplicate actions", for one product.
unfoldable pub merge_actions : List Action → List Action
unfolding first_product_on_client last_active
merge_actions (a ∷ b ∷ as') =
    let actions = a ∷ b ∷ as' in
    record (last_active a actions) { product_on_client = first_product_on_client actions } ∷ []
merge_actions actions = actions

unfoldable pub merge_all : Dict (List Action) → Dict (List Action)
unfolding merge_actions
merge_all [] = []
merge_all ((k, actions) ∷ d) = (k, merge_actions actions) ∷ merge_all d

-- The body of the loop over the products of one group: pops the actions of the product.
unfoldable pub take_product :
    Dict (List ProductDependency)
    → String
    → ActionGroup × Dict (List Action)
    → ActionGroup × Dict (List Action)
take_product dependencies k (group, unsorted) = elim (get_list k unsorted) [
  | [] ↦ (group, remove k unsorted)
  | a ∷ as' ↦
      let group' = add_action group a in
      elim (get_list a.product_id dependencies) [
        | [] ↦ (group', remove k unsorted)
        | d ∷ ds ↦ (
          record group' { dependencies = insert a.product_id (d ∷ ds) group'.dependencies },
          remove k unsorted,
        )
      ]
]

unfoldable pub take_products :
    Dict (List ProductDependency)
    → List String
    → ActionGroup × Dict (List Action)
    → ActionGroup × Dict (List Action)
unfolding take_product
take_products dependencies [] st = st
take_products dependencies (k ∷ ks) st =
    take_products dependencies ks (take_product dependencies k st)

-- "Add remaining independent actions": a group for the first action of each product. A product
-- with no action in its list, where the code would raise, gets no group: a list starts with one.
unfoldable pub single_groups : Dict (List Action) → List ActionGroup
single_groups [] = []
single_groups ((k, []) ∷ d) = single_groups d
single_groups ((k, a ∷ as') ∷ d) = add_action empty_group a ∷ single_groups d

module _ (same_on_client : ProductOnClient → ProductOnClient → Bool) where
  -- "Build and sort action groups"
  unfoldable pub build_groups :
      Dict (List ProductDependency)
      → List (List String)
      → Dict (List Action)
      → List ActionGroup × Dict (List Action)
  unfolding take_products
  build_groups dependencies [] unsorted = ([], unsorted)
  build_groups dependencies (ids ∷ groups) unsorted =
      let (group, unsorted') = take_products dependencies ids (empty_group, unsorted) in
      let (rest, left) = build_groups dependencies groups unsorted' in
      (sort same_on_client group ∷ rest, left)

  -- From the merge of duplicate actions to the sort of the groups by priority.
  unfoldable pub group_actions : Sorter → List ActionGroup
  unfolding merge_all build_groups single_groups
  group_actions s =
      let (groups, left) =
        build_groups s.dependencies s.product_id_groups (merge_all s.unsorted_actions) in
      stable_sort (λ g h. leb_ℤ h.priority g.priority) (groups ++ single_groups left)

module _ (l : Lookups) (ignore_unavailable : Bool) where
  -- After the lookup of the product.
  unfoldable pub with_own_product : ProductOnClient → Result Product → Sorter → Result Sorter
  with_own_product poc (raises e) s =
      if is_unavailable e && ignore_unavailable then returns s else raises e
  with_own_product poc (returns product) s = returns (
      add_unsorted
        (record {
          product_id = poc.product_id;
          product_type = poc.product_type;
          action = action_or_none poc.action_request;
          priority = priority_or_zero product.priority;
          product_on_client = some poc;
        })
        s)

  -- `add_product_on_client`
  unfoldable pub add_product_on_client : ProductOnClient → Sorter → Result Sorter
  add_product_on_client poc s = with_own_product poc (find_product l poc.product_id none none) s

  unfoldable pub add_product_on_clients : List ProductOnClient → Sorter → Result Sorter
  add_product_on_clients [] s = returns s
  add_product_on_clients (poc ∷ pocs) s = do
    s' ← add_product_on_client poc s
    add_product_on_clients pocs s'

  -- `for action in actions: self.process_dependencies(action)`
  -- The list is read once, when the loop starts.
  unfoldable pub process_actions : ℕ → List Action → Sorter → Result Sorter
  process_actions fuel [] s = returns s
  process_actions fuel (a ∷ as') s = do
    st ← process_dependencies l ignore_unavailable fuel a ([], s)
    process_actions fuel as' st.1

  -- The loop over the snapshot of the lists: each list is read when its turn comes.
  unfoldable pub process_products : ℕ → List String → Sorter → Result Sorter
  process_products fuel [] s = returns s
  process_products fuel (k ∷ ks) s = do
    s' ← process_actions fuel (get_list k s.unsorted_actions) s
    process_products fuel ks s'

  -- "Add ProductOnClients to unsorted actions", "Add dependent actions to unsorted actions"
  unfoldable pub collect_actions : ℕ → List ProductOnClient → Result Sorter
  collect_actions fuel pocs = do
    s ← add_product_on_clients pocs empty_sorter
    process_products fuel (keys s.unsorted_actions) s

  -- `process_product_on_clients`
  unfoldable pub process_product_on_clients :
      (same_on_client : ProductOnClient → ProductOnClient → Bool)
      → ℕ
      → List ProductOnClient
      → Result (List ActionGroup)
  process_product_on_clients same_on_client fuel pocs = do
    s ← collect_actions fuel pocs
    returns (group_actions same_on_client s)
