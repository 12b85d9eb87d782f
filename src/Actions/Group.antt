-- ===== src/Actions/Group.antt =====
-- `ActionGroup.sort` of opsiconfd/backend/rpc/obj_product_dependency.py.
pub mod Positions
pub mod Moves
pub mod Runs
pub mod Settled
pub mod Quiet
pub mod Absent
use opsiconfd.Prelude.{
  ℕ, zero, suc, ◌-◌, String, List, [], ◌∷◌, ◌++◌, map, Option, none, some, Bool, true, false, ◌&&◌,
  if◌then◌else◌, ◌==◌, ltb, length, get_elem?, erase_idx, insert_idx,
}
use opsiconfd.Prelude.Int.{ltb_ℤ, leb_ℤ}
use opsiconfd.Prelude.Text.{text_le, eq_option}
use opsiconfd.Prelude.Dict.{Dict, lookup}
use opsiconfd.Prelude.Sort.{sort as stable_sort}
use opsiconfd.Actions.Data.{
  ProductDependency, ProductOnClient, Action, SortEntry, ordered, moved, ActionGroup,
}

-- `key=lambda a: (a.priority * -1, a.product_id)`
unfoldable pub before : Action → Action → Bool
before a b =
    if ltb_ℤ b.priority a.priority
    then true
    else if ltb_ℤ a.priority b.priority
    then false
    else text_le a.product_id b.product_id

-- `pos_prd` and `pos_req`; `none` stands for -1.
abbrev pub Positions : Type 0
Positions = Option ℕ × Option ℕ

-- One round of `for idx, act in enumerate(self.actions)`.
unfoldable pub see : String → String → ℕ → Action → Positions → Positions
see product required idx act (prd, req) =
    if act.product_id == product
    then (some idx, req)
    else if act.product_id == required
    then (prd, some idx)
    else (prd, req)

abbrev both_found : Positions → Bool
both_found (some i, some j) = true
both_found _ = false

unfoldable pub find_positions : String → String → ℕ → List Action → Positions → Positions
unfolding see
find_positions product required idx [] found = found
find_positions product required idx (act ∷ acts) found =
    let found' = see product required idx act found in
    let rest = find_positions product required (suc idx) acts found' in
    if both_found found' then found' else rest

-- `a > b`, where `none` is -1.
abbrev pub above : ℕ → Option ℕ → Bool
above i none = true
above i (some j) = ltb j i

-- `a < b`, where `none` is -1.
abbrev pub below : Option ℕ → ℕ → Bool
below none j = true
below (some i) j = ltb i j

-- An index of a list as Python counts it: -1 is the last.
abbrev pub index : Option ℕ → List Action → ℕ
index none l = length l - 1
index (some i) l = i

-- `l.insert(to, l.pop(from))`
unfoldable pub move : Option ℕ → ℕ → List Action → List Action
move from to l = elim (get_elem? l (index from l)) [
  | none ↦ l
  | some a ↦ insert_idx (erase_idx l (index from l)) to a
]

abbrev move_in : ActionGroup → SortEntry → Option ℕ → ℕ → ActionGroup
move_in g entry from to = record g {
  actions = move from to g.actions;
  sort_log = g.sort_log ++ entry ∷ [];
}

-- The `before` branch: the product moves behind what it requires.
unfoldable pub order_before : ℕ → String → String → Positions → ActionGroup → ActionGroup
order_before run product required (prd, none) g = g
order_before run product required (prd, some req) g =
    if above req prd then move_in g (moved run product prd required req) prd req else g

-- The `after` branch: what is required moves behind the product.
unfoldable pub order_after : ℕ → String → String → Positions → ActionGroup → ActionGroup
order_after run product required (none, req) g = g
order_after run product required (some prd, req) g =
    if below req prd then move_in g (moved run required req product prd) req prd else g

-- The body of the loop over the dependencies of a product.
unfoldable pub order_dependency : ℕ → String → ProductDependency → ActionGroup → ActionGroup
unfolding find_positions order_before order_after
order_dependency run product d g =
    let required = d.required_product_id in
    let found = find_positions product required 0 g.actions (none, none) in
    if eq_option d.requirement_type (some "before")
    then order_before run product required found g
    else if eq_option d.requirement_type (some "after")
    then order_after run product required found g
    else g

unfoldable pub order_dependencies : ℕ → String → List ProductDependency → ActionGroup → ActionGroup
unfolding order_dependency
order_dependencies run product [] g = g
order_dependencies run product (d ∷ ds) g =
    order_dependencies run product ds (order_dependency run product d g)

-- `self.dependencies.get(action.product_id, [])`
abbrev pub dependencies_of : String → ActionGroup → List ProductDependency
dependencies_of product g = elim (lookup product g.dependencies) [ none ↦ [] | some ds ↦ ds ]

-- One run: the loop over the copy of the actions.
unfoldable pub sort_run : ℕ → List Action → ActionGroup → ActionGroup
unfolding order_dependencies lookup
sort_run run [] g = g
sort_run run (a ∷ as') g =
    sort_run run as' (order_dependencies run a.product_id (dependencies_of a.product_id g) g)

-- `==` on `ProductOnClient` is opsicommon's.
module _ (same_on_client : ProductOnClient → ProductOnClient → Bool) where
  abbrev same_option : Option ProductOnClient → Option ProductOnClient → Bool
  same_option none none = true
  same_option (some p) (some q) = same_on_client p q
  same_option _ _ = false

  -- `==` on `Action` and on lists of actions, field by field.
  unfoldable pub same_action : Action → Action → Bool
  same_action a b =
      a.product_id == b.product_id
      && a.product_type == b.product_type
      && a.action == b.action
      && (leb_ℤ a.priority b.priority && leb_ℤ b.priority a.priority)
      && same_option a.product_on_client b.product_on_client

  unfoldable pub same_actions : List Action → List Action → Bool
  unfolding same_action
  same_actions [] [] = true
  same_actions (a ∷ as') (b ∷ bs) = same_action a b && same_actions as' bs
  same_actions _ _ = false

  -- The `while` loop: `left` runs are left of the `len(self.actions)` at most.
  unfoldable pub sort_runs : (left run : ℕ) → ActionGroup → ActionGroup
  unfolding sort_run same_actions
  sort_runs zero run g = g
  sort_runs (suc left) run g =
      let g' = sort_run run g.actions g in
      let rest = sort_runs left (suc run) g' in
      if same_actions g.actions g'.actions then g' else rest

  -- `ActionGroup.sort`
  unfoldable pub sort : ActionGroup → ActionGroup
  unfolding before stable_sort sort_runs
  sort g =
      let actions = stable_sort before g.actions in
      let entry = ordered (map (λ a. (a.product_id, a.priority)) actions) in
      sort_runs (length actions) 1
        (record g { actions = actions; sort_log = g.sort_log ++ entry ∷ [] })
