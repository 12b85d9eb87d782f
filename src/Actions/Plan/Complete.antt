-- ===== src/Actions/Plan/Complete.antt =====
-- Every product with an action gets exactly one action in the result of the sorter.
use opsiconfd.Prelude.{String, ◌≡◌, refl, List, [], ◌∷◌, ◌++◌, append_assoc, none, Bool, arith}
use opsiconfd.Prelude.Dict.{HasUniqueKeys, Dict, lookup, remove}
use opsiconfd.Prelude.Sort.{sort-perm}
use mathlib.Core.List.{Perm}
use mathlib.Core.List.Perm
use opsiconfd.Actions.Data.{ProductDependency, ProductOnClient, Action, ActionGroup, empty_group}
use opsiconfd.Actions.Group.{sort}
use opsiconfd.Actions.Group.Runs.{Rearranges-sort}
use opsiconfd.Actions.Walk.{Sorter, get_list}
use opsiconfd.Actions.Plan.{
  merge_all, take_product, take_products, single_groups, build_groups, group_actions,
}
use opsiconfd.Actions.Plan.Firsts.{
  all_actions, first_actions, all_actions-append, all_actions-perm, all_actions-single_groups,
  HasUniqueKeys-remove, first_actions-remove_nil, first_actions-remove_cons, actions-add_action,
}

-- What is still to be placed, and the actions of the group at hand.
abbrev pending : ActionGroup × Dict (List Action) → List Action
pending st = st.0.actions ++ first_actions st.1

-- The entries that are left after a product was taken, and the group that got its action.
module _ (deps : Dict (List ProductDependency)) (k : String) (g : ActionGroup)
    (d : Dict (List Action)) where
  take_product-left : (take_product deps k (g, d)).1 ≡ remove k d
  unfolding take_product
  take_product-left = ground arith

  take_product-none : get_list k d ≡ [] → (take_product deps k (g, d)).0 ≡ g
  unfolding take_product
  take_product-none h = rw (h, take_product)

  take_product-some :
      (a : Action) (as' : List Action)
      → get_list k d ≡ a ∷ as'
      → (take_product deps k (g, d)).0.actions ≡ g.actions ++ a ∷ []
  unfolding take_product
  take_product-some a as' h = rw (h, take_product) (ground (arith, actions-add_action g a))

module _ (deps : Dict (List ProductDependency)) where
  take_product-pending :
      (k : String) (g : ActionGroup) (d : Dict (List Action))
      → HasUniqueKeys d
      → Perm (pending (take_product deps k (g, d))) (pending (g, d))
  take_product-pending k g d u = go (get_list k d) refl
    where
      go :
          (l : List Action)
          → get_list k d ≡ l
          → Perm (pending (take_product deps k (g, d))) (pending (g, d))
      go [] e =
          rw (take_product-left deps k g d, take_product-none deps k g d e)
            (rw (first_actions-remove_nil k d u e) Perm.rfl)
      go (a ∷ as') e =
          rw (take_product-left deps k g d, take_product-some deps k g d a as' e)
            (rw append_assoc (Perm.append_left g.actions (first_actions-remove_cons k d a as' u e)))

  take_products-pending :
      (ks : List String) (g : ActionGroup) (d : Dict (List Action))
      → HasUniqueKeys d
      → Perm (pending (take_products deps ks (g, d))) (pending (g, d))
        × HasUniqueKeys (take_products deps ks (g, d)).1
  unfolding take_products
  take_products-pending [] g d u = (Perm.rfl, u)
  take_products-pending (k ∷ ks) g d u =
      let st = take_product deps k (g, d) in
      let u' : HasUniqueKeys st.1 =
        rw (take_product-left deps k g d) (HasUniqueKeys-remove k d u) in
      let (r, u'') = take_products-pending ks st.0 st.1 u' in
      (Perm.trans r (take_product-pending k g d u), u'')

module _ (same_on_client : ProductOnClient → ProductOnClient → Bool) where
  build_groups-perm :
      (deps : Dict (List ProductDependency)) (groups : List (List String)) (d : Dict (List Action))
      → HasUniqueKeys d
      → Perm
          (all_actions (build_groups same_on_client deps groups d).0
            ++ first_actions (build_groups same_on_client deps groups d).1)
          (first_actions d)
  unfolding build_groups
  build_groups-perm deps [] d u = Perm.rfl
  build_groups-perm deps (ids ∷ groups) d u =
      let st = take_products deps ids (empty_group, d) in
      let (taken, u') = take_products-pending deps ids empty_group d u in
      let rest = build_groups same_on_client deps groups st.1 in
      let sorted = sort same_on_client st.0 in
      rw (append_assoc sorted.actions (all_actions rest.0) (first_actions rest.1)) (
        Perm.trans
          (Perm.append (Rearranges-sort same_on_client st.0).perm
            (build_groups-perm deps groups st.1 u'))
          taken)

  lookup-merge_all :
      (k : String) (d : Dict (List Action)) → lookup k d ≡ none → lookup k (merge_all d) ≡ none
  unfolding lookup merge_all
  lookup-merge_all k [] h = refl
  lookup-merge_all k ((j, v) ∷ d) h = ground (arith, lookup-merge_all k d)

  HasUniqueKeys-merge_all : (d : Dict (List Action)) → HasUniqueKeys d → HasUniqueKeys (merge_all d)
  unfolding merge_all
  HasUniqueKeys-merge_all [] u = tt
  HasUniqueKeys-merge_all ((k, v) ∷ d) u = (lookup-merge_all k d u.0, HasUniqueKeys-merge_all d u.1)

  -- The groups together hold one action for each product with unsorted actions, the merged one,
  -- and no other action: none is lost or doubled on the way into the groups.
  pub group_actions-perm :
      (s : Sorter)
      → HasUniqueKeys s.unsorted_actions
      → Perm
          (all_actions (group_actions same_on_client s))
          (first_actions (merge_all s.unsorted_actions))
  unfolding group_actions
  group_actions-perm s u =
      let d = merge_all s.unsorted_actions in
      let built = build_groups same_on_client s.dependencies s.product_id_groups d in
      Perm.trans (all_actions-perm (sort-perm _ (built.0 ++ single_groups built.1))) (
        rw (all_actions-append built.0 (single_groups built.1)) (
          rw (all_actions-single_groups built.1) (
            build_groups-perm s.dependencies s.product_id_groups d
              (HasUniqueKeys-merge_all s.unsorted_actions u))))
