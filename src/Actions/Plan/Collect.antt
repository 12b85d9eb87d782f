-- ===== src/Actions/Plan/Collect.antt =====
-- A proof rule for `collect_actions`: what a new action and the walk keep, the collection has.
use opsiconfd.Prelude.{ℕ, String, Bool, List, [], ◌∷◌, none, ◌&&◌}
use opsiconfd.Prelude.Dict.{keys}
use opsiconfd.Actions.Data.{Product, ProductOnClient, Action}
use opsiconfd.Actions.Error.{Result, returns, raises, is_unavailable}
use opsiconfd.Actions.Walk.{
  Lookups, Sorter, empty_sorter, get_list, add_unsorted, find_product, process_dependencies,
}
use opsiconfd.Actions.Walk.Rule.{OnOk, OnOk-if, OnOk-bind}
use opsiconfd.Actions.Plan.{
  with_own_product, add_product_on_client, add_product_on_clients, process_actions,
  process_products, collect_actions,
}

module _ (l : Lookups) (ignore : Bool) (P : Sorter → Type 0)
    (adds : (a : Action) (s : Sorter) → P s → P (add_unsorted a s))
    (walks : (fuel : ℕ) (a : Action) (s : Sorter)
      → P s
      → OnOk (λ st. P st.1) (process_dependencies l ignore fuel a ([], s))) where
  with_own_product_keeps :
      (poc : ProductOnClient) (r : Result Product) (s : Sorter)
      → P s
      → OnOk P (with_own_product l ignore poc r s)
  unfolding with_own_product
  with_own_product_keeps poc (raises e) s h =
      OnOk-if P (is_unavailable e && ignore) (returns s) (raises e) (λ _. h) (λ _. tt)
  with_own_product_keeps poc (returns product) s h = adds _ s h

  add_product_on_clients_keeps :
      (pocs : List ProductOnClient) (s : Sorter)
      → P s
      → OnOk P (add_product_on_clients l ignore pocs s)
  unfolding add_product_on_clients add_product_on_client
  add_product_on_clients_keeps [] s h = h
  add_product_on_clients_keeps (poc ∷ pocs) s h =
      OnOk-bind P P (add_product_on_client l ignore poc s) _
        (with_own_product_keeps poc (find_product l poc.product_id none none) s h)
        (λ s' h'. add_product_on_clients_keeps pocs s' h')

  process_actions_keeps :
      (fuel : ℕ) (actions : List Action) (s : Sorter)
      → P s
      → OnOk P (process_actions l ignore fuel actions s)
  unfolding process_actions
  process_actions_keeps fuel [] s h = h
  process_actions_keeps fuel (a ∷ as') s h =
      OnOk-bind (λ st. P st.1) P (process_dependencies l ignore fuel a ([], s)) _ (walks fuel a s h)
        (λ st h'. process_actions_keeps fuel as' st.1 h')

  process_products_keeps :
      (fuel : ℕ) (ks : List String) (s : Sorter)
      → P s
      → OnOk P (process_products l ignore fuel ks s)
  unfolding process_products
  process_products_keeps fuel [] s h = h
  process_products_keeps fuel (k ∷ ks) s h =
      OnOk-bind P P (process_actions l ignore fuel (get_list k s.unsorted_actions) s) _
        (process_actions_keeps fuel (get_list k s.unsorted_actions) s h)
        (λ s' h'. process_products_keeps fuel ks s' h')

  pub collect_actions_keeps :
      P empty_sorter
      → (fuel : ℕ) (pocs : List ProductOnClient) → OnOk P (collect_actions l ignore fuel pocs)
  unfolding collect_actions
  collect_actions_keeps h fuel pocs =
      OnOk-bind P P (add_product_on_clients l ignore pocs empty_sorter) _
        (add_product_on_clients_keeps pocs empty_sorter h)
        (λ s h'. process_products_keeps fuel (keys s.unsorted_actions) s h')
