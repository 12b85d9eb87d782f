-- ===== src/Actions/Plan/Components.antt =====
-- The dependency phase of `process_product_on_clients`: it ends, and groups what is linked.
use opsiconfd.Prelude.{
  ℕ, ◌≤◌, ◌<◌, String, ◌≡◌, ◌≢◌, ◌↔◌, refl, List, [], ◌∷◌, none, Bool, true, arith, any, count,
  any-count, length, subst, ap,
}
use opsiconfd.Prelude.Dict.{keys, lookup}
use opsiconfd.Prelude.Text.{contains}
use opsiconfd.Actions.Data.{ProductOnClient, Action, Product}
use opsiconfd.Actions.Error.{
  Error, product_not_available, product_not_available_on_depot, Result, returns, raises,
  out_of_fuel, ◌>>=◌,
}
use opsiconfd.Actions.Partition.Join.{IsDisjoint, together}
use opsiconfd.Actions.Walk.{Lookups, Sorter, empty_sorter, process_dependencies}
use opsiconfd.Actions.Walk.Rule.{OnOk}
use opsiconfd.Actions.Walk.Fuel.{FindsOwn, IsClosed, process_dependencies_ends}
use opsiconfd.Actions.Walk.Linked.{
  Linked, edge, back, chain, IsLinked, process_dependencies-IsLinked, mem-All,
  add_unsorted-IsLinked,
}
use opsiconfd.Actions.Plan.Collect.{collect_actions_keeps}
use opsiconfd.Actions.Plan.{
  with_own_product, add_product_on_client, add_product_on_clients, collect_actions, process_actions,
  process_products,
}

together_comm : (x y : String) (l : List (List String)) → together x y l ≡ together y x l
together_comm x y [] = refl
together_comm x y (g ∷ l) = ground (arith, together_comm x y l)

together-contains :
    (x y : String) (l : List (List String))
    → together x y l ≡ true
    → (any (contains x) l ≡ true) × (any (contains y) l ≡ true)
together-contains x y [] h = cc
together-contains x y (g ∷ l) h = ground (arith, together-contains x y l)

together_trans :
    (x y z : String) (l : List (List String))
    → count (contains y) l ≤ 1
    → together x y l ≡ true
    → together y z l ≡ true
    → together x z l ≡ true
together_trans x y z [] one p q = cc
together_trans x y z (g ∷ l) one p q = ground (
  arith,
  together_trans x y z l,
  together-contains x y l,
  together-contains y z l,
  any-count (contains y) l,
)

Linked-together :
    {s : Sorter} {x y : String} (h : IsLinked s)
    → Linked s.dependencies x y
    → together x y s.product_id_groups ≡ true
Linked-together {s} {x} {y} h (edge d m e) =
    subst (λ z. together x z s.product_id_groups ≡ true) e
      (mem-All (λ c. together x c.required_product_id s.product_id_groups ≡ true) m (h.sound x))
Linked-together {s} h (back l) = rw (together_comm _ _ s.product_id_groups) (Linked-together h l)
Linked-together {s} h (chain l m) =
    together_trans _ _ _ s.product_id_groups (h.disjoint _) (Linked-together h l)
      (Linked-together h m)

raises_eq : {A : Type 0} {e f : Error} → ◌≡◌ {A = Result A} (raises e) (raises f) → e ≡ f
raises_eq h = cc

module _ (l : Lookups) (ignore : Bool) (products : List String) (closed : IsClosed l products) where
  IsLinked-empty : IsLinked empty_sorter
  IsLinked-empty = record {
    disjoint = λ k. omega arith;
    sound = λ k. unfold lookup in tt;
    complete = λ x y h. cc;
  }

  collect_actions-IsLinked :
      (fuel : ℕ) (pocs : List ProductOnClient) → OnOk IsLinked (collect_actions l ignore fuel pocs)
  collect_actions-IsLinked fuel pocs =
      collect_actions_keeps l ignore IsLinked add_unsorted-IsLinked
        (λ f a s h. process_dependencies-IsLinked l ignore products closed f a [] s h)
        IsLinked-empty fuel pocs

  -- When all dependencies are collected, two products are in one group exactly when registered
  -- dependencies connect them, and no product is in two groups.
  pub collect_actions_components :
      (fuel : ℕ) (pocs : List ProductOnClient) (s : Sorter)
      → collect_actions l ignore fuel pocs ≡ returns s
      → IsDisjoint s.product_id_groups
        × ((x y : String) → (together x y s.product_id_groups ≡ true) ↔ Linked s.dependencies x y)
  collect_actions_components fuel pocs s e =
      let h : IsLinked s = subst (OnOk IsLinked) e (collect_actions-IsLinked fuel pocs) in
      (h.disjoint, λ x y. (h.complete x y, Linked-together h))

  -- No exhausted fuel.
  abbrev Returns : Result Sorter → Type 0
  Returns r = r ≢ raises out_of_fuel

  Returns-bind :
      {A : Type 0} (m : Result A) (f : A → Result Sorter)
      → m ≢ raises out_of_fuel
      → ((a : A) → Returns (f a))
      → Returns (m >>= f)
  Returns-bind (returns a) f h k = k a
  Returns-bind (raises e) f h k = λ q. h (ap (λ k. raises k) (raises_eq q))

  Returns-with_own_product :
      (poc : ProductOnClient) (r : Result Product) (s : Sorter)
      → FindsOwn poc.product_id r
      → Returns (with_own_product l ignore poc r s)
  unfolding with_own_product
  Returns-with_own_product poc (raises out_of_fuel) s own q = own
  Returns-with_own_product poc (raises product_not_available) s own q = ground arith
  Returns-with_own_product poc (raises product_not_available_on_depot) s own q = ground arith
  Returns-with_own_product poc (raises _) s own q = cc
  Returns-with_own_product poc (returns product) s own q = cc

  Returns-add_product_on_clients :
      (pocs : List ProductOnClient) (s : Sorter) → Returns (add_product_on_clients l ignore pocs s)
  unfolding add_product_on_clients add_product_on_client
  Returns-add_product_on_clients [] s = λ q. cc
  Returns-add_product_on_clients (poc ∷ pocs) s =
      Returns-bind _ _ (Returns-with_own_product poc _ s (closed.finds poc.product_id none none))
        (Returns-add_product_on_clients pocs)

  module _ (fuel : ℕ) (enough : length products < fuel) where
    Returns-process_actions :
        (actions : List Action) (s : Sorter) → Returns (process_actions l ignore fuel actions s)
    unfolding process_actions
    Returns-process_actions [] s = λ q. cc
    Returns-process_actions (a ∷ as') s =
        Returns-bind (process_dependencies l ignore fuel a ([], s)) _
          (process_dependencies_ends l ignore products closed fuel a s enough)
          (λ st. Returns-process_actions as' st.1)

    Returns-process_products :
        (ks : List String) (s : Sorter) → Returns (process_products l ignore fuel ks s)
    unfolding process_products
    Returns-process_products [] s = λ q. cc
    Returns-process_products (k ∷ ks) s =
        Returns-bind _ _ (Returns-process_actions _ s) (Returns-process_products ks)

    -- Collecting the actions of any products on a client ends: it returns, or raises an exception
    -- of the program, if the fuel exceeds the number of products that some dependency requires.
    pub collect_actions_ends :
        (pocs : List ProductOnClient) → collect_actions l ignore fuel pocs ≢ raises out_of_fuel
    unfolding collect_actions
    collect_actions_ends pocs =
        Returns-bind _ _ (Returns-add_product_on_clients pocs empty_sorter)
          (λ s. Returns-process_products (keys s.unsorted_actions) s)
